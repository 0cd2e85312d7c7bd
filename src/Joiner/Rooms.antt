-- ===== src/Joiner/Rooms.antt =====
-- cmd/start.go and cmd/join.go: a room, from the host's start to the joiner's copy of the file.
use peerwatch.Base.{
  ℕ, ◌+◌, ◌^◌, ◌≤◌, ◌<◌, ◌≡◌, refl, ap, ◌∙◌, Bool, true, false, Option, none, some, List, [], ◌∷◌,
  ◌++◌, append-nil, arith,
}
use peerwatch.Base.Lists.{length, All}
use peerwatch.Base.Int.{ℤ, pos}
use peerwatch.Base.Floats.{Floats}
use peerwatch.Base.Results.{ok}
use peerwatch.Protocol.Message.{Bytes, Digest, PeerId, manifest, bitfield, peer_list, ManifestMsg}
use peerwatch.Protocol.Encode.{frame, encode_payload, encode_bitfield, encode_addrs}
use peerwatch.Protocol.Wire.{be_bytes}
use peerwatch.Chunk.Bitfield.{make_bitfield}
use peerwatch.Chunk.Chunker.Counting.{Fits}
use peerwatch.Chunk.Counts.{manifest_of}
use peerwatch.Chunk.Manifest.Build.{Delivers}
use peerwatch.Chunk.Store.Reads.{is_complete}
use peerwatch.Chunk.Store.Integrity.{chunk_total}
use peerwatch.Chunk.Store.Download.{is_complete-contents}
use peerwatch.Chunk.Store.Lifecycle.{empty_store-IsGenuine, new_peer_store_lem}
use peerwatch.Peer.Conversion.{manifest_to_proto}
use peerwatch.Peer.Swarm.{Swarm, Effect, add_peer, peer_addrs}
use peerwatch.Peer.Handshake.{
  Conn, HandshakeError, hello, announce, connect_to_host, handle_incoming,
}
use peerwatch.Peer.Duties.{empty_swarm, new_swarm, set_store}
use peerwatch.Peer.Joining.{Travels, conn_with, joined, connect_to_host-handle_incoming}
use peerwatch.Scheduler.Strategy.{ChunkCandidate}
use peerwatch.Scheduler.Order.{IsSort}
use peerwatch.Token.{Token, decode}
use peerwatch.Token.RoundTrip.{IsJson}
use peerwatch.Commands.Start.{
  has_byte, base, supported, supported_formats, decimal, get_local_ip, Room, start,
}
use peerwatch.Commands.Rooms.{sound_machine, room_token, start-decode}
use peerwatch.Joiner.{Joiner, Event, run}
use peerwatch.Joiner.Serving.{IsHonestTable, IsHonestPeer}
use peerwatch.Peer.Connection.{set_bitfield, new_peer}
use peerwatch.Joiner.Invariant.{IsAdmissible, IsSound, Keeps}
use peerwatch.Joiner.Steps.{run-Keeps}
use peerwatch.Joiner.Turns.{turns}
use peerwatch.Joiner.Downloads.{fresh, turns-joined}
use peerwatch.Joiner.Arrivals.{length-metas, metas-IsShort}
use peerwatch.Protocol.Decode.{max_message_size}
use peerwatch.Joiner.Join.{wire_up, join_room, join}

module _ {F : Type 0} (floats : Floats F) (split_host_port : Bytes → Bool)
    (unmarshal : Bytes → Option Token) where
  join_lem :
      (sha256 : Bytes → Digest) (orig : Bytes) (cs : ℕ) (name : Bytes) (c c' : Conn) (s : Swarm F)
      (id : PeerId) (addrs : List Bytes) (tok : Token) (token : Bytes) (more : List Bytes)
      → decode split_host_port unmarshal token ≡ ok tok
      → connect_to_host floats tok.host none (c, empty_swarm id none false)
        ≡ ((c', record s { is_host = false }), ok (manifest_of sha256 orig cs name, addrs))
      → join floats split_host_port unmarshal (λ addr. some c) (ok tt) id (token ∷ more)
        ≡ ok (c', fresh sha256 orig cs name (record s { is_host = false }))
  unfolding join join_room new_swarm wire_up set_store
  join_lem sha256 orig cs name c c' s id addrs tok token more decodes connects =
      rw (decodes, connects, new_peer_store_lem sha256 orig cs name) refl

module _ {F : Type 0} (floats : Floats F) (sha256 : Bytes → Digest) (orig : Bytes) (cs : ℕ)
    (name : Bytes) where
  fresh-IsSound :
      (host_at addr bf : Bytes) (host id : PeerId)
      → IsSound sha256 orig cs name (
          fresh sha256 orig cs name (
            joined floats host_at addr host
              (manifest_of sha256 orig cs name)
              bf
              none
              (empty_swarm id none false)))
  unfolding announce add_peer IsHonestTable IsHonestPeer set_bitfield new_peer
  fresh-IsSound host_at addr bf host id = record {
    genuine = empty_store-IsGenuine sha256 orig cs name;
    healthy = refl;
    few = omega arith;
    honest = record { tracked = (_, refl); honest = (tt, tt) };
  }

pub same_length-Travels :
    (bf bf' : Bytes) → length bf' ≡ length bf → Travels (bitfield bf) → Travels (bitfield bf')
unfolding encode_payload encode_bitfield
same_length-Travels bf bf' e (fits, short) = (tt, omega (arith, e, short))

pub no_peers-Travels : Travels (peer_list [])
unfolding encode_payload be_bytes encode_addrs
no_peers-Travels = ((omega arith, tt), omega arith)

module _ (to_lower : Bytes → Bytes) (sha256 : Bytes → Digest) (split_host_port : Bytes → Bool)
    (marshal : Token → Option Bytes) (unmarshal : Bytes → Option Token) {F : Type 0}
    (floats : Floats F) (seconds : ℕ → F) (sort : List ChunkCandidate → List ChunkCandidate) where
  -- A host starts with a readable video file and a joiner joins with the token: both calls succeed.
  -- Whatever then happens to the joiner, among the events that are admissible, never makes it panic,
  -- leaves at most 16 chunks in flight, and once its store says that it is complete, the file is the
  -- host's. If it takes turns with the host, their messages going through writeLoop and readLoop, as many
  -- turns as the file has chunks bring it the whole file. The file is not empty, a PIECE with a chunk is
  -- within MaxMessageSize, the number of chunks is below 2^32, sizes add without overflow; each hash
  -- arrives; the extension has no dot or slash in it and is in the list in lower case; the four random
  -- bytes are there, SplitHostPort accepts the address, JSON takes the token back; the joiner reads what
  -- the host's handleIncoming wrote; the messages are within their limits, and the sort is one.
  pub start-join :
      {L : Type 0} (orig : Bytes) (cs : ℕ) (order : List ℕ) (l : L) (random : Bytes)
      (outbound : Option Bytes) (host id : PeerId) (stem e : Bytes) (port : ℤ)
      (host_at joiner_at : Bytes) (msg : ManifestMsg)
      → Fits (length orig) cs
      → cs + 5 ≤ max_message_size
      → chunk_total orig cs < 2 ^ 32
      → All (λ i. i < chunk_total orig cs) order
      → ((i : ℕ) → i < chunk_total orig cs → Delivers i order)
      → has_byte b'.' e ≡ false
      → has_byte b'/' e ≡ false
      → supported supported_formats (to_lower (b'.' ∷ e)) ≡ true
      → length random ≡ 4
      → split_host_port (get_local_ip outbound ++ b':' ∷ decimal port) ≡ true
      → IsJson marshal unmarshal (room_token sha256 orig cs random outbound (stem ++ b'.' ∷ e) port)
      → manifest_to_proto {E = HandshakeError}
          (manifest_of sha256 orig cs (base (stem ++ b'.' ∷ e)))
        ≡ ok msg
      → Travels (hello id)
      → Travels (hello host)
      → Travels (manifest msg)
      → Travels (bitfield (make_bitfield (chunk_total orig cs)))
      → IsSort sort
      → (r : Room F L) × (talk : Conn) × (c : Conn) × (j : Joiner F) × (start to_lower sha256
            split_host_port marshal
            (sound_machine orig order l random outbound host)
            port
            (pos cs)
            ((stem ++ b'.' ∷ e) ∷ [])
          ≡ ok r)
        × ((handle_incoming floats
              (some r.store)
              (conn_with joiner_at (frame (hello id)), r.swarm)).0.0
            ≡ talk)
        × (join floats split_host_port unmarshal
              (λ addr. some (conn_with host_at talk.outgoing))
              (ok tt)
              id
              (r.invitation ∷ [])
            ≡ ok (c, j))
        × ((events : List (Event F))
            → All (IsAdmissible sha256 orig cs (base (stem ++ b'.' ∷ e))) events
            → (j' : Joiner F) × (out : List Effect) × (run sha256 floats seconds sort events j
                ≡ ok (j', out))
              × (length j'.sched.in_flight ≤ 16)
              × (is_complete j'.store ≡ true → j'.store.file.contents ≡ orig))
        × ((now : ℕ)
            → (j' : Joiner F) × (turns floats seconds sort sha256
                  (chunk_total orig cs)
                  now
                  host
                  r.store
                  j
                ≡ ok j')
              × (is_complete j'.store ≡ true)
              × (j'.store.file.contents ≡ orig))
  unfolding peer_addrs add_peer Keeps
  start-join orig cs order l random outbound host id stem e port host_at joiner_at msg fits short
        small inside all dot slash known four good json sent t₀ t₁ t₂ t₃ sorts =
      let name = base (stem ++ b'.' ∷ e) in
      let m = manifest_of sha256 orig cs name in
      let short32 : cs < 2 ^ 32 = omega (arith, short) in
      let tok = room_token sha256 orig cs random outbound (stem ++ b'.' ∷ e) port in
      let (r, starts, genuine, complete, well, is_swarm, decodes, eight, long) =
        start-decode to_lower sha256 split_host_port marshal unmarshal orig cs order l random
          outbound host stem e port [] fits inside all dot slash known four good json in
      let (talk, t, greets, connects, tracked, agree) =
        connect_to_host-handle_incoming floats host_at joiner_at tok.host []
          (empty_swarm host (some m) true) (empty_swarm id none false) m msg r.store none sent
          (length-metas sha256 orig cs (chunk_total orig cs) 0) small
          (metas-IsShort sha256 orig cs (chunk_total orig cs) 0 short32) t₀ t₁ t₂
          (same_length-Travels (make_bitfield (chunk_total orig cs)) r.store.bitfield long t₃)
          no_peers-Travels in
      let w =
        joined floats host_at tok.host host m r.store.bitfield none (empty_swarm id none false) in
      let j = fresh sha256 orig cs name w in
      (
        r,
        talk,
        record (conn_with host_at []) { outgoing = frame (hello id) },
        j,
        starts,
        ap
              (λ s.
                (handle_incoming floats (some r.store)
                  (conn_with joiner_at (frame (hello id)), s)).0.0)
              is_swarm
            ∙ ap (λ o. o.0.0) greets,
        join_lem floats split_host_port unmarshal sha256 orig cs name
            (conn_with host_at talk.outgoing) _ w id [] tok r.invitation [] decodes
            (rw (append-nil talk.outgoing) at connects),
        λ events admissible.
            let (j', out, runs, sound) =
              run-Keeps sha256 orig cs name fits (omega arith) floats seconds sort sorts events j
                (fresh-IsSound floats sha256 orig cs name host_at _ r.store.bitfield host id)
                admissible in
            (
              j',
              out,
              runs,
              sound.few,
              is_complete-contents sha256 orig cs name fits j'.store sound.genuine,
            ),
        λ now.
            turns-joined sha256 orig cs name floats seconds sort r.store now host_at tok.host host
              id fits (omega arith) short sorts genuine well complete,
      )
