-- ===== src/Joiner/Arrivals.antt =====
-- cmd/join.go: a joiner that joins a host, and then downloads the whole file.
use peerwatch.Chunk.Store.Defs.{Store}
use peerwatch.Chunk.Store.Integrity.{IsGenuine}
use peerwatch.Base.{
  ℕ, zero, suc, ◌+◌, ◌^◌, ◌≤◌, ◌<◌, ◌≡◌, refl, ap, ◌∙◌, true, false, none, some, List, [], ◌∷◌,
  append-nil, arith,
}
use peerwatch.Base.Lists.{length, All}
use peerwatch.Base.Floats.{Floats}
use peerwatch.Base.Results.{ok}
use peerwatch.Protocol.Message.{Bytes, Digest, PeerId, manifest, bitfield, peer_list, ManifestMsg}
use peerwatch.Protocol.Encode.{frame}
use peerwatch.Chunk.Chunker.Counting.{Fits}
use peerwatch.Chunk.Counts.{manifest_of, metas_from}
use peerwatch.Chunk.Regions.{length-region}
use peerwatch.Chunk.Store.Reads.{is_complete}
use peerwatch.Chunk.Store.Integrity.{chunk_total}
use peerwatch.Chunk.Store.Lifecycle.{new_peer_store_lem}
use peerwatch.Peer.Conversion.{manifest_to_proto, IsShort}
use peerwatch.Peer.Swarm.{Swarm, add_peer, peer_addrs, update_tracker}
use peerwatch.Peer.Connection.{set_bitfield}
use peerwatch.Chunk.Manifest.{Manifest}
use peerwatch.Joiner.{step}
use peerwatch.Peer.Handshake.{
  Conn, announce, peer_on, HandshakeError, hello, connect_to_host, handle_incoming,
}
use peerwatch.Peer.Duties.{empty_swarm, set_store}
use peerwatch.Peer.Joining.{Travels, conn_with, joined, connect_to_host-handle_incoming}
use peerwatch.Scheduler.Strategy.{ChunkCandidate}
use peerwatch.Scheduler.Order.{IsSort}
use peerwatch.Joiner.{Joiner, told, heard, added, run}
use peerwatch.Joiner.Turns.{turns}
use peerwatch.Joiner.Downloads.{fresh, turns-joined}
use peerwatch.Protocol.Decode.{max_message_size}
use peerwatch.Joiner.Join.{wire_up}

module _ (sha256 : Bytes → Digest) (orig : Bytes) (cs : ℕ) where
  pub length-metas : (n i : ℕ) → length (metas_from sha256 orig cs n i) ≡ n
  length-metas zero i = refl
  length-metas (suc n) i = ap suc (length-metas n (i + 1))

  pub metas-IsShort : (n i : ℕ) → cs < 2 ^ 32 → All IsShort (metas_from sha256 orig cs n i)
  metas-IsShort zero i h = tt
  metas-IsShort (suc n) i h =
      ((_, refl, omega (arith, length-region orig cs i)), metas-IsShort n (i + 1) h)

module _ (sha256 : Bytes → Digest) (orig : Bytes) (cs : ℕ) (name : Bytes) {F : Type 0}
    (floats : Floats F) where
  -- What Join makes of a ConnectToHost that has succeeded.
  wire_up-joined :
      (c : Conn) (host_at addr bf : Bytes) (host id : PeerId) (addrs : List Bytes)
      → wire_up (ok tt) (
        (
          c,
          joined floats host_at addr host
              (manifest_of sha256 orig cs name)
              bf
              none
              (empty_swarm id none false),
        ),
        ok (manifest_of sha256 orig cs name, addrs),
      )
        ≡ ok (
          c,
          fresh sha256 orig cs name (
              joined floats host_at addr host
                (manifest_of sha256 orig cs name)
                bf
                none
                (empty_swarm id none false)),
        )
  unfolding wire_up set_store add_peer
  wire_up-joined c host_at addr bf host id addrs = rw (new_peer_store_lem sha256 orig cs name) refl

-- A ConnectToHost of a joiner that runs is three events.
run-joined :
    (sha256 : Bytes → Digest) {F : Type 0} (floats : Floats F) (seconds : ℕ → F)
    (sort : List ChunkCandidate → List ChunkCandidate) (host_at addr bf : Bytes) (host : PeerId)
    (m : Manifest) (j : Joiner F)
    → j.swarm.is_host ≡ false
    → run sha256 floats seconds sort
        (told addr m
          ∷ heard host bf
          ∷ added (
              announce
                (some j.store)
                (set_bitfield bf (peer_on floats (conn_with host_at []) host)))
          ∷ [])
        j
      ≡ ok (record j { swarm = joined floats host_at addr host m bf (some j.store) j.swarm }, [])
unfolding run step add_peer update_tracker
run-joined sha256 floats seconds sort host_at addr bf host m j joiner = rw joiner refl

-- A joiner calls ConnectToHost on a host that runs handleIncoming, each given what the other writes, and wires
-- up its store: both succeed. Then it takes turns with the host: each turn is a tick of its scheduler, the
-- host's answer to the REQUEST that it sends, and the arrival of the answers, which the disk takes; all
-- messages go through writeLoop and readLoop. As many turns as the file has chunks bring the download to
-- its end, with the host's file. The host's store keeps the invariant, can be read and is complete; a PIECE
-- with a chunk and the messages of the handshake are within MaxMessageSize and their other limits, the
-- number of chunks is below 2^32, sizes add without overflow, and the sort does what sort.Slice promises.
pub turns-wire_up :
    (sha256 : Bytes → Digest) (orig : Bytes) (cs : ℕ) (name : Bytes) {F : Type 0}
    (floats : Floats F) (seconds : ℕ → F) (sort : List ChunkCandidate → List ChunkCandidate)
    (full : Store) (now : ℕ) (host_at joiner_at addr : Bytes) (host : Swarm F) (id : PeerId)
    (msg : ManifestMsg)
    → Fits (length orig) cs
    → chunk_total orig cs < 2 ^ 32
    → cs + 5 ≤ max_message_size
    → IsSort sort
    → IsGenuine sha256 orig cs name full
    → full.file.fault ≡ none
    → is_complete full ≡ true
    → manifest_to_proto {E = HandshakeError} (manifest_of sha256 orig cs name) ≡ ok msg
    → Travels (hello id)
    → Travels (hello host.self_id)
    → Travels (manifest msg)
    → Travels (bitfield full.bitfield)
    → Travels (peer_list (peer_addrs host))
    → (talk : Conn) × (c : Conn) × (j₀ : Joiner F) × (j : Joiner F) × ((handle_incoming floats
          (some full)
          (
            conn_with joiner_at (frame (hello id)),
            record host { is_host = true; manifest = some (manifest_of sha256 orig cs name) },
          )).0.0
        ≡ talk)
      × (wire_up (ok tt) (
            connect_to_host floats addr none
              (conn_with host_at talk.outgoing, empty_swarm id none false))
          ≡ ok (c, j₀))
      × (turns floats seconds sort sha256 (chunk_total orig cs) now host.self_id full j₀ ≡ ok j)
      × (is_complete j.store ≡ true)
      × (j.store.file.contents ≡ orig)
turns-wire_up sha256 orig cs name floats seconds sort full now host_at joiner_at addr host id msg
      fits small short sorts v readable complete sent t₀ t₁ t₂ t₃ t₄ =
    let m = manifest_of sha256 orig cs name in
    let (talk, t, greets, connects, tracked, agree) =
      connect_to_host-handle_incoming floats host_at joiner_at addr [] host
        (empty_swarm id none false) m msg full none sent
        (length-metas sha256 orig cs (chunk_total orig cs) 0) small
        (metas-IsShort sha256 orig cs (chunk_total orig cs) 0 (omega arith)) t₀ t₁ t₂ t₃ t₄ in
    let (j, runs, done, same) =
      turns-joined sha256 orig cs name floats seconds sort full now host_at addr host.self_id id
        fits (omega arith) short sorts v readable complete in
    (
      talk,
      record (conn_with host_at []) { outgoing = frame (hello id) },
      fresh sha256 orig cs name (
          joined floats host_at addr host.self_id m full.bitfield none (empty_swarm id none false)),
      j,
      ap (λ o. o.0.0) greets,
      ap (wire_up (ok tt)) (rw (append-nil talk.outgoing) at connects)
          ∙ wire_up-joined sha256 orig cs name floats _ host_at addr full.bitfield host.self_id id
              (peer_addrs host),
      runs,
      done,
      same,
    )
