-- ===== src/Peer/Joining.antt =====
-- internal/peer/swarm.go: a joiner's ConnectToHost meets a host's handleIncoming.
use peerwatch.Base.{
  ℕ, ◌^◌, ◌≤◌, ◌<◌, ◌≡◌, refl, sym, ap, ◌∙◌, true, false, Option, some, List, [], ◌∷◌, ◌++◌, ◌/◌,
  append-nil, append_assoc, arith,
}
use peerwatch.Base.Tests.{==_refl}
use peerwatch.Base.Lists.{length, All}
use peerwatch.Base.Results.{Result, ok}
use peerwatch.Base.Results
use peerwatch.Base.Floats.{Floats}
use peerwatch.Protocol.Message.{Bytes, PeerId, Message, manifest, bitfield, peer_list, ManifestMsg}
use peerwatch.Protocol.Encode.{frame}
use peerwatch.Protocol.Decode.{DecodeError, read_message, max_message_size}
use peerwatch.Protocol.RoundTrip.{IsMessage}
use peerwatch.Protocol.Framing.{wire_length, read-frame}
use peerwatch.Chunk.Manifest.{Manifest}
use peerwatch.Chunk.Store.Defs.{Store}
use peerwatch.Peer.Tracker.{Tracker, new_tracker, update_from_bitfield}
use peerwatch.Chunk.Bitfield.{bit_at}
use peerwatch.Peer.Availability.{has_peer, heard, track, report, last_heard, has_peer-track}
use peerwatch.Peer.Connection.{set_bitfield}
use peerwatch.Peer.Conversion.{
  manifest_to_proto, proto_to_manifest, IsShort, proto_to_manifest-manifest_to_proto,
}
use peerwatch.Peer.Swarm.{Swarm, add_peer, peer_addrs, update_tracker}
use peerwatch.Peer.Handshake.{
  Conn, HandshakeError, read_handshake, read_manifest, read_bitfield, read_peer_list, ◌>>=◌, hello,
  pure, write_msg, read_msg, modify, lift, greet, greeting, expect_handshake, expect_manifest,
  expect_peer_list, announce, peer_on, take_bitfield, join_host, connect_to_host, host_greeting,
  handle_incoming,
}

-- A message that its receiver reads whole.
abbrev pub Travels : Message → Type 0
Travels m = IsMessage m × (wire_length m ≤ max_message_size)

-- What a host writes to a joiner: its handshake, the manifest, its bitfield and the addresses it knows.
unfoldable pub welcome : PeerId → ManifestMsg → Bytes → List Bytes → Bytes
welcome id msg bf addrs =
    ((frame (hello id) ++ frame (manifest msg)) ++ frame (bitfield bf)) ++ frame (peer_list addrs)

welcome-append :
    (id : PeerId) (msg : ManifestMsg) (bf : Bytes) (addrs : List Bytes) (rest : Bytes)
    → welcome id msg bf addrs ++ rest
      ≡ frame (hello id)
        ++ (frame (manifest msg) ++ (frame (bitfield bf) ++ (frame (peer_list addrs) ++ rest)))
unfolding welcome
welcome-append id msg bf addrs rest = simp append_assoc

-- A connection on which nothing has been written, and every write succeeds.
abbrev pub conn_with : Bytes → Bytes → Conn
conn_with remote incoming = record {
  remote = remote;
  incoming = incoming;
  outgoing = [];
  writes = [];
  closed = false;
}

module _ {F : Type 0} where
  pub read_msg-frame :
      (e : DecodeError → HandshakeError) (m : Message) (rest : Bytes) (c : Conn) (s : Swarm F)
      → Travels m
      → c.incoming ≡ frame m ++ rest
      → read_msg e (c, s) ≡ ((record c { incoming = rest }, s), ok m)
  unfolding read_msg
  read_msg-frame e m rest c s (fits, short) is =
      let reads : read_message c.incoming ≡ ok (m, rest) =
        ap read_message is ∙ read-frame m rest fits short in
      rw (reads, read_msg) refl

-- A tracker that has heard one bitfield.
heard_once :
    (count host : ℕ) (bf : Bytes) (i : ℕ)
    → i < count
    → i / 8 < length bf
    → has_peer (update_from_bitfield host bf (new_tracker count)) i host ≡ bit_at bf i
unfolding track report last_heard
heard_once count host bf i inside covered =
    has_peer-track count (heard host bf ∷ []) i host inside ∙ ground (arith, ==_refl host)

module _ {F : Type 0} (floats : Floats F) where
  handle_incoming-host :
      (remote rest : Bytes) (joiner : PeerId) (s : Swarm F) (m : Manifest) (msg : ManifestMsg)
      (store : Store)
      → manifest_to_proto {E = HandshakeError} m ≡ ok msg
      → Travels (hello joiner)
      → handle_incoming floats (some store) (
        conn_with remote (frame (hello joiner) ++ rest),
        record s { is_host = true; manifest = some m },
      )
        ≡ (
          (
            record (conn_with remote rest) {
              outgoing = welcome s.self_id msg store.bitfield (peer_addrs s);
            },
            add_peer
                (peer_on floats (conn_with remote rest) joiner)
                (record s { is_host = true; manifest = some m }),
          ),
          ok (peer_on floats (conn_with remote rest) joiner),
        )
  unfolding handle_incoming ◌>>=◌ pure welcome greeting host_greeting write_msg lift modify
      expect_handshake peer_addrs
  handle_incoming-host remote rest joiner s m msg store sent travels =
      rw
        (
          read_msg-frame read_handshake (hello joiner) rest
              (conn_with remote (frame (hello joiner) ++ rest))
              (record s { is_host = true; manifest = some m }) travels refl,
          sent,
        )
        refl

  -- The joiner behind the manifest: it knows the host's chunks.
  abbrev pub joined : Bytes → Bytes → PeerId → Manifest → Bytes → Option Store → Swarm F → Swarm F
  joined remote addr host m bf store s =
      add_peer (announce store (set_bitfield bf (peer_on floats (conn_with remote []) host)))
        (record s {
          is_host = false;
          host_addr = addr;
          manifest = some m;
          tracker = some (update_from_bitfield host bf (new_tracker m.chunk_count));
        })

  connect_to_host-welcome :
      (remote addr rest : Bytes) (host : PeerId) (s : Swarm F) (m : Manifest) (msg : ManifestMsg)
      (bf : Bytes) (addrs : List Bytes) (store : Option Store)
      → proto_to_manifest {E = HandshakeError} msg ≡ ok m
      → Travels (hello host)
      → Travels (manifest msg)
      → Travels (bitfield bf)
      → Travels (peer_list addrs)
      → connect_to_host floats addr store
          (conn_with remote (welcome host msg bf addrs ++ rest), record s { is_host = false })
        ≡ (
          (
            record (conn_with remote rest) { outgoing = frame (hello s.self_id) },
            joined remote addr host m bf store s,
          ),
          ok (m, addrs),
        )
  unfolding connect_to_host join_host ◌>>=◌ pure greet welcome write_msg lift modify
      expect_handshake expect_manifest expect_peer_list take_bitfield update_tracker
  connect_to_host-welcome remote addr rest host s m msg bf addrs store received t₁ t₂ t₃ t₄ =
      let r₃ = frame (peer_list addrs) ++ rest in
      let r₂ = frame (bitfield bf) ++ r₃ in
      let r₁ = frame (manifest msg) ++ r₂ in
      let at_rest : Bytes → Conn =
        λ r. record (conn_with remote r) { outgoing = frame (hello s.self_id) } in
      let s₁ = record s { is_host = false; host_addr = addr } in
      let s₂ = record s₁ { manifest = some m; tracker = some (new_tracker m.chunk_count) } in
      let s₃ = record s₂ {
        tracker = some (update_from_bitfield host bf (new_tracker m.chunk_count));
      } in
      rw
        (
          read_msg-frame read_handshake (hello host) r₁
              (at_rest (welcome host msg bf addrs ++ rest)) s₁ t₁
              (welcome-append host msg bf addrs rest),
          read_msg-frame read_manifest (manifest msg) r₂ (at_rest r₁) s₁ t₂ refl,
          received,
          read_msg-frame read_bitfield (bitfield bf) r₃ (at_rest r₂) s₂ t₃ refl,
          read_msg-frame read_peer_list (peer_list addrs) rest (at_rest r₃) s₃ t₄ refl,
        )
        refl

  -- A joiner calls ConnectToHost on a host that runs handleIncoming, each given what the other writes:
  -- both succeed. The joiner ends with the host's manifest and with the addresses of the host's peers,
  -- it has the host in its table, and its tracker says of each chunk that the host's bitfield covers
  -- what its bit says. The manifest lists as many chunks as it counts, each below 2^32 bytes, and each
  -- message is within its limits.
  pub connect_to_host-handle_incoming :
      (host_at joiner_at addr rest : Bytes) (host joiner : Swarm F) (m : Manifest)
      (msg : ManifestMsg) (store : Store) (own : Option Store)
      → manifest_to_proto {E = HandshakeError} m ≡ ok msg
      → length m.chunks ≡ m.chunk_count
      → m.chunk_count < 2 ^ 32
      → All IsShort m.chunks
      → Travels (hello joiner.self_id)
      → Travels (hello host.self_id)
      → Travels (manifest msg)
      → Travels (bitfield store.bitfield)
      → Travels (peer_list (peer_addrs host))
      → (talk : Conn) × (t : Tracker) × (handle_incoming floats (some store) (
        conn_with joiner_at (frame (hello joiner.self_id)),
        record host { is_host = true; manifest = some m },
      )
          ≡ (
            (
              talk,
              add_peer
                  (peer_on floats (conn_with joiner_at []) joiner.self_id)
                  (record host { is_host = true; manifest = some m }),
            ),
            ok (peer_on floats (conn_with joiner_at []) joiner.self_id),
          ))
        × (connect_to_host floats addr own
              (conn_with host_at (talk.outgoing ++ rest), record joiner { is_host = false })
            ≡ (
              (
                record (conn_with host_at rest) { outgoing = frame (hello joiner.self_id) },
                joined host_at addr host.self_id m store.bitfield own joiner,
              ),
              ok (m, peer_addrs host),
            ))
        × ((joined host_at addr host.self_id m store.bitfield own joiner).tracker ≡ some t)
        × ((i : ℕ)
            → i < m.chunk_count
            → i / 8 < length store.bitfield
            → has_peer t i host.self_id ≡ bit_at store.bitfield i)
  unfolding add_peer
  connect_to_host-handle_incoming host_at joiner_at addr rest host joiner m msg store own sent
        counts fits short t₀ t₁ t₂ t₃ t₄ =
      let received : proto_to_manifest {E = HandshakeError} msg ≡ ok m =
        ap (λ r. Results.◌>>=◌ r proto_to_manifest) (sym sent)
        ∙ proto_to_manifest-manifest_to_proto m counts fits short in
      let nothing : frame (hello joiner.self_id) ++ [] ≡ frame (hello joiner.self_id) =
        append-nil _ in
      (
        record (conn_with joiner_at []) {
          outgoing = welcome host.self_id msg store.bitfield (peer_addrs host);
        },
        update_from_bitfield host.self_id store.bitfield (new_tracker m.chunk_count),
        rw nothing at (handle_incoming-host joiner_at [] joiner.self_id host m msg store sent t₀),
        connect_to_host-welcome host_at addr rest host.self_id joiner m msg store.bitfield
            (peer_addrs host) own received t₁ t₂ t₃ t₄,
        refl,
        λ i inside covered. heard_once m.chunk_count host.self_id store.bitfield i inside covered,
      )
