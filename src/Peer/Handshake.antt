-- ===== src/Peer/Handshake.antt =====
-- internal/peer/swarm.go: Connect, ConnectToHost and handleIncoming. A connection is what arrives on it
-- until its end, what was written to it, and how its next writes end; behind the list, each succeeds.
-- A call gives the connection and the swarm as it leaves them, and its result.
use peerwatch.Base.{ℕ, Bool, true, Option, none, some, List, [], ◌∷◌, ◌++◌}
use peerwatch.Base.Tests.{if◌then◌else◌}
use peerwatch.Base.Lists.{take}
use peerwatch.Base.Results.{Result, ok, err, panic}
use peerwatch.Base.Floats.{Floats}
use peerwatch.Protocol.Message.{
  Bytes, PeerId, Message, handshake, manifest, bitfield, peer_list, ManifestMsg,
}
use peerwatch.Protocol.Encode.{frame}
use peerwatch.Protocol.Decode.{DecodeError, read_message}
use peerwatch.Chunk.Manifest.{Manifest}
use peerwatch.Chunk.Store.Defs.{Store}
use peerwatch.Peer.Tracker.{new_tracker}
use peerwatch.Peer.Connection.{Peer, new_peer, send, set_bitfield}
use peerwatch.Peer.Conversion.{manifest_to_proto, proto_to_manifest}
use peerwatch.Peer.Swarm.{Swarm, add_peer, update_tracker, peer_addrs}

-- `some k`: a write that fails once `k` bytes are out.
pub record Conn : Type 0 where
  pub remote : Bytes
  pub incoming : Bytes
  pub outgoing : Bytes
  pub writes : List (Option ℕ)
  pub closed : Bool

pub data HandshakeError : Type 0 where
  send_handshake send_manifest send_bitfield send_peer_list : HandshakeError
  read_handshake read_manifest read_bitfield read_peer_list : DecodeError → HandshakeError
  expected_handshake expected_manifest expected_peer_list : Message → HandshakeError

abbrev pub Step : Type 0 → Type 0 → Type 0
Step F A = Conn × Swarm F → (Conn × Swarm F) × Result HandshakeError A

abbrev pub hello : PeerId → Message
hello id = handshake (record { peer_id = id; version = 1 })

module _ {F : Type 0} where
  unfoldable pub pure : {A : Type 0} → A → Step F A
  pure a s = (s, ok a)

  abbrev pub and_then :
      {A B : Type 0}
      → (A → Step F B)
      → (Conn × Swarm F) × Result HandshakeError A
      → (Conn × Swarm F) × Result HandshakeError B
  and_then f (s, ok a) = f a s
  and_then f (s, err e) = (s, err e)
  and_then f (s, panic) = (s, panic)

  infixl 5 ◌>>=◌ ◌>>◌
  unfoldable pub ◌>>=◌ : {A B : Type 0} → Step F A → (A → Step F B) → Step F B
  ◌>>=◌ m f s = and_then f (m s)

  abbrev pub ◌>>◌ : {A B : Type 0} → Step F A → Step F B → Step F B
  m >> n = m >>= λ _. n

  -- conn.Close(), and the error.
  unfoldable pub abort : {A : Type 0} → HandshakeError → Step F A
  abort e (c, s) = ((record c { closed = true }, s), err e)

  unfoldable pub lift : {A : Type 0} → Result HandshakeError A → Step F A
  lift r s = (s, r)

  unfoldable pub write_msg : HandshakeError → Message → Step F (Unit {0})
  unfolding abort
  write_msg e m (c, s) = elim c.writes [
    | [] ↦ ((record c { outgoing = c.outgoing ++ frame m }, s), ok tt)
    | none ∷ more ↦ ((record c { outgoing = c.outgoing ++ frame m; writes = more }, s), ok tt)
    | some k ∷ more ↦
        abort e (record c { outgoing = c.outgoing ++ take k (frame m); writes = more }, s)
  ]

  unfoldable pub read_msg : (DecodeError → HandshakeError) → Step F Message
  unfolding abort
  read_msg e (c, s) = elim (read_message c.incoming) [
    | ok (m, rest) ↦ ((record c { incoming = rest }, s), ok m)
    | err f ↦ abort (e f) (c, s)
    | panic ↦ ((c, s), panic)
  ]

  unfoldable pub modify : (Swarm F → Swarm F) → Step F (Unit {0})
  modify f (c, s) = ((c, f s), ok tt)

  -- The type assertions on what was read.
  unfoldable pub expect_handshake : Message → Step F PeerId
  unfolding abort
  expect_handshake (handshake hs) = pure hs.peer_id
  expect_handshake m = abort (expected_handshake m)

  unfoldable pub expect_manifest : Message → Step F ManifestMsg
  unfolding abort
  expect_manifest (manifest msg) = pure msg
  expect_manifest m = abort (expected_manifest m)

  unfoldable pub expect_peer_list : Message → Step F (List Bytes)
  unfolding abort
  expect_peer_list (peer_list addrs) = pure addrs
  expect_peer_list m = abort (expected_peer_list m)

  -- Both dialling calls begin so.
  unfoldable pub greet : Step F PeerId
  unfolding write_msg read_msg expect_handshake
  greet s =
      (do
        write_msg send_handshake (hello s.1.self_id)
        msg ← read_msg read_handshake
        expect_handshake msg)
        s

  -- A store's bitfield goes into the queue of a peer that has started.
  unfoldable pub announce : Option Store → Peer F → Peer F
  announce none p = p
  announce (some store) p = send (bitfield store.bitfield) p

  -- What a host sends behind its handshake. A host has a manifest and a store.
  unfoldable pub host_greeting : Option Manifest → Option Store → Step F (Unit {0})
  unfolding lift write_msg
  host_greeting (some m) (some store) s =
      (do
        msg ← lift (manifest_to_proto m)
        write_msg send_manifest (manifest msg)
        write_msg send_bitfield (bitfield store.bitfield)
        write_msg send_peer_list (peer_list (peer_addrs s.1)))
        s
  host_greeting m none s = (s, panic)
  host_greeting none (some store) s = (s, panic)

  unfoldable pub peer_greeting : Option Store → Step F (Unit {0})
  unfolding write_msg
  peer_greeting none = pure tt
  peer_greeting (some store) = write_msg send_bitfield (bitfield store.bitfield)

  unfoldable pub greeting : Option Store → Step F (Unit {0})
  unfolding host_greeting peer_greeting
  greeting store s =
      if s.1.is_host then host_greeting s.1.manifest store s else peer_greeting store s

module _ {F : Type 0} (floats : Floats F) where
  abbrev pub peer_on : Conn → PeerId → Peer F
  peer_on c id = record (new_peer floats c.remote) { id = id }

  -- Connect, once the connection is there.
  unfoldable pub connect : Option Store → Step F (Peer F)
  unfolding greet announce modify
  connect store s =
      (do id ← greet; let p = announce store (peer_on s.0 id); modify (add_peer p); pure p) s

  -- The BITFIELD that ConnectToHost reads; another message in its place is passed over.
  unfoldable pub take_bitfield : Message → Peer F → Step F (Peer F)
  unfolding modify
  take_bitfield (bitfield bf) p =
      modify (λ s. record s { tracker = update_tracker p.id bf s.tracker }) >>= λ _.
      pure (set_bitfield bf p)
  take_bitfield m p = pure p

  -- ConnectToHost behind its guard.
  unfoldable pub join_host : Bytes → Option Store → Step F (Manifest × List Bytes)
  unfolding greet announce modify lift take_bitfield read_msg expect_manifest expect_peer_list
  join_host addr store s =
      (do
        modify (λ w. record w { host_addr = addr })
        id ← greet
        msg ← read_msg read_manifest
        found ← expect_manifest msg
        m ← lift (proto_to_manifest found)
        modify (λ w. record w { manifest = some m; tracker = some (new_tracker m.chunk_count) })
        next ← read_msg read_bitfield
        p ← take_bitfield next (peer_on s.0 id)
        last ← read_msg read_peer_list
        addrs ← expect_peer_list last
        modify (add_peer (announce store p))
        pure (m, addrs))
        s

  -- ConnectToHost of a joiner, once the connection is there: the manifest, and the addresses that it
  -- starts to connect to.
  unfoldable pub connect_to_host : Bytes → Option Store → Step F (Manifest × List Bytes)
  unfolding join_host
  connect_to_host addr store s = if s.1.is_host then (s, panic) else join_host addr store s

  unfoldable pub handle_incoming : Option Store → Step F (Peer F)
  unfolding write_msg read_msg expect_handshake greeting modify
  handle_incoming store s =
      (do
        msg ← read_msg read_handshake
        id ← expect_handshake msg
        write_msg send_handshake (hello s.1.self_id)
        greeting store
        let p = peer_on s.0 id
        modify (add_peer p)
        pure p)
        s
