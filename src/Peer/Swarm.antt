-- ===== src/Peer/Swarm.antt =====
-- internal/peer/swarm.go: the swarm's table of peers, and what it does with a message. The store is
-- shared with the scheduler and the player, and is an argument.
use peerwatch.Base.{ℕ, ◌/◌, ◌&&◌, ◌||◌, Bool, true, false, Option, none, some, List, [], ◌∷◌}
use peerwatch.Base.Tests.{ltb, ◌==◌, if◌then◌else◌}
use peerwatch.Base.Lists.{length}
use peerwatch.Base.Int.{pos}
use peerwatch.Base.Results.{Result, ok, err, panic, ◌>>=◌}
use peerwatch.Base.Entries.{lookup, put, remove}
use peerwatch.Base.Floats.{Floats}
use peerwatch.Protocol.Message.{
  Bytes, SyncMsg, Message, handshake, manifest, bitfield, have, request, piece, cancel, sync,
  peer_list, keepalive,
}
use peerwatch.Chunk.Bitfield.{put_bit}
use peerwatch.Chunk.Manifest.{Manifest}
use peerwatch.Chunk.Store.Defs.{Store, StoreError, has_chunk}
use peerwatch.Chunk.Store.Reads.{read_chunk}
use peerwatch.Peer.Connection.{
  Peer, send, set_bitfield, mark_in_flight, clear_in_flight, in_flight_chunks,
}
use peerwatch.Peer.Tracker.{Tracker, update_from_bitfield, remove_peer}

pub record Swarm (F : Type 0) : Type 0 where
  pub self_id : ℕ
  pub is_host : Bool
  pub manifest : Option Manifest
  pub tracker : Option Tracker
  pub host_addr : Bytes
  pub done : Bool
  pub peers : List (ℕ × Peer F)

unfoldable pub update_tracker : ℕ → Bytes → Option Tracker → Option Tracker
update_tracker id bf none = none
update_tracker id bf (some t) = some (update_from_bitfield id bf t)

unfoldable pub forget_peer : ℕ → Option Tracker → Option Tracker
forget_peer id none = none
forget_peer id (some t) = some (remove_peer id t)

module _ {F : Type 0} where
  unfoldable pub get_peer : Swarm F → ℕ → Option (Peer F)
  get_peer s id = lookup id s.peers

  unfoldable pub add_peer : Peer F → Swarm F → Swarm F
  add_peer p s = record s { peers = put p.id p s.peers }

  -- The goroutine of addPeer, once the peer `p` is done: the swarm, and the chunks that it hands to
  -- OnPeerDisconnected.
  unfoldable pub disconnect : Peer F → Swarm F → Swarm F × List ℕ
  unfolding forget_peer
  disconnect p s = (
    record s { peers = remove p.id s.peers; tracker = forget_peer p.id s.tracker },
    in_flight_chunks p,
  )

  unfoldable pub addrs_of : List (ℕ × Peer F) → List Bytes
  addrs_of [] = []
  addrs_of ((id, p) ∷ rest) = p.addr ∷ addrs_of rest

  unfoldable pub peer_addrs : Swarm F → List Bytes
  unfolding addrs_of
  peer_addrs s = addrs_of s.peers

  unfoldable pub mark_all : ℕ → List ℕ → Peer F → Peer F
  mark_all now [] p = p
  mark_all now (index ∷ rest) p = mark_all now rest (mark_in_flight now index p)

  unfoldable pub request_chunks : ℕ → ℕ → List ℕ → Swarm F → Swarm F
  unfolding mark_all
  request_chunks now id indices s = elim (lookup id s.peers) [
    | none ↦ s
    | some p ↦ record s { peers = put id (send (request indices) (mark_all now indices p)) s.peers }
  ]

-- What a message makes the swarm do beyond its own state: call OnPieceReceived or OnSyncReceived, or
-- start to connect to an address.
pub data Effect : Type 0 where
  piece_received : ℕ → Bytes → Effect
  sync_received : SyncMsg → Effect
  connect : Bytes → Effect

-- A message with no effect of its own.
abbrev quiet : {E A : Type 0} → A → Result E (A × List Effect)
quiet a = ok (a, [])

abbrev pub same_bytes : Bytes → Bytes → Bool
same_bytes [] [] = true
same_bytes [] (b ∷ bs) = false
same_bytes (a ∷ rest) [] = false
same_bytes (a ∷ rest) (b ∷ bs) = (a == b) && same_bytes rest bs

-- hasAddr: strings are the same if their bytes are.
unfoldable pub knows : Bytes → List Bytes → Bool
knows addr [] = false
knows addr (a ∷ known) = same_bytes a addr || knows addr known

unfoldable pub connects : List Bytes → List Bytes → List Effect
unfolding knows
connects known [] = []
connects known (addr ∷ addrs) =
    let rest = connects known addrs in if knows addr known then rest else connect addr ∷ rest

unfoldable pub mark_have : ℕ → Option Bytes → Option Bytes
mark_have index none = none
mark_have index (some bf) = some (if ltb (index / 8) (length bf) then put_bit bf index else bf)

-- A nil bitfield has no bytes.
abbrev pub bytes_of : Option Bytes → Bytes
bytes_of none = []
bytes_of (some bf) = bf

module _ {F : Type 0} where
  -- The answer to one index of a REQUEST: a PIECE, or nothing where the chunk cannot be read.
  unfoldable pub answer : ℕ → Result StoreError Bytes → Peer F → Result StoreError (Peer F)
  answer index (ok payload) p =
      ok (send (piece (record { chunk_index = index; payload = payload })) p)
  answer index (err e) p = ok p
  answer index panic p = panic

  unfoldable pub answer_if :
      Store → ℕ → Result StoreError Bool → Peer F → Result StoreError (Peer F)
  unfolding answer
  answer_if store index (ok true) p = answer index (read_chunk store (pos index)) p
  answer_if store index (ok false) p = ok p
  answer_if store index (err e) p = err e
  answer_if store index panic p = panic

  unfoldable pub serve_request : Store → List ℕ → Peer F → Result StoreError (Peer F)
  unfolding answer_if
  serve_request store [] p = ok p
  serve_request store (index ∷ indices) p =
      answer_if store index (has_chunk store index) p >>= serve_request store indices

  unfoldable pub serve_from : Option Store → List ℕ → Peer F → Result StoreError (Peer F)
  unfolding serve_request
  serve_from none indices p = ok p
  serve_from (some store) indices p = serve_request store indices p

-- handleMessage at time `now`: the peer that the message came from and the tracker as it leaves them,
-- and the effects. `known` is the addresses in the table of peers.
module _ {F : Type 0} (floats : Floats F) (seconds : ℕ → F) (now : ℕ) where
  unfoldable pub handle_message :
      Option Store
      → List Bytes
      → Message
      → Peer F × Option Tracker
      → Result StoreError ((Peer F × Option Tracker) × List Effect)
  unfolding update_tracker serve_from mark_have connects
  handle_message store known (bitfield bf) (p, t) =
      quiet (set_bitfield bf p, update_tracker p.id bf t)
  handle_message store known (request indices) (p, t) =
      serve_from store indices p >>= λ p'. quiet (p', t)
  handle_message store known (piece m) (p, t) = ok (
    (clear_in_flight floats seconds now m.chunk_index (length m.payload) p, t),
    piece_received m.chunk_index m.payload ∷ [],
  )
  handle_message store known (have index) (p, t) =
      let bf = mark_have index p.bitfield in
      quiet (record p { bitfield = bf }, update_tracker p.id (bytes_of bf) t)
  handle_message store known (sync m) s = ok (s, sync_received m ∷ [])
  handle_message store known (peer_list addrs) s = ok (s, connects known addrs)
  handle_message store known keepalive s = quiet s
  handle_message store known (cancel index) s = quiet s
  handle_message store known (handshake m) s = quiet s
  handle_message store known (manifest m) s = quiet s
