-- ===== src/Scheduler/Tick.antt =====
-- internal/scheduler/scheduler.go: the scheduler's state and its operations. The sets of chunks are
-- lists of their keys. Store and swarm are shared with the other parts; a tick runs in one piece.
use peerwatch.Base.{
  ℕ, zero, suc, ◌-◌, ◌%◌, ◌^◌, Bool, true, false, Option, none, some, List, [], ◌∷◌, ◌++◌,
}
use peerwatch.Base.Tests.{leb, ◌==◌, if◌then◌else◌}
use peerwatch.Base.Lists.{length}
use peerwatch.Base.Int.{ℤ, pos}
use peerwatch.Base.Keys.{insert_key, delete_key}
use peerwatch.Base.Floats.{Floats}
use peerwatch.Base.Results.{Result, ok, ◌>>=◌}
use peerwatch.Chunk.Store.Defs.{Store, StoreError, has_chunk}
use peerwatch.Chunk.Store.Reads.{missing_chunks, is_complete}
use peerwatch.Peer.Connection.{Peer, timeout_in_flight}
use peerwatch.Peer.Tracker.{Tracker}
use peerwatch.Peer.Swarm.{Swarm, request_chunks}
use peerwatch.Scheduler.Strategy.{ChunkCandidate, prioritize_chunks, select_peer}

abbrev pub max_total_in_flight : ℕ
max_total_in_flight = 16

-- requestTimeout: three seconds in nanoseconds.
abbrev pub request_timeout : ℕ
request_timeout = 3000000000

pub record Scheduler : Type 0 where
  pub cursor : ℤ
  pub in_flight : List ℕ
  pub urgent : List ℕ
  pub done : Bool

abbrev pub new : Scheduler
new = record { cursor = pos 0; in_flight = []; urgent = []; done = false }

unfoldable pub set_cursor : ℤ → Scheduler → Scheduler
set_cursor index s = record s { cursor = index }

unfoldable pub demand : Store → ℕ → Scheduler → Result StoreError Scheduler
demand store index s = has_chunk store index >>= λ there.
    ok (if there then s else record s { urgent = insert_key index s.urgent })

unfoldable pub on_piece_received : ℕ → Scheduler → Scheduler
on_piece_received index s = record s {
  in_flight = delete_key index s.in_flight;
  urgent = delete_key index s.urgent;
}

unfoldable pub delete_all : List ℕ → List ℕ → List ℕ
delete_all [] keys = keys
delete_all (index ∷ indices) keys = delete_all indices (delete_key index keys)

unfoldable pub release_in_flight : List ℕ → Scheduler → Scheduler
unfolding delete_all
release_in_flight indices s = record s { in_flight = delete_all indices s.in_flight }

unfoldable pub stop : Scheduler → Scheduler
stop s = record s { done = true }

-- The requests of a tick by the peer that they go to.
abbrev pub Batches : Type 0
Batches = List (ℕ × List ℕ)

-- peerBatches[id] = append(peerBatches[id], index)
unfoldable pub add_request : ℕ → ℕ → Batches → Batches
add_request id index [] = (id, index ∷ []) ∷ []
add_request id index ((x, indices) ∷ batches) =
    if x == id
    then (x, indices ++ index ∷ []) ∷ batches
    else (x, indices) ∷ add_request id index batches

module _ {F : Type 0} where
  unfoldable pub send_batches : ℕ → Batches → Swarm F → Swarm F
  send_batches now [] swarm = swarm
  send_batches now ((id, indices) ∷ batches) swarm =
      send_batches now batches (request_chunks now id indices swarm)

module _ {F : Type 0} (floats : Floats F) where
  -- TimeoutInFlight on every peer, and what it collects.
  unfoldable pub time_out : ℕ → List (ℕ × Peer F) → List (ℕ × Peer F) × List ℕ
  time_out now [] = ([], [])
  time_out now ((id, p) ∷ rest) =
      let (p', late) = timeout_in_flight floats request_timeout now p in
      let (rest', later) = time_out now rest in ((id, p') ∷ rest', late ++ later)

  -- The loop of assignments: what is in flight and the batches, with `budget` requests to go.
  unfoldable pub assign : Swarm F → List ChunkCandidate → ℕ → List ℕ → Batches → List ℕ × Batches
  assign swarm [] budget in_flight batches = (in_flight, batches)
  assign swarm (c ∷ cs) zero in_flight batches = (in_flight, batches)
  assign swarm (c ∷ cs) (suc budget) in_flight batches =
      elim (select_peer floats swarm c.peer_ids) [
        | none ↦ assign swarm cs (suc budget) in_flight batches
        | some p ↦
            assign swarm cs budget (insert_key c.index in_flight)
              (add_request p.id (c.index % 2 ^ 32) batches)
      ]

  module _ (sort : List ChunkCandidate → List ChunkCandidate) (now : ℕ) where
    -- The part of tick that picks chunks and sends the requests.
    unfoldable pub fill_budget : List ℕ → Option Tracker → Scheduler × Swarm F → Scheduler × Swarm F
    unfolding assign send_batches
    fill_budget missing none (s, swarm) = (s, swarm)
    fill_budget missing (some t) (s, swarm) =
        let (in_flight, batches) =
          assign swarm (prioritize_chunks sort missing s.cursor t s.in_flight s.urgent)
            (max_total_in_flight - length s.in_flight) s.in_flight [] in
        (record s { in_flight = in_flight }, send_batches now batches swarm)

    -- tick, behind the timeouts.
    unfoldable pub schedule : Store → Scheduler × Swarm F → Result StoreError (Scheduler × Swarm F)
    unfolding fill_budget
    schedule store (s, swarm) =
        if leb max_total_in_flight (length s.in_flight)
        then ok (s, swarm)
        else missing_chunks store >>= λ missing. ok (fill_budget missing swarm.tracker (s, swarm))

    unfoldable pub tick : Store → Scheduler × Swarm F → Result StoreError (Scheduler × Swarm F)
    unfolding time_out schedule
    tick store (s, swarm) =
        let (peers, late) = time_out now swarm.peers in
        schedule store (release_in_flight late s, record swarm { peers = peers })

    -- What Run does when its ticker fires: `none` where it returns.
    unfoldable pub run_once :
        Store → Scheduler × Swarm F → Result StoreError (Option (Scheduler × Swarm F))
    unfolding tick
    run_once store state =
        if is_complete store then ok none else tick store state >>= λ next. ok (some next)
