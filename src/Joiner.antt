-- ===== src/Joiner.antt =====
-- cmd/join.go: a joiner that runs. The swarm, the store and the scheduler that Join wires together are
-- one state, and each thing that may happen to it is an event; a handler runs in one piece.
pub mod Arriving
pub mod Invariant
pub mod Steps
pub mod Join
pub mod Rooms
pub mod Arrivals
pub mod Turns
pub mod Carrying
pub mod Deliveries
pub mod Asking
pub mod Requests
pub mod Completion
pub mod Downloads
mod Tests
pub mod Serving
use peerwatch.Base.{ℕ, Option, none, some, List, [], ◌∷◌, ◌++◌}
use peerwatch.Base.Int.{ℤ}
use peerwatch.Base.Entries.{lookup, put}
use peerwatch.Base.Floats.{Floats}
use peerwatch.Base.Results.{Result, ok, ◌>>=◌}
use peerwatch.Protocol.Message.{Bytes, Digest, Message, SyncMsg}
use peerwatch.Chunk.File.{WriteOutcome}
use peerwatch.Chunk.Store.Defs.{Store, StoreError}
use peerwatch.Peer.Connection.{Peer}
use peerwatch.Peer.Connection
use peerwatch.Chunk.Manifest.{Manifest}
use peerwatch.Peer.Tracker.{Tracker, new_tracker}
use peerwatch.Peer.Swarm.{
  Swarm, Effect, piece_received, sync_received, connect, addrs_of, add_peer, disconnect,
  update_tracker, handle_message,
}
use peerwatch.Peer.Duties.{bitfield_tick, keepalive_tick}
use peerwatch.Scheduler.Strategy.{ChunkCandidate}
use peerwatch.Scheduler.Tick
use peerwatch.Scheduler.Tick.{Scheduler, run_once, demand, set_cursor}
use peerwatch.Commands.{on_piece, on_disconnected}

module _ (F : Type 0) where
  pub record Joiner : Type 0 where
    pub swarm : Swarm F
    pub store : Store
    pub sched : Scheduler

  -- The Peer that a goroutine works on: the one that the table has under an ID, or one whose entry
  -- another connection of the same ID has taken.
  pub data Source : Type 0 where
    in_table : ℕ → Source
    replaced : Peer F → Source

  -- received: a readLoop hands a message to handleMessage; `disk` is how a WriteAt then ends.
  -- closing: Close, by one of the peer's loops. ended: the peer is done. told and heard: ConnectToHost has
  -- read the MANIFEST of a host that it reached at an address, and its BITFIELD, which happens again when
  -- the joiner connects again. added: Connect or ConnectToHost adds a peer.
  -- The rest are the tickers, and the calls of the player's side.
  pub data Event : Type 0 where
    received : ℕ → Source → Message → WriteOutcome → Event
    closing : ℕ → Event
    ended : Source → Event
    told : Bytes → Manifest → Event
    heard : ℕ → Bytes → Event
    added : Peer F → Event
    scheduler_fires : ℕ → Event
    bitfield_fires keepalive_fires : Event
    demanded : ℕ → Event
    cursor_moved : ℤ → Event

-- What an event leaves to others: OnSyncReceived and the dialling of an address.
abbrev pub Ran : Type 0 → Type 0
Ran F = Result StoreError (Joiner F × List Effect)

unfoldable pub peer_of : {F : Type 0} → Source F → Swarm F → Option (Peer F)
peer_of (in_table id) s = lookup id s.peers
peer_of (replaced p) s = some p

unfoldable pub put_back : {F : Type 0} → Source F → Peer F → Swarm F → Swarm F
put_back (in_table id) p s = record s { peers = put id p s.peers }
put_back (replaced q) p s = s

module _ {F : Type 0} where
  unfoldable pub lose : Peer F → Joiner F → Joiner F
  unfolding disconnect on_disconnected
  lose p j =
      let (swarm, indices) = disconnect p j.swarm in
      record j { swarm = swarm; sched = on_disconnected indices j.sched }

  unfoldable pub close_peer : ℕ → Swarm F → Swarm F
  unfolding Connection.close
  close_peer id s = elim (lookup id s.peers) [
    | none ↦ s
    | some p ↦ record s { peers = put id (Connection.close p) s.peers }
  ]

  -- What a round of the scheduler leaves; once the download is complete, Run returns.
  unfoldable pub scheduled : Joiner F → Option (Scheduler × Swarm F) → Ran F
  scheduled j none = ok (j, [])
  scheduled j (some (sched, swarm)) = ok (record j { swarm = swarm; sched = sched }, [])

module _ (sha256 : Bytes → Digest) where
  -- The callbacks of handleMessage: OnPieceReceived runs at once, the others are left.
  unfoldable pub run_effects :
      WriteOutcome
      → List Effect
      → Store × Scheduler
      → Result StoreError ((Store × Scheduler) × List Effect)
  unfolding on_piece
  run_effects disk [] state = ok (state, [])
  run_effects disk (piece_received index payload ∷ rest) state =
      on_piece sha256 disk index payload state >>= run_effects disk rest
  run_effects disk (sync_received m ∷ rest) state =
      run_effects disk rest state >>= λ r. ok (r.0, sync_received m ∷ r.1)
  run_effects disk (connect addr ∷ rest) state =
      run_effects disk rest state >>= λ r. ok (r.0, connect addr ∷ r.1)

  module _ {F : Type 0} where
    -- What handleMessage gives, put into the joiner.
    unfoldable pub settle :
        Source F → WriteOutcome → Joiner F → (Peer F × Option Tracker) × List Effect → Ran F
    unfolding run_effects put_back
    settle source disk j ((p, t), effects) = run_effects disk effects (j.store, j.sched) >>= λ r.
        ok (
          record {
            swarm = put_back source p (record (j.swarm) { tracker = t });
            store = r.0.0;
            sched = r.0.1;
          },
          r.1,
        )

    module _ (floats : Floats F) (seconds : ℕ → F)
        (sort : List ChunkCandidate → List ChunkCandidate) where
      unfoldable pub step : Event F → Joiner F → Ran F
      unfolding peer_of settle lose close_peer add_peer update_tracker scheduled run_once
          handle_message demand set_cursor bitfield_tick keepalive_tick
      step (received now source m disk) j = elim (peer_of source j.swarm) [
        | none ↦ ok (j, [])
        | some p ↦
            handle_message floats seconds now (some j.store) (addrs_of j.swarm.peers) m
              (p, j.swarm.tracker)
            >>= settle source disk j
      ]
      step (closing id) j = ok (record j { swarm = close_peer id j.swarm }, [])
      step (ended source) j = elim (peer_of source j.swarm) [
        | none ↦ ok (j, [])
        | some p ↦ ok (lose p j, [])
      ]
      step (told addr m) j = ok (
        record j {
          swarm = record (j.swarm) {
            host_addr = addr;
            manifest = some m;
            tracker = some (new_tracker m.chunk_count);
          };
        },
        [],
      )
      step (heard id bf) j = ok (
        record j { swarm = record (j.swarm) { tracker = update_tracker id bf j.swarm.tracker } },
        [],
      )
      step (added p) j = ok (record j { swarm = add_peer p j.swarm }, [])
      step (scheduler_fires now) j =
          run_once floats sort now j.store (j.sched, j.swarm) >>= scheduled j
      step bitfield_fires j = ok (record j { swarm = bitfield_tick (some j.store) j.swarm }, [])
      step keepalive_fires j = ok (record j { swarm = keepalive_tick j.swarm }, [])
      step (demanded index) j =
          demand j.store index j.sched >>= λ sched. ok (record j { sched = sched }, [])
      step (cursor_moved i) j = ok (record j { sched = set_cursor i j.sched }, [])

      unfoldable pub run : List (Event F) → Joiner F → Ran F
      unfolding step
      run [] j = ok (j, [])
      run (e ∷ events) j =
          step e j >>= λ r. run events r.0 >>= λ later. ok (later.0, r.1 ++ later.1)
