-- ===== src/Joiner/Steps.antt =====
-- cmd/join.go: a running joiner stays sound whatever happens to it.
use peerwatch.Base.{ap, ℕ, ◌^◌, ◌≤◌, ◌<◌, ◌≡◌, refl, inl, inr, some, List, [], ◌∷◌, ◌++◌, arith}
use peerwatch.Base.Tests.{Bool-cases, Option-cases}
use peerwatch.Base.Lists.{length, All}
use peerwatch.Base.Entries.{lookup}
use peerwatch.Base.Floats.{Floats}
use peerwatch.Base.Results.{Result, ok, err, panic}
use peerwatch.Base.Results
use peerwatch.Protocol.Message.{Bytes, Digest, bitfield, keepalive}
use peerwatch.Chunk.Bitfield.{bit_at}
use peerwatch.Chunk.Chunker.Counting.{Fits}
use peerwatch.Chunk.Store.Reads.{is_complete}
use peerwatch.Chunk.Store.Integrity.{chunk_total, has_chunk_lem}
use peerwatch.Peer.Connection.{Peer, in_flight_chunks, set_bitfield, clear_in_flight}
use peerwatch.Peer.Connection
use peerwatch.Peer.Tracker.{remove_peer}
use peerwatch.Commands.Pieces.{on_disconnected-in_flight}
use peerwatch.Peer.Swarm.{Swarm, addrs_of, add_peer, disconnect, forget_peer}
use peerwatch.Peer.Duties.{bitfield_tick, keepalive_tick, broadcast}
use peerwatch.Scheduler.Strategy.{ChunkCandidate}
use peerwatch.Scheduler.Order.{IsSort}
use peerwatch.Scheduler.Tick.{Scheduler, run_once, demand, set_cursor, send_batches}
use peerwatch.Scheduler.Budget.{length-delete_all}
use peerwatch.Scheduler.Requests.{waiting, tick-requests}
use peerwatch.Peer.Tracker.{new_tracker, update_from_bitfield}
use peerwatch.Peer.Swarm.{update_tracker}
use peerwatch.Joiner.{
  Joiner, Source, in_table, replaced, Event, received, closing, ended, told, heard, added,
  scheduler_fires, bitfield_fires, keepalive_fires, demanded, cursor_moved, peer_of, lose,
  close_peer, scheduled, step, run,
}
use peerwatch.Joiner.Serving.{
  IsHonest, IsHonestPeer, IsHonestTable, IsHonestSwarm, lookup-IsHonest, put-IsHonest,
  remove-IsHonest, send_all-IsHonest, send_batches-IsHonest, time_out-IsHonest,
}
use peerwatch.Joiner.Invariant.{IsOwn, IsAdmissible, IsSound, Keeps, handle_message-Keeps}

module _ (sha256 : Bytes → Digest) (orig : Bytes) (cs : ℕ) (name : Bytes) {F : Type 0}
    (fits : Fits (length orig) cs) where
  peer_of-IsHonest :
      (source : Source F) (s : Swarm F) (p : Peer F)
      → IsHonestTable orig cs s.peers
      → IsOwn sha256 orig cs name source
      → peer_of source s ≡ some p
      → IsHonestPeer orig cs p
  unfolding peer_of IsOwn
  peer_of-IsHonest (in_table id) s p v own e = lookup-IsHonest orig cs id s.peers p v e
  peer_of-IsHonest (replaced q) s p v own e =
      let same : q ≡ p = ground (arith, e) in rw (← same) own

  lose-IsSound :
      (p : Peer F) (j : Joiner F)
      → IsSound sha256 orig cs name j
      → IsSound sha256 orig cs name (lose p j)
  unfolding lose disconnect forget_peer
  lose-IsSound p j v =
      let (t, tracked) = v.honest.tracked in
      record {
        genuine = v.genuine;
        healthy = v.healthy;
        few =
            rw (on_disconnected-in_flight (in_flight_chunks p) j.sched)
              (omega (arith, length-delete_all (in_flight_chunks p) j.sched.in_flight, v.few));
        honest = record {
          tracked = (remove_peer p.id t, rw tracked refl);
          honest = remove-IsHonest orig cs p.id j.swarm.peers v.honest.honest;
        };
      }

  close_peer-IsHonest :
      (id : ℕ) (s : Swarm F) → IsHonestSwarm orig cs s → IsHonestSwarm orig cs (close_peer id s)
  unfolding close_peer Connection.close IsHonestPeer
  close_peer-IsHonest id s v = elim (Option-cases (lookup id s.peers)) [
    | inl absent ↦ rw (absent, close_peer) v
    | inr (p, found) ↦
        rw (found, close_peer)
          (record {
            tracked = v.tracked;
            honest =
                put-IsHonest orig cs id (Connection.close p) s.peers
                  (lookup-IsHonest orig cs id s.peers p v.honest found) v.honest;
          })
  ]

  with_swarm-Keeps :
      (j : Joiner F) (s : Swarm F)
      → IsSound sha256 orig cs name j
      → IsHonestSwarm orig cs s
      → Keeps sha256 orig cs name (ok (record j { swarm = s }, []))
  unfolding Keeps
  with_swarm-Keeps j s v h = (
    record j { swarm = s },
    [],
    refl,
    record { genuine = v.genuine; healthy = v.healthy; few = v.few; honest = h },
  )

  with_sched-Keeps :
      (j : Joiner F) (c : Scheduler)
      → IsSound sha256 orig cs name j
      → length c.in_flight ≤ 16
      → Keeps sha256 orig cs name (ok (record j { sched = c }, []))
  unfolding Keeps
  with_sched-Keeps j c v few = (
    record j { sched = c },
    [],
    refl,
    record { genuine = v.genuine; healthy = v.healthy; few = few; honest = v.honest },
  )

  demand-Keeps :
      (index : ℕ) (j : Joiner F)
      → IsSound sha256 orig cs name j
      → index < chunk_total orig cs
      → Keeps sha256 orig cs name (
          Results.◌>>=◌
            (demand j.store index j.sched)
            (λ sched. ok (record j { sched = sched }, [])))
  unfolding demand
  demand-Keeps index j v h = rw (has_chunk_lem sha256 orig cs name fits j.store index v.genuine h) (
      with_sched-Keeps j _ v (elim (Bool-cases (bit_at j.store.bitfield index)) [
        | inl there ↦ rw there v.few
        | inr missing ↦ rw missing v.few
      ]))

  module _ (small : chunk_total orig cs ≤ 2 ^ 32) (floats : Floats F) (seconds : ℕ → F)
      (sort : List ChunkCandidate → List ChunkCandidate) (sorts : IsSort sort) where
    run_once-Keeps :
        (now : ℕ) (j : Joiner F)
        → IsSound sha256 orig cs name j
        → Keeps sha256 orig cs name
            (Results.◌>>=◌ (run_once floats sort now j.store (j.sched, j.swarm)) (scheduled j))
    unfolding run_once scheduled Keeps
    run_once-Keeps now j v = elim (Bool-cases (is_complete j.store)) [
      | inl complete ↦ rw complete (j, [], refl, v)
      | inr going ↦
          let (t, tracked) = v.honest.tracked in
          let (c, batches, is, few, held, wanted) =
            tick-requests floats sort now sha256 orig cs name j.store v.genuine small sorts j.sched
              j.swarm t tracked v.few in
          rw (going, is)
            (
              record j {
                swarm = send_batches now batches (waiting floats sort now j.swarm);
                sched = c;
              },
              [],
              refl,
              record {
                genuine = v.genuine;
                healthy = v.healthy;
                few = few;
                honest =
                    send_batches-IsHonest orig cs now batches (waiting floats sort now j.swarm)
                      (record {
                        tracked = (t, tracked);
                        honest = time_out-IsHonest orig cs floats now j.swarm.peers v.honest.honest;
                      });
              },
            )
    ]

    pub step-Keeps :
        (e : Event F) (j : Joiner F)
        → IsSound sha256 orig cs name j
        → IsAdmissible sha256 orig cs name e
        → Keeps sha256 orig cs name (step sha256 floats seconds sort e j)
    unfolding step IsAdmissible add_peer update_tracker set_cursor bitfield_tick keepalive_tick
        broadcast IsHonest Keeps
    step-Keeps (received now source m disk) j v (own, lawful) =
        elim (Option-cases (peer_of source j.swarm)) [
          | inl absent ↦ rw (absent, step) (j, [], refl, v)
          | inr (p, found) ↦
              let (t, tracked) = v.honest.tracked in
              rw (found, step, tracked)
                (handle_message-Keeps sha256 orig cs name fits floats seconds now
                  (addrs_of j.swarm.peers) source disk m j p t v
                  (peer_of-IsHonest source j.swarm p v.honest.honest own found) lawful)
        ]
    step-Keeps (closing id) j v a =
        with_swarm-Keeps j (close_peer id j.swarm) v (close_peer-IsHonest id j.swarm v.honest)
    step-Keeps (ended source) j v a = elim (Option-cases (peer_of source j.swarm)) [
      | inl absent ↦ rw (absent, step) (j, [], refl, v)
      | inr (p, found) ↦ rw (found, step) (lose p j, [], refl, lose-IsSound p j v)
    ]
    step-Keeps (told addr m) j v a =
        with_swarm-Keeps j
          (record (j.swarm) {
            host_addr = addr;
            manifest = some m;
            tracker = some (new_tracker m.chunk_count);
          })
          v (record { tracked = (_, refl); honest = v.honest.honest })
    step-Keeps (heard id bf) j v a =
        let (t, tracked) = v.honest.tracked in
        with_swarm-Keeps j (record (j.swarm) { tracker = update_tracker id bf j.swarm.tracker }) v
          (record {
            tracked = (update_from_bitfield id bf t, ap (update_tracker id bf) tracked);
            honest = v.honest.honest;
          })
    step-Keeps (added p) j v a = with_swarm-Keeps j (add_peer p j.swarm) v (record {
      tracked = v.honest.tracked;
      honest = put-IsHonest orig cs p.id p j.swarm.peers a v.honest.honest;
    })
    step-Keeps (scheduler_fires now) j v a = run_once-Keeps now j v
    step-Keeps bitfield_fires j v a =
        with_swarm-Keeps j (broadcast (bitfield j.store.bitfield) j.swarm) v (record {
          tracked = v.honest.tracked;
          honest =
              send_all-IsHonest orig cs (bitfield j.store.bitfield) j.swarm.peers tt
                v.honest.honest;
        })
    step-Keeps keepalive_fires j v a = with_swarm-Keeps j (broadcast keepalive j.swarm) v (record {
      tracked = v.honest.tracked;
      honest = send_all-IsHonest orig cs keepalive j.swarm.peers tt v.honest.honest;
    })
    step-Keeps (demanded index) j v h = demand-Keeps index j v h
    step-Keeps (cursor_moved i) j v a = with_sched-Keeps j (set_cursor i j.sched) v v.few

    -- Any sequence of admissible events runs to its end on a sound joiner, without an error or a panic,
    -- and leaves a sound joiner: its store keeps the invariant and can be read, at most 16 chunks are in
    -- flight, and every PIECE in a queue to a peer has the original's bytes. There are at most 2^32
    -- chunks, and the sort does what sort.Slice promises.
    pub run-Keeps :
        (events : List (Event F)) (j : Joiner F)
        → IsSound sha256 orig cs name j
        → All (IsAdmissible sha256 orig cs name) events
        → Keeps sha256 orig cs name (run sha256 floats seconds sort events j)
    unfolding run Keeps
    run-Keeps [] j v a = (j, [], refl, v)
    run-Keeps (e ∷ events) j v (here, a) =
        let (j₁, out₁, is₁, v₁) = step-Keeps e j v here in
        let (j₂, out₂, is₂, v₂) = run-Keeps events j₁ v₁ a in
        (j₂, out₁ ++ out₂, rw (is₁, is₂) refl, v₂)
