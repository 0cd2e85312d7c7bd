-- ===== src/Joiner/Turns.antt =====
-- cmd/join.go: a joiner and a host that take turns. A tick of the joiner's scheduler sends a REQUEST, the
-- host's handleMessage answers it, and the joiner handles the answers, oldest first. Both ways the messages
-- go through WriteMessage and ReadMessage.
use peerwatch.Base.{ℕ, zero, suc, none, some, List, [], ◌∷◌, ◌++◌, map}
use peerwatch.Base.Lists.{length}
use peerwatch.Peer.Loops.{ended, crashed, out_of_fuel, read_loop, write_loop}
use peerwatch.Base.Tests.{if◌then◌else◌}
use peerwatch.Base.Entries.{lookup}
use peerwatch.Base.Floats.{Floats}
use peerwatch.Base.Results.{Result, ok, err, panic, ◌>>=◌}
use peerwatch.Protocol.Message.{Bytes, Digest, Message, request, piece}
use peerwatch.Chunk.File.{written}
use peerwatch.Chunk.Store.Defs.{Store, StoreError}
use peerwatch.Chunk.Store.Reads.{is_complete}
use peerwatch.Peer.Connection.{Peer, new_peer}
use peerwatch.Peer.Swarm.{Swarm, handle_message}
use peerwatch.Scheduler.Strategy.{ChunkCandidate}
use peerwatch.Chunk.Chunker.Contents.{region}
use peerwatch.Peer.Tracker.{Tracker}
use peerwatch.Scheduler.Tick.{Scheduler}
use peerwatch.Joiner.{Joiner, Event, received, in_table, scheduler_fires, step, run}

-- A joiner whose table has the host only.
abbrev pub alone : {F : Type 0} → ℕ → Swarm F → Tracker → Peer F → Store → Scheduler → Joiner F
alone host w t p store sched = record {
  swarm = record w { tracker = some t; peers = (host, p) ∷ [] };
  store = store;
  sched = sched;
}

-- A chunk of the host's file.
abbrev pub chunk_message : Bytes → ℕ → ℕ → Message
chunk_message orig cs i = piece (record { chunk_index = i; payload = region orig cs i })

-- The REQUEST that was put last into a queue.
unfoldable pub newest : List Message → List Message
newest [] = []
newest (request indices ∷ queue) = request indices ∷ []
newest (m ∷ queue) = []

unfoldable pub requested : {F : Type 0} → ℕ → Swarm F → List Message
unfolding newest
requested id s = elim (lookup id s.peers) [ none ↦ [] | some p ↦ newest p.queue ]

-- A queue, whose oldest message stands last, in front of the messages `out`.
unfoldable pub in_order : List Message → List Message → List Message
in_order [] out = out
in_order (m ∷ queue) out = in_order queue (m ∷ out)

abbrev pub keep : List Message → Message → List Message
keep ms m = ms ++ (m ∷ [])

-- What one side's writeLoop makes of these messages, oldest first, comes to the other side's readLoop: the
-- messages that its handler gets. It takes a round for each and one for the end.
unfoldable pub carried : List Message → List Message
unfolding read_loop write_loop
carried queue =
    elim (read_loop keep (λ ms. ms) (suc (length queue)) (write_loop queue [] []).0 []) [
      | ended ms e ↦ ms
      | crashed ↦ []
      | out_of_fuel ↦ []
    ]

module _ {F : Type 0} (floats : Floats F) (seconds : ℕ → F)
    (sort : List ChunkCandidate → List ChunkCandidate) (sha256 : Bytes → Digest) where
  -- What a host with this store puts into the queue of a peer that sends these messages.
  unfoldable pub answers : ℕ → Store → List Message → List Message
  unfolding handle_message new_peer in_order
  answers now store [] = []
  answers now store (m ∷ ms) =
      elim (handle_message floats seconds now (some store) [] m (new_peer floats [], none)) [
        | ok r ↦ in_order r.0.0.queue []
        | err e ↦ []
        | panic ↦ []
      ]
      ++ answers now store ms

  abbrev pub arrives : ℕ → ℕ → Message → Event F
  arrives now host m = received now (in_table host) m written

  unfoldable pub turn : ℕ → ℕ → Store → Joiner F → Result StoreError (Joiner F)
  unfolding step run answers requested carried
  turn now host store j = step sha256 floats seconds sort (scheduler_fires now) j >>= λ r.
      run sha256 floats seconds sort
        (map (arrives now host) (carried (answers now store (carried (requested host r.0.swarm)))))
        r.0
      >>= λ later. ok later.0

  -- Turns, at most as many, until the download is complete.
  unfoldable pub turns : ℕ → ℕ → ℕ → Store → Joiner F → Result StoreError (Joiner F)
  unfolding turn
  turns zero now host store j = ok j
  turns (suc n) now host store j =
      let next = turn now host store j >>= turns n now host store in
      if is_complete j.store then ok j else next
