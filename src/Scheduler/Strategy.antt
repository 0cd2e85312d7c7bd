-- ===== src/Scheduler/Strategy.antt =====
-- internal/scheduler/strategy.go: which chunks to ask for first, and whom. A score of a chunk is a
-- float64 that holds a natural number, exactly as long as the rarity is below 2^52. sort.Slice, which
-- is not stable, is a parameter.
use peerwatch.Base.{ℕ, ◌+◌, Bool, ◌&&◌, Option, none, some, List, [], ◌∷◌}
use peerwatch.Base.Tests.{leb, if◌then◌else◌}
use peerwatch.Base.Int.{ℤ, pos, pos_part, ltb_ℤ, leb_ℤ, add64, sub64}
use peerwatch.Base.Keys.{contains}
use peerwatch.Base.Floats.{Floats}
use peerwatch.Peer.Tracker.{Tracker, peer_ids_with_chunk, rarity}
use peerwatch.Peer.Connection.{Peer, in_flight_count}
use peerwatch.Peer.Swarm.{Swarm, get_peer}

abbrev pub max_in_flight_per_peer : ℕ
max_in_flight_per_peer = 4

abbrev pub playback_window : ℕ
playback_window = 30

pub record ChunkCandidate : Type 0 where
  pub index : ℕ
  pub score : ℕ
  pub peer_ids : List ℕ

-- cursor <= index < cursor + PlaybackWindow
unfoldable pub within_window : ℕ → ℤ → Bool
within_window index cursor =
    leb_ℤ cursor (pos index) && ltb_ℤ (pos index) (add64 cursor (pos playback_window))

unfoldable pub score_chunk : ℕ → ℤ → ℕ → List ℕ → ℕ
unfolding within_window
score_chunk index cursor holders urgent =
    if contains index urgent
    then 0
    else if within_window index cursor
    then 100 + pos_part (sub64 (pos index) cursor)
    else 1000 + holders

-- One round of the loop of PrioritizeChunks, in front of what the later rounds give.
unfoldable pub consider :
    ℕ → ℤ → Tracker → List ℕ → List ℕ → List ℕ → List ChunkCandidate → List ChunkCandidate
consider index cursor t in_flight urgent [] rest = rest
consider index cursor t in_flight urgent (id ∷ ids) rest =
    if contains index in_flight
    then rest
    else record {
      index = index;
      score = score_chunk index cursor (rarity t (pos index)) urgent;
      peer_ids = id ∷ ids;
    }
      ∷ rest

unfoldable pub candidates : List ℕ → ℤ → Tracker → List ℕ → List ℕ → List ChunkCandidate
unfolding consider
candidates [] cursor t in_flight urgent = []
candidates (index ∷ missing) cursor t in_flight urgent =
    consider index cursor t in_flight urgent (peer_ids_with_chunk t (pos index))
      (candidates missing cursor t in_flight urgent)

unfoldable pub prioritize_chunks :
    (List ChunkCandidate → List ChunkCandidate)
    → List ℕ
    → ℤ
    → Tracker
    → List ℕ
    → List ℕ
    → List ChunkCandidate
unfolding candidates
prioritize_chunks sort missing cursor t in_flight urgent =
    sort (candidates missing cursor t in_flight urgent)

module _ {F : Type 0} (floats : Floats F) where
  unfoldable pub peer_score : Peer F → F
  peer_score p =
      let speed =
        if floats.at_most p.speed (floats.decimal 0 0) then floats.decimal 100000 0 else p.speed in
      floats.over speed (floats.of_int (pos (1 + in_flight_count p)))

  -- if best == nil || score > bestScore
  unfoldable pub better : Peer F → Option (Peer F) → Option (Peer F)
  unfolding peer_score
  better p none = some p
  better p (some best) = if floats.less (peer_score best) (peer_score p) then some p else some best

  -- One ID: a peer that is gone or saturated is passed over.
  unfoldable pub weigh : Option (Peer F) → Option (Peer F) → Option (Peer F)
  unfolding better
  weigh none best = best
  weigh (some p) best =
      if leb max_in_flight_per_peer (in_flight_count p) then best else better p best

  unfoldable pub select_from : Swarm F → Option (Peer F) → List ℕ → Option (Peer F)
  unfolding weigh
  select_from s best [] = best
  select_from s best (id ∷ ids) = select_from s (weigh (get_peer s id) best) ids

  unfoldable pub select_peer : Swarm F → List ℕ → Option (Peer F)
  unfolding select_from
  select_peer s ids = select_from s none ids
