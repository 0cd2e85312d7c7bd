-- ===== src/Scheduler/Order.antt =====
-- internal/scheduler/strategy.go: the order in which PrioritizeChunks puts the chunks.
use peerwatch.Base.{
  ℕ, ◌+◌, ◌-◌, ◌^◌, ◌≤◌, ◌<◌, ◌≡◌, refl, ap, ◌∙◌, ◌⊎◌, inl, inr, Bool, true, false, not, ◌&&◌, ◌||◌,
  List, [], ◌∷◌, arith,
}
use peerwatch.Base.Tests.{leb, ltb, ◌==◌, if◌then◌else◌, Bool-cases, ==_refl}
use peerwatch.Base.Lists.{All}
use peerwatch.Base.Keys.{contains}
use peerwatch.Base.Int.{ℤ, pos, sub64, add64_pos, sub64_pos}
use native.Mathlib.Decide.{ℕ_discrete}
use peerwatch.Peer.Tracker.{Tracker, rarity, peer_ids_with_chunk}
use peerwatch.Scheduler.Strategy.{
  ChunkCandidate, within_window, score_chunk, consider, candidates, prioritize_chunks,
}

pub List-cases : (xs : List ℕ) → (xs ≡ []) ⊎ ((x : ℕ) × (rest : List ℕ) × (xs ≡ x ∷ rest))
List-cases [] = inl refl
List-cases (x ∷ xs) = inr (x, xs, refl)

-- How many elements pass a test.
unfoldable pub count_if : {A : Type 0} → (A → Bool) → List A → ℕ
count_if f [] = 0
count_if f (x ∷ xs) = (if f x then 1 else 0) + count_if f xs

unfoldable pub Ascending : List ChunkCandidate → Type 0
Ascending [] = Unit
Ascending (c ∷ cs) = All (λ d. c.score ≤ d.score) cs × Ascending cs

-- What sort.Slice promises: the same elements, with the scores in ascending order.
pub record IsSort (sort : List ChunkCandidate → List ChunkCandidate) : Type 0 where
  pub same :
      (f : ChunkCandidate → Bool) (cs : List ChunkCandidate) → count_if f (sort cs) ≡ count_if f cs
  pub ascending : (cs : List ChunkCandidate) → Ascending (sort cs)

window_lem :
    (index cursor : ℕ)
    → cursor + 30 < 2 ^ 63
    → within_window index (pos cursor) ≡ (leb cursor index && ltb index (cursor + 30))
unfolding within_window
window_lem index cursor h = rw (add64_pos cursor 30 h) (ground arith)

-- The place of a chunk in the order, as a tier and a position in it: what is urgent, what playback
-- needs next by its index, and all else by how many peers hold it.
module _ (cursor : ℕ) (t : Tracker) (urgent : List ℕ) where
  unfoldable pub tier : ℕ → ℕ
  tier index =
      if contains index urgent
      then 0
      else if leb cursor index && ltb index (cursor + 30)
      then 1
      else 2

  unfoldable pub position : ℕ → ℕ
  position index =
      if tier index == 0 then 0 else if tier index == 1 then index else rarity t (pos index)

  abbrev pub Precedes : ChunkCandidate → ChunkCandidate → Type 0
  Precedes c d =
      (tier c.index < tier d.index)
      ⊎ ((tier c.index ≡ tier d.index) × (position c.index ≤ position d.index))

  abbrev pub InOrder : List ChunkCandidate → Type 0
  InOrder [] = Unit
  InOrder (c ∷ cs) = All (Precedes c) cs × InOrder cs

  module _ (bound : cursor + 30 < 2 ^ 63) where
    score_chunk_lem :
        (i : ℕ)
        → score_chunk i (pos cursor) (rarity t (pos i)) urgent ≡ (
            if contains i urgent
            then 0
            else if leb cursor i && ltb i (cursor + 30)
            then 100 + (i - cursor)
            else 1000 + rarity t (pos i))
    unfolding score_chunk
    score_chunk_lem i =
        let window = window_lem i cursor bound in
        elim (Bool-cases (leb cursor i && ltb i (cursor + 30))) [
          | inl within ↦
              let place : sub64 (pos i) (pos cursor) ≡ pos (i - cursor) =
                sub64_pos i cursor (ground arith) (ground arith) in
              rw (window, within, place)
          | inr beyond ↦ rw (window, beyond)
        ]

    -- The score that the code computes tells the same order.
    score_chunk-Precedes :
        (i j : ℕ)
        → score_chunk i (pos cursor) (rarity t (pos i)) urgent
          ≤ score_chunk j (pos cursor) (rarity t (pos j)) urgent
        → (tier i < tier j) ⊎ ((tier i ≡ tier j) × (position i ≤ position j))
    unfolding tier position
    score_chunk-Precedes i j h = ground (arith, score_chunk_lem i, score_chunk_lem j)

    abbrev well_scored : ChunkCandidate → Bool
    well_scored c = c.score == score_chunk c.index (pos cursor) (rarity t (pos c.index)) urgent

    candidates-scored :
        (missing in_flight : List ℕ)
        → count_if (λ c. not (well_scored c)) (candidates missing (pos cursor) t in_flight urgent)
          ≡ 0
    unfolding candidates count_if consider
    candidates-scored [] in_flight = refl
    candidates-scored (i ∷ missing) in_flight = elim (List-cases (peer_ids_with_chunk t (pos i))) [
      | inl none ↦ rw none (candidates-scored missing in_flight)
      | inr (id, ids, some) ↦ rw some (elim (Bool-cases (contains i in_flight)) [
        | inl asked ↦ rw asked (candidates-scored missing in_flight)
        | inr free ↦ rw free (
            ground (
              arith,
              candidates-scored missing in_flight,
              ==_refl (score_chunk i (pos cursor) (rarity t (pos i)) urgent),
            ))
      ])
    ]

    scores_hold :
        (cs : List ChunkCandidate)
        → count_if (λ c. not (well_scored c)) cs ≡ 0
        → All (λ c. c.score ≡ score_chunk c.index (pos cursor) (rarity t (pos c.index)) urgent) cs
    unfolding count_if
    scores_hold [] h = tt
    scores_hold (c ∷ cs) h = (ground arith, scores_hold cs (ground arith))

    first_place :
        (c : ChunkCandidate) (cs : List ChunkCandidate)
        → c.score ≡ score_chunk c.index (pos cursor) (rarity t (pos c.index)) urgent
        → All (λ d. d.score ≡ score_chunk d.index (pos cursor) (rarity t (pos d.index)) urgent) cs
        → All (λ d. c.score ≤ d.score) cs
        → All (Precedes c) cs
    first_place c [] is h k = tt
    first_place c (d ∷ cs) is (dis, h) (low, k) = (
      score_chunk-Precedes c.index d.index (omega (arith, is, dis, low)),
      first_place c cs is h k,
    )

    in_order :
        (cs : List ChunkCandidate)
        → All (λ c. c.score ≡ score_chunk c.index (pos cursor) (rarity t (pos c.index)) urgent) cs
        → Ascending cs
        → InOrder cs
    unfolding Ascending
    in_order [] h k = tt
    in_order (c ∷ cs) (is, h) (low, k) = (first_place c cs is h low, in_order cs h k)

    -- For a sort that does what sort.Slice promises: urgent chunks come first, then those of the
    -- playback window by index, then all others by the number of their holders.
    pub prioritize_chunks-InOrder :
        (sort : List ChunkCandidate → List ChunkCandidate)
        → IsSort sort
        → (missing in_flight : List ℕ)
        → InOrder (prioritize_chunks sort missing (pos cursor) t in_flight urgent)
    unfolding prioritize_chunks
    prioritize_chunks-InOrder sort s missing in_flight =
        let cs = candidates missing (pos cursor) t in_flight urgent in
        in_order (sort cs)
          (scores_hold (sort cs)
            (s.same (λ c. not (well_scored c)) cs ∙ candidates-scored missing in_flight))
          (s.ascending cs)

abbrev pub is_empty : List ℕ → Bool
is_empty [] = true
is_empty (x ∷ xs) = false

-- The candidates for one chunk, of those a test on the holders admits.
abbrev pub for_chunk : ℕ → (List ℕ → Bool) → ChunkCandidate → Bool
for_chunk j test c = (c.index == j) && test c.peer_ids

consider-for :
    (cursor : ℤ) (t : Tracker) (in_flight urgent : List ℕ) (i j : ℕ) (test : List ℕ → Bool)
    (ids : List ℕ) (rest : List ChunkCandidate)
    → count_if (for_chunk j test) (consider i cursor t in_flight urgent ids rest)
      ≡ (if contains i in_flight || (is_empty ids || not ((i == j) && test ids)) then 0 else 1)
        + count_if (for_chunk j test) rest
unfolding count_if consider
consider-for cursor t in_flight urgent i j test [] rest = ground arith
consider-for cursor t in_flight urgent i j test (id ∷ ids) rest =
    elim (Bool-cases (contains i in_flight)) [
      | inl asked ↦ rw asked (ground arith)
      | inr free ↦ rw free (ground arith)
    ]

candidates-for :
    (cursor : ℤ) (t : Tracker) (in_flight urgent missing : List ℕ) (j : ℕ) (test : List ℕ → Bool)
    → count_if (for_chunk j test) (candidates missing cursor t in_flight urgent) ≡ (
        if contains j in_flight
          || (is_empty (peer_ids_with_chunk t (pos j))
              || not (test (peer_ids_with_chunk t (pos j))))
        then 0
        else count_if (λ i. i == j) missing)
unfolding candidates count_if
candidates-for cursor t in_flight urgent [] j test = ground arith
candidates-for cursor t in_flight urgent (i ∷ missing) j test =
    let rest = candidates-for cursor t in_flight urgent missing j test in
    let holders : ℕ → List ℕ = λ k. peer_ids_with_chunk t (pos k) in
    let first =
      consider-for cursor t in_flight urgent i j test (holders i)
        (candidates missing cursor t in_flight urgent) in
    elim (ℕ_discrete i j) [
      | yes e ↦ ground (
        arith,
        first,
        rest,
        ap (λ k. contains k in_flight) e,
        ap (λ k. is_empty (holders k)) e,
        ap (λ k. test (holders k)) e,
      )
      | no ne ↦ ground (arith, first, rest)
    ]

-- PrioritizeChunks, for a sort that does what sort.Slice promises: a chunk that is in flight or has no
-- holder is left out; any other stands there as often as it is missing, with its holders.
pub prioritize_chunks_lem :
    (sort : List ChunkCandidate → List ChunkCandidate)
    → IsSort sort
    → (cursor : ℤ) (t : Tracker) (in_flight urgent missing : List ℕ) (j : ℕ) (test : List ℕ → Bool)
    → count_if (for_chunk j test) (prioritize_chunks sort missing cursor t in_flight urgent) ≡ (
        if contains j in_flight
          || (is_empty (peer_ids_with_chunk t (pos j))
              || not (test (peer_ids_with_chunk t (pos j))))
        then 0
        else count_if (λ i. i == j) missing)
unfolding prioritize_chunks
prioritize_chunks_lem sort s cursor t in_flight urgent missing j test =
    s.same (for_chunk j test) (candidates missing cursor t in_flight urgent)
    ∙ candidates-for cursor t in_flight urgent missing j test
