-- ===== src/Scheduler/Requests.antt =====
-- internal/scheduler/scheduler.go: what a tick asks for.
use peerwatch.Base.{
  ℕ, zero, suc, ◌-◌, ◌%◌, ◌^◌, ◌≤◌, ◌<◌, ◌≡◌, ◌⊎◌, refl, ◌∙◌, inl, inr, Bool, true, false, not,
  ◌||◌, some, List, [], ◌∷◌, arith,
}
use mathlib.Core.Bool.{false≢true}
use peerwatch.Base.Tests.{leb, ltb, ◌==◌, Bool-cases, Option-cases}
use peerwatch.Base.Lists.{length, All}
use peerwatch.Base.Int.{ℤ, pos}
use peerwatch.Base.Keys.{contains, insert_key}
use peerwatch.Base.Floats.{Floats}
use peerwatch.Base.Results.{ok}
use peerwatch.Protocol.Message.{Bytes, Digest}
use peerwatch.Chunk.Bitfield.{bit_at}
use peerwatch.Chunk.Store.Defs.{Store}
use peerwatch.Chunk.Store.Integrity.{IsGenuine, chunk_total}
use peerwatch.Chunk.Store.Missing.{missing_chunks-IsGenuine}
use peerwatch.Peer.Tracker.{Tracker, peer_ids_with_chunk}
use peerwatch.Peer.Swarm.{Swarm}
use peerwatch.Scheduler.Strategy.{
  ChunkCandidate, prioritize_chunks, candidates, consider, select_peer,
}
use peerwatch.Scheduler.Order.{
  count_if, IsSort, List-cases, is_empty, for_chunk, prioritize_chunks_lem,
}
use peerwatch.Scheduler.Tick.{
  Scheduler, Batches, add_request, delete_all, release_in_flight, assign, time_out, send_batches,
  fill_budget, schedule, tick,
}
use peerwatch.Scheduler.Budget.{
  asked, asked-add_request, length-delete_all, length-assign, assign-asked,
}

-- A list without a given number has no element that equals it, and the other way round.
contains-count_if : (j : ℕ) (xs : List ℕ) → contains j xs ≡ ltb 0 (count_if (λ i. i == j) xs)
unfolding contains count_if
contains-count_if j [] = refl
contains-count_if j (x ∷ xs) = ground (arith, contains-count_if j xs)

abbrev any_holder : List ℕ → Bool
any_holder ids = true

module _ {F : Type 0} (floats : Floats F) (swarm : Swarm F) where
  -- The loop asks for candidates only.
  asked-assign :
      (j : ℕ) (cs : List ChunkCandidate) (budget : ℕ) (in_flight : List ℕ) (batches : Batches)
      → All (λ c. c.index < 2 ^ 32) cs
      → asked j (assign floats swarm cs budget in_flight batches).1 ≡ true
      → (asked j batches ≡ true) ⊎ (0 < count_if (for_chunk j any_holder) cs)
  unfolding count_if assign asked
  asked-assign j [] budget in_flight batches small h = inl h
  asked-assign j (c ∷ cs) zero in_flight batches small h = inl h
  asked-assign j (c ∷ cs) (suc budget) in_flight batches (short, small) h =
      elim (Option-cases (select_peer floats swarm c.peer_ids)) [
        | inl absent ↦
            elim (asked-assign j cs (suc budget) in_flight batches small
              (rw (absent, assign) at h)) [
                | inl before ↦ inl before
                | inr later ↦ inr (ground (arith, later))
              ]
        | inr (p, found) ↦
            elim (asked-assign j cs budget (insert_key c.index in_flight)
              (add_request p.id (c.index % 2 ^ 32) batches) small (rw (found, assign) at h)) [
                | inl before ↦ elim (Bool-cases (c.index == j)) [
                  | inl same ↦ inr (ground (arith, same))
                  | inr other ↦ inl (
                      ground
                        (arith, before, other, asked-add_request j p.id (c.index % 2 ^ 32) batches))
                ]
                | inr later ↦ inr (ground (arith, later))
              ]
      ]

-- The index of a candidate is that of a missing chunk.
candidates-small :
    (cursor : ℤ) (t : Tracker) (in_flight urgent missing : List ℕ) (bound : ℕ)
    → count_if (λ i. not (ltb i bound)) missing ≡ 0
    → count_if (λ c. not (ltb c.index bound)) (candidates missing cursor t in_flight urgent) ≡ 0
unfolding candidates count_if consider
candidates-small cursor t in_flight urgent [] bound h = refl
candidates-small cursor t in_flight urgent (i ∷ missing) bound h =
    let rest = candidates-small cursor t in_flight urgent missing bound (ground (arith, h)) in
    elim (List-cases (peer_ids_with_chunk t (pos i))) [
      | inl nobody ↦ rw nobody rest
      | inr (id, ids, holders) ↦ rw holders (elim (Bool-cases (contains i in_flight)) [
        | inl there ↦ rw there rest
        | inr free ↦ rw free (ground (arith, rest, h))
      ])
    ]

bounded_below :
    (bound : ℕ) (cs : List ChunkCandidate)
    → count_if (λ c. not (ltb c.index bound)) cs ≡ 0
    → All (λ c. c.index < bound) cs
unfolding count_if
bounded_below bound [] h = tt
bounded_below bound (c ∷ cs) h = (ground (arith, h), bounded_below bound cs (ground (arith, h)))

below_bound :
    (bound : ℕ) (xs : List ℕ)
    → ((j : ℕ) → contains j xs ≡ true → j < bound)
    → count_if (λ i. not (ltb i bound)) xs ≡ 0
unfolding count_if contains
below_bound bound [] h = refl
below_bound bound (x ∷ xs) h =
    ground (arith, h x (ground arith), below_bound bound xs (λ j c. h j (ground (arith, c))))

module _ {F : Type 0} (floats : Floats F) (swarm : Swarm F)
    (sort : List ChunkCandidate → List ChunkCandidate) (sorts : IsSort sort) where
  prioritized-small :
      (cursor : ℤ) (t : Tracker) (in_flight urgent missing : List ℕ)
      → ((j : ℕ) → contains j missing ≡ true → j < 2 ^ 32)
      → All (λ c. c.index < 2 ^ 32) (prioritize_chunks sort missing cursor t in_flight urgent)
  unfolding prioritize_chunks
  prioritized-small cursor t in_flight urgent missing below =
      let cs = candidates missing cursor t in_flight urgent in
      bounded_below (2 ^ 32) (sort cs) (
        sorts.same (λ c. not (ltb c.index (2 ^ 32))) cs
        ∙ candidates-small cursor t in_flight urgent missing (2 ^ 32)
            (below_bound (2 ^ 32) missing below))

  abbrev pub assigned : ℤ → Tracker → List ℕ → List ℕ → List ℕ → List ℕ × Batches
  assigned cursor t in_flight urgent missing =
      assign floats swarm (prioritize_chunks sort missing cursor t in_flight urgent)
        (16 - length in_flight) in_flight []

  pub asked-assigned :
      (cursor : ℤ) (t : Tracker) (in_flight urgent missing : List ℕ) (j : ℕ)
      → ((j : ℕ) → contains j missing ≡ true → j < 2 ^ 32)
      → asked j (assigned cursor t in_flight urgent missing).1 ≡ true
      → (contains j missing ≡ true)
        × (contains j in_flight ≡ false)
        × (is_empty (peer_ids_with_chunk t (pos j)) ≡ false)
  unfolding asked
  asked-assigned cursor t in_flight urgent missing j below h =
      elim (asked-assign floats swarm j _ (16 - length in_flight) in_flight []
        (prioritized-small cursor t in_flight urgent missing below) h) [
          | inl before ↦ absurd (false≢true before)
          | inr counted ↦ ground (
            arith,
            counted,
            contains-count_if j missing,
            prioritize_chunks_lem sort sorts cursor t in_flight urgent missing j any_holder,
          )
        ]

  pub contains-assigned :
      (cursor : ℤ) (t : Tracker) (in_flight urgent missing : List ℕ) (j : ℕ)
      → ((j : ℕ) → contains j missing ≡ true → j < 2 ^ 32)
      → contains j (assigned cursor t in_flight urgent missing).0
        ≡ (contains j in_flight || asked j (assigned cursor t in_flight urgent missing).1)
  unfolding asked
  contains-assigned cursor t in_flight urgent missing j below =
      assign-asked floats swarm in_flight j _ (16 - length in_flight) in_flight []
        (prioritized-small cursor t in_flight urgent missing below) (ground arith)

-- What a tick leaves in flight, and what it asks for.
module _ {F : Type 0} (floats : Floats F) (sort : List ChunkCandidate → List ChunkCandidate)
    (now : ℕ) where
  -- The state behind the timeouts.
  abbrev pub freed : Scheduler → Swarm F → List ℕ
  freed s swarm = delete_all (time_out floats now swarm.peers).1 s.in_flight

  abbrev pub waiting : Swarm F → Swarm F
  waiting swarm = record swarm { peers = (time_out floats now swarm.peers).0 }

  module _ (sha256 : Bytes → Digest) (orig : Bytes) (cs : ℕ) (name : Bytes) (store : Store)
      (genuine : IsGenuine sha256 orig cs name store) (small : chunk_total orig cs ≤ 2 ^ 32)
      (sorts : IsSort sort) where
    -- A tick on a store that keeps the invariant and a swarm with a tracker succeeds, for a sort that
    -- does what sort.Slice promises. Afterwards at most 16 chunks are in flight if that was so before.
    -- In flight are those that were so and did not time out, and those that the tick sends requests
    -- for; it does so only for chunks that the store has not got, that are not in flight, and that a
    -- peer is known to have.
    pub tick-requests :
        (s : Scheduler) (swarm : Swarm F) (t : Tracker)
        → swarm.tracker ≡ some t
        → length s.in_flight ≤ 16
        → (s' : Scheduler) × (batches : Batches) × (tick floats sort now store (s, swarm)
            ≡ ok (s', send_batches now batches (waiting swarm)))
          × (length s'.in_flight ≤ 16)
          × ((j : ℕ) → contains j s'.in_flight ≡ (contains j (freed s swarm) || asked j batches))
          × ((j : ℕ)
              → asked j batches ≡ true
              → (j < chunk_total orig cs)
                × (bit_at store.bitfield j ≡ false)
                × (contains j (freed s swarm) ≡ false)
                × (is_empty (peer_ids_with_chunk t (pos j)) ≡ false))
    unfolding tick schedule release_in_flight fill_budget send_batches asked
    tick-requests s swarm t tracked few =
        let late = (time_out floats now swarm.peers).1 in
        let kept = freed s swarm in
        let shrunk : length kept ≤ 16 = omega (arith, length-delete_all late s.in_flight) in
        let (missing, is, listed, counted) =
          missing_chunks-IsGenuine sha256 orig cs name store genuine in
        let below : (j : ℕ) → contains j missing ≡ true → j < 2 ^ 32 =
          λ j h. ground (arith, h, listed j, small) in
        let r = assigned floats (waiting swarm) sort sorts s.cursor t kept s.urgent missing in
        elim (Bool-cases (leb 16 (length kept))) [
          | inl full ↦ (
            release_in_flight late s,
            [],
            rw full refl,
            shrunk,
            λ j. ground arith,
            λ j h. absurd (false≢true h),
          )
          | inr room ↦ (
            record s { in_flight = r.0 },
            r.1,
            rw (room, is, tracked) refl,
            omega
                (arith, shrunk, length-assign floats (waiting swarm) _ (16 - length kept) kept []),
            λ j.
                contains-assigned floats (waiting swarm) sort sorts s.cursor t kept s.urgent missing
                  j below,
            λ j h.
                let (wanted, free, held) =
                  asked-assigned floats (waiting swarm) sort sorts s.cursor t kept s.urgent missing
                    j below h in
                (ground (arith, wanted, listed j), ground (arith, wanted, listed j), free, held),
          )
        ]
