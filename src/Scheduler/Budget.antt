-- ===== src/Scheduler/Budget.antt =====
-- internal/scheduler/scheduler.go: how many requests a tick leaves in flight, and which.
use peerwatch.Base.{
  ℕ, zero, suc, ◌+◌, ◌%◌, ◌^◌, ◌≤◌, ◌<◌, ◌≡◌, refl, inl, inr, Bool, false, ◌||◌, List, [], ◌∷◌,
  ◌++◌, arith,
}
use peerwatch.Base.Tests.{◌==◌, Bool-cases, Option-cases}
use peerwatch.Base.Lists.{length, All}
use peerwatch.Base.Keys.{contains, insert_key, delete_key, contains-insert_key}
use peerwatch.Base.Floats.{Floats}
use peerwatch.Peer.Swarm.{Swarm}
use peerwatch.Scheduler.Strategy.{ChunkCandidate, select_peer}
use peerwatch.Scheduler.Tick.{Batches, add_request, delete_all, assign}

length-insert_key : (k : ℕ) (xs : List ℕ) → length (insert_key k xs) ≤ suc (length xs)
unfolding insert_key
length-insert_key k xs = ground arith

pub length-delete_key : (k : ℕ) (xs : List ℕ) → length (delete_key k xs) ≤ length xs
unfolding delete_key
length-delete_key k [] = omega arith
length-delete_key k (x ∷ xs) = ground (arith, length-delete_key k xs)

pub length-delete_all : (ks xs : List ℕ) → length (delete_all ks xs) ≤ length xs
unfolding delete_all
length-delete_all [] xs = omega arith
length-delete_all (k ∷ ks) xs =
    omega (arith, length-delete_all ks (delete_key k xs), length-delete_key k xs)

-- A chunk is in one of the batches.
unfoldable pub asked : ℕ → Batches → Bool
asked j [] = false
asked j ((id, indices) ∷ batches) = contains j indices || asked j batches

contains-snoc : (j i : ℕ) (xs : List ℕ) → contains j (xs ++ i ∷ []) ≡ ((i == j) || contains j xs)
unfolding contains
contains-snoc j i [] = refl
contains-snoc j i (x ∷ xs) = ground (arith, contains-snoc j i xs)

pub asked-add_request :
    (j id i : ℕ) (batches : Batches)
    → asked j (add_request id i batches) ≡ ((i == j) || asked j batches)
unfolding asked add_request
asked-add_request j id i [] = unfold contains in ground arith
asked-add_request j id i ((x, indices) ∷ batches) = elim (Bool-cases (x == id)) [
  | inl same ↦ rw same (ground (arith, contains-snoc j i indices))
  | inr other ↦ rw other (ground (arith, asked-add_request j id i batches))
]

module _ {F : Type 0} (floats : Floats F) (swarm : Swarm F) where
  pub length-assign :
      (cs : List ChunkCandidate) (budget : ℕ) (in_flight : List ℕ) (batches : Batches)
      → length (assign floats swarm cs budget in_flight batches).0 ≤ length in_flight + budget
  unfolding assign
  length-assign [] budget in_flight batches = omega arith
  length-assign (c ∷ cs) zero in_flight batches = omega arith
  length-assign (c ∷ cs) (suc budget) in_flight batches =
      elim (Option-cases (select_peer floats swarm c.peer_ids)) [
        | inl absent ↦ rw (absent, assign) (length-assign cs (suc budget) in_flight batches)
        | inr (p, found) ↦
            rw (found, assign)
              (omega (
                arith,
                length-insert_key c.index in_flight,
                length-assign cs budget (insert_key c.index in_flight)
                    (add_request p.id (c.index % 2 ^ 32) batches),
              ))
      ]

  -- What is in flight behind the loop was so before, or is in a batch.
  pub assign-asked :
      (start : List ℕ) (j : ℕ) (cs : List ChunkCandidate) (budget : ℕ) (in_flight : List ℕ)
      (batches : Batches)
      → All (λ c. c.index < 2 ^ 32) cs
      → contains j in_flight ≡ (contains j start || asked j batches)
      → contains j (assign floats swarm cs budget in_flight batches).0
        ≡ (contains j start || asked j (assign floats swarm cs budget in_flight batches).1)
  unfolding assign
  assign-asked start j [] budget in_flight batches small h = h
  assign-asked start j (c ∷ cs) zero in_flight batches small h = h
  assign-asked start j (c ∷ cs) (suc budget) in_flight batches (short, small) h =
      elim (Option-cases (select_peer floats swarm c.peer_ids)) [
        | inl absent ↦
            rw (absent, assign) (assign-asked start j cs (suc budget) in_flight batches small h)
        | inr (p, found) ↦
            rw (found, assign)
              (assign-asked start j cs budget (insert_key c.index in_flight) _ small (
                ground (
                  arith,
                  contains-insert_key c.index j in_flight,
                  asked-add_request j p.id (c.index % 2 ^ 32) batches,
                )))
      ]
