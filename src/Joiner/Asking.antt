-- ===== src/Joiner/Asking.antt =====
-- internal/scheduler: a tick of a joiner whose only peer has every chunk asks that peer for some.
use peerwatch.Base.{◌≤◌}
use peerwatch.Base.{
  ℕ, zero, suc, ◌%◌, ◌^◌, ◌<◌, ◌≡◌, refl, sym, ap, ◌∙◌, Bool, true, false, not, some, List, [], ◌∷◌,
  ◌++◌, append-nil, append_assoc, arith,
}
use peerwatch.Base.Tests.{◌==◌, ==_refl, ==_iff}
use peerwatch.Base.Lists.{length, All}
use peerwatch.Base.Keys.{contains, insert_key}
use peerwatch.Base.Int.{ℤ, pos}
use peerwatch.Base.Floats.{Floats}
use peerwatch.Peer.Connection.{Peer, in_flight_count}
use peerwatch.Peer.Tracker.{Tracker, peer_ids_with_chunk}
use peerwatch.Peer.Swarm.{Swarm, get_peer}
use peerwatch.Scheduler.Strategy.{
  ChunkCandidate, prioritize_chunks, candidates, consider, select_peer, select_from, weigh, better,
}
use peerwatch.Scheduler.Order.{count_if, IsSort}
use peerwatch.Scheduler.Tick.{add_request, assign}

-- The list has this one element.
abbrev pub only : ℕ → List ℕ → Bool
only host [] = false
only host (x ∷ []) = x == host
only host (x ∷ y ∷ ids) = false

count_if-none :
    {A : Type 0} (f : A → Bool) (xs : List A)
    → count_if (λ x. not (f x)) xs ≡ 0
    → All (λ x. f x ≡ true) xs
unfolding count_if
count_if-none f [] h = tt
count_if-none f (x ∷ xs) h = (ground (arith, h), count_if-none f xs (ground (arith, h)))

module _ (host : ℕ) (t : Tracker) (n : ℕ)
    (rows : (i : ℕ) → i < n → peer_ids_with_chunk t (pos i) ≡ host ∷ []) where
  candidates-only :
      (cursor : ℤ) (urgent missing : List ℕ)
      → All (λ i. i < n) missing
      → (count_if (λ c. not (only host c.peer_ids)) (candidates missing cursor t [] urgent) ≡ 0)
        × (count_if (λ c. true) (candidates missing cursor t [] urgent) ≡ length missing)
  unfolding candidates consider count_if contains
  candidates-only cursor urgent [] inside = (refl, refl)
  candidates-only cursor urgent (i ∷ missing) (here, inside) =
      let (holders, number) = candidates-only cursor urgent missing inside in
      rw (rows i here) (ground (arith, holders, ==_refl host), ground (arith, number))

  pub prioritized-only :
      (sort : List ChunkCandidate → List ChunkCandidate)
      → IsSort sort
      → (cursor : ℤ) (urgent missing : List ℕ) → All (λ i. i < n) missing
      → 0 < length missing
      → (c : ChunkCandidate) × (cs : List ChunkCandidate) × (prioritize_chunks sort missing cursor t
            [] urgent
          ≡ c ∷ cs)
        × All (λ d. only host d.peer_ids ≡ true) (c ∷ cs)
  unfolding prioritize_chunks count_if
  prioritized-only sort sorts cursor urgent missing inside some_left =
      let (holders, number) = candidates-only cursor urgent missing inside in
      go (prioritize_chunks sort missing cursor t [] urgent) refl
        (sorts.same (λ c. not (only host c.peer_ids)) (candidates missing cursor t [] urgent)
          ∙ holders)
        (sorts.same (λ c. true) (candidates missing cursor t [] urgent) ∙ number)
    where
      go :
          (sorted : List ChunkCandidate)
          → prioritize_chunks sort missing cursor t [] urgent ≡ sorted
          → count_if (λ c. not (only host c.peer_ids)) sorted ≡ 0
          → count_if (λ c. true) sorted ≡ length missing
          → (c : ChunkCandidate) × (cs : List ChunkCandidate) × (prioritize_chunks sort missing
                cursor t [] urgent
              ≡ c ∷ cs)
            × All (λ d. only host d.peer_ids ≡ true) (c ∷ cs)
      go [] e h k = absurd (omega (arith, k, some_left))
      go (c ∷ cs) e h k = (c, cs, e, count_if-none (λ d. only host d.peer_ids) (c ∷ cs) h)

module _ {F : Type 0} (floats : Floats F) (host : ℕ) (p : Peer F) where
  -- The host, open and with no requests.
  abbrev pub idle : Peer F
  idle = record p { id = host; closed = false; in_flight = [] }

  module _ (w : Swarm F) (t : Tracker) where
    abbrev pub with_host : Swarm F
    with_host = record w { tracker = some t; peers = (host, idle) ∷ [] }

    select_peer-only :
        (ids : List ℕ) → only host ids ≡ true → select_peer floats with_host ids ≡ some idle
    unfolding select_peer select_from weigh better get_peer in_flight_count
    select_peer-only [] h = cc
    select_peer-only (x ∷ []) h =
        let e : x ≡ host = (==_iff x host).0 h in rw (e, ==_refl host) refl
    select_peer-only (x ∷ y ∷ ids) h = cc

    assign-more :
        (cs : List ChunkCandidate) (budget : ℕ) (in_flight xs : List ℕ)
        → All (λ d. only host d.peer_ids ≡ true) cs
        → (ys : List ℕ) × ((assign floats with_host cs budget in_flight ((host, xs) ∷ [])).1
            ≡ (host, xs ++ ys) ∷ [])
          × (length ys ≤ budget)
    unfolding assign add_request
    assign-more [] budget in_flight xs h =
        ([], ap (λ l. (host, l) ∷ []) (sym (append-nil xs)), omega arith)
    assign-more (c ∷ cs) zero in_flight xs h =
        ([], ap (λ l. (host, l) ∷ []) (sym (append-nil xs)), omega arith)
    assign-more (c ∷ cs) (suc budget) in_flight xs (here, h) =
        let (ys, is, few) =
          assign-more cs budget (insert_key c.index in_flight) (xs ++ (c.index % 2 ^ 32) ∷ []) h in
        (
          (c.index % 2 ^ 32) ∷ ys,
          rw (select_peer-only c.peer_ids here, assign)
              (rw (==_refl host)
                (is ∙ ap (λ l. (host, l) ∷ []) (append_assoc xs ((c.index % 2 ^ 32) ∷ []) ys))),
          omega (arith, few),
        )

    pub assign-only :
        (c : ChunkCandidate) (cs : List ChunkCandidate)
        → All (λ d. only host d.peer_ids ≡ true) (c ∷ cs)
        → (ys : List ℕ) × ((assign floats with_host (c ∷ cs) 16 [] []).1
            ≡ (host, (c.index % 2 ^ 32) ∷ ys) ∷ [])
          × (length ys ≤ 15)
    unfolding assign add_request
    assign-only c cs (here, h) =
        let (ys, is, few) = assign-more cs 15 (insert_key c.index []) ((c.index % 2 ^ 32) ∷ []) h in
        (ys, rw (select_peer-only c.peer_ids here, assign) is, few)
