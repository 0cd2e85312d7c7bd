-- ===== src/Peer/InFlight.antt =====
-- internal/peer/peer.go: the requests that a peer has in flight.
use peerwatch.Base.{
  ℕ, ◌+◌, ◌-◌, ◌≡◌, refl, subst, inl, inr, Bool, true, false, Option, none, some, List, [], ◌∷◌,
  arith,
}
use peerwatch.Base.Tests.{ltb, ◌==◌, if◌then◌else◌, Bool-cases}
use peerwatch.Base.Lists.{length}
use peerwatch.Base.Keys.{contains, Distinct}
use peerwatch.Base.Entries.{lookup, keys}
use peerwatch.Base.Floats.{Floats}
use peerwatch.Peer.Connection.{Peer, sweep, timeout_in_flight, in_flight_count}

-- The request is there, and older than the limit.
abbrev pub overdue : ℕ → ℕ → Option ℕ → Bool
overdue limit now none = false
overdue limit now (some asked) = ltb limit (now - asked)

lookup-absent : (k : ℕ) (es : List (ℕ × ℕ)) → contains k (keys es) ≡ false → lookup k es ≡ none
unfolding contains
lookup-absent k [] h = refl
lookup-absent k ((x, a) ∷ es) h = ground (arith, lookup-absent k es)

-- The first entry of a map is the only one of its key.
lookup-rest :
    (x k : ℕ) (es : List (ℕ × ℕ))
    → contains x (keys es) ≡ false
    → (x == k) ≡ true
    → lookup k es ≡ none
lookup-rest x k es absent same =
    subst (λ z. lookup z es ≡ none) (ground arith) (lookup-absent x es absent)

module _ {F : Type 0} (floats : Floats F) (limit now : ℕ) where
  sweep-kept :
      (speed : F) (es : List (ℕ × ℕ)) (k : ℕ)
      → Distinct (keys es)
      → lookup k (sweep floats limit now speed es).2
        ≡ (if overdue limit now (lookup k es) then none else lookup k es)
  unfolding sweep Distinct
  sweep-kept speed [] k d = refl
  sweep-kept speed ((x, asked) ∷ es) k d = elim (Bool-cases (ltb limit (now - asked))) [
    | inl late ↦ rw late (
        ground (
          arith,
          sweep-kept (floats.times speed (floats.decimal 5 1)) es k d.1,
          lookup-rest x k es d.0,
        ))
    | inr kept ↦ rw kept (ground (arith, sweep-kept speed es k d.1, lookup-rest x k es d.0))
  ]

  sweep-late :
      (speed : F) (es : List (ℕ × ℕ)) (k : ℕ)
      → Distinct (keys es)
      → contains k (sweep floats limit now speed es).1 ≡ overdue limit now (lookup k es)
  unfolding sweep Distinct contains
  sweep-late speed [] k d = refl
  sweep-late speed ((x, asked) ∷ es) k d = elim (Bool-cases (ltb limit (now - asked))) [
    | inl late ↦ rw late (
        ground (
          arith,
          sweep-late (floats.times speed (floats.decimal 5 1)) es k d.1,
          lookup-rest x k es d.0,
        ))
    | inr kept ↦ rw kept (ground (arith, sweep-late speed es k d.1, lookup-rest x k es d.0))
  ]

  sweep-count :
      (speed : F) (es : List (ℕ × ℕ))
      → length (sweep floats limit now speed es).1 + length (sweep floats limit now speed es).2
        ≡ length es
  unfolding sweep
  sweep-count speed [] = refl
  sweep-count speed ((x, asked) ∷ es) = elim (Bool-cases (ltb limit (now - asked))) [
    | inl late ↦ rw late (omega (arith, sweep-count (floats.times speed (floats.decimal 5 1)) es))
    | inr kept ↦ rw kept (omega (arith, sweep-count speed es))
  ]

  -- TimeoutInFlight, on a peer whose entries have different keys: it returns the indices of just the
  -- requests older than the limit, and takes those and no other out of the map, whose size goes down
  -- by their number.
  pub timeout_in_flight_lem :
      (p : Peer F) (index : ℕ)
      → Distinct (keys p.in_flight)
      → (contains index (timeout_in_flight floats limit now p).1
          ≡ overdue limit now (lookup index p.in_flight))
        × (lookup index (timeout_in_flight floats limit now p).0.in_flight ≡ (
            if overdue limit now (lookup index p.in_flight)
            then none
            else lookup index p.in_flight))
        × (length (timeout_in_flight floats limit now p).1
              + in_flight_count (timeout_in_flight floats limit now p).0
            ≡ in_flight_count p)
  unfolding timeout_in_flight in_flight_count
  timeout_in_flight_lem p index d = (
    sweep-late p.speed p.in_flight index d,
    sweep-kept p.speed p.in_flight index d,
    sweep-count p.speed p.in_flight,
  )
