-- ===== src/Base/Keys.antt =====
-- A Go map as the list of its keys. Go ranges over a map in an order that it does not fix; here it is
-- the order of the list, and nothing that is proved depends on which order that is.
use Prim.Native.Nat.{ℕ}
use mathlib.Core.Path.{◌≡◌, refl, ap}
use mathlib.Core.Logic.{inl, inr}
use mathlib.Core.Bool.{Bool, true, false, not, ◌&&◌, ◌||◌}
use mathlib.Core.List.{List, [], ◌∷◌}
use native.Mathlib.Decide.{ℕ_discrete}
use native.Mathlib.Omega.{arith}
use peerwatch.Base.Tests.{◌==◌, if◌then◌else◌, Bool-cases}

unfoldable pub contains : ℕ → List ℕ → Bool
contains k [] = false
contains k (x ∷ xs) = (x == k) || contains k xs

unfoldable pub insert_key : ℕ → List ℕ → List ℕ
unfolding contains
insert_key k xs = if contains k xs then xs else k ∷ xs

unfoldable pub delete_key : ℕ → List ℕ → List ℕ
delete_key k [] = []
delete_key k (x ∷ xs) = if x == k then delete_key k xs else x ∷ delete_key k xs

-- No key stands twice.
unfoldable pub Distinct : List ℕ → Type 0
unfolding contains
Distinct [] = Unit
Distinct (x ∷ xs) = (contains x xs ≡ false) × Distinct xs

same_key :
    (k l : ℕ) (xs : List ℕ) → contains k xs ≡ true → contains l xs ≡ ((k == l) || contains l xs)
same_key k l xs there = elim (ℕ_discrete k l) [
  | yes e ↦ ground (arith, there, ap (λ z. contains z xs) e)
  | no ne ↦ ground arith
]

pub contains-insert_key :
    (k l : ℕ) (xs : List ℕ) → contains l (insert_key k xs) ≡ ((k == l) || contains l xs)
unfolding insert_key contains
contains-insert_key k l xs = elim (Bool-cases (contains k xs)) [
  | inl there ↦ rw there (same_key k l xs there)
  | inr absent ↦ rw absent refl
]

pub contains-delete_key :
    (k l : ℕ) (xs : List ℕ) → contains l (delete_key k xs) ≡ (not (k == l) && contains l xs)
unfolding delete_key contains
contains-delete_key k l [] = ground arith
contains-delete_key k l (x ∷ xs) = ground (arith, contains-delete_key k l xs)

pub insert_key-Distinct : (k : ℕ) (xs : List ℕ) → Distinct xs → Distinct (insert_key k xs)
unfolding insert_key Distinct
insert_key-Distinct k xs d = elim (Bool-cases (contains k xs)) [
  | inl there ↦ rw there d
  | inr absent ↦ rw absent (absent, d)
]

pub delete_key-Distinct : (k : ℕ) (xs : List ℕ) → Distinct xs → Distinct (delete_key k xs)
unfolding delete_key Distinct
delete_key-Distinct k [] d = tt
delete_key-Distinct k (x ∷ xs) (apart, d) = elim (Bool-cases (x == k)) [
  | inl same ↦ rw same (delete_key-Distinct k xs d)
  | inr other ↦ rw other (ground (arith, contains-delete_key k x xs), delete_key-Distinct k xs d)
]
