-- ===== src/Base/Entries.antt =====
-- A Go map with numbers as keys, as the list of its entries, in the order in which Go ranges over it.
use Prim.Native.Nat.{ℕ, suc}
use mathlib.Core.Path.{◌≡◌, refl, ap}
use mathlib.Core.Option.{Option, none, some}
use mathlib.Core.List.{List, [], ◌∷◌}
use native.Mathlib.Omega.{arith}
use peerwatch.Base.Tests.{◌==◌, if◌then◌else◌}
use peerwatch.Base.Lists.{length}

module _ {ℓ} {A : Type ℓ} where
  abbrev pub lookup : ℕ → List (ℕ × A) → Option A
  lookup k [] = none
  lookup k ((x, a) ∷ es) = if x == k then some a else lookup k es

  abbrev pub put : ℕ → A → List (ℕ × A) → List (ℕ × A)
  put k v [] = (k, v) ∷ []
  put k v ((x, a) ∷ es) = if x == k then (x, v) ∷ es else (x, a) ∷ put k v es

  abbrev pub remove : ℕ → List (ℕ × A) → List (ℕ × A)
  remove k [] = []
  remove k ((x, a) ∷ es) = if x == k then remove k es else (x, a) ∷ remove k es

  abbrev pub keys : List (ℕ × A) → List ℕ
  keys [] = []
  keys ((x, a) ∷ es) = x ∷ keys es

module _ {ℓ} {A : Type ℓ} where
  pub lookup-put :
      (k l : ℕ) (v : A) (es : List (ℕ × A))
      → lookup l (put k v es) ≡ (if k == l then some v else lookup l es)
  lookup-put k l v [] = refl
  lookup-put k l v ((x, a) ∷ es) = ground (arith, lookup-put k l v es)

  pub lookup-remove :
      (k l : ℕ) (es : List (ℕ × A))
      → lookup l (remove k es) ≡ (if k == l then none else lookup l es)
  lookup-remove k l [] = ground arith
  lookup-remove k l ((x, a) ∷ es) = ground (arith, lookup-remove k l es)

  pub length-keys : (es : List (ℕ × A)) → length (keys es) ≡ length es
  length-keys [] = refl
  length-keys ((x, a) ∷ es) = ap suc (length-keys es)
