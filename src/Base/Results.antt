-- ===== src/Base/Results.antt =====
-- What a Go call gives back: a value, an error value, or a run-time panic.

pub data Result {ℓ κ} (E : Type ℓ) (A : Type κ) : Type (ℓ ⊔ κ) where
  ok : A → Result E A
  err : E → Result E A
  panic : Result E A

infixl 5 ◌>>=◌
abbrev pub ◌>>=◌ {ℓ κ ι} :
    {E : Type ℓ} {A : Type κ} {B : Type ι} → Result E A → (A → Result E B) → Result E B
ok a >>= f = f a
err e >>= f = err e
panic >>= f = panic

-- `fmt.Errorf("...: %w", err)`.
abbrev pub wrap_error {ℓ κ ι} :
    {E : Type ℓ} {F : Type κ} {A : Type ι} → (E → F) → Result E A → Result F A
wrap_error w (ok a) = ok a
wrap_error w (err e) = err (w e)
wrap_error w panic = panic
