-- ===== src/Protocol/Progress.antt =====
-- internal/protocol/codec.go: a message that ReadMessage gives has taken bytes from the stream.
use peerwatch.Base.{ℕ, zero, suc, ◌+◌, ◌≤◌, ◌≡◌, refl, sym, subst, inl, inr, [], ◌∷◌, arith}
use peerwatch.Base.Tests.{ltb, ◌==◌, Bool-cases}
use peerwatch.Base.Lists.{length, length-drop}
use peerwatch.Base.Results.{Result, ok, err, panic}
use peerwatch.Protocol.Message.{Bytes, Message}
use peerwatch.Protocol.Wire.{ReadError, read_full}
use peerwatch.Protocol.Decode.{
  DecodeError, Reader, ◌>>=◌, read_bytes, read_uint, check_length, decode_body, with_rest,
  read_message, body_read, length_read, max_message_size,
}

-- A result, if it is one, leaves at least `k` bytes fewer than `r`.
abbrev pub Consumes : {E A : Type 0} → ℕ → Bytes → Result E (A × Bytes) → Type 0
Consumes k r (ok (a, rest)) = length rest + k ≤ length r
Consumes k r (err e) = Unit
Consumes k r panic = Unit

read_full-Consumes : (n : ℕ) (r : Bytes) → Consumes n r (read_full n r)
unfolding read_full
read_full-Consumes zero r = omega arith
read_full-Consumes (suc n) [] = tt
read_full-Consumes (suc n) (b ∷ r) = elim (Bool-cases (ltb (length (b ∷ r)) (suc n))) [
  | inl short ↦ rw short tt
  | inr enough ↦ rw enough (ground (arith, length-drop (suc n) (b ∷ r), enough))
]

read_bytes-Consumes :
    (n : ℕ) (w : ReadError → DecodeError) (r : Bytes) → Consumes n r (read_bytes n w r)
unfolding read_bytes
read_bytes-Consumes n w r = go (read_full n r) (read_full-Consumes n r)
  where
    go :
        (x : Result ReadError (Bytes × Bytes))
        → Consumes n r x
        → Consumes n r (elim x as (λ _. Result DecodeError (Bytes × Bytes)) [
          | ok (bs, r') ↦ ok (bs, r')
          | err e ↦ err (w e)
          | panic ↦ panic
        ])
    go (ok (bs, r')) c = c
    go (err e) c = tt
    go panic c = tt

raise :
    {A : Type 0} (k l : ℕ) (r r' : Bytes) (x : Result DecodeError (A × Bytes))
    → length r' + k ≤ length r
    → Consumes l r' x
    → Consumes (k + l) r x
raise k l r r' (ok (a, rest)) h c = omega arith
raise k l r r' (err e) h c = tt
raise k l r r' panic h c = tt

-- A second reader behind the first.
unfoldable pub after :
    {A B : Type 0}
    → (A → Reader B)
    → Result DecodeError (A × Bytes)
    → Result DecodeError (B × Bytes)
after f (ok (a, r')) = f a r'
after f (err e) = err e
after f panic = panic

after-Consumes :
    {A B : Type 0} (f : A → Reader B) (k l : ℕ) (r : Bytes) (x : Result DecodeError (A × Bytes))
    → Consumes k r x
    → ((a : A) (r' : Bytes) → Consumes l r' (f a r'))
    → Consumes (k + l) r (after f x)
unfolding after
after-Consumes f k l r (ok (a, r')) c d = raise k l r r' (f a r') c (d a r')
after-Consumes f k l r (err e) c d = tt
after-Consumes f k l r panic c d = tt

pub bind_after :
    {A B : Type 0} (m : Reader A) (f : A → Reader B) (r : Bytes) → (m >>= f) r ≡ after f (m r)
unfolding after
bind_after {B} m f r =
    elim (m r)
      as (λ x.
        elim x as (λ _. Result DecodeError (B × Bytes)) [
          | ok (a, r') ↦ f a r'
          | err e ↦ err e
          | panic ↦ panic
        ]
        ≡ after f x) [ ok (a, r') ↦ refl | err e ↦ refl | panic ↦ refl ]

bind-Consumes :
    {A B : Type 0} (m : Reader A) (f : A → Reader B) (k l : ℕ) (r : Bytes)
    → Consumes k r (m r)
    → ((a : A) (r' : Bytes) → Consumes l r' (f a r'))
    → Consumes (k + l) r ((m >>= f) r)
bind-Consumes m f k l r c d =
    subst (Consumes (k + l) r) (sym (bind_after m f r)) (after-Consumes f k l r (m r) c d)

check_length-Consumes : (n : ℕ) (r : Bytes) → Consumes 0 r (check_length n r)
unfolding check_length
check_length-Consumes n r = elim (Bool-cases (n == 0)) [
  | inl empty ↦ rw empty tt
  | inr some ↦ rw some (elim (Bool-cases (ltb max_message_size n)) [
    | inl above ↦ rw above tt
    | inr within ↦ rw within (omega arith)
  ])
]

weaken :
    {E A : Type 0} (k : ℕ) (r : Bytes) (x : Result E (A × Bytes)) → Consumes k r x → Consumes 0 r x
weaken k r (ok (a, rest)) c = omega arith
weaken k r (err e) c = tt
weaken k r panic c = tt

with_rest-Consumes : (r : Bytes) (x : Result DecodeError Message) → Consumes 0 r (with_rest r x)
with_rest-Consumes r (ok m) = omega arith
with_rest-Consumes r (err e) = tt
with_rest-Consumes r panic = tt

-- A message that is read has taken the four bytes of its prefix at least.
pub read_message-Consumes : (r : Bytes) → Consumes 4 r (read_message r)
unfolding read_message read_uint
read_message-Consumes r =
    bind-Consumes (read_uint 4 length_read) _ 4 0 r
      (bind-Consumes (read_bytes 4 length_read) _ 4 0 r (read_bytes-Consumes 4 length_read r)
        (λ bs r'. omega arith))
      (λ prefix r₁.
        bind-Consumes (check_length prefix) _ 0 0 r₁ (check_length-Consumes prefix r₁) (λ n r₂.
          bind-Consumes (read_bytes n body_read) _ 0 0 r₂
            (weaken n r₂ (read_bytes n body_read r₂) (read_bytes-Consumes n body_read r₂))
            (λ body r₃. with_rest-Consumes r₃ (decode_body body))))
