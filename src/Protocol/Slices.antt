-- ===== src/Protocol/Slices.antt =====
-- internal/protocol/codec.go: the slices data[i:j] and data[i:] and the elements data[i] of a payload, which
-- panic past its end.
use peerwatch.Base.{ℕ, ◌-◌, ◌≤◌, ◌<◌, ◌≡◌, refl}
use peerwatch.Base.Tests.{ltb, if◌then◌else◌, le→ltb_false, lt→ltb}
use peerwatch.Base.Lists.{length, take, drop, get_or}
use peerwatch.Base.Results.{Result, ok, panic}
use peerwatch.Protocol.Message.{Bytes}

module _ {E : Type 0} where
  unfoldable pub slice : ℕ → ℕ → Bytes → Result E Bytes
  slice i j bs = if ltb (length bs) j then panic else ok (take (j - i) (drop i bs))

  unfoldable pub slice_from : ℕ → Bytes → Result E Bytes
  slice_from i bs = if ltb (length bs) i then panic else ok (drop i bs)

  unfoldable pub byte_at : ℕ → Bytes → Result E ℕ
  byte_at i bs = if ltb i (length bs) then ok (get_or bs i 0) else panic

  pub slice_within :
      (i j : ℕ) (bs : Bytes) → j ≤ length bs → slice i j bs ≡ ok (take (j - i) (drop i bs))
  unfolding slice
  slice_within i j bs h = rw (le→ltb_false (length bs) j h) refl

  pub slice_from_within : (i : ℕ) (bs : Bytes) → i ≤ length bs → slice_from i bs ≡ ok (drop i bs)
  unfolding slice_from
  slice_from_within i bs h = rw (le→ltb_false (length bs) i h) refl

  pub byte_at_within : (i : ℕ) (bs : Bytes) → i < length bs → byte_at i bs ≡ ok (get_or bs i 0)
  unfolding byte_at
  byte_at_within i bs h = rw (lt→ltb i (length bs) h) refl
