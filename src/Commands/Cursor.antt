-- ===== src/Commands/Cursor.antt =====
-- cmd/join.go: the cursor is a chunk of the manifest.
use peerwatch.Base.{ℕ, zero, suc, ◌-◌, ap, ◌<◌, ◌≡◌, ◌≢◌, refl, ◌^◌, false, arith}
use peerwatch.Base.Int.{ℤ, pos, negsuc, eqb_ℤ, sub64, sub64_pos, quot64}
use native.Mathlib.Decide.{dec_le}
use peerwatch.Base.Floats.{Floats}
use peerwatch.Base.Results.{ok, panic}
use peerwatch.Chunk.Manifest.{Manifest}
use peerwatch.Commands.{clamp_index, chunk_index}

clamp_index-below :
    (count : ℕ) (i : ℤ)
    → 0 < count
    → count < 2 ^ 63
    → (k : ℕ) × (clamp_index count i ≡ pos k) × (k < count)
unfolding clamp_index
clamp_index-below count (pos i) some fits =
    let last : sub64 (pos count) (pos 1) ≡ pos (count - 1) = sub64_pos count 1 some fits in
    elim (dec_le count i) [
      | yes beyond ↦ (count - 1, ground (arith, last), omega arith)
      | no within ↦ (i, ground arith, omega arith)
    ]
clamp_index-below count (negsuc i) some fits = (0, ground arith, some)

other-zero : (x : ℤ) → x ≢ pos 0 → eqb_ℤ x (pos 0) ≡ false
other-zero (pos zero) h = absurd (h refl)
other-zero (pos (suc n)) h = ground arith
other-zero (negsuc n) h = ground arith

module _ {F : Type 0} (floats : Floats F) (to_int64 : F → ℤ) where
  -- Whatever the player answers, and however float64 is converted: for a manifest with a chunk, fewer than
  -- 2^63 of them, and a chunk size that is not 0 the cursor is a chunk's index. With a chunk size of 0
  -- the loop panics.
  pub chunk_index-below :
      (m : Manifest) (position duration : F)
      → 0 < m.chunk_count
      → m.chunk_count < 2 ^ 63
      → (m.chunk_size ≢ pos 0
          → (k : ℕ) × (chunk_index floats to_int64 {E = Unit {0}} m position duration ≡ ok (pos k))
            × (k < m.chunk_count))
        × (m.chunk_size ≡ pos 0
            → chunk_index floats to_int64 {E = Unit {0}} m position duration ≡ panic)
  unfolding chunk_index
  chunk_index-below m position duration some fits = (
    λ sized.
        let offset =
          to_int64 (floats.times (floats.over position duration) (floats.of_int m.file_size)) in
        let (k, is, below) =
          clamp_index-below m.chunk_count (quot64 offset m.chunk_size) some fits in
        (k, rw (other-zero m.chunk_size sized) (ap ok is), below),
    λ empty. rw empty refl,
  )
