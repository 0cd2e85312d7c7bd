-- ===== src/Chunk/Bitfield.antt =====
-- internal/chunk/store.go: makeBitfield, setBit and hasBit. Bit 0 of byte 0 is the most significant
-- bit. An index is not negative here; one behind the last byte panics.
use peerwatch.Base.{
  ℕ, zero, suc, ◌+◌, ◌-◌, ◌/◌, ◌%◌, ◌^◌, ◌<◌, bit_and, bit_or, ◌≡◌, refl, ◌∙◌, Bool, true, false,
  not, ◌&&◌, ◌||◌, [], ◌∷◌, arith,
}
use peerwatch.Base.Tests.{ltb, ◌==◌, if◌then◌else◌}
use peerwatch.Base.Lists.{
  length, get_or, set, replicate, All, length-set, length-replicate, get_or-set_self, get_or-set_ne,
}
use peerwatch.Base.Tables.{fails_below, passes_below}
use peerwatch.Base.Results.{Result, ok, panic}
use Prim.Native.Nat.{bit_and-bitwise}
use native.Mathlib.Decide.{ℕ_discrete}
use peerwatch.Protocol.Message.{Bytes}

unfoldable pub make_bitfield : ℕ → Bytes
make_bitfield count = replicate ((count + 7) / 8) 0

abbrev pub bit_mask : ℕ → ℕ
bit_mask index = 2 ^ (7 - index % 8)

-- The bit, where the byte is there.
unfoldable pub bit_at : Bytes → ℕ → Bool
bit_at bf index = not (bit_and (get_or bf (index / 8) 0) (bit_mask index) == 0)

unfoldable pub put_bit : Bytes → ℕ → Bytes
put_bit bf index = set bf (index / 8) (bit_or (get_or bf (index / 8) 0) (bit_mask index))

unfoldable pub set_bit : {E : Type 0} → Bytes → ℕ → Result E Bytes
unfolding put_bit
set_bit bf index = if ltb (index / 8) (length bf) then ok (put_bit bf index) else panic

unfoldable pub has_bit : {E : Type 0} → Bytes → ℕ → Result E Bool
unfolding bit_at
has_bit bf index = if ltb (index / 8) (length bf) then ok (bit_at bf index) else panic

abbrev test_bit : ℕ → ℕ → Bool
test_bit b j = not (bit_and b (2 ^ j) == 0)

abbrev iff_bool : Bool → Bool → Bool
iff_bool true b = b
iff_bool false b = not b

-- One byte, one bit set in it and one bit read: all 16384 cases.
abbrev or_case : ℕ → ℕ → ℕ → Bool
or_case b j k =
    iff_bool (test_bit (bit_or b (2 ^ j)) k) ((j == k) || test_bit b k)
    && ltb (bit_or b (2 ^ j)) 256

abbrev or_row : ℕ → ℕ → Bool
or_row b j = not (fails_below (or_case b j) 8)

abbrev or_byte : ℕ → Bool
or_byte b = not (fails_below (or_row b) 8)

or_table : fails_below or_byte 256 ≡ false
unfolding fails_below
or_table = refl

abbrev pub IsBytes : Bytes → Type 0
IsBytes bf = All (λ b. b < 256) bf

pub get_or-IsBytes : (bf : Bytes) (k : ℕ) → IsBytes bf → get_or bf k 0 < 256
get_or-IsBytes [] k h = omega arith
get_or-IsBytes (b ∷ bf) zero h = h.0
get_or-IsBytes (b ∷ bf) (suc k) h = get_or-IsBytes bf k h.1

set-IsBytes : (bf : Bytes) (k v : ℕ) → IsBytes bf → v < 256 → IsBytes (set bf k v)
set-IsBytes [] k v h l = tt
set-IsBytes (b ∷ bf) zero v h l = (l, h.1)
set-IsBytes (b ∷ bf) (suc k) v h l = (h.0, set-IsBytes bf k v h.1 l)

replicate-IsBytes : (n : ℕ) → IsBytes (replicate n 0)
replicate-IsBytes zero = tt
replicate-IsBytes (suc n) = (omega arith, replicate-IsBytes n)

not-true : {b : Bool} → not b ≡ true → b ≡ false
not-true {b} h = ground arith

-- The bit that is set, and the other bits of its byte.
or_law :
    (b j k : ℕ)
    → b < 256
    → j < 8
    → k < 8
    → (test_bit (bit_or b (2 ^ j)) k ≡ ((j == k) || test_bit b k)) × (bit_or b (2 ^ j) < 256)
or_law b j k hb hj hk = ground (arith, passed)
  where
    byte : or_byte b ≡ true
    byte = passes_below or_byte 256 or_table b hb

    row : or_row b j ≡ true
    row = passes_below (or_row b) 8 (not-true byte) j hj

    passed : or_case b j k ≡ true
    passed = passes_below (or_case b j) 8 (not-true row) k hk

pub length-put_bit : (bf : Bytes) (i : ℕ) → length (put_bit bf i) ≡ length bf
unfolding put_bit
length-put_bit bf i = length-set bf (i / 8) _

pub put_bit-IsBytes : (bf : Bytes) (i : ℕ) → IsBytes bf → IsBytes (put_bit bf i)
unfolding put_bit
put_bit-IsBytes bf i h =
    set-IsBytes bf (i / 8) _ h
      (or_law (get_or bf (i / 8) 0) (7 - i % 8) 0 (get_or-IsBytes bf (i / 8) h) (omega arith)
        (omega arith)).1

same_place : (i j : ℕ) → i / 8 ≡ j / 8 → (7 - i % 8 == 7 - j % 8) ≡ (i == j)
same_place i j e = ground arith

-- setBit sets its own bit and no other, wherever the bits lie within their bytes.
pub bit_at-put_bit :
    (bf : Bytes) (i j : ℕ)
    → IsBytes bf
    → i / 8 < length bf
    → bit_at (put_bit bf i) j ≡ ((i == j) || bit_at bf j)
unfolding bit_at put_bit
bit_at-put_bit bf i j h k = elim (ℕ_discrete (i / 8) (j / 8)) [
  | yes same ↦
      rw (← same, get_or-set_self bf (i / 8) (bit_or (get_or bf (i / 8) 0) (bit_mask i)) 0 k)
        ((or_law (get_or bf (i / 8) 0) (7 - i % 8) (7 - j % 8) (get_or-IsBytes bf (i / 8) h)
            (omega arith) (omega arith)).0
          ∙ rw (same_place i j same))
  | no other ↦
      let apart : (i == j) ≡ false = ground arith in
      rw (
        get_or-set_ne bf (i / 8) (j / 8) (bit_or (get_or bf (i / 8) 0) (bit_mask i)) 0 other,
        apart,
      )
]

get_or-zeros : (n k : ℕ) → get_or {A = ℕ} (replicate n 0) k 0 ≡ 0
get_or-zeros zero k = refl
get_or-zeros (suc n) zero = refl
get_or-zeros (suc n) (suc k) = get_or-zeros n k

pub bit_at-make_bitfield : (count j : ℕ) → bit_at (make_bitfield count) j ≡ false
unfolding bit_at make_bitfield
bit_at-make_bitfield count j =
    rw (get_or-zeros ((count + 7) / 8) (j / 8), bit_and-bitwise 0 (bit_mask j))

pub make_bitfield-IsBytes : (count : ℕ) → IsBytes (make_bitfield count)
unfolding make_bitfield
make_bitfield-IsBytes count = replicate-IsBytes _

-- Every chunk has a byte for its bit.
pub make_bitfield-room : (count i : ℕ) → i < count → i / 8 < length (make_bitfield count)
unfolding make_bitfield
make_bitfield-room count i h = omega (arith, length-replicate {A = ℕ} ((count + 7) / 8) 0)
