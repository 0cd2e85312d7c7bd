-- ===== src/Chunk/Chunker/Counting.antt =====
-- How many chunks there are, and how large each is (ChunkCount and ChunkSizeAt).
use peerwatch.Base.{ℕ, suc, ◌+◌, ◌-◌, ◌*◌, ◌/◌, ◌^◌, ◌≤◌, ◌<◌, ◌≡◌, none, arith}
use peerwatch.Base.Tests.{ltb, if◌then◌else◌}
use peerwatch.Base.Lists.{length}
use peerwatch.Base.Int.{pos, add64_pos, sub64_pos, mul64_pos}
use peerwatch.Base.Results.{ok}
use native.Mathlib.Nat.{div-add-mod, mod-lt, mul-le-mul_left, mul-le-mul_right}
use native.Mathlib.Decide.{dec_lt, dec_le}
use peerwatch.Protocol.Message.{Bytes}
use peerwatch.Chunk.Chunker.{Chunker, new_chunker, chunk_count, chunk_size_at}

-- The chunker of a readable file with these bytes.
abbrev pub chunker_of : Bytes → ℕ → Chunker
chunker_of bs cs = record {
  file = record { contents = bs; fault = none };
  file_size = pos (length bs);
  chunk_size = pos cs;
}

-- ⌈fs / cs⌉.
abbrev pub ceil_div : ℕ → ℕ → ℕ
ceil_div fs cs = (fs + cs - 1) / cs

-- Sizes at which no int64 sum overflows.
pub record Fits (fs cs : ℕ) : Type 0 where
  pub some_bytes : 0 < fs
  pub some_size : 0 < cs
  pub no_overflow : fs + cs ≤ 2 ^ 63 - 1

pub ceil_div_bounds :
    (fs cs : ℕ)
    → 0 < cs
    → 0 < fs
    → (fs ≤ ceil_div fs cs * cs) × (ceil_div fs cs * cs < fs + cs) × (0 < ceil_div fs cs)
ceil_div_bounds fs cs h k =
    let e = div-add-mod (fs + cs - 1) cs in
    let m = mod-lt (fs + cs - 1) h in (omega arith, omega arith, grind arith)

-- Where chunk `i` begins, and where it ends if it is not the last one.
pub chunk_begins : (fs cs i : ℕ) → 0 < cs → 0 < fs → i < ceil_div fs cs → i * cs < fs
chunk_begins fs cs i h k l =
    let b = ceil_div_bounds fs cs h k in
    let m : suc i * cs ≤ ceil_div fs cs * cs = mul-le-mul_right cs l in omega arith

pub chunk_ends : (fs cs i : ℕ) → 0 < cs → 0 < fs → suc i < ceil_div fs cs → suc i * cs < fs
chunk_ends fs cs i h k l = chunk_begins fs cs (suc i) h k l

pub last_ends : (fs cs i : ℕ) → 0 < cs → 0 < fs → suc i ≡ ceil_div fs cs → fs ≤ suc i * cs
last_ends fs cs i h k e = rw e (ceil_div_bounds fs cs h k).0

-- There are no more chunks than bytes.
pub ceil_div-le : (fs cs : ℕ) → 0 < cs → 0 < fs → ceil_div fs cs ≤ fs
ceil_div-le fs cs h k = elim (dec_le (ceil_div fs cs) fs) [
  | yes fewer ↦ fewer
  | no more ↦
      let b = (ceil_div_bounds fs cs h k).1 in
      let m : suc fs * cs ≤ ceil_div fs cs * cs = mul-le-mul_right cs (omega arith) in
      let n : fs * 1 ≤ fs * cs = mul-le-mul_left fs h in absurd (omega arith)
]

-- The chunk of a byte of the file.
pub chunk_of-lt : (fs cs p : ℕ) → 0 < cs → 0 < fs → p < fs → p / cs < ceil_div fs cs
chunk_of-lt fs cs p h k l = elim (dec_lt (p / cs) (ceil_div fs cs)) [
  | yes inside ↦ inside
  | no outside ↦
      let b = (ceil_div_bounds fs cs h k).0 in
      let e = div-add-mod p cs in
      let m : ceil_div fs cs * cs ≤ p / cs * cs = mul-le-mul_right cs (omega arith) in
      absurd (omega arith)
]

pub div_mono : (a b cs : ℕ) → 0 < cs → a ≤ b → a / cs ≤ b / cs
div_mono a b cs h k = elim (dec_le (a / cs) (b / cs)) [
  | yes le ↦ le
  | no gt ↦
      let e = div-add-mod a cs in
      let f = div-add-mod b cs in
      let r = mod-lt b h in
      let m : suc (b / cs) * cs ≤ a / cs * cs = mul-le-mul_right cs (omega arith) in
      absurd (omega arith)
]

pub new_chunker_lem :
    (bs : Bytes) (cs : ℕ)
    → Fits (length bs) cs
    → new_chunker (record { contents = bs; fault = none }) (pos cs) ≡ ok (chunker_of bs cs)
unfolding new_chunker
new_chunker_lem bs cs h = ground arith

pub chunk_count_lem :
    (bs : Bytes) (cs : ℕ)
    → Fits (length bs) cs
    → chunk_count (chunker_of bs cs) ≡ pos (ceil_div (length bs) cs)
unfolding chunk_count
chunk_count_lem bs cs h = rw (
  add64_pos (length bs) cs (omega arith),
  sub64_pos (length bs + cs) 1 (omega arith) (omega arith),
)

-- Every chunk but the last has the configured size, and the last has the rest.
pub chunk_size_at_lem :
    (bs : Bytes) (cs i : ℕ)
    → Fits (length bs) cs
    → i < ceil_div (length bs) cs
    → chunk_size_at (chunker_of bs cs) (pos i)
      ≡ ok (pos (if ltb (length bs) (suc i * cs) then length bs - i * cs else cs))
unfolding chunk_size_at
chunk_size_at_lem bs cs i h k =
    let fs = length bs in
    let begins = chunk_begins fs cs i h.some_size h.some_bytes k in
    let count = ceil_div fs cs in
    let fewer = ceil_div-le fs cs h.some_size h.some_bytes in
    rw
      (
        chunk_count_lem bs cs h,
        chunk_size_at,
        sub64_pos count 1 (omega arith) (omega arith),
        mul64_pos i cs (omega arith),
        sub64_pos fs (i * cs) (omega arith) (omega arith),
      )
      (elim (dec_lt (suc i) count) [
        | yes inner ↦ ground (arith, chunk_ends fs cs i h.some_size h.some_bytes inner)
        | no last ↦ ground (arith, last_ends fs cs i h.some_size h.some_bytes)
      ])
