-- ===== src/Chunk/Threads/Guards.antt =====
-- internal/chunk/store.go: what a move of a goroutine in WriteChunk or WaitForChunk finds in memory.
use peerwatch.Base.{
  ℕ, zero, suc, ◌/◌, ◌≤◌, ◌<◌, ◌≡◌, inl, inr, Bool, true, false, none, some, ◌||◌, List, [], ◌∷◌,
  arith,
}
use peerwatch.Base.Tests.{ltb, ◌==◌, Bool-cases}
use peerwatch.Base.Lists.{length, get_elem?}
use peerwatch.Base.Results.{ok, panic}
use peerwatch.Protocol.Message.{Bytes, Digest}
use peerwatch.Chunk.Bitfield.{
  IsBytes, bit_at, put_bit, has_bit, set_bit, bit_at-put_bit, put_bit-IsBytes, length-put_bit,
}
use peerwatch.Chunk.Store.Defs.{StoreError}
use peerwatch.Chunk.Manifest.{Manifest}
use peerwatch.Chunk.Threads.{
  Shared, Pc, idle, entering, verifying, storing, marking, signalling, notifying, looking, locking,
  rechecking, registering, blocked, arrived, out_of_range, crashed, update, Move, write_chunk,
  have_it, have_not, enter_panics, no_entry, mark, mark_panics, lock_to_signal, close_channel,
  close_panics, nobody_waits, wait_for_chunk, there, not_there, look_panics, lock_to_wait,
  there_by_now, still_missing, recheck_panics, join, make_channel, wake,
}
use peerwatch.Chunk.Threads.Invariant.{holds, Held, announces, Announced}

pub has_bit_ok :
    (bf : Bytes) (i : ℕ) (b : Bool) → has_bit {E = StoreError} bf i ≡ ok b → bit_at bf i ≡ b
unfolding has_bit
has_bit_ok bf i b h = elim (Bool-cases (ltb (i / 8) (length bf))) [
  | inl inside ↦ ground (arith, h, inside)
  | inr outside ↦ ground (arith, h, outside)
]

has_bit_within :
    (bf : Bytes) (i : ℕ) (b : Bool) → has_bit {E = StoreError} bf i ≡ ok b → i / 8 < length bf
unfolding has_bit
has_bit_within bf i b h = elim (Bool-cases (ltb (i / 8) (length bf))) [
  | inl inside ↦ ground (arith, inside)
  | inr outside ↦ ground (arith, h, outside)
]

has_bit_panic : (bf : Bytes) (i : ℕ) → has_bit {E = StoreError} bf i ≡ panic → length bf ≤ i / 8
unfolding has_bit
has_bit_panic bf i h = ground (arith, h)

set_bit_panic : (bf : Bytes) (i : ℕ) → set_bit {E = StoreError} bf i ≡ panic → length bf ≤ i / 8
unfolding set_bit
set_bit_panic bf i h = ground (arith, h)

set_bit_ok :
    (bf bf' : Bytes) (i : ℕ)
    → set_bit {E = StoreError} bf i ≡ ok bf'
    → (i / 8 < length bf) × (bf' ≡ put_bit bf i)
unfolding set_bit
set_bit_ok bf bf' i h = elim (Bool-cases (ltb (i / 8) (length bf))) [
  | inl inside ↦ (ground (arith, inside), ground (arith, h, inside))
  | inr outside ↦ ground (arith, h, outside)
]

-- What setBit leaves.
pub record Marked (bf bf' : Bytes) (i : ℕ) : Type 0 where
  pub here : i / 8 < length bf
  pub same_length : length bf' ≡ length bf
  pub bytes : IsBytes bf → IsBytes bf'
  pub bits : (j : ℕ) → IsBytes bf → bit_at bf' j ≡ ((i == j) || bit_at bf j)

pub marked : (bf bf' : Bytes) (i : ℕ) → set_bit {E = StoreError} bf i ≡ ok bf' → Marked bf bf' i
marked bf bf' i h =
    let (inside, is) = set_bit_ok bf bf' i h in
    rw is (record {
      here = inside;
      same_length = length-put_bit bf i;
      bytes = put_bit-IsBytes bf i;
      bits = λ j fit. bit_at-put_bit bf i j fit inside;
    })

get_elem?-none : {A : Type 0} (xs : List A) (i : ℕ) → get_elem? xs i ≡ none → length xs ≤ i
get_elem?-none [] i h = omega arith
get_elem?-none (x ∷ xs) zero h = cc
get_elem?-none (x ∷ xs) (suc i) h = omega (arith, get_elem?-none xs i h)

abbrev pub index_of : Pc → ℕ
index_of idle = 0
index_of (entering i payload) = i
index_of (verifying i payload) = i
index_of (storing i payload) = i
index_of (marking i) = i
index_of (signalling i) = i
index_of (notifying i) = i
index_of (looking i) = i
index_of (locking i) = i
index_of (rechecking i) = i
index_of (registering i) = i
index_of (blocked i c) = i
index_of (arrived i) = i
index_of (out_of_range i) = i
index_of crashed = 0

abbrev pub channel_of : Pc → ℕ
channel_of (blocked i c) = c
channel_of _ = 0

-- Who holds waitMu goes on doing so, unless it is the goroutine that moves.
pub Held-kept :
    (pc : ℕ → Pc) (a : ℕ) (p' : Pc)
    → (holds (pc a) ≡ true → holds p' ≡ true)
    → Held pc
    → Held (update pc a p')
Held-kept pc a p' h (b, q) = (b, ground (arith, q, h))

-- Who announces a chunk goes on doing so, unless it is the goroutine that moves.
pub Announced-kept :
    (pc : ℕ → Pc) (a : ℕ) (p' : Pc) (i : ℕ)
    → (announces (pc a) ≡ some i → announces p' ≡ some i)
    → Announced pc i
    → Announced (update pc a p') i
Announced-kept pc a p' i h (b, q) = (b, ground (arith, q, h))

module _ {manifest : Manifest} {sha256 : Bytes → Digest} where
  -- The premise of a move, in terms of the bits.
  abbrev pub Guard : {m m' : Shared} {p p' : Pc} → Move manifest sha256 m p m' p' → Type 0
  Guard (write_chunk i payload h) = i < manifest.chunk_count
  Guard {m} (have_it {i} _) = bit_at m.bitfield i ≡ true
  Guard {m} (have_not {i} _) = bit_at m.bitfield i ≡ false
  Guard {m} (enter_panics {i} _) = length m.bitfield ≤ i / 8
  Guard (no_entry {i} _) = length manifest.chunks ≤ i
  Guard {m} (mark {i} {bf} _) = Marked m.bitfield bf i
  Guard {m} (mark_panics {i} _) = length m.bitfield ≤ i / 8
  Guard {m} (lock_to_signal _) = m.wait_mu ≡ false
  Guard {m} (close_channel {i} {c} _ _) = (m.waiters i ≡ some c) × (m.closed c ≡ false)
  Guard {m} (close_panics {i} {c} _ _) = (m.waiters i ≡ some c) × (m.closed c ≡ true)
  Guard {m} (nobody_waits {i} _) = m.waiters i ≡ none
  Guard (wait_for_chunk i) = Unit
  Guard {m} (there {i} _) = bit_at m.bitfield i ≡ true
  Guard {m} (not_there {i} _) = (bit_at m.bitfield i ≡ false) × (i / 8 < length m.bitfield)
  Guard {m} (look_panics {i} _) = length m.bitfield ≤ i / 8
  Guard {m} (lock_to_wait _) = m.wait_mu ≡ false
  Guard {m} (there_by_now {i} _) = bit_at m.bitfield i ≡ true
  Guard {m} (still_missing {i} _) = bit_at m.bitfield i ≡ false
  Guard {m} (recheck_panics {i} _) = length m.bitfield ≤ i / 8
  Guard {m} (join {i} {c} _) = m.waiters i ≡ some c
  Guard {m} (make_channel {i} _) = m.waiters i ≡ none
  Guard {m} (wake {i} {c} _) = m.closed c ≡ true
  Guard _ = Unit

  pub guard : {m m' : Shared} {p p' : Pc} (mv : Move manifest sha256 m p m' p') → Guard mv
  guard (write_chunk i payload h) = h
  guard {m} (have_it {i} h) = has_bit_ok m.bitfield i true h
  guard {m} (have_not {i} h) = has_bit_ok m.bitfield i false h
  guard {m} (enter_panics {i} h) = has_bit_panic m.bitfield i h
  guard (no_entry {i} h) = get_elem?-none manifest.chunks i h
  guard {m} (mark {i} {bf} h) = marked m.bitfield bf i h
  guard {m} (mark_panics {i} h) = set_bit_panic m.bitfield i h
  guard (lock_to_signal h) = h
  guard (close_channel h k) = (h, k)
  guard (close_panics h k) = (h, k)
  guard (nobody_waits h) = h
  guard (wait_for_chunk i) = tt
  guard {m} (there {i} h) = has_bit_ok m.bitfield i true h
  guard {m} (not_there {i} h) =
      (has_bit_ok m.bitfield i false h, has_bit_within m.bitfield i false h)
  guard {m} (look_panics {i} h) = has_bit_panic m.bitfield i h
  guard (lock_to_wait h) = h
  guard {m} (there_by_now {i} h) = has_bit_ok m.bitfield i true h
  guard {m} (still_missing {i} h) = has_bit_ok m.bitfield i false h
  guard {m} (recheck_panics {i} h) = has_bit_panic m.bitfield i h
  guard (join h) = h
  guard (make_channel h) = h
  guard (wake h) = h
  guard _ = tt
