-- ===== src/Chunk/Store/Missing.antt =====
-- internal/chunk/store.go: MissingChunks on a store that keeps the invariant.
use peerwatch.Base.{
  ℕ, zero, suc, ◌+◌, ◌/◌, ◌<◌, ◌≡◌, refl, ap, ◌∙◌, inl, inr, not, ◌&&◌, List, [], ◌∷◌, arith,
}
use peerwatch.Base.Tests.{ltb, leb, if◌then◌else◌, lt→ltb, Bool-cases}
use peerwatch.Base.Lists.{length}
use peerwatch.Base.Keys.{contains}
use peerwatch.Base.Results.{ok}
use peerwatch.Protocol.Message.{Bytes, Digest}
use peerwatch.Chunk.Bitfield.{bit_at, has_bit}
use peerwatch.Chunk.Counts.{count_set}
use peerwatch.Chunk.Store.Defs.{Store}
use peerwatch.Chunk.Store.Reads.{missing_from, missing_chunks}
use peerwatch.Chunk.Store.Integrity.{IsGenuine, chunk_total}

-- The clear bits of the `n` that begin at `i`.
unfoldable pub clear_bits : ℕ → ℕ → Bytes → List ℕ
clear_bits zero i bf = []
clear_bits (suc n) i bf =
    let rest = clear_bits n (i + 1) bf in if bit_at bf i then rest else i ∷ rest

pub missing_from_lem :
    (n i : ℕ) (bf : Bytes)
    → ((j : ℕ) → j < i + n → j / 8 < length bf)
    → missing_from n i bf ≡ ok (clear_bits n i bf)
unfolding missing_from clear_bits has_bit
missing_from_lem zero i bf room = refl
missing_from_lem (suc n) i bf room = rw (
  lt→ltb (i / 8) (length bf) (room i (omega arith)),
  missing_from_lem n (i + 1) bf (λ j h. room j (omega arith)),
)

pub contains-clear_bits :
    (n i j : ℕ) (bf : Bytes)
    → contains j (clear_bits n i bf) ≡ (leb i j && (ltb j (i + n) && not (bit_at bf j)))
unfolding clear_bits contains
contains-clear_bits zero i j bf = ground arith
contains-clear_bits (suc n) i j bf = elim (Bool-cases (bit_at bf i)) [
  | inl set ↦ rw set (ground (arith, contains-clear_bits n (i + 1) j bf, at_place i j bf))
  | inr clear ↦ rw clear (ground (arith, contains-clear_bits n (i + 1) j bf, at_place i j bf))
]
  where
    at_place : (i j : ℕ) (bf : Bytes) → i ≡ j → bit_at bf i ≡ bit_at bf j
    at_place i j bf e = ap (bit_at bf) e

count_set_none : (i : ℕ) (bf : Bytes) → count_set bf (i + 0) ≡ count_set bf i
count_set_none i bf = let e : i + 0 ≡ i = omega arith in ap (count_set bf) e

count_set_next :
    (i : ℕ) (bf : Bytes) → count_set bf (i + 1) ≡ (if bit_at bf i then 1 else 0) + count_set bf i
unfolding count_set
count_set_next i bf = let e : i + 1 ≡ suc i = omega arith in ap (count_set bf) e

length-clear_bits :
    (n i : ℕ) (bf : Bytes) → length (clear_bits n i bf) + count_set bf (i + n) ≡ n + count_set bf i
unfolding clear_bits
length-clear_bits zero i bf = ground (arith, count_set_none i bf)
length-clear_bits (suc n) i bf =
    let rest = length-clear_bits n (i + 1) bf in
    let next : i + 1 + n ≡ i + suc n = omega arith in
    ground (arith, rest, ap (count_set bf) next, count_set_next i bf)

-- MissingChunks on a store that keeps the invariant: it lists just the chunks that are not marked,
-- and together with the store's count they are all the chunks of the file.
pub missing_chunks-IsGenuine :
    (sha256 : Bytes → Digest) (orig : Bytes) (cs : ℕ) (name : Bytes) (s : Store)
    → IsGenuine sha256 orig cs name s
    → (missing : List ℕ) × (missing_chunks s ≡ ok missing)
      × ((j : ℕ) → contains j missing ≡ (ltb j (chunk_total orig cs) && not (bit_at s.bitfield j)))
      × (length missing + s.count ≡ chunk_total orig cs)
unfolding missing_chunks count_set
missing_chunks-IsGenuine sha256 orig cs name s v =
    let n = chunk_total orig cs in
    let bf = s.bitfield in
    let zero_add : 0 + n ≡ n = omega arith in
    (
      clear_bits n 0 bf,
      ap (λ m. missing_from m.chunk_count 0 bf) v.manifest_is
          ∙ missing_from_lem n 0 bf (λ j h. v.room j (omega arith)),
      λ j. ground (arith, contains-clear_bits n 0 j bf),
      ground (arith, length-clear_bits n 0 bf, v.counted, ap (count_set bf) zero_add),
    )
