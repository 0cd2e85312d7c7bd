-- ===== src/Chunk/Counts.antt =====
-- How many bits of a bitfield are set, and the manifest that describes a given file.
use peerwatch.Base.{
  ℕ, zero, suc, ◌+◌, ◌/◌, ◌≤◌, ◌<◌, ◌≡◌, refl, ap, true, false, List, [], ◌∷◌, some, arith,
}
use peerwatch.Base.Tests.{if◌then◌else◌}
use peerwatch.Base.Lists.{length, get_elem?}
use peerwatch.Base.Int.{pos}
use native.Mathlib.Decide.{ℕ_discrete}
use peerwatch.Protocol.Message.{Bytes, Digest}
use peerwatch.Chunk.Bitfield.{
  bit_at, put_bit, IsBytes, bit_at-put_bit, make_bitfield, bit_at-make_bitfield,
}
use peerwatch.Chunk.Manifest.{ChunkMeta, Manifest}
use peerwatch.Chunk.Chunker.Counting.{ceil_div}
use peerwatch.Chunk.Chunker.Contents.{region}

-- The bits set among the first `n`.
unfoldable pub count_set : Bytes → ℕ → ℕ
count_set bf zero = 0
count_set bf (suc n) = (if bit_at bf n then 1 else 0) + count_set bf n

pub count_set-le : (bf : Bytes) (n : ℕ) → count_set bf n ≤ n
unfolding count_set
count_set-le bf zero = omega arith
count_set-le bf (suc n) = ground (arith, count_set-le bf n)

pub count_set_full : (bf : Bytes) (n i : ℕ) → count_set bf n ≡ n → i < n → bit_at bf i ≡ true
unfolding count_set
count_set_full bf zero i e h = elim h [ ]
count_set_full bf (suc n) i e h = elim (ℕ_discrete i n) [
  | yes last ↦ rw last (ground (arith, count_set-le bf n))
  | no below ↦ count_set_full bf n i (ground (arith, count_set-le bf n)) (omega arith)
]

count_set-put_above :
    (bf : Bytes) (n i : ℕ)
    → IsBytes bf
    → i / 8 < length bf
    → n ≤ i
    → count_set (put_bit bf i) n ≡ count_set bf n
unfolding count_set
count_set-put_above bf zero i b r h = refl
count_set-put_above bf (suc n) i b r h =
    ground (arith, bit_at-put_bit bf i n b r, count_set-put_above bf n i b r)

-- A bit that was clear adds one.
pub count_set-put_bit :
    (bf : Bytes) (n i : ℕ)
    → IsBytes bf
    → i / 8 < length bf
    → i < n
    → bit_at bf i ≡ false
    → count_set (put_bit bf i) n ≡ suc (count_set bf n)
unfolding count_set
count_set-put_bit bf zero i b r h c = elim h [ ]
count_set-put_bit bf (suc n) i b r h c = elim (ℕ_discrete i n) [
  | yes last ↦
      ground (arith, bit_at-put_bit bf i n b r, count_set-put_above bf n i b r, ap (bit_at bf) last)
  | no below ↦
      ground (arith, bit_at-put_bit bf i n b r, count_set-put_bit bf n i b r (omega arith) c)
]

pub count_set-make : (count n : ℕ) → count_set (make_bitfield count) n ≡ 0
unfolding count_set
count_set-make count zero = refl
count_set-make count (suc n) = ground (arith, bit_at-make_bitfield count n, count_set-make count n)

count_set_mono :
    (bf bf' : Bytes) (n : ℕ)
    → ((j : ℕ) → bit_at bf j ≡ true → bit_at bf' j ≡ true)
    → count_set bf n ≤ count_set bf' n
unfolding count_set
count_set_mono bf bf' zero h = omega arith
count_set_mono bf bf' (suc n) h = ground (arith, h n, count_set_mono bf bf' n h)

-- One more bit.
pub count_set_more :
    (bf bf' : Bytes) (n i : ℕ)
    → ((j : ℕ) → bit_at bf j ≡ true → bit_at bf' j ≡ true)
    → i < n
    → bit_at bf i ≡ false
    → bit_at bf' i ≡ true
    → count_set bf n < count_set bf' n
unfolding count_set
count_set_more bf bf' zero i h inside lacks has = elim inside [ ]
count_set_more bf bf' (suc n) i h inside lacks has = elim (ℕ_discrete i n) [
  | yes e ↦ ground (arith, count_set_mono bf bf' n h, ap (bit_at bf) e, ap (bit_at bf') e)
  | no ne ↦ ground (arith, h n, count_set_more bf bf' n i h (omega arith) lacks has)
]

module _ (sha256 : Bytes → Digest) (bs : Bytes) (cs : ℕ) where
  abbrev pub meta_of : ℕ → ChunkMeta
  meta_of i = record { size = pos (length (region bs cs i)); hash = sha256 (region bs cs i) }

  abbrev pub metas_from : ℕ → ℕ → List ChunkMeta
  metas_from zero i = []
  metas_from (suc n) i = meta_of i ∷ metas_from n (i + 1)

  -- The manifest of the file with these bytes.
  abbrev pub manifest_of : Bytes → Manifest
  manifest_of name = record {
    file_name = name;
    file_size = pos (length bs);
    chunk_size = pos cs;
    chunk_count = ceil_div (length bs) cs;
    chunks = metas_from (ceil_div (length bs) cs) 0;
  }

  get_elem?-metas_from : (n i k : ℕ) → k < n → get_elem? (metas_from n i) k ≡ some (meta_of (i + k))
  get_elem?-metas_from zero i k h = elim h [ ]
  get_elem?-metas_from (suc n) i zero h = let e : i + 0 ≡ i = omega arith in rw e
  get_elem?-metas_from (suc n) i (suc k) h =
      let e : i + suc k ≡ i + 1 + k = omega arith in
      rw e (get_elem?-metas_from n (i + 1) k (omega arith))

  pub get_elem?-metas : (n k : ℕ) → k < n → get_elem? (metas_from n 0) k ≡ some (meta_of k)
  get_elem?-metas n k h = let e : 0 + k ≡ k = omega arith in rw e at (get_elem?-metas_from n 0 k h)
