-- ===== src/Chunk/Chunker/Contents.antt =====
-- Reading all chunks of a file (ReadChunk), and sizes at which the count overflows.
use peerwatch.Base.{
  ℕ, zero, suc, ◌+◌, ◌-◌, ◌*◌, ◌^◌, ◌≤◌, ◌<◌, ◌≡◌, refl, sym, ap, ◌||◌, ◌∙◌, [], ◌++◌, true, arith,
}
use peerwatch.Base.Lists.{
  length, take, drop, length-drop, take_all, take_past, take-append-take, drop-drop,
}
use peerwatch.Base.Int.{
  ℤ, pos, ltb_ℤ, leb_ℤ, mul64_pos, add64_overflow, sub64_negsuc, quot64_negsuc,
}
use peerwatch.Base.Results.{Result, ok, err, ◌>>=◌}
use peerwatch.Protocol.Message.{Bytes}
use peerwatch.Chunk.File.{read_at}
use peerwatch.Chunk.Chunker.{
  Chunker, ChunkerError, chunk_count, chunk_size_at, read_chunk, index_out_of_range,
}
use peerwatch.Chunk.Chunker.Counting.{
  chunker_of, ceil_div, Fits, ceil_div_bounds, chunk_begins, chunk_count_lem, chunk_size_at_lem,
}

-- The bytes of a file that chunk `i` covers.
abbrev pub region : Bytes → ℕ → ℕ → Bytes
region bs cs i = take cs (drop (i * cs) bs)

-- ReadChunk gives the bytes of the chunk's region, for any buffer of the chunk size at least.
pub read_chunk-region :
    (bs : Bytes) (cs i len : ℕ)
    → Fits (length bs) cs
    → i < ceil_div (length bs) cs
    → cs ≤ len
    → read_chunk (chunker_of bs cs) (pos i) len ≡ ok (region bs cs i)
unfolding read_chunk read_at
read_chunk-region bs cs i len h k room =
    let begins = chunk_begins (length bs) cs i h.some_size h.some_bytes k in
    rw (chunk_size_at_lem bs cs i h k, mul64_pos i cs (omega arith))
      (ground
        (arith, take_past (drop (i * cs) bs) (length bs - i * cs) cs, length-drop (i * cs) bs))

-- ChunkSizeAt and ReadChunk refuse every other index.
pub read_chunk_out_of_range :
    (bs : Bytes) (cs len : ℕ) (index : ℤ)
    → Fits (length bs) cs
    → ltb_ℤ index (pos 0) || leb_ℤ (pos (ceil_div (length bs) cs)) index ≡ true
    → read_chunk (chunker_of bs cs) index len
      ≡ err (index_out_of_range index (pos (ceil_div (length bs) cs)))
unfolding read_chunk chunk_size_at
read_chunk_out_of_range bs cs len index h k = rw (chunk_count_lem bs cs h, k)

-- The chunks `i`, `i + 1`, … of `n` rounds, one behind the other.
pub read_all : Chunker → ℕ → ℕ → ℕ → Result ChunkerError Bytes
read_all c len zero i = ok []
read_all c len (suc n) i =
    read_chunk c (pos i) len >>= λ bs. read_all c len n (i + 1) >>= λ rest. ok (bs ++ rest)

unfoldable pub regions : Bytes → ℕ → ℕ → ℕ → Bytes
regions bs cs zero i = []
regions bs cs (suc n) i = region bs cs i ++ regions bs cs n (i + 1)

pub regions-take : (bs : Bytes) (cs n i : ℕ) → regions bs cs n i ≡ take (n * cs) (drop (i * cs) bs)
unfolding regions
regions-take bs cs zero i = let e : 0 * cs ≡ 0 = omega arith in rw e
regions-take bs cs (suc n) i =
    let e : i * cs + cs ≡ (i + 1) * cs = omega arith in
    let f : cs + n * cs ≡ suc n * cs = omega arith in
    ap (◌++◌ (region bs cs i)) (
      regions-take bs cs n (i + 1)
      ∙ ap (λ k. take (n * cs) (drop k bs)) (sym e)
      ∙ ap (take (n * cs)) (sym (drop-drop (i * cs) cs bs)))
    ∙ take-append-take cs (n * cs) (drop (i * cs) bs)
    ∙ ap (λ k. take k (drop (i * cs) bs)) f

read_all-regions :
    (bs : Bytes) (cs len n i : ℕ)
    → Fits (length bs) cs
    → cs ≤ len
    → i + n ≤ ceil_div (length bs) cs
    → read_all (chunker_of bs cs) len n i ≡ ok (regions bs cs n i)
unfolding read_all regions
read_all-regions bs cs len zero i h room fits = refl
read_all-regions bs cs len (suc n) i h room fits = rw (
  read_chunk-region bs cs i len h (omega arith) room,
  read_all-regions bs cs len n (i + 1) h room (omega arith),
)

-- The chunks partition the file: reading them all in order gives back its bytes, no more and no less.
pub read_all-contents :
    (bs : Bytes) (cs len : ℕ)
    → Fits (length bs) cs
    → cs ≤ len
    → read_all (chunker_of bs cs) len (ceil_div (length bs) cs) 0 ≡ ok bs
read_all-contents bs cs len h room =
    let count = ceil_div (length bs) cs in
    read_all-regions bs cs len count 0 h room (omega arith)
    ∙ ap ok (regions-take bs cs count 0 ∙ whole)
  where
    whole : take (ceil_div (length bs) cs * cs) (drop (0 * cs) bs) ≡ bs
    whole =
        let e : 0 * cs ≡ 0 = omega arith in
        rw e (
          take_past bs _ (length bs) (ceil_div_bounds (length bs) cs h.some_size h.some_bytes).0
            (omega arith)
          ∙ take_all bs (length bs) refl)

-- The sum fileSize + chunkSize wraps for chunk sizes near 2^63: a file with bytes in it then has no
-- chunk at all, where it should have one.
pub chunk_count_overflow :
    (bs : Bytes) (cs : ℕ)
    → length bs ≤ cs
    → cs < 2 ^ 63
    → 2 ^ 63 < length bs + cs
    → leb_ℤ (chunk_count (chunker_of bs cs)) (pos 0) ≡ true
unfolding chunk_count
chunk_count_overflow bs cs h k l =
    rw
      (
        add64_overflow (length bs) cs (omega arith) (omega arith),
        sub64_negsuc (2 ^ 64 - 1 - (length bs + cs)) (omega arith),
        chunk_count,
      )
      (quot64_negsuc (suc (2 ^ 64 - 1 - (length bs + cs))) cs)
