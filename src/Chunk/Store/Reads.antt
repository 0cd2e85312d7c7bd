-- ===== src/Chunk/Store/Reads.antt =====
-- internal/chunk/store.go: the operations that read a store, and those that wait for chunks.
use peerwatch.Base.{
  ℕ, zero, suc, ◌+◌, ◌-◌, Option, none, some, List, [], ◌∷◌, Bool, true, false, ◌||◌,
}
use peerwatch.Base.Tests.{leb, ◌==◌, if◌then◌else◌}
use peerwatch.Base.Lists.{get_elem?}
use peerwatch.Base.Int.{ℤ, pos, negsuc, leb_ℤ, ltb_ℤ, eqb_ℤ, add64, sub64, mul64, quot64}
use peerwatch.Base.Results.{Result, ok, err, panic, ◌>>=◌, wrap_error}
use peerwatch.Protocol.Message.{Bytes}
use peerwatch.Chunk.File.{read_at}
use peerwatch.Chunk.Manifest.{ChunkMeta}
use peerwatch.Chunk.Bitfield.{has_bit}
use peerwatch.Chunk.Store.Defs.{
  Store, StoreError, index_out_of_range, offset_out_of_range, read_failed, Outcome, has_chunk,
}
use peerwatch.Base.Keys.{insert_key}

-- make([]byte, n): a negative length panics.
abbrev pub make_buffer {ℓ} : {A : Type ℓ} → ℤ → (ℕ → Result StoreError A) → Result StoreError A
make_buffer (pos n) f = f n
make_buffer (negsuc n) f = panic

-- s.manifest.Chunks[index] of the range that the guard has checked.
abbrev pub meta_at {ℓ} :
    {A : Type ℓ} → Option ChunkMeta → (ChunkMeta → Result StoreError A) → Result StoreError A
meta_at none f = panic
meta_at (some m) f = f m

unfoldable pub read_chunk : Store → ℤ → Result StoreError Bytes
read_chunk s (negsuc n) = err (index_out_of_range (negsuc n))
read_chunk s (pos index) =
    if leb s.manifest.chunk_count index
    then err (index_out_of_range (pos index))
    else meta_at (get_elem? s.manifest.chunks index) λ m.
      make_buffer m.size λ size.
        wrap_error read_failed (read_at s.file (mul64 (pos index) s.manifest.chunk_size) size)

unfoldable pub is_complete : Store → Bool
is_complete s = s.count == s.manifest.chunk_count

-- The loop of MissingChunks, with `n` rounds left from index `i` on.
unfoldable pub missing_from : ℕ → ℕ → Bytes → Result StoreError (List ℕ)
missing_from zero i bf = ok []
missing_from (suc n) i bf = has_bit bf i >>= λ has.
    missing_from n (i + 1) bf >>= λ rest. ok (if has then rest else i ∷ rest)

unfoldable pub missing_chunks : Store → Result StoreError (List ℕ)
unfolding missing_from
missing_chunks s = missing_from s.manifest.chunk_count 0 s.bitfield

-- WaitForChunk up to the point where it returns (true) or blocks on the chunk's channel (false).
unfoldable pub wait_for_chunk : Store → ℕ → Outcome Bool
unfolding has_chunk insert_key
wait_for_chunk s index = elim (has_chunk s index) [
  | ok true ↦ (s, ok true)
  | ok false ↦ (record s { waiters = insert_key index s.waiters }, ok false)
  | err e ↦ (s, err e)
  | panic ↦ (s, panic)
]

-- The loop over the chunks of a range, with `n` rounds left; it stops at the first that blocks.
unfoldable pub wait_for_range : ℕ → ℕ → Store → Outcome Bool
wait_for_range zero i s = (s, ok true)
wait_for_range (suc n) i s =
    let (s', r) = wait_for_chunk s i in
    elim r [
      | ok true ↦ wait_for_range n (i + 1) s'
      | ok false ↦ (s', ok false)
      | err e ↦ (s', err e)
      | panic ↦ (s', panic)
    ]

-- What is asked for, cut at the end of the file.
unfoldable pub clamp_length : ℤ → ℤ → ℤ → ℤ
clamp_length file_size offset len =
    if ltb_ℤ file_size (add64 offset len) then sub64 file_size offset else len

-- offset / ChunkSize and (offset + length - 1) / ChunkSize. Division by zero panics.
unfoldable pub covering : ℤ → ℤ → ℤ → Result StoreError (ℤ × ℤ)
covering chunk_size offset len =
    if eqb_ℤ chunk_size (pos 0)
    then panic
    else ok (quot64 offset chunk_size, quot64 (sub64 (add64 offset len) (pos 1)) chunk_size)

-- The rounds of `for i := start; i <= end; i++`. A round at a negative index is not modelled: it
-- takes a negative chunk size.
unfoldable pub rounds : ℤ × ℤ → Result StoreError (ℕ × ℕ)
rounds (pos first, pos last) = ok (first, last + 1 - first)
rounds (pos first, negsuc last) = ok (first, 0)
rounds (negsuc first, last) = panic

-- What follows the loop of waiting: nothing yet if it blocks, or the bytes.
unfoldable pub read_range : Store → ℤ → ℤ → Outcome Bool → Outcome (Option Bytes)
read_range s offset len (s', ok false) = (s', ok none)
read_range s offset len (s', ok true) = (
  s',
  make_buffer len λ n. wrap_error read_failed (read_at s'.file offset n) >>= λ bs. ok (some bs),
)
read_range s offset len (s', err e) = (s', err e)
read_range s offset len (s', panic) = (s', panic)

-- ReadBytes, once the sizes are taken from the manifest.
unfoldable pub serve : Store → ℤ → ℤ → ℤ → ℤ → Outcome (Option Bytes)
unfolding clamp_length covering rounds read_range
serve s file_size chunk_size offset len =
    if ltb_ℤ offset (pos 0) || leb_ℤ file_size offset
    then (s, err (offset_out_of_range offset))
    else let len' = clamp_length file_size offset len in
      elim (covering chunk_size offset len' >>= rounds) [
        | ok (first, n) ↦ read_range s offset len' (wait_for_range n first s)
        | err e ↦ (s, err e)
        | panic ↦ (s, panic)
      ]

-- ReadBytes; `none` says that it blocks until a chunk arrives.
unfoldable pub read_bytes : Store → ℤ → ℤ → Outcome (Option Bytes)
unfolding serve
read_bytes s offset len = serve s s.manifest.file_size s.manifest.chunk_size offset len
