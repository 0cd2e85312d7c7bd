-- ===== src/Chunk/Chunker.antt =====
-- internal/chunk/chunker.go. An int64, and an int on a 64-bit platform, is a ℤ whose operations wrap.
pub mod Counting
pub mod Contents
use peerwatch.Base.{ℕ, Option, none, some, ◌||◌, not}
use peerwatch.Base.Tests.{if◌then◌else◌}
use peerwatch.Base.Lists.{length}
use peerwatch.Base.Int.{ℤ, pos, negsuc, ltb_ℤ, leb_ℤ, eqb_ℤ, add64, sub64, mul64, quot64}
use peerwatch.Base.Results.{Result, ok, err, panic, ◌>>=◌, wrap_error}
use peerwatch.Protocol.Message.{Bytes}
use peerwatch.Chunk.File.{IoError, File, read_at}

pub data ChunkerError : Type 0 where
  chunk_size_not_positive : ℤ → ChunkerError
  stat_file : IoError → ChunkerError
  file_is_empty : ChunkerError
  index_out_of_range : ℤ → ℤ → ChunkerError
  buffer_too_small : ℤ → ℤ → ChunkerError
  read_chunk_at : ℤ → ℤ → IoError → ChunkerError

pub record Chunker : Type 0 where
  pub file : File
  pub file_size : ℤ
  pub chunk_size : ℤ

abbrev pub default_chunk_size : ℤ
default_chunk_size = pos 524288

-- Stat and its Size().
unfoldable pub stat_size : File → Result IoError ℤ
stat_size f = elim f.fault [ none ↦ ok (pos (length f.contents)) | some e ↦ err e ]

unfoldable pub new_chunker : File → ℤ → Result ChunkerError Chunker
unfolding stat_size
new_chunker f size =
    if leb_ℤ size (pos 0)
    then err (chunk_size_not_positive size)
    else (wrap_error stat_file (stat_size f) >>= λ n.
        if eqb_ℤ n (pos 0)
        then err file_is_empty
        else ok (record { file = f; file_size = n; chunk_size = size }))

unfoldable pub chunk_count : Chunker → ℤ
chunk_count c = quot64 (sub64 (add64 c.file_size c.chunk_size) (pos 1)) c.chunk_size

unfoldable pub chunk_size_at : Chunker → ℤ → Result ChunkerError ℤ
chunk_size_at c index =
    if ltb_ℤ index (pos 0) || leb_ℤ (chunk_count c) index
    then err (index_out_of_range index (chunk_count c))
    else if not (eqb_ℤ index (sub64 (chunk_count c) (pos 1)))
    then ok c.chunk_size
    else ok (sub64 c.file_size (mul64 index c.chunk_size))

-- buf[:size] with a negative bound panics.
abbrev pub slice_to {ℓ} : {A : Type ℓ} → ℤ → (ℕ → Result ChunkerError A) → Result ChunkerError A
slice_to (pos n) f = f n
slice_to (negsuc n) f = panic

-- ReadChunk into a buffer of `buf_len` bytes: buf[:n], the bytes that were read.
unfoldable pub read_chunk : Chunker → ℤ → ℕ → Result ChunkerError Bytes
read_chunk c index buf_len = chunk_size_at c index >>= λ size.
    if ltb_ℤ (pos buf_len) size
    then err (buffer_too_small (pos buf_len) size)
    else slice_to size λ n.
      let offset = mul64 index c.chunk_size in
      wrap_error (read_chunk_at index offset) (read_at c.file offset n)
