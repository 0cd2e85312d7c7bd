-- ===== src/Chunk/Manifest.antt =====
-- internal/chunk/manifest.go. SHA-256 is a parameter. The workers run at the same time, and their
-- results reach the collecting loop in an order that is an argument.
pub mod Build
use peerwatch.Base.{ℕ, zero, suc, Option, none, some, List, [], ◌∷◌, Bool, true, false}
use peerwatch.Base.Tests.{ltb, if◌then◌else◌}
use peerwatch.Base.Lists.{length, set, replicate}
use peerwatch.Base.Int.{ℤ, pos, negsuc}
use peerwatch.Base.Results.{Result, ok, err, panic, ◌>>=◌, wrap_error}
use peerwatch.Protocol.Message.{Bytes, Digest}
use peerwatch.Chunk.File.{IoError, File}
use peerwatch.Chunk.Chunker.{Chunker, ChunkerError, new_chunker, chunk_count, read_chunk}

pub record ChunkMeta : Type 0 where
  pub size : ℤ
  pub hash : Digest

-- The count is a length: `make` panics on a negative one.
pub record Manifest : Type 0 where
  pub file_name : Bytes
  pub file_size : ℤ
  pub chunk_size : ℤ
  pub chunk_count : ℕ
  pub chunks : List ChunkMeta

abbrev pub empty_meta : ChunkMeta
empty_meta = record { size = pos 0; hash = 0 }

pub data BuildError : Type 0 where
  open_file : IoError → BuildError
  create_chunker : ChunkerError → BuildError
  hashing_failed : ChunkerError → BuildError

-- A result's size and hash, or its error.
pub record HashResult : Type 0 where
  pub index : ℕ
  pub outcome : Result ChunkerError ChunkMeta

-- The loop that collects: the chunks so far, and the first error. A panic of a worker ends all.
unfoldable pub collect :
    List ChunkMeta → Option ChunkerError → List HashResult → Result BuildError (List ChunkMeta)
collect chunks none [] = ok chunks
collect chunks (some e) [] = err (hashing_failed e)
collect chunks first_err (res ∷ results) = elim res.outcome [
  | ok meta ↦
      collect (elim first_err [ none ↦ set chunks res.index meta | some e ↦ chunks ]) first_err
        results
  | err e ↦ collect chunks (elim first_err [ none ↦ some e | some f ↦ some f ]) results
  | panic ↦ panic
]

-- make([]T, n): a negative length panics.
abbrev pub make_length : ℤ → (ℕ → Result BuildError Manifest) → Result BuildError Manifest
make_length (pos n) f = f n
make_length (negsuc n) f = panic

module _ (sha256 : Bytes → Digest) where
  -- A worker's job: a chunk is read into the worker's buffer and hashed.
  unfoldable pub hash_job : Chunker → ℕ → ℕ → HashResult
  hash_job c buf_len idx = record {
    index = idx;
    outcome = read_chunk c (pos idx) buf_len >>= λ bs.
        ok (record { size = pos (length bs); hash = sha256 bs });
  }

  unfoldable pub hash_jobs : Chunker → ℕ → List ℕ → List HashResult
  unfolding hash_job
  hash_jobs c buf_len [] = []
  hash_jobs c buf_len (idx ∷ order) = hash_job c buf_len idx ∷ hash_jobs c buf_len order

  -- BuildManifest, given what os.Open answers, the base name, and the order of the results.
  unfoldable pub build_manifest :
      Result IoError File → Bytes → ℤ → List ℕ → Result BuildError Manifest
  unfolding hash_jobs collect
  build_manifest opened base size order = wrap_error open_file opened >>= λ f.
      wrap_error create_chunker (new_chunker f size) >>= λ c. make_length (chunk_count c) λ count.
        make_length size λ buf_len.
          collect (replicate count empty_meta) none (hash_jobs c buf_len order) >>= λ chunks.
          ok (record {
            file_name = base;
            file_size = c.file_size;
            chunk_size = size;
            chunk_count = count;
            chunks = chunks;
          })
