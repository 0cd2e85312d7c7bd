-- ===== src/Chunk/Store/Defs.antt =====
-- internal/chunk/store.go: the operations.
use peerwatch.Base.{ℕ, zero, suc, ◌+◌, Option, none, some, List, [], ◌∷◌, Bool, true, false}
use peerwatch.Base.Tests.{leb, ◌==◌, if◌then◌else◌}
use peerwatch.Base.Lists.{get_elem?}
use peerwatch.Base.Keys.{contains, delete_key}
use peerwatch.Base.Int.{ℤ, pos, negsuc, mul64}
use peerwatch.Base.Results.{Result, ok, err, panic, ◌>>=◌, wrap_error}
use peerwatch.Protocol.Message.{Bytes, Digest}
use peerwatch.Chunk.File.{IoError, File, WriteOutcome, write_at, truncated}
use peerwatch.Chunk.Manifest.{ChunkMeta, Manifest}
use peerwatch.Chunk.Bitfield.{make_bitfield, set_bit, has_bit}

pub record Store : Type 0 where
  pub file : File
  pub manifest : Manifest
  pub bitfield : Bytes
  pub count : ℕ
  pub is_host : Bool
  pub waiters : List ℕ
  pub woken : List ℕ

pub data StoreError : Type 0 where
  open_file create_sparse_file truncate_sparse_file : IoError → StoreError
  index_out_of_range offset_out_of_range : ℤ → StoreError
  hash_mismatch : ℕ → StoreError
  write_failed read_failed : IoError → StoreError

-- for i := i; i < i+n; i++ { setBit(bf, i) }
unfoldable pub set_bits : ℕ → ℕ → Bytes → Result StoreError Bytes
set_bits zero i bf = ok bf
set_bits (suc n) i bf = set_bit bf i >>= set_bits n (i + 1)

unfoldable pub new_host_store : Result IoError File → Manifest → Result StoreError Store
new_host_store opened m = wrap_error open_file opened >>= λ f.
    set_bits m.chunk_count 0 (make_bitfield m.chunk_count) >>= λ bf. ok (record {
      file = f;
      manifest = m;
      bitfield = bf;
      count = m.chunk_count;
      is_host = true;
      waiters = [];
      woken = [];
    })

-- `opened` is what os.OpenFile answers; the file is then cut to the full size.
unfoldable pub new_peer_store : Result IoError (Unit {0}) → Manifest → Result StoreError Store
new_peer_store opened m = wrap_error create_sparse_file opened >>= λ _.
    wrap_error truncate_sparse_file (truncated m.file_size) >>= λ f. ok (record {
      file = f;
      manifest = m;
      bitfield = make_bitfield m.chunk_count;
      count = 0;
      is_host = false;
      waiters = [];
      woken = [];
    })

unfoldable pub has_chunk : Store → ℕ → Result StoreError Bool
has_chunk s index = has_bit s.bitfield index

-- The last part of WriteChunk: the waiters' channel is closed and its entry deleted.
unfoldable pub signal : ℕ → Store → Store
unfolding contains delete_key
signal index s =
    if contains index s.waiters
    then record s { waiters = delete_key index s.waiters; woken = index ∷ s.woken }
    else s

-- setBit and count++ under the lock.
unfoldable pub mark_available : ℕ → Store → Result StoreError Store
mark_available index s =
    set_bit s.bitfield index >>= λ bf. ok (record s { bitfield = bf; count = s.count + 1 })

-- An operation gives the store as it leaves it, and its result.
abbrev pub Outcome : Type 0 → Type 0
Outcome A = Store × Result StoreError A

abbrev pub finish : Store → Result StoreError Store → Outcome (Unit {0})
finish s (ok s') = (s', ok tt)
finish s (err e) = (s, err e)
finish s panic = (s, panic)

-- What follows the WriteAt.
unfoldable pub after_write : Store → ℕ → File × Result IoError (Unit {0}) → Outcome (Unit {0})
unfolding signal mark_available
after_write s index (f, ok _) =
    let s' = record s { file = f } in
    finish s' (mark_available index s' >>= λ t. ok (signal index t))
after_write s index (f, err e) = (record s { file = f }, err (write_failed e))
after_write s index (f, panic) = (record s { file = f }, panic)

module _ (sha256 : Bytes → Digest) where
  -- The hash test and the write, for a chunk that is not there yet.
  unfoldable pub verify_and_write :
      Store → ℕ → Bytes → WriteOutcome → Option ChunkMeta → Outcome (Unit {0})
  unfolding after_write
  verify_and_write s index payload disk none = (s, panic)
  verify_and_write s index payload disk (some meta) =
      if sha256 payload == meta.hash
      then after_write s index
          (write_at s.file (mul64 (pos index) s.manifest.chunk_size) payload disk)
      else (s, err (hash_mismatch index))

  unfoldable pub write_missing :
      Store → ℕ → Bytes → WriteOutcome → Result StoreError Bool → Outcome (Unit {0})
  unfolding verify_and_write
  write_missing s index payload disk (ok true) = (s, ok tt)
  write_missing s index payload disk (ok false) =
      verify_and_write s index payload disk (get_elem? s.manifest.chunks index)
  write_missing s index payload disk (err e) = (s, err e)
  write_missing s index payload disk panic = (s, panic)

  -- WriteChunk; `disk` is how its WriteAt ends, if it comes to that.
  unfoldable pub write_chunk : Store → ℤ → Bytes → WriteOutcome → Outcome (Unit {0})
  unfolding write_missing has_chunk
  write_chunk s (negsuc n) payload disk = (s, err (index_out_of_range (negsuc n)))
  write_chunk s (pos index) payload disk =
      if leb s.manifest.chunk_count index
      then (s, err (index_out_of_range (pos index)))
      else write_missing s index payload disk (has_chunk s index)
