-- ===== src/Chunk/File.antt =====
-- What internal/chunk takes from the package os: a file as its bytes. A handle with a fault fails
-- every call; a write may fail after some of its bytes have reached the file.
use peerwatch.Base.{ℕ, ◌+◌, ◌-◌, ◌++◌, Option, none, some}
use peerwatch.Base.Lists.{length, take, drop, replicate}
use peerwatch.Base.Int.{ℤ, pos, negsuc}
use peerwatch.Base.Results.{Result, ok, err}
use peerwatch.Protocol.Message.{Bytes}

pub data IoError : Type 0 where
  negative_offset negative_size device : IoError

pub record File : Type 0 where
  pub contents : Bytes
  pub fault : Option IoError

-- ReadAt(buf, off) with `n` bytes of buffer: what was read. io.EOF on a short read is no error here,
-- as both callers let it pass.
unfoldable pub read_at : File → ℤ → ℕ → Result IoError Bytes
read_at f (negsuc o) n = err negative_offset
read_at f (pos o) n = elim f.fault [ none ↦ ok (take n (drop o f.contents)) | some e ↦ err e ]

-- The bytes after `data` has been written at `o`: a gap behind the end is filled with zeros.
unfoldable pub splice : Bytes → ℕ → Bytes → Bytes
splice bs o ds = (take o bs ++ replicate (o - length bs) 0) ++ (ds ++ drop (o + length ds) bs)

-- How a WriteAt ended.
pub data WriteOutcome : Type 0 where
  written : WriteOutcome
  failed : ℕ → IoError → WriteOutcome

unfoldable pub write_at : File → ℤ → Bytes → WriteOutcome → File × Result IoError (Unit {0})
unfolding splice
write_at f (negsuc o) ds w = (f, err negative_offset)
write_at f (pos o) ds written = (record f { contents = splice f.contents o ds }, ok tt)
write_at f (pos o) ds (failed k e) =
    (record f { contents = splice f.contents o (take k ds) }, err e)

-- Truncate(size) on a new file: that many zeros.
unfoldable pub truncated : ℤ → Result IoError File
truncated (pos n) = ok (record { contents = replicate n 0; fault = none })
truncated (negsuc n) = err negative_size
