-- ===== src/Player.antt =====
-- internal/player/server.go: demandReadSeeker, the view of the store that http.ServeContent reads. It
-- has a scheduler here (a host's has none, and then makes no demands).
pub mod Mpv
pub mod Process
pub mod Events
pub mod Replies
mod Runs
mod Tests
pub mod Playback
pub mod Server
pub mod Copying
use peerwatch.Base.{ℕ, zero, suc, ◌+◌, Bool, true, false, Option, none, some, List, [], ◌∷◌}
use peerwatch.Base.Tests.{if◌then◌else◌}
use peerwatch.Base.Lists.{length}
use peerwatch.Base.Int.{ℤ, pos, negsuc, ltb_ℤ, leb_ℤ, add64}
use peerwatch.Base.Results.{Result, ok, err, panic, ◌>>=◌}
use peerwatch.Protocol.Message.{Bytes}
use peerwatch.Chunk.Store.Defs.{Store, StoreError, has_chunk}
use peerwatch.Chunk.Store.Reads.{clamp_length, covering, rounds, read_bytes}
use peerwatch.Scheduler.Tick.{Scheduler, demand}

pub record DemandReadSeeker : Type 0 where
  pub offset : ℤ
  pub file_size : ℤ
  pub chunk_size : ℤ

-- io.EOF, bytes, or nothing yet as long as the store blocks.
pub data ReadResult : Type 0 where
  eof : ReadResult
  bytes : Bytes → ReadResult
  blocked : ReadResult

pub data Whence : Type 0 where
  seek_start seek_current seek_end : Whence
  other : ℕ → Whence

pub data SeekError : Type 0 where
  invalid_whence : ℕ → SeekError
  negative_position : ℤ → SeekError

-- The loop that demands what the store lacks, with `n` rounds left from chunk `i` on.
unfoldable pub demand_range : ℕ → ℕ → Store → Scheduler → Result StoreError Scheduler
demand_range zero i store s = ok s
demand_range (suc n) i store s = has_chunk store i >>= λ there.
    (if there then ok s else demand store i s) >>= demand_range n (i + 1) store

-- What follows ReadBytes: the bytes are copied, as they are no more than the buffer takes.
unfoldable pub copied :
    DemandReadSeeker
    → Scheduler
    → Store × Result StoreError (Option Bytes)
    → Result StoreError (DemandReadSeeker × Scheduler × Store × ReadResult)
copied d s (store, ok (some got)) =
    ok (record d { offset = add64 d.offset (pos (length got)) }, s, store, bytes got)
copied d s (store, ok none) = ok (d, s, store, blocked)
copied d s (store, err e) = err e
copied d s (store, panic) = panic

-- Read into a buffer of `room` bytes.
unfoldable pub read :
    ℕ
    → DemandReadSeeker
    → Scheduler
    → Store
    → Result StoreError (DemandReadSeeker × Scheduler × Store × ReadResult)
unfolding demand_range copied
read room d s store =
    let len = clamp_length d.file_size d.offset (pos room) in
    if leb_ℤ d.file_size d.offset
    then ok (d, s, store, eof)
    else if leb_ℤ len (pos 0)
    then ok (d, s, store, eof)
    else covering d.chunk_size d.offset len >>= rounds >>= λ range.
        demand_range range.1 range.0 store s >>= λ s'. copied d s' (read_bytes store d.offset len)

unfoldable pub target : DemandReadSeeker → ℤ → Whence → Result SeekError ℤ
target d offset seek_start = ok offset
target d offset seek_current = ok (add64 d.offset offset)
target d offset seek_end = ok (add64 d.file_size offset)
target d offset (other n) = err (invalid_whence n)

unfoldable pub seek : DemandReadSeeker → ℤ → Whence → Result SeekError (DemandReadSeeker × ℤ)
unfolding target
seek d offset whence = target d offset whence >>= λ next.
    if ltb_ℤ next (pos 0)
    then err (negative_position next)
    else ok (record d { offset = next }, next)
