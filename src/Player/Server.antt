-- ===== src/Player/Server.antt =====
-- internal/player/server.go: the local HTTP server. net.Listen, what a client asks for, and the size of the
-- buffer of io.CopyN are arguments. http.ServeContent is what its documentation says of one range: it
-- seeks to the end for the size and back to the start, then to the start of the range, and copies the
-- range with io.CopyN.
use peerwatch.Base.{ℕ, zero, suc, ◌-◌, Bool, true, false, [], ◌∷◌, ◌++◌}
use peerwatch.Base.Tests.{min_nat}
use peerwatch.Base.Lists.{length}
use peerwatch.Base.Int.{ℤ, pos}
use peerwatch.Base.Results.{Result, ok, ◌>>=◌, wrap_error}
use peerwatch.Protocol.Message.{Bytes}
use peerwatch.Chunk.File.{IoError}
use peerwatch.Chunk.Store.Defs.{Store, StoreError}
use peerwatch.Scheduler.Tick.{Scheduler}
use peerwatch.Commands.Start.{decimal}
use peerwatch.Player.{
  DemandReadSeeker, SeekError, eof, bytes, blocked, seek_start, seek_end, read, seek,
}

pub record Server : Type 0 where
  pub port : ℕ
  pub serving : Bool

-- `listener` is the port that net.Listen gives.
unfoldable pub new_server : Result IoError ℕ → Result IoError Server
new_server listener = listener >>= λ port. ok (record { port = port; serving = false })

unfoldable pub start : Server → Server
start s = record s { serving = true }

-- http://127.0.0.1:%d/video
unfoldable pub url : Server → Bytes
unfolding decimal
url s =
    (b'h' ∷ b't' ∷ b't' ∷ b'p' ∷ b':' ∷ b'/' ∷ b'/' ∷ b'1' ∷ b'2' ∷ b'7' ∷ b'.' ∷ b'0' ∷ b'.' ∷ b'0'
      ∷ b'.' ∷ b'1' ∷ b':' ∷ [])
    ++ decimal (pos s.port)
    ++ (b'/' ∷ b'v' ∷ b'i' ∷ b'd' ∷ b'e' ∷ b'o' ∷ [])

pub data VideoError : Type 0 where
  seek_failed : SeekError → VideoError
  read_failed : StoreError → VideoError

-- How io.CopyN ended: all was copied, the source came to its end, or a read blocks.
pub data CopyEnd : Type 0 where
  copied_all short stuck out_of_fuel : CopyEnd

pub record Copy : Type 0 where
  pub reader : DemandReadSeeker
  pub sched : Scheduler
  pub store : Store
  pub out : Bytes
  pub end : CopyEnd

abbrev copy_end : DemandReadSeeker → Scheduler → Store → CopyEnd → Result StoreError Copy
copy_end d sched store end =
    ok (record { reader = d; sched = sched; store = store; out = []; end = end })

abbrev in_front : Bytes → Copy → Result StoreError Copy
in_front got c = ok (record c { out = got ++ c.out })

-- The loop of io.CopyN: reads into a buffer of `room` bytes, of which the last takes what is left.
unfoldable pub copy_n : ℕ → ℕ → ℕ → DemandReadSeeker → Scheduler → Store → Result StoreError Copy
unfolding read
copy_n fuel room zero d sched store = copy_end d sched store copied_all
copy_n zero room (suc left) d sched store = copy_end d sched store out_of_fuel
copy_n (suc fuel) room (suc left) d sched store =
    read (min_nat room (suc left)) d sched store >>= λ r. elim r.3 [
      | eof ↦ copy_end r.0 r.1 r.2 short
      | bytes got ↦ copy_n fuel room (suc left - length got) r.0 r.1 r.2 >>= in_front got
      | blocked ↦ copy_end r.0 r.1 r.2 stuck
    ]

-- The reader that a request gets.
unfoldable pub new_reader : Store → DemandReadSeeker
new_reader store = record {
  offset = pos 0;
  file_size = store.manifest.file_size;
  chunk_size = store.manifest.chunk_size;
}

-- The handler of /video for the range of `length` bytes from `start` on: the size of the content, and
-- what is sent.
unfoldable pub serve_video : ℕ → ℕ → ℕ → ℕ → Scheduler → Store → Result VideoError (ℤ × Copy)
unfolding copy_n
serve_video fuel room start len sched store =
    wrap_error seek_failed (seek (new_reader store) (pos 0) seek_end) >>= λ ended.
    wrap_error seek_failed (seek ended.0 (pos 0) seek_start) >>= λ begun.
    wrap_error seek_failed (seek begun.0 (pos start) seek_start) >>= λ there.
    wrap_error read_failed (copy_n fuel room len there.0 sched store) >>= λ c. ok (ended.1, c)
