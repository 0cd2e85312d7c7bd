-- ===== src/Player/Copying.antt =====
-- internal/player/server.go: what a request of the player gets.
use peerwatch.Base.{
  ℕ, zero, suc, ◌+◌, ◌-◌, ◌≤◌, ◌<◌, ◌≡◌, refl, false, ap, sym, ◌∙◌, true, none, ◌++◌, arith,
}
use peerwatch.Base.Tests.{min_nat}
use peerwatch.Base.Lists.{length, take, drop, length-take, length-drop, drop-drop, take-append-take}
use peerwatch.Base.Int.{pos, ltb_ℤ, add64_pos}
use peerwatch.Base.Results.{ok}
use peerwatch.Protocol.Message.{Bytes, Digest}
use peerwatch.Chunk.Bitfield.{bit_at}
use peerwatch.Chunk.Chunker.Counting.{Fits}
use peerwatch.Chunk.Store.Defs.{Store}
use peerwatch.Chunk.Store.Integrity.{IsGenuine, chunk_total}
use peerwatch.Chunk.Store.Streaming.{served, covering-in_file}
use peerwatch.Scheduler.Tick.{Scheduler}
use peerwatch.Player.{DemandReadSeeker, bytes, seek_start, seek_end, target, seek, read}
use peerwatch.Player.Playback.{read-genuine}
use peerwatch.Player.Server.{Copy, copied_all, copy_n, new_reader, serve_video}

module _ (sha256 : Bytes → Digest) (orig : Bytes) (cs : ℕ) (name : Bytes)
    (fits : Fits (length orig) cs) (store : Store) (v : IsGenuine sha256 orig cs name store)
    (healthy : store.file.fault ≡ none)
    (has : (j : ℕ) → j < chunk_total orig cs → bit_at store.bitfield j ≡ true)
    (sched : Scheduler) where
  abbrev reader_at : ℕ → DemandReadSeeker
  reader_at off = record { offset = pos off; file_size = pos (length orig); chunk_size = pos cs }

  abbrev copy_from : (off left : ℕ) → Copy
  copy_from off left = record {
    reader = reader_at (off + left);
    sched = sched;
    store = store;
    out = take left (drop off orig);
    end = copied_all;
  }

  -- One read into a buffer of n bytes that the file still has.
  read_next :
      (off n : ℕ)
      → 0 < n
      → off + n ≤ length orig
      → read n (reader_at off) sched store
        ≡ ok (reader_at (off + n), sched, store, bytes (take n (drop off orig)))
  read_next off n some inside =
      let no_overflow = fits.no_overflow in
      let same : served (length orig) off n ≡ n = omega arith in
      let c = covering-in_file sha256 orig cs name fits off n (omega arith) some in
      read-genuine sha256 orig cs name fits store sched off n v healthy (omega arith) some
        (omega arith) (λ j lo hi. has j (omega (arith, c.1)))
      ∙ rw same refl

  copy_n_lem :
      (fuel room off left : ℕ)
      → left ≤ fuel
      → 0 < room
      → off + left ≤ length orig
      → copy_n fuel room left (reader_at off) sched store ≡ ok (copy_from off left)
  unfolding copy_n
  copy_n_lem fuel room off zero enough some inside =
      let e : off + 0 ≡ off = omega arith in rw e refl
  copy_n_lem zero room off (suc left) enough some inside = absurd (omega arith)
  copy_n_lem (suc fuel) room off (suc left) enough some inside =
      let n = min_nat room (suc left) in
      let small : n ≤ suc left = ground arith in
      let positive : 0 < n = ground arith in
      let whole : length (take n (drop off orig)) ≡ n =
        omega (arith, length-take n (drop off orig), length-drop off orig) in
      let reached : off + n + (suc left - n) ≡ off + suc left = omega arith in
      let sum : n + (suc left - n) ≡ suc left = omega arith in
      let sent : take n (drop off orig) ++ take (suc left - n) (drop (off + n) orig)
          ≡ take (suc left) (drop off orig) =
        ap (λ rest. take n (drop off orig) ++ take (suc left - n) rest) (sym (drop-drop off n orig))
        ∙ take-append-take n (suc left - n) (drop off orig)
        ∙ ap (λ m. take m (drop off orig)) sum in
      rw
        (
          read_next off n positive (omega arith),
          whole,
          copy_n_lem fuel room (off + n) (suc left - n) (omega arith) some (omega arith),
        )
        (rw (reached, sent) refl)

  new_reader_lem : new_reader store ≡ reader_at 0
  unfolding new_reader
  new_reader_lem =
      ap (λ m. record { offset = pos 0; file_size = m.file_size; chunk_size = m.chunk_size })
        v.manifest_is

  seek-seek_start :
      (off to : ℕ) → seek (reader_at off) (pos to) seek_start ≡ ok (reader_at to, pos to)
  unfolding seek target
  seek-seek_start off to = let e : ltb_ℤ (pos to) (pos 0) ≡ false = ground arith in rw e refl

  seek-seek_end :
      seek (reader_at 0) (pos 0) seek_end ≡ ok (reader_at (length orig), pos (length orig))
  unfolding seek target
  seek-seek_end =
      let no_overflow = fits.no_overflow in
      let none_left : length orig + 0 ≡ length orig = omega arith in
      let e : ltb_ℤ (pos (length orig)) (pos 0) ≡ false = ground arith in
      rw (add64_pos (length orig) 0 (omega arith), none_left, e) refl

  -- The store is readable, keeps the invariant and has every chunk; the range lies in the file, the buffer of
  -- io.CopyN has room and its loop a round for each byte. The request gets the size of the original and
  -- exactly the bytes of the range, in order, without blocking, and leaves store and scheduler alone.
  pub serve_video-genuine :
      (fuel room start len : ℕ)
      → len ≤ fuel
      → 0 < room
      → start + len ≤ length orig
      → serve_video fuel room start len sched store
        ≡ ok (
          pos (length orig),
          record {
            reader = record {
              offset = pos (start + len);
              file_size = pos (length orig);
              chunk_size = pos cs;
            };
            sched = sched;
            store = store;
            out = take len (drop start orig);
            end = copied_all;
          },
        )
  unfolding serve_video
  serve_video-genuine fuel room start len enough some inside =
      rw
        (
          new_reader_lem,
          seek-seek_end,
          seek-seek_start (length orig) 0,
          seek-seek_start 0 start,
          copy_n_lem fuel room start len enough some inside,
        )
        refl
