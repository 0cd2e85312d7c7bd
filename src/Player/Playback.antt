-- ===== src/Player/Playback.antt =====
-- internal/player/server.go: what the player reads through demandReadSeeker.
use peerwatch.Base.{
  ℕ, zero, suc, ◌+◌, ◌-◌, ◌/◌, ◌≤◌, ◌<◌, ◌^◌, ◌≡◌, refl, ap, subst, true, false, none, some, arith,
}
use peerwatch.Base.Lists.{length, take, drop, take_past, length-take, length-drop}
use peerwatch.Base.Int.{pos, add64_pos, leb_ℤ}
use peerwatch.Base.Results.{ok}
use native.Mathlib.Decide.{dec_le}
use peerwatch.Protocol.Message.{Bytes, Digest}
use peerwatch.Chunk.Bitfield.{bit_at}
use peerwatch.Chunk.Chunker.Counting.{Fits}
use peerwatch.Chunk.Store.Defs.{Store}
use peerwatch.Chunk.Store.Reads.{read_bytes}
use peerwatch.Chunk.Store.Integrity.{IsGenuine, chunk_total, has_chunk_lem}
use peerwatch.Chunk.Store.Streaming.{
  served, last_chunk, clamp_length_lem, covering_lem, covering-in_file, read_bytes-genuine,
}
use peerwatch.Scheduler.Tick.{Scheduler}
use peerwatch.Player.{bytes, demand_range, copied, read}

take-served :
    (orig : Bytes) (off len : ℕ)
    → take (served (length orig) off len) (drop off orig) ≡ take len (drop off orig)
take-served orig off len = elim (dec_le len (length orig - off)) [
  | yes inner ↦
      let e : served (length orig) off len ≡ len = omega arith in ap (λ n. take n (drop off orig)) e
  | no beyond ↦
      take_past (drop off orig) _ len (omega (arith, length-drop off orig))
        (omega (arith, length-drop off orig))
]

module _ (sha256 : Bytes → Digest) (orig : Bytes) (cs : ℕ) (name : Bytes)
    (fits : Fits (length orig) cs) where
  demand_range-available :
      (n i : ℕ) (store : Store) (s : Scheduler)
      → IsGenuine sha256 orig cs name store
      → i + n ≤ chunk_total orig cs
      → ((j : ℕ) → i ≤ j → j < i + n → bit_at store.bitfield j ≡ true)
      → demand_range n i store s ≡ ok s
  unfolding demand_range
  demand_range-available zero i store s v inside has = refl
  demand_range-available (suc n) i store s v inside has =
      rw
        (
          has_chunk_lem sha256 orig cs name fits store i v (omega arith),
          has i (omega arith) (omega arith),
        )
        (demand_range-available n (i + 1) store s v (omega arith)
          (λ j lo hi. has j (omega arith) (omega arith)))

  -- Read at an offset within the file, on a readable store that has every chunk of the range: it gives
  -- the original's bytes from there on, as many as the buffer takes or the file still has, moves the
  -- offset behind them, and demands nothing of the scheduler.
  pub read-genuine :
      (store : Store) (s : Scheduler) (off room : ℕ)
      → IsGenuine sha256 orig cs name store
      → store.file.fault ≡ none
      → off < length orig
      → 0 < room
      → off + room < 2 ^ 63
      → ((j : ℕ)
          → off / cs ≤ j
          → j ≤ last_chunk (length orig) cs off room
          → bit_at store.bitfield j ≡ true)
      → read room
          (record { offset = pos off; file_size = pos (length orig); chunk_size = pos cs })
          s
          store
        ≡ ok (
          record {
            offset = pos (off + served (length orig) off room);
            file_size = pos (length orig);
            chunk_size = pos cs;
          },
          s,
          store,
          bytes (take room (drop off orig)),
        )
  unfolding read copied
  read-genuine store s off room v healthy h k l has =
      let fs = length orig in
      let n = served fs off room in
      let same : served fs off n ≡ n = omega arith in
      let c = covering-in_file sha256 orig cs name fits off room h k in
      let before : leb_ℤ (pos fs) (pos off) ≡ false = ground arith in
      let some_left : leb_ℤ (pos n) (pos 0) ≡ false = ground arith in
      let whole : length (take n (drop off orig)) ≡ n =
        omega (arith, length-take n (drop off orig), length-drop off orig) in
      let fetched : read_bytes store (pos off) (pos n)
          ≡ (store, ok (some (take n (drop off orig)))) =
        read_bytes-genuine sha256 orig cs name fits store off n v healthy h (omega arith)
          (omega arith) (λ j lo hi. has j lo (subst (λ m. j ≤ (off + m - 1) / cs) same hi)) in
      let demands : demand_range (last_chunk fs cs off room + 1 - off / cs) (off / cs) store s
          ≡ ok s =
        demand_range-available _ (off / cs) store s v (omega (arith, c.0, c.1))
          (λ j lo hi. has j lo (omega arith)) in
      rw (
        before,
        clamp_length_lem fs off room h (omega (arith, fits.no_overflow)) l,
        some_left,
        covering_lem cs off n fits.some_size (omega arith) (omega arith),
        demands,
        fetched,
        whole,
        add64_pos off n (omega arith),
        take-served orig off room,
      )
