-- ===== src/Chunk/Threads/Tests.antt =====
-- Runs of two goroutines over one store of one chunk.
use peerwatch.Base.{◌/◌, ◌≤◌}
use peerwatch.Base.Lists.{length}
use peerwatch.Chunk.Threads.{out_of_range}
use peerwatch.Base.{ℕ, ◌≡◌, ◌≢◌, refl, ◌⊎◌, true, some, [], ◌∷◌, arith}
use peerwatch.Base.Int.{pos}
use peerwatch.Protocol.Message.{Bytes, Digest}
use peerwatch.Chunk.Bitfield.{bit_at, has_bit, set_bit, put_bit}
use peerwatch.Chunk.Manifest.{Manifest}
use peerwatch.Chunk.Threads.{
  Shared, Pc, store_of, signalling, notifying, arrived, crashed, Move, System, pick, Reach, start,
  later,
}
use peerwatch.Chunk.Threads.Invariant.{holds}
use peerwatch.Chunk.Threads.Safety.{IsFit, Reach-arrived, Reach-blocked}
use peerwatch.Chunk.Threads.Progress.{Steps, Reach-Steps-arrived}

abbrev first_byte : Bytes → Digest
first_byte [] = 0
first_byte (b ∷ payload) = b

abbrev one_chunk : Manifest
one_chunk = record {
  file_name = [];
  file_size = pos 2;
  chunk_size = pos 2;
  chunk_count = 1;
  chunks = record { size = pos 2; hash = 7 } ∷ [];
}

one_chunk-IsFit : IsFit one_chunk (0 ∷ [])
one_chunk-IsFit = record { known = refl; bytes = (omega arith, tt); room = λ i h. omega arith }

abbrev Run : Type 0
Run = (s : System) × Reach one_chunk first_byte (0 ∷ []) 0 s

abbrev begin : Run
begin = (store_of (0 ∷ []) 0, start)

abbrev by :
    (r : Run) (a : ℕ) {m : Shared} {p : Pc} → Move one_chunk first_byte r.0.mem (r.0.pc a) m p → Run
by r a mv = (_, later r.1 (pick a mv))

-- Goroutine 1 waits at a channel.
abbrev waits : Run
unfolding has_bit bit_at
waits =
    by
      (by
        (by (by (by begin 1 (Move.wait_for_chunk 0)) 1 (Move.not_there refl)) 1
          (Move.lock_to_wait refl))
        1 (Move.still_missing refl))
      1 (Move.make_channel refl)

-- Goroutine 0 has the chunk, and is about to signal it.
abbrev signals : Run
unfolding has_bit set_bit put_bit bit_at
signals =
    by
      (by
        (by (by (by waits 0 (Move.write_chunk 0 (7 ∷ 9 ∷ []) (omega arith))) 0 (Move.have_not refl))
          0 (Move.matches (record { size = pos 2; hash = 7 }) refl refl))
        0 Move.written)
      0 (Move.mark refl)

-- Goroutines 0 and 2 write the chunk up to the lock, one after the other; then both count it.
abbrev both_write : Run
unfolding has_bit bit_at
both_write =
    by
      (by
        (by
          (by
            (by
              (by
                (by (by begin 0 (Move.write_chunk 0 (7 ∷ 9 ∷ []) (omega arith))) 0
                  (Move.have_not refl))
                0 (Move.matches (record { size = pos 2; hash = 7 }) refl refl))
              0 Move.written)
            2 (Move.write_chunk 0 (7 ∷ 9 ∷ []) (omega arith)))
          2 (Move.have_not refl))
        2 (Move.matches (record { size = pos 2; hash = 7 }) refl refl))
      2 Move.written

counted_twice : (s : System) × Reach one_chunk first_byte (0 ∷ []) 0 s × (s.mem.count ≡ 2)
unfolding has_bit set_bit put_bit bit_at
counted_twice =
    let (s, r) = by (by both_write 0 (Move.mark refl)) 2 (Move.mark refl) in (s, r, refl)

Reach-blocked_example :
    (signals.0.mem.closed 0 ≡ true)
    ⊎ ((signals.0.mem.waiters 0 ≡ some 0)
        × (b : ℕ) × ((signals.0.pc b ≡ signalling 0) ⊎ (signals.0.pc b ≡ notifying 0)))
unfolding has_bit set_bit put_bit bit_at
Reach-blocked_example = Reach-blocked one_chunk-IsFit signals.1 1 0 0 refl refl

Reach-Steps-arrived_example :
    (t : System) × Steps one_chunk first_byte signals.0 t × (t.pc 1 ≡ arrived 0)
unfolding has_bit set_bit put_bit bit_at
Reach-Steps-arrived_example =
    Reach-Steps-arrived one_chunk first_byte one_chunk-IsFit signals.1 1 0 0 refl refl

-- Goroutine 0 waits for chunk 8 of a bitfield of one byte.
lost : (s : System) × Reach one_chunk first_byte (0 ∷ []) 0 s × (s.pc 0 ≡ out_of_range 8)
unfolding has_bit
lost =
    let (s, r) = by (by begin 0 (Move.wait_for_chunk 8)) 0 (Move.look_panics refl) in (s, r, refl)

Reach-arrived_example :
    (signals.0.pc 0 ≢ crashed)
    × ((i : ℕ) → signals.0.pc 0 ≡ out_of_range i → length signals.0.mem.bitfield ≤ i / 8)
    × ((i : ℕ) → signals.0.pc 0 ≡ arrived i → bit_at signals.0.mem.bitfield i ≡ true)
    × ((b : ℕ) → holds (signals.0.pc 0) ≡ true → holds (signals.0.pc b) ≡ true → 0 ≡ b)
unfolding has_bit set_bit put_bit bit_at
Reach-arrived_example = Reach-arrived one_chunk-IsFit signals.1 0
