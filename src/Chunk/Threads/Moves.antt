-- ===== src/Chunk/Threads/Moves.antt =====
-- internal/chunk/store.go: each move of a goroutine in WriteChunk or WaitForChunk keeps the invariant.
use peerwatch.Base.{ℕ, ◌<◌, ◌≡◌, refl, inl, inr, true, false, some, arith}
use peerwatch.Base.Tests.{◌==◌, Bool-cases}
use peerwatch.Base.Lists.{length}
use peerwatch.Protocol.Message.{Bytes, Digest}
use peerwatch.Chunk.Bitfield.{IsBytes, bit_at}
use peerwatch.Chunk.Manifest.{Manifest}
use peerwatch.Chunk.Threads.{
  Shared, Pc, registering, blocked, update, Move, written, mark, lock_to_signal, close_channel,
  close_panics, nobody_waits, lock_to_wait, still_missing, join, make_channel,
}
use peerwatch.Chunk.Threads.Invariant.{Inv, IsLocal, holds, Held, Announced}
use peerwatch.Chunk.Threads.Guards.{
  marked, has_bit_ok, index_of, channel_of, guard, Held-kept, Announced-kept,
}

module _ {manifest : Manifest} {sha256 : Bytes → Digest} where
  module _ {m : Shared} {pc : ℕ → Pc} (inv : Inv manifest m pc) (a : ℕ) where
    open inv use {known, room, local, alone, holder, entry, distinct, fresh, listed, promise, due}

    -- Set bits stay set, and the bitfield keeps its length.
    Move-bits :
        {p p' : Pc} {m' : Shared}
        → Move manifest sha256 m p m' p'
        → (IsBytes m'.bitfield)
          × (length m'.bitfield ≡ length m.bitfield)
          × ((j : ℕ) → bit_at m.bitfield j ≡ true → bit_at m'.bitfield j ≡ true)
    Move-bits (mark {i} {bf} h) =
        let f = marked m.bitfield bf i h in
        (f.bytes inv.bytes, f.same_length, λ j q. ground (arith, q, f.bits j inv.bytes))
    Move-bits _ = (inv.bytes, refl, λ j q. q)

    Move-alone :
        {p p' : Pc} {m' : Shared}
        → Move manifest sha256 m p m' p'
        → pc a ≡ p
        → (b c : ℕ) → holds (update pc a p' b) ≡ true
        → holds (update pc a p' c) ≡ true
        → b ≡ c
    Move-alone written e b c p q = ground (arith, alone b c, alone a b, alone a c, local b, local c)
    Move-alone mv e b c p q =
        ground (arith, guard mv, alone b c, alone a b, alone a c, local b, local c)

    Move-IsLocal :
        {p p' : Pc} {m' : Shared}
        → Move manifest sha256 m p m' p'
        → pc a ≡ p
        → (j : ℕ) → IsLocal manifest.chunk_count m' (update pc a p' j)
    Move-IsLocal written e j = ground (arith, local j, local a)
    Move-IsLocal (mark {i} {bf} h) e j =
        let f = marked m.bitfield bf i h in
        ground (
          arith,
          local j,
          local a,
          f.same_length,
          f.bits i inv.bytes,
          f.bits (index_of (pc j)) inv.bytes,
        )
    Move-IsLocal (close_panics {i} {c} h k) e j = ground (arith, h, k, entry i c)
    Move-IsLocal (join {i} {c} h) e j = ground (
      arith,
      h,
      entry i c,
      local j,
      local a,
      alone a j,
      listed j (index_of (pc j)) (channel_of (pc j)),
    )
    Move-IsLocal (make_channel {i} h) e j =
        ground (arith, h, fresh m.made, local j, local a, alone a j)
    Move-IsLocal mv e j = ground (
      arith,
      guard mv,
      local j,
      local a,
      known,
      room (index_of (pc a)),
      alone a j,
      fresh (channel_of (pc j)),
      entry (index_of (pc a)) (channel_of (pc j)),
      listed j (index_of (pc j)) (channel_of (pc j)),
      distinct (index_of (pc a)) (index_of (pc j)) (channel_of (pc j)),
    )

    Move-holder :
        {p p' : Pc} {m' : Shared}
        → Move manifest sha256 m p m' p'
        → pc a ≡ p
        → m'.wait_mu ≡ true
        → Held (update pc a p')
    Move-holder written e q = Held-kept pc a _ (ground arith) (holder q)
    Move-holder (lock_to_signal h) e q = (a, ground arith)
    Move-holder (lock_to_wait h) e q = (a, ground arith)
    Move-holder (close_panics {i} {c} h k) e q = absurd (ground (arith, h, k, entry i c))
    Move-holder mv e q =
        Held-kept pc a _ (ground (arith, guard mv, q, local a, room (index_of (pc a))))
          (holder (ground (arith, q)))

    Move-entry :
        {p p' : Pc} {m' : Shared}
        → Move manifest sha256 m p m' p'
        → pc a ≡ p
        → (i c : ℕ) → m'.waiters i ≡ some c
        → (c < m'.made) × (m'.closed c ≡ false)
    Move-entry written e i c q = entry i c q
    Move-entry mv e i c q =
        ground (arith, guard mv, entry i c, distinct i (index_of (pc a)) c, fresh c, q)

    Move-distinct :
        {p p' : Pc} {m' : Shared}
        → Move manifest sha256 m p m' p'
        → (i j c : ℕ) → m'.waiters i ≡ some c
        → m'.waiters j ≡ some c
        → i ≡ j
    Move-distinct written i j c q r = distinct i j c q r
    Move-distinct mv i j c q r =
        ground (arith, guard mv, distinct i j c, entry i c, entry j c, q, r)

    Move-fresh :
        {p p' : Pc} {m' : Shared}
        → Move manifest sha256 m p m' p'
        → (c : ℕ) → m'.closed c ≡ true
        → c < m'.made
    Move-fresh written c q = fresh c q
    Move-fresh (close_channel {i} {c = d} h k) c q = ground (arith, fresh c, entry i d h, q)
    Move-fresh mv c q = ground (arith, guard mv, fresh c, q)

    Move-listed :
        {p p' : Pc} {m' : Shared}
        → Move manifest sha256 m p m' p'
        → pc a ≡ p
        → (b i c : ℕ) → update pc a p' b ≡ blocked i c
        → m'.closed c ≡ false
        → m'.waiters i ≡ some c
    Move-listed written e b i c q r = ground (arith, listed b i c, q, r)
    Move-listed mv e b i c q r = ground (arith, guard mv, listed b i c, q, r)

    Move-promise :
        {p p' : Pc} {m' : Shared}
        → Move manifest sha256 m p m' p'
        → pc a ≡ p
        → (i c : ℕ) → m'.waiters i ≡ some c
        → bit_at m'.bitfield i ≡ true
        → Announced (update pc a p') i
    Move-promise written e i c q r = Announced-kept pc a _ i (ground arith) (promise i c q r)
    Move-promise (mark {i = j} {bf} h) e i c q r = elim (Bool-cases (j == i)) [
      | inl same ↦ (a, ground (arith, same))
      | inr other ↦
          let f = marked m.bitfield bf j h in
          Announced-kept pc a _ i (ground arith)
            (promise i c q (ground (arith, r, f.bits i inv.bytes, other)))
    ]
    Move-promise (close_channel {i = j} h k) e i c q r =
        Announced-kept pc a _ i (ground (arith, q)) (promise i c (ground (arith, q)) r)
    Move-promise (nobody_waits {i = j} h) e i c q r =
        Announced-kept pc a _ i (ground (arith, q, h)) (promise i c q r)
    Move-promise (make_channel {i = j} h) e i c q r = elim (Bool-cases (j == i)) [
      | inl same ↦ Announced-kept pc a _ i (ground arith) (due a i (ground (arith, same)) r)
      | inr other ↦
          Announced-kept pc a _ i (ground arith) (promise i c (ground (arith, q, other)) r)
    ]
    Move-promise (close_panics {i = j} {c = d} h k) e i c q r =
        absurd (ground (arith, h, k, entry j d))
    Move-promise mv e i c q r = Announced-kept pc a _ i (ground (arith, guard mv)) (promise i c q r)

    Move-due :
        {p p' : Pc} {m' : Shared}
        → Move manifest sha256 m p m' p'
        → pc a ≡ p
        → (b i : ℕ) → update pc a p' b ≡ registering i
        → bit_at m'.bitfield i ≡ true
        → Announced (update pc a p') i
    Move-due written e b i q r =
        Announced-kept pc a _ i (ground arith) (due b i (ground (arith, q)) r)
    Move-due (mark {i = j} {bf} h) e b i q r = elim (Bool-cases (j == i)) [
      | inl same ↦ (a, ground (arith, same))
      | inr other ↦
          let f = marked m.bitfield bf j h in
          Announced-kept pc a _ i (ground arith)
            (due b i (ground (arith, q)) (ground (arith, r, f.bits i inv.bytes, other)))
    ]
    Move-due (still_missing {i = j} h) e b i q r =
        let g = has_bit_ok m.bitfield j false h in
        Announced-kept pc a _ i (ground arith) (due b i (ground (arith, q, r, g)) r)
    Move-due mv e b i q r =
        Announced-kept pc a _ i (ground (arith, guard mv, alone a b, q))
          (due b i (ground (arith, q)) r)

    pub Move-Inv :
        {p' : Pc} {m' : Shared}
        → Move manifest sha256 m (pc a) m' p'
        → Inv manifest m' (update pc a p')
    Move-Inv mv =
        let (bytes, same, kept) = Move-bits mv in
        record {
          known = known;
          bytes = bytes;
          room = λ i h. omega (arith, room i h);
          local = Move-IsLocal mv refl;
          alone = Move-alone mv refl;
          holder = Move-holder mv refl;
          entry = Move-entry mv refl;
          distinct = Move-distinct mv;
          fresh = Move-fresh mv;
          listed = Move-listed mv refl;
          promise = Move-promise mv refl;
          due = Move-due mv refl;
        }
