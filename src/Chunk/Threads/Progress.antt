-- ===== src/Chunk/Threads/Progress.antt =====
-- internal/chunk/store.go: a goroutine that waits for a chunk that is there can be woken.
use peerwatch.Base.{
  ℕ, ◌/◌, ◌<◌, ◌≡◌, refl, sym, subst, ◌∙◌, ap, inl, inr, true, false, Option, none, some, arith,
}
use peerwatch.Base.Tests.{Bool-cases, ◌==◌, lt→ltb}
use peerwatch.Base.Lists.{length}
use peerwatch.Base.Results.{ok}
use peerwatch.Protocol.Message.{Bytes, Digest}
use peerwatch.Chunk.Bitfield.{bit_at, has_bit}
use peerwatch.Chunk.Store.Defs.{StoreError}
use peerwatch.Chunk.Manifest.{Manifest}
use peerwatch.Chunk.Threads.{
  Shared, Pc, signalling, notifying, rechecking, registering, blocked, arrived, Move,
  lock_to_signal, close_channel, nobody_waits, there_by_now, still_missing, join, make_channel,
  wake, update, System, Step, pick, Reach,
}
use peerwatch.Chunk.Threads.Invariant.{Inv, holds}
use peerwatch.Chunk.Threads.Moves.{Move-Inv}
use peerwatch.Chunk.Threads.Safety.{IsFit, Reach-Inv, Reach-blocked}

-- Some moves, one after the other.
pub data Steps (manifest : Manifest) (sha256 : Bytes → Digest) : System → System → Type 0 where
  stay : {s : System} → Steps manifest sha256 s s
  first :
      {s t u : System}
      → Step manifest sha256 s t
      → Steps manifest sha256 t u
      → Steps manifest sha256 s u

abbrev at : Shared → (ℕ → Pc) → System
at m pc = record { mem = m; pc = pc }

has_bit_there :
    (bf : Bytes) (i : ℕ) → i / 8 < length bf → has_bit {E = StoreError} bf i ≡ ok (bit_at bf i)
unfolding has_bit
has_bit_there bf i h = rw (lt→ltb (i / 8) (length bf) h) refl

-- A goroutine that waits at the channel of the map.
record Waiting (m : Shared) (pc : ℕ → Pc) (a i c : ℕ) : Type 0 where
  here : pc a ≡ blocked i c
  entry : m.waiters i ≡ some c

module _ (manifest : Manifest) (sha256 : Bytes → Digest) where
  -- The goroutine can get to the end of WaitForChunk.
  abbrev Arrives : ℕ → ℕ → Shared → (ℕ → Pc) → Type 0
  Arrives a i m pc = (t : System) × Steps manifest sha256 (at m pc) t × (t.pc a ≡ arrived i)

  by_move :
      {m m' : Shared} {p p' : Pc} (pc : ℕ → Pc) (a i b : ℕ)
      → pc b ≡ p
      → Move manifest sha256 m p m' p'
      → Arrives a i m' (update pc b p')
      → Arrives a i m pc
  by_move {m} {m'} {p} {p'} pc a i b q mv (t, later, there) =
      (t, first (pick b (subst (λ r. Move manifest sha256 m r m' p') (sym q) mv)) later, there)

  wake_now :
      (m : Shared) (pc : ℕ → Pc) (a i c : ℕ)
      → pc a ≡ blocked i c
      → m.closed c ≡ true
      → Arrives a i m pc
  wake_now m pc a i c q h = by_move pc a i a q (wake h) (_, stay, ground arith)

  close_now :
      (m : Shared) (pc : ℕ → Pc) (a i c b : ℕ)
      → Inv manifest m pc
      → Waiting m pc a i c
      → pc b ≡ notifying i
      → Arrives a i m pc
  close_now m pc a i c b inv w q =
      by_move pc a i b q (close_channel w.entry ((inv.entry i c w.entry).1))
        (wake_now _ _ a i c (ground (arith, w.here, q)) (ground arith))

  lock_now :
      (m : Shared) (pc : ℕ → Pc) (a i c b : ℕ)
      → Inv manifest m pc
      → Waiting m pc a i c
      → pc b ≡ signalling i
      → m.wait_mu ≡ false
      → Arrives a i m pc
  lock_now m pc a i c b inv w q free =
      let mv : Move manifest sha256 m (signalling i) (record m { wait_mu = true }) (notifying i) =
        lock_to_signal free in
      by_move pc a i b q mv (
        close_now _ _ a i c b
          (Move-Inv inv b (
            subst (λ r. Move manifest sha256 m r (record m { wait_mu = true }) (notifying i))
              (sym q) mv))
          (record { here = ground (arith, w.here, q); entry = w.entry }) (ground arith))

  -- The goroutine `h`, which holds waitMu, lets go of it and wakes the waiter, or leaves it waiting and
  -- the goroutine `b` on its way.
  let_go :
      (m m' : Shared) (pc : ℕ → Pc) (a i c b h : ℕ) (p p' : Pc)
      → Inv manifest m pc
      → Waiting m pc a i c
      → pc b ≡ signalling i
      → pc h ≡ p
      → (mv : Move manifest sha256 m p m' p') → holds p ≡ true
      → m'.wait_mu ≡ false
      → m'.waiters i ≡ some c
      → Arrives a i m pc
  let_go m m' pc a i c b h p p' inv w q r mv has free kept = by_move pc a i h r mv (
      lock_now m' (update pc h p') a i c b
        (Move-Inv inv h (subst (λ x. Move manifest sha256 m x m' p') (sym r) mv))
        (record { here = ground (arith, w.here, r, has); entry = kept }) (ground (arith, q, r, has))
        free)

  registering_now :
      (m : Shared) (pc : ℕ → Pc) (a i c b h j : ℕ)
      → Inv manifest m pc
      → Waiting m pc a i c
      → pc b ≡ signalling i
      → pc h ≡ registering j
      → Arrives a i m pc
  registering_now m pc a i c b h j inv w q r = go (m.waiters j) refl
    where
      go : (o : Option ℕ) → m.waiters j ≡ o → Arrives a i m pc
      go (some d) e = let_go m _ pc a i c b h _ _ inv w q r (join e) refl refl w.entry
      go none e =
          let_go m _ pc a i c b h _ _ inv w q r (make_channel e) refl refl
            (ground (arith, w.entry, e))

  notifying_now :
      (m : Shared) (pc : ℕ → Pc) (a i c b h j : ℕ)
      → Inv manifest m pc
      → Waiting m pc a i c
      → pc b ≡ signalling i
      → pc h ≡ notifying j
      → Arrives a i m pc
  notifying_now m pc a i c b h j inv w q r = elim (Bool-cases (j == i)) [
    | inl same ↦ close_now m pc a i c h inv w (ground (arith, r, same))
    | inr other ↦ go other (m.waiters j) refl
  ]
    where
      go : (j == i) ≡ false → (o : Option ℕ) → m.waiters j ≡ o → Arrives a i m pc
      go other (some d) e =
          let_go m _ pc a i c b h _ _ inv w q r (close_channel e ((inv.entry j d e).1)) refl refl
            (ground (arith, w.entry, other))
      go other none e = let_go m _ pc a i c b h _ _ inv w q r (nobody_waits e) refl refl w.entry

  rechecking_now :
      (m : Shared) (pc : ℕ → Pc) (a i c b h j : ℕ)
      → Inv manifest m pc
      → Waiting m pc a i c
      → pc b ≡ signalling i
      → pc h ≡ rechecking j
      → Arrives a i m pc
  rechecking_now m pc a i c b h j inv w q r = elim (Bool-cases (bit_at m.bitfield j)) [
    | inl set ↦
        let_go m _ pc a i c b h _ _ inv w q r (there_by_now (sees ∙ ap ok set)) refl refl w.entry
    | inr clear ↦
        let mv = still_missing (sees ∙ ap ok clear) in
        by_move pc a i h r mv (
          registering_now m _ a i c b h j
            (Move-Inv inv h (subst (λ x. Move manifest sha256 m x m (registering j)) (sym r) mv))
            (record { here = ground (arith, w.here, r); entry = w.entry }) (ground (arith, q, r))
            (ground arith))
  ]
    where
      sees : has_bit {E = StoreError} m.bitfield j ≡ ok (bit_at m.bitfield j)
      sees = has_bit_there m.bitfield j (ground (arith, r, inv.local h))

  holder_now :
      (m : Shared) (pc : ℕ → Pc) (a i c b h : ℕ) (p : Pc)
      → Inv manifest m pc
      → Waiting m pc a i c
      → pc b ≡ signalling i
      → pc h ≡ p
      → holds p ≡ true
      → Arrives a i m pc
  holder_now m pc a i c b h (notifying j) inv w q r has = notifying_now m pc a i c b h j inv w q r
  holder_now m pc a i c b h (rechecking j) inv w q r has = rechecking_now m pc a i c b h j inv w q r
  holder_now m pc a i c b h (registering j) inv w q r has =
      registering_now m pc a i c b h j inv w q r
  holder_now m pc a i c b h p inv w q r has = absurd (cc)

  signalling_now :
      (m : Shared) (pc : ℕ → Pc) (a i c b : ℕ)
      → Inv manifest m pc
      → Waiting m pc a i c
      → pc b ≡ signalling i
      → Arrives a i m pc
  signalling_now m pc a i c b inv w q = elim (Bool-cases m.wait_mu) [
    | inl held ↦ let (h, has) = inv.holder held in holder_now m pc a i c b h (pc h) inv w q refl has
    | inr free ↦ lock_now m pc a i c b inv w q free
  ]

  -- From every reachable state in which a goroutine is blocked in WaitForChunk on a chunk whose bit is
  -- set, some moves bring it to the end of WaitForChunk. The manifest lists as many chunks as it counts,
  -- and the bitfield at the start has a bit for each.
  pub Reach-Steps-arrived :
      {bf : Bytes} {count : ℕ} {s : System}
      → IsFit manifest bf
      → Reach manifest sha256 bf count s
      → (a i c : ℕ) → s.pc a ≡ blocked i c
      → bit_at s.mem.bitfield i ≡ true
      → (t : System) × Steps manifest sha256 s t × (t.pc a ≡ arrived i)
  Reach-Steps-arrived {s} fit r a i c q set =
      let inv = Reach-Inv fit r in
      elim (Reach-blocked fit r a i c q set) [
        | inl done ↦ wake_now s.mem s.pc a i c q done
        | inr (listed, b, next) ↦
            let w : Waiting s.mem s.pc a i c = record { here = q; entry = listed } in
            elim next [
              | inl signals ↦ signalling_now s.mem s.pc a i c b inv w signals
              | inr notifies ↦ close_now s.mem s.pc a i c b inv w notifies
            ]
      ]
