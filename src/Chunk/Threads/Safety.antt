-- ===== src/Chunk/Threads/Safety.antt =====
-- internal/chunk/store.go: what holds of WriteChunk and WaitForChunk in every reachable state.
use peerwatch.Base.{ℕ, ◌/◌, ◌<◌, ◌≤◌, ◌≡◌, ◌≢◌, ◌⊎◌, inl, inr, true, some, arith}
use peerwatch.Base.Tests.{Bool-cases}
use peerwatch.Base.Lists.{length}
use peerwatch.Protocol.Message.{Bytes, Digest}
use peerwatch.Chunk.Bitfield.{IsBytes, bit_at}
use peerwatch.Chunk.Manifest.{Manifest}
use peerwatch.Chunk.Threads.{
  signalling, notifying, blocked, arrived, out_of_range, crashed, System, Step, pick, Reach, start,
  later,
}
use peerwatch.Chunk.Threads.Invariant.{Inv, store_of-Inv, holds}
use peerwatch.Chunk.Threads.Moves.{Move-Inv}

-- A bitfield with a bit for each chunk, and a manifest that lists as many chunks as it counts.
pub record IsFit (manifest : Manifest) (bf : Bytes) : Type 0 where
  pub known : length manifest.chunks ≡ manifest.chunk_count
  pub bytes : IsBytes bf
  pub room : (i : ℕ) → i < manifest.chunk_count → i / 8 < length bf

module _ {manifest : Manifest} {sha256 : Bytes → Digest} where
  Step-Inv :
      {s t : System} → Step manifest sha256 s t → Inv manifest s.mem s.pc → Inv manifest t.mem t.pc
  Step-Inv (pick a mv) inv = Move-Inv inv a mv

  pub Reach-Inv :
      {bf : Bytes} {count : ℕ} {s : System}
      → IsFit manifest bf
      → Reach manifest sha256 bf count s
      → Inv manifest s.mem s.pc
  Reach-Inv {bf} {count} fit start = store_of-Inv manifest bf count fit.known fit.bytes fit.room
  Reach-Inv fit (later r st) = Step-Inv st (Reach-Inv fit r)

  -- In every state that any interleaving of WriteChunk and WaitForChunk reaches: the only call that has
  -- panicked is a WaitForChunk of an index, not negative, that lies past the bitfield (no channel is closed
  -- twice, no bit is set or looked up outside it otherwise); a WaitForChunk that has returned has its
  -- chunk's bit set; and two goroutines that hold waitMu are the same. The manifest lists as many chunks as
  -- it counts, and the bitfield at the start has a bit for each.
  pub Reach-arrived :
      {bf : Bytes} {count : ℕ} {s : System}
      → IsFit manifest bf
      → Reach manifest sha256 bf count s
      → (a : ℕ)
      → (s.pc a ≢ crashed)
        × ((i : ℕ) → s.pc a ≡ out_of_range i → length s.mem.bitfield ≤ i / 8)
        × ((i : ℕ) → s.pc a ≡ arrived i → bit_at s.mem.bitfield i ≡ true)
        × ((b : ℕ) → holds (s.pc a) ≡ true → holds (s.pc b) ≡ true → a ≡ b)
  Reach-arrived {s} fit r a =
      let inv = Reach-Inv fit r in
      let here = inv.local a in
      (
        λ q. ground (arith, here, q),
        λ i q. ground (arith, here, q),
        λ i q. ground (arith, here, q),
        inv.alone a,
      )

  -- No wakeup is lost: in every reachable state, a goroutine that is blocked in WaitForChunk on a chunk
  -- whose bit is set has its channel closed, or its channel is the one in the map and another goroutine
  -- is on the way to close it. The manifest lists as many chunks as it counts, and the bitfield at the
  -- start has a bit for each.
  pub Reach-blocked :
      {bf : Bytes} {count : ℕ} {s : System}
      → IsFit manifest bf
      → Reach manifest sha256 bf count s
      → (a i c : ℕ) → s.pc a ≡ blocked i c
      → bit_at s.mem.bitfield i ≡ true
      → (s.mem.closed c ≡ true)
        ⊎ ((s.mem.waiters i ≡ some c)
            × (b : ℕ) × ((s.pc b ≡ signalling i) ⊎ (s.pc b ≡ notifying i)))
  Reach-blocked {s} fit r a i c q set =
      let inv = Reach-Inv fit r in
      elim (Bool-cases (s.mem.closed c)) [
        | inl done ↦ inl done
        | inr waits ↦
            let listed = inv.listed a i c q waits in
            let (b, says) = inv.promise i c listed set in inr (listed, b, ground (arith, says))
      ]
