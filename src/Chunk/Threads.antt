-- ===== src/Chunk/Threads.antt =====
-- internal/chunk/store.go: WriteChunk and WaitForChunk of one Store, called from any number of
-- goroutines. A goroutine moves from one access to shared memory to the next; the accesses under `mu`
-- and what is done while `waitMu` is held and the map is read or written are one move each.
-- What WriteAt leaves in the file is not part of this memory.
pub mod Invariant
pub mod Guards
pub mod Moves
pub mod Safety
pub mod Progress
mod Tests
use peerwatch.Base.{ℕ, suc, ◌+◌, ◌≤◌, ◌<◌, ◌≡◌, ◌≢◌, Bool, true, false, Option, none, some}
use peerwatch.Base.Tests.{◌==◌, if◌then◌else◌}
use peerwatch.Base.Lists.{get_elem?}
use peerwatch.Base.Results.{Result, ok, err, panic}
use peerwatch.Protocol.Message.{Bytes, Digest}
use peerwatch.Chunk.Bitfield.{has_bit, set_bit}
use peerwatch.Chunk.Manifest.{ChunkMeta, Manifest}
use peerwatch.Chunk.Store.Defs.{StoreError}

abbrev pub update {ℓ} : {A : Type ℓ} → (ℕ → A) → ℕ → A → ℕ → A
update f i a j = if i == j then a else f j

-- The fields behind the two locks. A channel is a number, below `made` once it has been made;
-- `waiters` is the map, and `wait_mu` says whether its lock is held.
pub record Shared : Type 0 where
  pub bitfield : Bytes
  pub count : ℕ
  pub waiters : ℕ → Option ℕ
  pub closed : ℕ → Bool
  pub made : ℕ
  pub wait_mu : Bool

-- Where a goroutine stands in WriteChunk or WaitForChunk, with its live variables.
pub data Pc : Type 0 where
  idle : Pc
  -- WriteChunk: before HasChunk, the hash, the WriteAt, mu.Lock, waitMu.Lock, and the map's entry.
  entering verifying storing : (index : ℕ) (payload : Bytes) → Pc
  marking signalling notifying : (index : ℕ) → Pc
  -- WaitForChunk: before HasChunk, waitMu.Lock, the second look, the map, and at the channel.
  looking locking rechecking registering : (index : ℕ) → Pc
  blocked : (index channel : ℕ) → Pc
  -- WaitForChunk has returned; its HasChunk has panicked, past the bitfield; a call has panicked elsewhere.
  arrived out_of_range : (index : ℕ) → Pc
  crashed : Pc

-- One move of one goroutine. `m.wait_mu ≡ false` is what waitMu.Lock waits for.
pub data Move (manifest : Manifest) (sha256 : Bytes → Digest) (m : Shared)
    : Pc → Shared → Pc → Type 0 where
  write_chunk :
      (i : ℕ) (payload : Bytes)
      → i < manifest.chunk_count
      → Move manifest sha256 m idle m (entering i payload)
  have_it :
      {i : ℕ} {payload : Bytes}
      → has_bit {E = StoreError} m.bitfield i ≡ ok true
      → Move manifest sha256 m (entering i payload) m idle
  have_not :
      {i : ℕ} {payload : Bytes}
      → has_bit {E = StoreError} m.bitfield i ≡ ok false
      → Move manifest sha256 m (entering i payload) m (verifying i payload)
  enter_panics :
      {i : ℕ} {payload : Bytes}
      → has_bit {E = StoreError} m.bitfield i ≡ panic
      → Move manifest sha256 m (entering i payload) m crashed
  matches :
      {i : ℕ} {payload : Bytes} (meta : ChunkMeta)
      → get_elem? manifest.chunks i ≡ some meta
      → sha256 payload ≡ meta.hash
      → Move manifest sha256 m (verifying i payload) m (storing i payload)
  mismatches :
      {i : ℕ} {payload : Bytes} (meta : ChunkMeta)
      → get_elem? manifest.chunks i ≡ some meta
      → sha256 payload ≢ meta.hash
      → Move manifest sha256 m (verifying i payload) m idle
  no_entry :
      {i : ℕ} {payload : Bytes}
      → get_elem? manifest.chunks i ≡ none
      → Move manifest sha256 m (verifying i payload) m crashed
  written : {i : ℕ} {payload : Bytes} → Move manifest sha256 m (storing i payload) m (marking i)
  write_fails : {i : ℕ} {payload : Bytes} → Move manifest sha256 m (storing i payload) m idle
  mark :
      {i : ℕ} {bf : Bytes}
      → set_bit {E = StoreError} m.bitfield i ≡ ok bf
      → Move manifest sha256 m
          (marking i)
          (record m { bitfield = bf; count = m.count + 1 })
          (signalling i)
  mark_panics :
      {i : ℕ}
      → set_bit {E = StoreError} m.bitfield i ≡ panic
      → Move manifest sha256 m (marking i) m crashed
  lock_to_signal :
      {i : ℕ}
      → m.wait_mu ≡ false
      → Move manifest sha256 m (signalling i) (record m { wait_mu = true }) (notifying i)
  close_channel :
      {i c : ℕ}
      → m.waiters i ≡ some c
      → m.closed c ≡ false
      → Move manifest sha256 m
          (notifying i)
          (record m {
            waiters = update m.waiters i none;
            closed = update m.closed c true;
            wait_mu = false;
          })
          idle
  close_panics :
      {i c : ℕ}
      → m.waiters i ≡ some c
      → m.closed c ≡ true
      → Move manifest sha256 m (notifying i) m crashed
  nobody_waits :
      {i : ℕ}
      → m.waiters i ≡ none
      → Move manifest sha256 m (notifying i) (record m { wait_mu = false }) idle
  wait_for_chunk : (i : ℕ) → Move manifest sha256 m idle m (looking i)
  there :
      {i : ℕ}
      → has_bit {E = StoreError} m.bitfield i ≡ ok true
      → Move manifest sha256 m (looking i) m (arrived i)
  not_there :
      {i : ℕ}
      → has_bit {E = StoreError} m.bitfield i ≡ ok false
      → Move manifest sha256 m (looking i) m (locking i)
  look_panics :
      {i : ℕ}
      → has_bit {E = StoreError} m.bitfield i ≡ panic
      → Move manifest sha256 m (looking i) m (out_of_range i)
  lock_to_wait :
      {i : ℕ}
      → m.wait_mu ≡ false
      → Move manifest sha256 m (locking i) (record m { wait_mu = true }) (rechecking i)
  there_by_now :
      {i : ℕ}
      → has_bit {E = StoreError} m.bitfield i ≡ ok true
      → Move manifest sha256 m (rechecking i) (record m { wait_mu = false }) (arrived i)
  still_missing :
      {i : ℕ}
      → has_bit {E = StoreError} m.bitfield i ≡ ok false
      → Move manifest sha256 m (rechecking i) m (registering i)
  recheck_panics :
      {i : ℕ}
      → has_bit {E = StoreError} m.bitfield i ≡ panic
      → Move manifest sha256 m (rechecking i) m crashed
  join :
      {i c : ℕ}
      → m.waiters i ≡ some c
      → Move manifest sha256 m (registering i) (record m { wait_mu = false }) (blocked i c)
  make_channel :
      {i : ℕ}
      → m.waiters i ≡ none
      → Move manifest sha256 m
          (registering i)
          (record m {
            waiters = update m.waiters i (some m.made);
            made = suc m.made;
            wait_mu = false;
          })
          (blocked i m.made)
  wake : {i c : ℕ} → m.closed c ≡ true → Move manifest sha256 m (blocked i c) m (arrived i)
  return : {i : ℕ} → Move manifest sha256 m (arrived i) m idle

-- The goroutines are numbered; those that have not called stand at `idle`.
pub record System : Type 0 where
  pub mem : Shared
  pub pc : ℕ → Pc

pub data Step (manifest : Manifest) (sha256 : Bytes → Digest) (s : System) : System → Type 0 where
  pick :
      (a : ℕ) {m : Shared} {p : Pc}
      → Move manifest sha256 s.mem (s.pc a) m p
      → Step manifest sha256 s (record { mem = m; pc = update s.pc a p })

-- A store of `bf` with `count` chunks, before its first call.
abbrev pub store_of : Bytes → ℕ → System
store_of bf count = record {
  mem = record {
    bitfield = bf;
    count = count;
    waiters = λ _. none;
    closed = λ _. false;
    made = 0;
    wait_mu = false;
  };
  pc = λ _. idle;
}

pub data Reach (manifest : Manifest) (sha256 : Bytes → Digest) (bf : Bytes) (count : ℕ)
    : System → Type 0 where
  start : Reach manifest sha256 bf count (store_of bf count)
  later :
      {s t : System}
      → Reach manifest sha256 bf count s
      → Step manifest sha256 s t
      → Reach manifest sha256 bf count t
