-- ===== src/Chunk/Threads/Invariant.antt =====
-- internal/chunk/store.go: what holds between any two moves of the goroutines in WriteChunk and
-- WaitForChunk.
use peerwatch.Base.{ℕ, ◌/◌, ◌<◌, ◌≤◌, ◌≡◌, Bool, true, false, Option, none, some}
use peerwatch.Base.Lists.{length}
use peerwatch.Protocol.Message.{Bytes}
use peerwatch.Chunk.Bitfield.{IsBytes, bit_at}
use peerwatch.Chunk.Manifest.{Manifest}
use peerwatch.Chunk.Threads.{
  Shared, Pc, idle, entering, verifying, storing, marking, signalling, notifying, looking, locking,
  rechecking, registering, blocked, arrived, out_of_range, crashed, store_of,
}

-- The goroutine holds waitMu.
abbrev pub holds : Pc → Bool
holds (notifying _) = true
holds (rechecking _) = true
holds (registering _) = true
holds _ = false

-- The chunk whose waiters the goroutine is about to wake.
abbrev pub announces : Pc → Option ℕ
announces (signalling i) = some i
announces (notifying i) = some i
announces _ = none

abbrev pub Announced : (ℕ → Pc) → ℕ → Type 0
Announced pc i = (a : ℕ) × (announces (pc a) ≡ some i)

abbrev pub Held : (ℕ → Pc) → Type 0
Held pc = (a : ℕ) × (holds (pc a) ≡ true)

-- What a goroutine's place says about the shared memory.
abbrev pub IsLocal : ℕ → Shared → Pc → Type 0
IsLocal n m idle = Unit
IsLocal n m (entering i payload) = i < n
IsLocal n m (verifying i payload) = i < n
IsLocal n m (storing i payload) = i < n
IsLocal n m (marking i) = i < n
IsLocal n m (signalling i) = bit_at m.bitfield i ≡ true
IsLocal n m (notifying i) = (bit_at m.bitfield i ≡ true) × (m.wait_mu ≡ true)
IsLocal n m (looking i) = Unit
IsLocal n m (locking i) = i / 8 < length m.bitfield
IsLocal n m (rechecking i) = (i / 8 < length m.bitfield) × (m.wait_mu ≡ true)
IsLocal n m (registering i) = m.wait_mu ≡ true
IsLocal n m (blocked i c) = (c < m.made) × (m.closed c ≡ true → bit_at m.bitfield i ≡ true)
IsLocal n m (arrived i) = bit_at m.bitfield i ≡ true
IsLocal n m (out_of_range i) = length m.bitfield ≤ i / 8
IsLocal n m crashed = ⊥

pub record Inv (manifest : Manifest) (m : Shared) (pc : ℕ → Pc) : Type 0 where
  pub known : length manifest.chunks ≡ manifest.chunk_count
  pub bytes : IsBytes m.bitfield
  pub room : (i : ℕ) → i < manifest.chunk_count → i / 8 < length m.bitfield
  pub local : (a : ℕ) → IsLocal manifest.chunk_count m (pc a)
  pub alone : (a b : ℕ) → holds (pc a) ≡ true → holds (pc b) ≡ true → a ≡ b
  pub holder : m.wait_mu ≡ true → Held pc
  pub entry : (i c : ℕ) → m.waiters i ≡ some c → (c < m.made) × (m.closed c ≡ false)
  pub distinct : (i j c : ℕ) → m.waiters i ≡ some c → m.waiters j ≡ some c → i ≡ j
  pub fresh : (c : ℕ) → m.closed c ≡ true → c < m.made
  pub listed : (a i c : ℕ) → pc a ≡ blocked i c → m.closed c ≡ false → m.waiters i ≡ some c
  pub promise : (i c : ℕ) → m.waiters i ≡ some c → bit_at m.bitfield i ≡ true → Announced pc i
  pub due : (a i : ℕ) → pc a ≡ registering i → bit_at m.bitfield i ≡ true → Announced pc i

pub store_of-Inv :
    (manifest : Manifest) (bf : Bytes) (count : ℕ)
    → length manifest.chunks ≡ manifest.chunk_count
    → IsBytes bf
    → ((i : ℕ) → i < manifest.chunk_count → i / 8 < length bf)
    → Inv manifest (store_of bf count).mem (store_of bf count).pc
store_of-Inv manifest bf count known bytes room = record {
  known = known;
  bytes = bytes;
  room = room;
  local = λ a. tt;
  alone = λ a b p q. cc;
  holder = λ q. cc;
  entry = λ i c q. cc;
  distinct = λ i j c p q. cc;
  fresh = λ c q. cc;
  listed = λ a i c p q. cc;
  promise = λ i c p q. cc;
  due = λ a i p q. cc;
}
