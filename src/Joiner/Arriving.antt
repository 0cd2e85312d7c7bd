-- ===== src/Joiner/Arriving.antt =====
-- cmd/join.go: what OnPieceReceived does to the store and the scheduler, whatever the payload.
use peerwatch.Base.{ℕ, ◌*◌, ◌≤◌, ◌<◌, ◌≡◌, refl, ◌∙◌, inl, inr, none, List, [], ◌∷◌, arith}
use peerwatch.Base.Tests.{◌==◌, Bool-cases, lt→ltb}
use peerwatch.Base.Lists.{length, All}
use peerwatch.Base.Keys.{contains}
use peerwatch.Base.Int.{pos}
use native.Mathlib.Decide.{dec_lt}
use peerwatch.Base.Results.{Result, ok, err, panic}
use peerwatch.Protocol.Message.{Bytes, Digest}
use peerwatch.Chunk.File.{WriteOutcome, written, failed, write_at}
use peerwatch.Chunk.Bitfield.{bit_at, set_bit}
use peerwatch.Chunk.Chunker.Counting.{Fits}
use peerwatch.Chunk.Chunker.Contents.{region}
use peerwatch.Chunk.Store.Defs.{
  Store, StoreError, Outcome, write_chunk, after_write, mark_available, signal,
}
use peerwatch.Chunk.Store.Integrity.{IsGenuine, NoCollision, chunk_total, write_chunk_lem}
use peerwatch.Chunk.Store.Download.{write_chunk-IsGenuine, write_out_of_range}
use peerwatch.Scheduler.Tick.{Scheduler, on_piece_received}
use peerwatch.Scheduler.Budget.{length-delete_key}
use peerwatch.Commands.{on_piece}
use peerwatch.Peer.Swarm.{connects, knows, Effect, piece_received, sync_received, connect}
use peerwatch.Joiner.{run_effects}

-- The call has come to an end, with a file that can be read as before.
Settled : Store → Outcome (Unit {0}) → Type 0
Settled s r = (r.0.file.fault ≡ s.file.fault) × (¬ (r.1 ≡ panic))

signal-fault : (i : ℕ) (s : Store) → (signal i s).file.fault ≡ s.file.fault
unfolding signal
signal-fault i s = elim (Bool-cases (contains i s.waiters)) [
  | inl waiting ↦ rw (waiting, signal) refl
  | inr nobody ↦ rw (nobody, signal) refl
]

module _ (sha256 : Bytes → Digest) (orig : Bytes) (cs : ℕ) (name : Bytes)
    (fits : Fits (length orig) cs) where
  after_write-Settled :
      (s : Store) (i : ℕ) (payload : Bytes) (disk : WriteOutcome)
      → IsGenuine sha256 orig cs name s
      → i < chunk_total orig cs
      → Settled s (after_write s i (write_at s.file (pos (i * cs)) payload disk))
  unfolding Settled after_write write_at mark_available set_bit
  after_write-Settled s i payload written v h =
      rw (lt→ltb _ (length s.bitfield) (v.room i h)) (signal-fault i _, λ e. cc)
  after_write-Settled s i payload (failed k e) v h = (refl, λ q. cc)

  write_chunk-Settled :
      (s : Store) (i : ℕ) (payload : Bytes) (disk : WriteOutcome)
      → IsGenuine sha256 orig cs name s
      → Settled s (write_chunk sha256 s (pos i) payload disk)
  unfolding Settled
  write_chunk-Settled s i payload disk v = elim (dec_lt i (chunk_total orig cs)) [
    | no outside ↦
        rw (write_out_of_range sha256 orig cs name fits s i payload disk v (omega arith))
          (refl, λ e. cc)
    | yes inside ↦
        rw (write_chunk_lem sha256 orig cs name fits s i payload disk v inside)
          (elim (Bool-cases (bit_at s.bitfield i)) [
            | inl present ↦ rw present (refl, λ e. cc)
            | inr missing ↦
                rw missing (elim (Bool-cases (sha256 payload == sha256 (region orig cs i))) [
                  | inl same ↦ rw same (after_write-Settled s i payload disk v inside)
                  | inr other ↦ rw other (refl, λ e. cc)
                ])
          ])
  ]

  -- Whatever the payload is for, the callback ends with a sound store, and frees chunks at most.
  pub on_piece-IsGenuine :
      (index : ℕ) (payload : Bytes) (disk : WriteOutcome) (store : Store) (sched : Scheduler)
      → IsGenuine sha256 orig cs name store
      → store.file.fault ≡ none
      → ((i : ℕ) → i < chunk_total orig cs → NoCollision sha256 orig cs i payload)
      → (store' : Store) × (sched' : Scheduler) × (on_piece sha256 disk index payload (store, sched)
          ≡ ok (store', sched'))
        × IsGenuine sha256 orig cs name store'
        × (store'.file.fault ≡ none)
        × (length sched'.in_flight ≤ length sched.in_flight)
  unfolding on_piece Settled on_piece_received
  on_piece-IsGenuine index payload disk store sched v healthy safe =
      let r = write_chunk sha256 store (pos index) payload disk in
      let (fault, ends) = write_chunk-Settled store index payload disk v in
      let kept =
        write_chunk-IsGenuine sha256 orig cs name fits store (pos index) payload disk v safe in
      go r.1 refl kept (fault ∙ healthy) ends
    where
      go :
          (outcome : Result StoreError (Unit {0}))
          → (write_chunk sha256 store (pos index) payload disk).1 ≡ outcome
          → IsGenuine sha256 orig cs name (write_chunk sha256 store (pos index) payload disk).0
          → (write_chunk sha256 store (pos index) payload disk).0.file.fault ≡ none
          → ¬ ((write_chunk sha256 store (pos index) payload disk).1 ≡ panic)
          → (store' : Store) × (sched' : Scheduler) × (on_piece sha256 disk index payload
                (store, sched)
              ≡ ok (store', sched'))
            × IsGenuine sha256 orig cs name store'
            × (store'.file.fault ≡ none)
            × (length sched'.in_flight ≤ length sched.in_flight)
      go (ok done) e kept well ends = (
        _,
        on_piece_received index sched,
        rw (e, on_piece) refl,
        kept,
        well,
        length-delete_key index sched.in_flight,
      )
      go (err f) e kept well ends = (_, sched, rw (e, on_piece) refl, kept, well, omega arith)
      go panic e kept well ends = absurd (ends e)

  -- The effects of one message.
  unfoldable pub IsLawfulEffect : Effect → Type 0
  IsLawfulEffect (piece_received index payload) =
      (i : ℕ) → i < chunk_total orig cs → NoCollision sha256 orig cs i payload
  IsLawfulEffect e = Unit

  pub run_effects-IsGenuine :
      (disk : WriteOutcome) (effects : List Effect) (store : Store) (sched : Scheduler)
      → All IsLawfulEffect effects
      → IsGenuine sha256 orig cs name store
      → store.file.fault ≡ none
      → length sched.in_flight ≤ 16
      → (store' : Store) × (sched' : Scheduler) × (out : List Effect) × (run_effects sha256 disk
            effects
            (store, sched)
          ≡ ok ((store', sched'), out))
        × IsGenuine sha256 orig cs name store'
        × (store'.file.fault ≡ none)
        × (length sched'.in_flight ≤ 16)
  unfolding run_effects IsLawfulEffect
  run_effects-IsGenuine disk [] store sched safe v well few = (store, sched, [], refl, v, well, few)
  run_effects-IsGenuine disk (piece_received index payload ∷ rest) store sched (here, safe) v well
        few =
      let (s₁, c₁, is, v₁, well₁, fewer) =
        on_piece-IsGenuine index payload disk store sched v well here in
      rw is (run_effects-IsGenuine disk rest s₁ c₁ safe v₁ well₁ (omega arith))
  run_effects-IsGenuine disk (sync_received m ∷ rest) store sched (here, safe) v well few =
      let (s₁, c₁, out, is, v₁, well₁, few₁) =
        run_effects-IsGenuine disk rest store sched safe v well few in
      (s₁, c₁, sync_received m ∷ out, rw is refl, v₁, well₁, few₁)
  run_effects-IsGenuine disk (connect addr ∷ rest) store sched (here, safe) v well few =
      let (s₁, c₁, out, is, v₁, well₁, few₁) =
        run_effects-IsGenuine disk rest store sched safe v well few in
      (s₁, c₁, connect addr ∷ out, rw is refl, v₁, well₁, few₁)

  pub connects-IsLawfulEffect :
      (known addrs : List Bytes) → All IsLawfulEffect (connects known addrs)
  unfolding connects IsLawfulEffect
  connects-IsLawfulEffect known [] = tt
  connects-IsLawfulEffect known (addr ∷ addrs) = elim (Bool-cases (knows addr known)) [
    | inl there ↦ rw there (connects-IsLawfulEffect known addrs)
    | inr fresh ↦ rw fresh (tt, connects-IsLawfulEffect known addrs)
  ]
