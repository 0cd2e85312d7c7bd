-- ===== src/Joiner/Deliveries.antt =====
-- cmd/join.go: a joiner with one peer receives the chunks that it has asked for.
use peerwatch.Base.{
  ℕ, ◌/◌, ◌<◌, ◌≡◌, refl, ap, ◌∙◌, inl, inr, true, not, ◌&&◌, some, List, [], ◌∷◌, map, arith,
}
use peerwatch.Base.Tests.{◌==◌, ==_refl, lt→ltb, Bool-cases, Option-cases}
use peerwatch.Base.Lists.{length, All}
use native.Mathlib.Decide.{ℕ_discrete}
use mathlib.Core.Bool.{false≢true}
use peerwatch.Base.Keys.{contains, contains-delete_key}
use peerwatch.Base.Entries.{lookup, remove, keys}
use peerwatch.Base.Int.{pos}
use peerwatch.Base.Floats.{Floats}
use peerwatch.Base.Results.{ok}
use peerwatch.Protocol.Message.{Bytes, Digest}
use peerwatch.Chunk.File.{written, write_at}
use peerwatch.Chunk.Bitfield.{bit_at, set_bit}
use peerwatch.Chunk.Chunker.Counting.{Fits}
use peerwatch.Chunk.Chunker.Contents.{region}
use peerwatch.Chunk.Store.Defs.{Store, write_chunk, after_write, mark_available}
use peerwatch.Chunk.Store.Integrity.{IsGenuine, chunk_total, write_chunk_lem}
use peerwatch.Chunk.Store.Download.{write_in_range-IsGenuine}
use peerwatch.Chunk.Store.Progress.{write_chunk_keeps, write_chunk_delivers}
use peerwatch.Peer.Connection.{Peer, clear_in_flight}
use peerwatch.Peer.Tracker.{Tracker}
use peerwatch.Peer.Swarm.{Swarm, handle_message}
use peerwatch.Scheduler.Strategy.{ChunkCandidate}
use peerwatch.Scheduler.Tick.{Scheduler, on_piece_received}
use peerwatch.Commands.{on_piece}
use peerwatch.Commands.Pieces.{absent-keys}
use peerwatch.Joiner.{in_table, step, run, settle, run_effects, peer_of, put_back}
use peerwatch.Joiner.Turns.{alone, chunk_message, arrives}

contains-keys-remove :
    (i k : ℕ) (es : List (ℕ × ℕ))
    → contains k (keys (remove i es)) ≡ (not (i == k) && contains k (keys es))
unfolding contains
contains-keys-remove i k [] = ground arith
contains-keys-remove i k ((x, a) ∷ es) = ground (arith, contains-keys-remove i k es)

module _ {F : Type 0} (floats : Floats F) (seconds : ℕ → F) where
  -- ClearInFlight changes the entries and the speed only.
  clear_in_flight_lem :
      (now index size : ℕ) (p : Peer F)
      → ((clear_in_flight floats seconds now index size p).id ≡ p.id)
        × ((clear_in_flight floats seconds now index size p).closed ≡ p.closed)
        × ((k : ℕ)
            → contains k (keys (clear_in_flight floats seconds now index size p).in_flight)
              ≡ (not (index == k) && contains k (keys p.in_flight)))
  unfolding clear_in_flight
  clear_in_flight_lem now index size p = elim (Option-cases (lookup index p.in_flight)) [
    | inl absent ↦
        rw (absent, clear_in_flight)
          (
            refl,
            refl,
            λ k. elim (ℕ_discrete index k) [
              | yes e ↦ ground (
                arith,
                absent-keys index p.in_flight absent,
                ap (λ z. contains z (keys p.in_flight)) e,
              )
              | no ne ↦ ground arith
            ],
          )
    | inr (asked, found) ↦
        rw (found, clear_in_flight) (refl, refl, λ k. contains-keys-remove index k p.in_flight)
  ]

module _ (sha256 : Bytes → Digest) (orig : Bytes) (cs : ℕ) (name : Bytes)
    (fits : Fits (length orig) cs) where
  -- The chunk itself, on a disk that takes it, is no error.
  write_chunk_succeeds :
      (s : Store) (i : ℕ)
      → IsGenuine sha256 orig cs name s
      → i < chunk_total orig cs
      → (write_chunk sha256 s (pos i) (region orig cs i) written).1 ≡ ok tt
  unfolding after_write write_at mark_available set_bit
  write_chunk_succeeds s i v inside =
      rw (write_chunk_lem sha256 orig cs name fits s i (region orig cs i) written v inside)
        (elim (Bool-cases (bit_at s.bitfield i)) [
          | inl present ↦ rw present refl
          | inr missing ↦
              rw
                (
                  missing,
                  ==_refl (sha256 (region orig cs i)),
                  lt→ltb (i / 8) (length s.bitfield) (v.room i inside),
                )
                refl
        ])

  module _ {F : Type 0} (floats : Floats F) (seconds : ℕ → F)
      (sort : List ChunkCandidate → List ChunkCandidate) (now host : ℕ) (w : Swarm F)
      (t : Tracker) where
    abbrev cleared : ℕ → Peer F → Peer F
    cleared i p = clear_in_flight floats seconds now i (length (region orig cs i)) p

    step-chunk :
        (i : ℕ) (p : Peer F) (store : Store) (sched : Scheduler)
        → IsGenuine sha256 orig cs name store
        → i < chunk_total orig cs
        → step sha256 floats seconds sort
            (arrives floats seconds sort sha256 now host (chunk_message orig cs i))
            (alone host w t p store sched)
          ≡ ok (
            alone host w t
                (cleared i p)
                (write_chunk sha256 store (pos i) (region orig cs i) written).0
                (on_piece_received i sched),
            [],
          )
    unfolding step settle run_effects peer_of put_back handle_message on_piece
    step-chunk i p store sched v inside =
        let found : peer_of (in_table host) (alone host w t p store sched).swarm ≡ some p =
          ground (arith, ==_refl host) in
        rw (found, step)
          (rw (write_chunk_succeeds store i v inside, on_piece) (rw (==_refl host) refl))

    -- What the delivery of the chunks leaves of the joiner: none of them is asked for any more, the store
    -- has them, and it has what it had.
    pub record Delivered (indices : List ℕ) (p p' : Peer F) (store store' : Store)
        (sched sched' : Scheduler) : Type 0 where
      pub genuine : IsGenuine sha256 orig cs name store'
      pub same_id : p'.id ≡ p.id
      pub same_closed : p'.closed ≡ p.closed
      pub cleared_keys :
          (k : ℕ)
          → contains k (keys p'.in_flight)
            ≡ (not (contains k indices) && contains k (keys p.in_flight))
      pub released :
          (k : ℕ)
          → contains k sched'.in_flight ≡ (not (contains k indices) && contains k sched.in_flight)
      pub kept : (j : ℕ) → bit_at store.bitfield j ≡ true → bit_at store'.bitfield j ≡ true
      pub there : (j : ℕ) → contains j indices ≡ true → bit_at store'.bitfield j ≡ true

    Delivered-cons :
        (i : ℕ) (indices : List ℕ) (p p' : Peer F) (store store' : Store) (sched sched' : Scheduler)
        → IsGenuine sha256 orig cs name store
        → i < chunk_total orig cs
        → Delivered indices
            (cleared i p)
            p'
            (write_chunk sha256 store (pos i) (region orig cs i) written).0
            store'
            (on_piece_received i sched)
            sched'
        → Delivered (i ∷ indices) p p' store store' sched sched'
    unfolding contains on_piece_received
    Delivered-cons i indices p p' store store' sched sched' v inside d =
        let (id_kept, closed_kept, keys_left) =
          clear_in_flight_lem floats seconds now i (length (region orig cs i)) p in
        record {
          genuine = d.genuine;
          same_id = d.same_id ∙ id_kept;
          same_closed = d.same_closed ∙ closed_kept;
          cleared_keys = λ k. ground (arith, d.cleared_keys k, keys_left k);
          released = λ k. ground (arith, d.released k, contains-delete_key i k sched.in_flight);
          kept = λ j has. d.kept j (
              write_chunk_keeps sha256 orig cs name fits store (pos i) (region orig cs i) written j
                v has);
          there = λ j h. elim (ℕ_discrete i j) [
            | yes e ↦
                rw (← e) (d.kept i (write_chunk_delivers sha256 orig cs name fits store i v inside))
            | no ne ↦ d.there j (ground (arith, h))
          ];
        }

    pub run-Delivered :
        (indices : List ℕ) (p : Peer F) (store : Store) (sched : Scheduler)
        → IsGenuine sha256 orig cs name store
        → All (λ i. i < chunk_total orig cs) indices
        → (p' : Peer F) × (store' : Store) × (sched' : Scheduler) × (run sha256 floats seconds sort
              (map
                (arrives floats seconds sort sha256 now host)
                (map (chunk_message orig cs) indices))
              (alone host w t p store sched)
            ≡ ok (alone host w t p' store' sched', []))
          × Delivered indices p p' store store' sched sched'
    unfolding run contains
    run-Delivered [] p store sched v inside = (
      p,
      store,
      sched,
      refl,
      record {
        genuine = v;
        same_id = refl;
        same_closed = refl;
        cleared_keys = λ k. refl;
        released = λ k. refl;
        kept = λ j has. has;
        there = λ j h. absurd (false≢true h);
      },
    )
    run-Delivered (i ∷ indices) p store sched v (here, inside) =
        let kept =
          write_in_range-IsGenuine sha256 orig cs name fits store i (region orig cs i) written v
            (λ e. refl) here in
        let (p', store', sched', runs, d) =
          run-Delivered indices (cleared i p)
            (write_chunk sha256 store (pos i) (region orig cs i) written).0
            (on_piece_received i sched) kept inside in
        (
          p',
          store',
          sched',
          rw (step-chunk i p store sched v here, runs) refl,
          Delivered-cons i indices p p' store store' sched sched' v here d,
        )
