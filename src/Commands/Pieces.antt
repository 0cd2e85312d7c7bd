-- ===== src/Commands/Pieces.antt =====
-- cmd/join.go and internal/peer/swarm.go: a PIECE that the store refuses, and what becomes of its chunk.
use peerwatch.Base.{
  ℕ, ◌-◌, ◌≡◌, refl, ap, ◌∙◌, inl, inr, false, not, ◌&&◌, Option, none, some, List, [], ◌∷◌, arith,
}
use peerwatch.Base.Tests.{ltb, Bool-cases}
use peerwatch.Base.Lists.{length}
use peerwatch.Base.Keys.{contains, delete_key, contains-delete_key}
use peerwatch.Base.Entries.{lookup, remove, keys}
use peerwatch.Base.Int.{pos}
use peerwatch.Base.Floats.{Floats}
use peerwatch.Base.Results.{ok, err}
use peerwatch.Protocol.Message.{Bytes, Digest, piece}
use peerwatch.Chunk.File.{WriteOutcome}
use peerwatch.Chunk.Store.Defs.{Store, StoreError, write_chunk}
use peerwatch.Peer.Tracker.{Tracker}
use peerwatch.Peer.Connection.{
  Peer, blend_speed, clear_in_flight, sweep, timeout_in_flight, in_flight_chunks,
}
use peerwatch.Peer.Swarm.{piece_received, handle_message}
use peerwatch.Scheduler.Tick.{Scheduler, delete_all, release_in_flight}
use peerwatch.Commands.{on_piece, on_disconnected}

contains-delete_all :
    (ks xs : List ℕ) (k : ℕ)
    → contains k (delete_all ks xs) ≡ (not (contains k ks) && contains k xs)
unfolding delete_all contains
contains-delete_all [] xs k = refl
contains-delete_all (l ∷ ks) xs k =
    ground (arith, contains-delete_all ks (delete_key l xs) k, contains-delete_key l k xs)

keys-remove : (k : ℕ) (es : List (ℕ × ℕ)) → contains k (keys (remove k es)) ≡ false
unfolding contains
keys-remove k [] = refl
keys-remove k ((x, a) ∷ es) = ground (arith, keys-remove k es)

pub absent-keys : (k : ℕ) (es : List (ℕ × ℕ)) → lookup k es ≡ none → contains k (keys es) ≡ false
unfolding contains
absent-keys k [] h = refl
absent-keys k ((x, a) ∷ es) h = ground (arith, h, absent-keys k es)

pub on_disconnected-in_flight :
    (ks : List ℕ) (sched : Scheduler)
    → (on_disconnected ks sched).in_flight ≡ delete_all ks sched.in_flight
unfolding on_disconnected release_in_flight delete_all
on_disconnected-in_flight [] sched = refl
on_disconnected-in_flight (k ∷ ks) sched = refl

on_piece_refused :
    (sha256 : Bytes → Digest) (disk : WriteOutcome) (index : ℕ) (payload : Bytes) (store : Store)
    (sched : Scheduler) (e : StoreError)
    → (write_chunk sha256 store (pos index) payload disk).1 ≡ err e
    → on_piece sha256 disk index payload (store, sched)
      ≡ ok ((write_chunk sha256 store (pos index) payload disk).0, sched)
unfolding on_piece
on_piece_refused sha256 disk index payload store sched e refused = rw (refused, on_piece) refl

module _ {F : Type 0} (floats : Floats F) where
  sweep-absent :
      (limit now : ℕ) (speed : F) (es : List (ℕ × ℕ)) (k : ℕ)
      → contains k (keys es) ≡ false
      → contains k (sweep floats limit now speed es).1 ≡ false
  unfolding sweep contains
  sweep-absent limit now speed [] k h = refl
  sweep-absent limit now speed ((x, asked) ∷ es) k h = elim (Bool-cases (ltb limit (now - asked))) [
    | inl late ↦
        rw late
          (ground (arith, h, sweep-absent limit now (floats.times speed (floats.decimal 5 1)) es k))
    | inr kept ↦ rw kept (ground (arith, h, sweep-absent limit now speed es k))
  ]

  -- ClearInFlight leaves no entry for the chunk.
  clear_in_flight-keys :
      (seconds : ℕ → F) (now index size : ℕ) (p : Peer F)
      → contains index (keys (clear_in_flight floats seconds now index size p).in_flight) ≡ false
  unfolding clear_in_flight
  clear_in_flight-keys seconds now index size p = go (lookup index p.in_flight) refl
    where
      go :
          (o : Option ℕ)
          → lookup index p.in_flight ≡ o
          → contains index (
              keys
                (elim o as (λ _. Peer F) [
                  | none ↦ p
                  | some asked ↦ record p {
                    speed = blend_speed floats size (seconds (now - asked)) p.speed;
                    in_flight = remove index p.in_flight;
                  }
                ]).in_flight)
            ≡ false
      go none e = absent-keys index p.in_flight e
      go (some asked) e = keys-remove index p.in_flight

  -- A peer answers a request with a payload that WriteChunk refuses. The scheduler then keeps the chunk
  -- among those in flight, and that peer's entry is gone: neither a timeout of its requests at any later
  -- time nor the end of its connection takes the chunk out of the scheduler's set.
  pub handle_message-on_piece :
      (sha256 : Bytes → Digest) (seconds : ℕ → F) (now index : ℕ) (payload : Bytes)
      (disk : WriteOutcome) (known : List Bytes) (p : Peer F) (t : Option Tracker) (store : Store)
      (sched : Scheduler) (e : StoreError)
      → (write_chunk sha256 store (pos index) payload disk).1 ≡ err e
      → (p' : Peer F) × (store' : Store) × (handle_message floats seconds now
            (some store)
            known
            (piece (record { chunk_index = index; payload = payload }))
            (p, t)
          ≡ ok ((p', t), piece_received index payload ∷ []))
        × (on_piece sha256 disk index payload (store, sched) ≡ ok (store', sched))
        × ((limit later : ℕ)
            → contains index
                (release_in_flight (timeout_in_flight floats limit later p').1 sched).in_flight
              ≡ contains index sched.in_flight)
        × (contains index (on_disconnected (in_flight_chunks p') sched).in_flight
            ≡ contains index sched.in_flight)
  unfolding handle_message release_in_flight timeout_in_flight in_flight_chunks
  handle_message-on_piece sha256 seconds now index payload disk known p t store sched e refused =
      let p' = clear_in_flight floats seconds now index (length payload) p in
      let gone = clear_in_flight-keys seconds now index (length payload) p in
      (
        p',
        (write_chunk sha256 store (pos index) payload disk).0,
        refl,
        on_piece_refused sha256 disk index payload store sched e refused,
        λ limit later.
            contains-delete_all (sweep floats limit later p'.speed p'.in_flight).1 sched.in_flight
              index
            ∙ ap (λ b. not b && contains index sched.in_flight)
                (sweep-absent limit later p'.speed p'.in_flight index gone),
        ap (contains index) (on_disconnected-in_flight (in_flight_chunks p') sched)
            ∙ contains-delete_all (keys p'.in_flight) sched.in_flight index
            ∙ ap (λ b. not b && contains index sched.in_flight) gone,
      )
