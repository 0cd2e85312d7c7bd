-- ===== src/Peer/Serving.antt =====
-- internal/peer/swarm.go: what a peer is sent for its requests, and what its bitfield tells.
use peerwatch.Base.{
  ℕ, ◌/◌, ◌<◌, ◌≡◌, refl, sym, ap, ◌∙◌, inl, inr, false, Option, none, some, List, [], ◌∷◌, arith,
}
use peerwatch.Base.Tests.{==_refl, if◌then◌else◌, Bool-cases}
use peerwatch.Base.Lists.{length, All}
use peerwatch.Base.Floats.{Floats}
use peerwatch.Base.Results.{ok, ◌>>=◌}
use peerwatch.Protocol.Message.{Bytes, Digest, Message, piece, request, bitfield}
use peerwatch.Chunk.Bitfield.{bit_at}
use peerwatch.Chunk.Chunker.Counting.{Fits}
use peerwatch.Chunk.Chunker.Contents.{region}
use peerwatch.Chunk.Store.Defs.{Store, has_chunk}
use peerwatch.Chunk.Store.Integrity.{IsGenuine, chunk_total, has_chunk_lem}
use peerwatch.Chunk.Store.Serving.{read_chunk-genuine}
use peerwatch.Peer.Connection
use peerwatch.Peer.Connection.{bit_within, Peer, send, set_bitfield}
use peerwatch.Peer.Tracker.{Tracker, update_from_bitfield}
use peerwatch.Peer.Availability.{has_peer, has_peer-update, IsTracker}
use peerwatch.Peer.Swarm.{
  update_tracker, answer, answer_if, serve_request, serve_from, handle_message,
}

-- The pieces for the indices that the bitfield marks, put into a queue one after the other.
unfoldable pub enqueue : (ℕ → Bytes) → Bytes → List ℕ → List Message → List Message
enqueue contents bf [] queue = queue
enqueue contents bf (index ∷ indices) queue = enqueue contents bf indices (
    if bit_at bf index
    then piece (record { chunk_index = index; payload = contents index }) ∷ queue
    else queue)

module _ {F : Type 0} (sha256 : Bytes → Digest) (orig : Bytes) (cs : ℕ) (name : Bytes)
    (fits : Fits (length orig) cs) (store : Store) (genuine : IsGenuine sha256 orig cs name store)
    (healthy : store.file.fault ≡ none) where
  answer_lem :
      (p : Peer F) (index : ℕ)
      → p.closed ≡ false
      → index < chunk_total orig cs
      → answer_if store index (has_chunk store index) p
        ≡ ok (record p {
          queue =
              if bit_at store.bitfield index
              then piece (record { chunk_index = index; payload = region orig cs index }) ∷ p.queue
              else p.queue;
        })
  unfolding answer_if answer send
  answer_lem p index alive inside =
      rw (has_chunk_lem sha256 orig cs name fits store index genuine inside)
        (elim (Bool-cases (bit_at store.bitfield index)) [
          | inl there ↦
              rw
                (
                  there,
                  answer_if,
                  read_chunk-genuine sha256 orig cs name fits store index genuine healthy inside
                      there,
                  alive,
                )
                refl
          | inr missing ↦ rw (missing, answer_if) refl
        ])

  serve_request_lem :
      (indices : List ℕ) (p : Peer F)
      → p.closed ≡ false
      → All (λ index. index < chunk_total orig cs) indices
      → serve_request store indices p
        ≡ ok (record p { queue = enqueue (region orig cs) store.bitfield indices p.queue })
  unfolding serve_request enqueue
  serve_request_lem [] p alive inside = refl
  serve_request_lem (index ∷ indices) p alive (here, inside) =
      ap (λ r. r >>= serve_request store indices) (answer_lem p index alive here)
      ∙ serve_request_lem indices _ alive inside

  -- A REQUEST that reaches a readable store which keeps the invariant, for chunks of the file: the
  -- peer, not closed, is sent the original's bytes of just those that the store has, in the order in
  -- which it asks for them, and nothing else changes.
  pub handle_request-genuine :
      (floats : Floats F) (seconds : ℕ → F) (now : ℕ) (known : List Bytes) (indices : List ℕ)
      (p : Peer F) (t : Option Tracker)
      → p.closed ≡ false
      → All (λ index. index < chunk_total orig cs) indices
      → handle_message floats seconds now (some store) known (request indices) (p, t)
        ≡ ok ((record p { queue = enqueue (region orig cs) store.bitfield indices p.queue }, t), [])
  unfolding handle_message serve_from
  handle_request-genuine floats seconds now known indices p t alive inside =
      rw (serve_request_lem indices p alive inside)

-- A BITFIELD that reaches a swarm whose tracker is in order: from then on, the peer and the tracker
-- say the same of the sender and every chunk that the bitfield covers, which is what its bit says.
pub handle_bitfield-agree :
    {F : Type 0} (floats : Floats F) (seconds : ℕ → F) (now : ℕ) (store : Option Store)
    (known : List Bytes) (bf : Bytes) (p : Peer F) (t : Tracker) (count i : ℕ)
    → IsTracker count t
    → i < count
    → i / 8 < length bf
    → (p' : Peer F) × (t' : Tracker) × (handle_message floats seconds now store known
          (bitfield bf)
          (p, some t)
        ≡ ok ((p', some t'), []))
      × (Connection.has_chunk p' i ≡ bit_at bf i)
      × (has_peer t' i p.id ≡ bit_at bf i)
unfolding handle_message update_tracker set_bitfield Connection.has_chunk bit_within
handle_bitfield-agree floats seconds now store known bf p t count i v inside covered = (
  set_bitfield bf p,
  update_from_bitfield p.id bf t,
  refl,
  ground arith,
  ground
      (arith, has_peer-update t p.id bf i p.id (v.rows ∙ sym v.count_is), v.count_is, ==_refl p.id),
)
