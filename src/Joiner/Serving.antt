-- ===== src/Joiner/Serving.antt =====
-- internal/peer: the pieces in the queues to the peers, through the operations of the swarm.
use peerwatch.Base.{ℕ, ◌<◌, ◌≡◌, refl, inl, inr, none, some, List, [], ◌∷◌, arith}
use peerwatch.Base.Tests.{◌==◌, Bool-cases, Option-cases}
use peerwatch.Base.Lists.{length, All}
use peerwatch.Base.Entries.{lookup, put, remove}
use peerwatch.Base.Floats.{Floats}
use peerwatch.Base.Results.{ok}
use peerwatch.Protocol.Message.{Bytes, Digest, Message, request, piece}
use peerwatch.Chunk.Bitfield.{bit_at}
use peerwatch.Chunk.Chunker.Counting.{Fits}
use peerwatch.Chunk.Chunker.Contents.{region}
use peerwatch.Chunk.Store.Defs.{Store, has_chunk}
use peerwatch.Chunk.Store.Integrity.{IsGenuine, chunk_total, has_chunk_lem}
use peerwatch.Chunk.Store.Serving.{read_chunk-genuine}
use peerwatch.Peer.Connection.{Peer, send, mark_in_flight, clear_in_flight, timeout_in_flight}
use peerwatch.Peer.Swarm.{Swarm, mark_all, request_chunks, answer, answer_if, serve_request}
use peerwatch.Peer.Duties.{send_all}
use peerwatch.Peer.Tracker.{Tracker}
use peerwatch.Scheduler.Tick.{Batches, send_batches, time_out}

module _ (orig : Bytes) (cs : ℕ) where
  -- A PIECE is for a chunk of the file and has the original's bytes.
  unfoldable pub IsHonest : Message → Type 0
  IsHonest (piece m) =
      (m.chunk_index < chunk_total orig cs) × (m.payload ≡ region orig cs m.chunk_index)
  IsHonest m = Unit

  unfoldable pub IsHonestPeer : {F : Type 0} → Peer F → Type 0
  IsHonestPeer p = All IsHonest p.queue

  unfoldable pub IsHonestTable : {F : Type 0} → List (ℕ × Peer F) → Type 0
  IsHonestTable ps = All (λ e. IsHonestPeer e.1) ps

  module _ {F : Type 0} where
    pub lookup-IsHonest :
        (id : ℕ) (ps : List (ℕ × Peer F)) (p : Peer F)
        → IsHonestTable ps
        → lookup id ps ≡ some p
        → IsHonestPeer p
    unfolding IsHonestTable
    lookup-IsHonest id [] p v h = cc
    lookup-IsHonest id ((x, q) ∷ ps) p (here, v) h = elim (Bool-cases (x == id)) [
      | inl same ↦ let e : q ≡ p = ground (arith, h, same) in rw (← e) here
      | inr other ↦ lookup-IsHonest id ps p v (ground (arith, h, other))
    ]

    pub put-IsHonest :
        (id : ℕ) (p : Peer F) (ps : List (ℕ × Peer F))
        → IsHonestPeer p
        → IsHonestTable ps
        → IsHonestTable (put id p ps)
    unfolding IsHonestTable
    put-IsHonest id p [] h v = (h, tt)
    put-IsHonest id p ((x, q) ∷ ps) h (here, v) = elim (Bool-cases (x == id)) [
      | inl same ↦ rw same (h, v)
      | inr other ↦ rw other (here, put-IsHonest id p ps h v)
    ]

    pub remove-IsHonest :
        (id : ℕ) (ps : List (ℕ × Peer F)) → IsHonestTable ps → IsHonestTable (remove id ps)
    unfolding IsHonestTable
    remove-IsHonest id [] v = v
    remove-IsHonest id ((x, q) ∷ ps) (here, v) = elim (Bool-cases (x == id)) [
      | inl same ↦ rw same (remove-IsHonest id ps v)
      | inr other ↦ rw other (here, remove-IsHonest id ps v)
    ]

    pub send-IsHonest :
        (m : Message) (p : Peer F) → IsHonest m → IsHonestPeer p → IsHonestPeer (send m p)
    unfolding send IsHonestPeer
    send-IsHonest m p h v = elim (Bool-cases p.closed) [
      | inl shut ↦ rw shut v
      | inr alive ↦ rw alive (h, v)
    ]

    pub send_all-IsHonest :
        (m : Message) (ps : List (ℕ × Peer F))
        → IsHonest m
        → IsHonestTable ps
        → IsHonestTable (send_all m ps)
    unfolding IsHonestTable send_all
    send_all-IsHonest m [] h v = v
    send_all-IsHonest m ((x, q) ∷ ps) h (here, v) =
        (send-IsHonest m q h here, send_all-IsHonest m ps h v)

    mark_all-queue :
        (now : ℕ) (indices : List ℕ) (p : Peer F) → (mark_all now indices p).queue ≡ p.queue
    unfolding mark_all mark_in_flight
    mark_all-queue now [] p = refl
    mark_all-queue now (i ∷ indices) p = mark_all-queue now indices (mark_in_flight now i p)

    -- What the swarm keeps: a tracker, and honest queues.
    pub record IsHonestSwarm (s : Swarm F) : Type 0 where
      pub tracked : (t : Tracker) × (s.tracker ≡ some t)
      pub honest : IsHonestTable s.peers

    request_chunks-IsHonest :
        (now id : ℕ) (indices : List ℕ) (s : Swarm F)
        → IsHonestSwarm s
        → IsHonestSwarm (request_chunks now id indices s)
    unfolding request_chunks IsHonest IsHonestPeer
    request_chunks-IsHonest now id indices s v = elim (Option-cases (lookup id s.peers)) [
      | inl absent ↦ rw (absent, request_chunks) v
      | inr (p, found) ↦
          rw (found, request_chunks)
            (record {
              tracked = v.tracked;
              honest =
                  put-IsHonest id _ s.peers
                    (send-IsHonest (request indices) (mark_all now indices p) tt (
                      rw (mark_all-queue now indices p)
                        (lookup-IsHonest id s.peers p v.honest found)))
                    v.honest;
            })
    ]

    pub send_batches-IsHonest :
        (now : ℕ) (batches : Batches) (s : Swarm F)
        → IsHonestSwarm s
        → IsHonestSwarm (send_batches now batches s)
    unfolding send_batches
    send_batches-IsHonest now [] s v = v
    send_batches-IsHonest now ((id, indices) ∷ batches) s v =
        send_batches-IsHonest now batches (request_chunks now id indices s)
          (request_chunks-IsHonest now id indices s v)

    pub clear_in_flight-queue :
        (floats : Floats F) (seconds : ℕ → F) (now index size : ℕ) (p : Peer F)
        → (clear_in_flight floats seconds now index size p).queue ≡ p.queue
    unfolding clear_in_flight
    clear_in_flight-queue floats seconds now index size p =
        elim (Option-cases (lookup index p.in_flight)) [
          | inl absent ↦ rw (absent, clear_in_flight) refl
          | inr (asked, found) ↦ rw (found, clear_in_flight) refl
        ]

    pub time_out-IsHonest :
        (floats : Floats F) (now : ℕ) (ps : List (ℕ × Peer F))
        → IsHonestTable ps
        → IsHonestTable (time_out floats now ps).0
    unfolding time_out IsHonestTable IsHonestPeer timeout_in_flight
    time_out-IsHonest floats now [] v = v
    time_out-IsHonest floats now ((id, p) ∷ ps) (here, v) =
        (here, time_out-IsHonest floats now ps v)

  module _ (sha256 : Bytes → Digest) (name : Bytes) (fits : Fits (length orig) cs) (store : Store)
      (genuine : IsGenuine sha256 orig cs name store) (healthy : store.file.fault ≡ none) where
    answer_if-IsHonest :
        {F : Type 0} (p : Peer F) (index : ℕ)
        → index < chunk_total orig cs
        → IsHonestPeer p
        → (p' : Peer F) × (answer_if store index (has_chunk store index) p ≡ ok p')
          × IsHonestPeer p'
    unfolding answer_if answer IsHonest
    answer_if-IsHonest p index inside v =
        rw (has_chunk_lem sha256 orig cs name fits store index genuine inside)
          (elim (Bool-cases (bit_at store.bitfield index)) [
            | inl there ↦
                rw
                  (
                    there,
                    answer_if,
                    read_chunk-genuine sha256 orig cs name fits store index genuine healthy inside
                        there,
                  )
                  (
                    _,
                    refl,
                    send-IsHonest
                        (piece (record { chunk_index = index; payload = region orig cs index })) p
                        (inside, refl) v,
                  )
            | inr missing ↦ rw (missing, answer_if) (p, refl, v)
          ])

    pub serve_request-IsHonest :
        {F : Type 0} (indices : List ℕ) (p : Peer F)
        → All (λ index. index < chunk_total orig cs) indices
        → IsHonestPeer p
        → (p' : Peer F) × (serve_request store indices p ≡ ok p') × IsHonestPeer p'
    unfolding serve_request
    serve_request-IsHonest [] p inside v = (p, refl, v)
    serve_request-IsHonest (index ∷ indices) p (here, inside) v =
        let (p', is, v') = answer_if-IsHonest p index here v in
        rw is (serve_request-IsHonest indices p' inside v')
