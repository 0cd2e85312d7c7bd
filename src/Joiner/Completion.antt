-- ===== src/Joiner/Completion.antt =====
-- cmd/join.go: a joiner and a host that take turns come to the end of the download.
use peerwatch.Base.{
  ℕ, zero, suc, ◌+◌, ◌^◌, ◌≤◌, ◌<◌, ◌≡◌, refl, ap, ◌∙◌, inl, inr, true, false, none, some, List, [],
  ◌∷◌, ◌++◌, map, append-nil, arith,
}
use peerwatch.Base.Tests.{==_refl, Bool-cases}
use peerwatch.Base.Lists.{length, All}
use peerwatch.Base.Keys.{contains}
use peerwatch.Base.Entries.{lookup, keys}
use peerwatch.Base.Int.{pos}
use peerwatch.Base.Floats.{Floats}
use peerwatch.Base.Results.{ok}
use peerwatch.Protocol.Message.{Bytes, Digest, Message}
use peerwatch.Chunk.Bitfield.{bit_at}
use peerwatch.Chunk.Counts.{count_set_more, count_set-le}
use peerwatch.Chunk.Chunker.Counting.{Fits}
use peerwatch.Chunk.Chunker.Contents.{region}
use peerwatch.Chunk.Store.Defs.{Store}
use peerwatch.Chunk.Store.Reads.{is_complete}
use peerwatch.Chunk.Store.Integrity.{IsGenuine, chunk_total}
use peerwatch.Chunk.Store.Download.{is_complete-contents}
use peerwatch.Peer.Connection.{Peer, new_peer}
use peerwatch.Peer.Tracker.{Tracker, peer_ids_with_chunk}
use peerwatch.Peer.Swarm.{Swarm}
use peerwatch.Peer.Serving.{enqueue, handle_request-genuine}
use peerwatch.Scheduler.Strategy.{ChunkCandidate}
use peerwatch.Scheduler.Order.{IsSort}
use peerwatch.Scheduler.Tick.{Scheduler}
use peerwatch.Joiner.{Joiner, scheduler_fires, step, run}
use peerwatch.Protocol.Decode.{max_message_size}
use peerwatch.Peer.Joining.{Travels}
use peerwatch.Protocol.Message.{request}
use peerwatch.Joiner.Carrying.{carried-Travels, request-Travels, chunk_message-Travels}
use peerwatch.Joiner.Turns.{
  newest, arrives, alone, chunk_message, requested, in_order, answers, turn, turns,
}
use peerwatch.Joiner.Asking.{idle}
use peerwatch.Joiner.Requests.{step-Asks}
use peerwatch.Joiner.Deliveries.{run-Delivered}

-- A list of keys without any is empty.
no_keys : (xs : List ℕ) → ((k : ℕ) → contains k xs ≡ false) → xs ≡ []
unfolding contains
no_keys [] h = refl
no_keys (x ∷ xs) h = absurd (ground (arith, h x, ==_refl x))

no_entries : (es : List (ℕ × ℕ)) → ((k : ℕ) → contains k (keys es) ≡ false) → es ≡ []
unfolding contains
no_entries [] h = refl
no_entries ((x, a) ∷ es) h = absurd (ground (arith, h x, ==_refl x))

idle-eta :
    {F : Type 0} (floats : Floats F) (host : ℕ) (p : Peer F)
    → p.id ≡ host
    → p.closed ≡ false
    → p.in_flight ≡ []
    → p ≡ idle floats host p
idle-eta floats host p a b c =
    ap (λ x. record p { id = x }) a
    ∙ ap (λ x. record p { id = host; closed = x }) b
    ∙ ap (λ x. record p { id = host; closed = false; in_flight = x }) c

no_flight-eta : (sched : Scheduler) → sched.in_flight ≡ [] → sched ≡ record sched { in_flight = [] }
no_flight-eta sched e = ap (λ x. record sched { in_flight = x }) e

-- The queue of one who is sent every chunk that it asks for.
in_order-enqueue :
    (orig : Bytes) (cs : ℕ) (bf : Bytes) (indices : List ℕ) (queue out : List Message)
    → All (λ i. bit_at bf i ≡ true) indices
    → in_order (enqueue (region orig cs) bf indices queue) out
      ≡ in_order queue (map (chunk_message orig cs) indices ++ out)
unfolding in_order enqueue
in_order-enqueue orig cs bf [] queue out h = refl
in_order-enqueue orig cs bf (i ∷ indices) queue out (here, h) =
    rw here (in_order-enqueue orig cs bf indices (chunk_message orig cs i ∷ queue) out h)

module _ (sha256 : Bytes → Digest) (orig : Bytes) (cs : ℕ) (name : Bytes)
    (fits : Fits (length orig) cs) (small : chunk_total orig cs ≤ 2 ^ 32)
    (short : cs + 5 ≤ max_message_size) {F : Type 0} (floats : Floats F) (seconds : ℕ → F)
    (sort : List ChunkCandidate → List ChunkCandidate) (sorts : IsSort sort) (now host : ℕ)
    (w : Swarm F) (t : Tracker)
    (rows : (i : ℕ) → i < chunk_total orig cs → peer_ids_with_chunk t (pos i) ≡ host ∷ [])
    (full : Store) (held : IsGenuine sha256 orig cs name full) (readable : full.file.fault ≡ none)
    (every : (i : ℕ) → i < chunk_total orig cs → bit_at full.bitfield i ≡ true) where
  All-every :
      (indices : List ℕ)
      → All (λ i. i < chunk_total orig cs) indices
      → All (λ i. bit_at full.bitfield i ≡ true) indices
  All-every [] h = tt
  All-every (i ∷ indices) (here, h) = (every i here, All-every indices h)

  All-below :
      (indices : List ℕ)
      → All (λ i. i < chunk_total orig cs) indices
      → All (λ i. i < 2 ^ 32) indices
  All-below [] h = tt
  All-below (i ∷ indices) (here, h) = (omega arith, All-below indices h)

  chunk_messages-Travel :
      (indices : List ℕ)
      → All (λ i. i < chunk_total orig cs) indices
      → All Travels (map (chunk_message orig cs) indices)
  chunk_messages-Travel [] h = tt
  chunk_messages-Travel (i ∷ indices) (here, h) =
      (chunk_message-Travels orig cs i (omega arith) short, chunk_messages-Travel indices h)

  -- The host sends the chunks that it is asked for, in that order.
  answers_lem :
      (indices : List ℕ)
      → All (λ i. i < chunk_total orig cs) indices
      → answers floats seconds sort sha256 now full (request indices ∷ [])
        ≡ map (chunk_message orig cs) indices
  unfolding answers new_peer
  answers_lem indices inside =
      let queued =
        in_order-enqueue orig cs full.bitfield indices [] [] (All-every indices inside) in
      rw
        (
          handle_request-genuine sha256 orig cs name fits full held readable floats seconds now []
              indices (new_peer floats []) none refl inside,
          answers,
        )
        (ap (λ ms. ms ++ []) queued ∙ append-nil _ ∙ append-nil _)

  requested_lem :
      (indices : List ℕ) (p : Peer F) (store : Store) (sched : Scheduler)
      → newest p.queue ≡ request indices ∷ []
      → requested host (alone host w t p store sched).swarm ≡ request indices ∷ []
  unfolding requested
  requested_lem indices p store sched sent =
      let found : lookup host ((host, p) ∷ []) ≡ some p = ground (arith, ==_refl host) in
      rw (found, requested) sent

  turn_lem :
      (j j₁ j₂ : Joiner F) (indices : List ℕ)
      → step sha256 floats seconds sort (scheduler_fires now) j ≡ ok (j₁, [])
      → requested host j₁.swarm ≡ request indices ∷ []
      → length indices ≤ 16
      → All (λ i. i < chunk_total orig cs) indices
      → run sha256 floats seconds sort
          (map (arrives floats seconds sort sha256 now host) (map (chunk_message orig cs) indices))
          j₁
        ≡ ok (j₂, [])
      → turn floats seconds sort sha256 now host full j ≡ ok j₂
  unfolding turn
  turn_lem j j₁ j₂ indices ticks asks few inside runs =
      rw
        (
          ticks,
          asks,
          carried-Travels (request indices ∷ [])
              (request-Travels indices few (All-below indices inside), tt),
          answers_lem indices inside,
          carried-Travels (map (chunk_message orig cs) indices)
              (chunk_messages-Travel indices inside),
          runs,
        )
        refl

  -- A turn of a joiner that lacks chunks brings it at least one, and leaves no request open.
  turn_more :
      (p : Peer F) (store : Store) (sched : Scheduler)
      → IsGenuine sha256 orig cs name store
      → is_complete store ≡ false
      → (p' : Peer F) × (store' : Store) × (sched' : Scheduler) × (turn floats seconds sort sha256
            now host full
            (alone host w t (idle floats host p) store (record sched { in_flight = [] }))
          ≡ ok (alone host w t (idle floats host p') store' (record sched' { in_flight = [] })))
        × IsGenuine sha256 orig cs name store'
        × (store.count < store'.count)
  unfolding contains
  turn_more p store sched v going =
      let (indices, p₁, sched₁, ticks, asks) =
        step-Asks sha256 orig cs name floats seconds sort sorts small now host w t rows p store
          sched v going in
      let (p₂, store₂, sched₂, runs, got) =
        run-Delivered sha256 orig cs name fits floats seconds sort now host w t indices p₁ store
          sched₁ v asks.inside in
      let (i, rest, is) = asks.some_left in
      let first : contains i indices ≡ true = rw is (ground (arith, ==_refl i)) in
      let within : i < chunk_total orig cs = (rw is at asks.inside).0 in
      let n = chunk_total orig cs in
      let quiet : p₂.in_flight ≡ [] =
        no_entries p₂.in_flight (λ k. ground (arith, got.cleared_keys k, asks.marked k)) in
      let free : sched₂.in_flight ≡ [] =
        no_keys sched₂.in_flight (λ k. ground (arith, got.released k, asks.noted k)) in
      let rested : p₂ ≡ idle floats host p₂ =
        idle-eta floats host p₂ (got.same_id ∙ asks.same_id) (got.same_closed ∙ asks.still_open)
          quiet in
      (
        p₂,
        store₂,
        sched₂,
        turn_lem (alone host w t (idle floats host p) store (record sched { in_flight = [] }))
              (alone host w t p₁ store sched₁) (alone host w t p₂ store₂ sched₂) indices ticks
              (requested_lem indices p₁ store sched₁ asks.sent) asks.few asks.inside runs
            ∙ ap (λ q. ok (alone host w t q store₂ sched₂)) rested
            ∙ ap (λ c. ok (alone host w t (idle floats host p₂) store₂ c))
                (no_flight-eta sched₂ free),
        got.genuine,
        omega (
          arith,
          v.counted,
          got.genuine.counted,
          count_set_more store.bitfield store₂.bitfield n i got.kept within (asks.missing i first)
              (got.there i first),
        ),
      )

  count_complete :
      (store : Store)
      → IsGenuine sha256 orig cs name store
      → chunk_total orig cs ≤ store.count
      → is_complete store ≡ true
  unfolding is_complete
  count_complete store v h = ground (
    arith,
    v.counted,
    count_set-le store.bitfield (chunk_total orig cs),
    ap (λ m. m.chunk_count) v.manifest_is,
  )

  -- Turns come to the end of the download: as many as chunks are missing are enough.
  pub turns_complete :
      (n : ℕ) (p : Peer F) (store : Store) (sched : Scheduler)
      → IsGenuine sha256 orig cs name store
      → chunk_total orig cs ≤ store.count + n
      → (j : Joiner F) × (turns floats seconds sort sha256 n now host full
            (alone host w t (idle floats host p) store (record sched { in_flight = [] }))
          ≡ ok j)
        × (is_complete j.store ≡ true)
        × (j.store.file.contents ≡ orig)
  unfolding turns
  turns_complete zero p store sched v enough =
      let complete = count_complete store v (omega arith) in
      (_, refl, complete, is_complete-contents sha256 orig cs name fits store v complete)
  turns_complete (suc n) p store sched v enough = elim (Bool-cases (is_complete store)) [
    | inl complete ↦ (
      alone host w t (idle floats host p) store (record sched { in_flight = [] }),
      rw complete refl,
      complete,
      is_complete-contents sha256 orig cs name fits store v complete,
    )
    | inr going ↦
        let (p', store', sched', turned, v', more) = turn_more p store sched v going in
        rw (turned, going) (turns_complete n p' store' sched' v' (omega arith))
  ]
