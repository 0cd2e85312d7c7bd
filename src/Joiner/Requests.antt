-- ===== src/Joiner/Requests.antt =====
-- cmd/join.go: a tick of a joiner that lacks chunks and has an idle host.
use peerwatch.Base.{
  ℕ, ◌+◌, ◌%◌, ◌^◌, ◌≤◌, ◌<◌, ◌≡◌, refl, ap, ◌∙◌, true, false, ◌||◌, some, List, [], ◌∷◌, arith,
}
use peerwatch.Base.Tests.{◌==◌, ==_refl}
use peerwatch.Base.Lists.{length, All}
use peerwatch.Base.Keys.{contains}
use peerwatch.Base.Entries.{lookup, put, keys}
use peerwatch.Base.Int.{pos}
use peerwatch.Base.Floats.{Floats}
use peerwatch.Base.Results.{ok}
use peerwatch.Protocol.Message.{Bytes, Digest, request}
use peerwatch.Chunk.Bitfield.{bit_at}
use peerwatch.Chunk.Store.Defs.{Store}
use peerwatch.Chunk.Store.Reads.{is_complete}
use peerwatch.Chunk.Store.Integrity.{IsGenuine, chunk_total}
use peerwatch.Chunk.Store.Missing.{missing_chunks-IsGenuine}
use peerwatch.Peer.Connection.{Peer, send, mark_in_flight, timeout_in_flight, sweep}
use peerwatch.Peer.Tracker.{Tracker, peer_ids_with_chunk}
use peerwatch.Peer.Swarm.{Swarm, mark_all, request_chunks}
use peerwatch.Scheduler.Strategy.{ChunkCandidate}
use peerwatch.Scheduler.Order.{IsSort}
use peerwatch.Scheduler.Tick.{
  Scheduler, assign, send_batches, tick, schedule, fill_budget, time_out, release_in_flight,
  delete_all, run_once,
}
use peerwatch.Scheduler.Budget.{asked}
use peerwatch.Scheduler.Requests.{assigned, asked-assigned, contains-assigned}
use peerwatch.Joiner.{scheduler_fires, scheduled, step}
use peerwatch.Joiner.Turns.{alone, newest}
use peerwatch.Joiner.Asking.{idle, with_host, prioritized-only, assign-only}

contains-keys-put :
    (i v k : ℕ) (es : List (ℕ × ℕ))
    → contains k (keys (put i v es)) ≡ ((i == k) || contains k (keys es))
unfolding contains
contains-keys-put i v k [] = ground arith
contains-keys-put i v k ((x, a) ∷ es) = ground (arith, contains-keys-put i v k es)

module _ {F : Type 0} (now : ℕ) where
  -- The indices of the request are the entries of the peer.
  mark_all_lem :
      (indices : List ℕ) (p : Peer F)
      → ((mark_all now indices p).id ≡ p.id)
        × ((mark_all now indices p).closed ≡ p.closed)
        × ((k : ℕ)
            → contains k (keys (mark_all now indices p).in_flight)
              ≡ (contains k indices || contains k (keys p.in_flight)))
  unfolding mark_all mark_in_flight contains
  mark_all_lem [] p = (refl, refl, λ k. refl)
  mark_all_lem (i ∷ indices) p =
      let (same_id, same_closed, marked) = mark_all_lem indices (mark_in_flight now i p) in
      (same_id, same_closed, λ k. ground (arith, marked k, contains-keys-put i now k p.in_flight))

All-contains :
    (bound : ℕ) (xs : List ℕ)
    → ((j : ℕ) → contains j xs ≡ true → j < bound)
    → All (λ i. i < bound) xs
unfolding contains
All-contains bound [] h = tt
All-contains bound (x ∷ xs) h =
    (h x (ground (arith, ==_refl x)), All-contains bound xs (λ j c. h j (ground (arith, c))))

module _ {F : Type 0} (now : ℕ) where
  -- The peer that has been asked.
  abbrev asked_for : List ℕ → Peer F → Peer F
  asked_for indices p =
      let q = mark_all now indices p in record q { queue = request indices ∷ q.queue }

  request_chunks-host :
      (floats : Floats F) (host : ℕ) (p : Peer F) (w : Swarm F) (t : Tracker) (indices : List ℕ)
      → request_chunks now host indices (with_host floats host p w t)
        ≡ record w { tracker = some t; peers = (host, asked_for indices (idle floats host p)) ∷ [] }
  unfolding request_chunks send
  request_chunks-host floats host p w t indices =
      let shut : (mark_all now indices (idle floats host p)).closed ≡ false =
        (mark_all_lem now indices (idle floats host p)).1 in
      let found : lookup host (with_host floats host p w t).peers ≡ some (idle floats host p) =
        ground (arith, ==_refl host) in
      rw (found, request_chunks) (rw (==_refl host, shut) refl)

module _ (sha256 : Bytes → Digest) (orig : Bytes) (cs : ℕ) (name : Bytes) where
  lacks_some :
      (store : Store) (missing : List ℕ)
      → IsGenuine sha256 orig cs name store
      → is_complete store ≡ false
      → length missing + store.count ≡ chunk_total orig cs
      → 0 < length missing
  unfolding is_complete
  lacks_some store missing v going counted =
      ground (arith, going, counted, ap (λ m. m.chunk_count) v.manifest_is)

module _ (sha256 : Bytes → Digest) (orig : Bytes) (cs : ℕ) (name : Bytes) {F : Type 0}
    (floats : Floats F) (seconds : ℕ → F) (sort : List ChunkCandidate → List ChunkCandidate)
    (sorts : IsSort sort) (small : chunk_total orig cs ≤ 2 ^ 32) (now host : ℕ) (w : Swarm F)
    (t : Tracker)
    (rows : (i : ℕ) → i < chunk_total orig cs → peer_ids_with_chunk t (pos i) ≡ host ∷ []) where
  -- What a tick asks the host for.
  pub record Asks (indices : List ℕ) (store : Store) (p : Peer F) (sched : Scheduler) : Type 0 where
    pub some_left : (i : ℕ) × (rest : List ℕ) × (indices ≡ i ∷ rest)
    pub inside : All (λ i. i < chunk_total orig cs) indices
    pub missing : (j : ℕ) → contains j indices ≡ true → bit_at store.bitfield j ≡ false
    pub sent : newest p.queue ≡ request indices ∷ []
    pub few : length indices ≤ 16
    pub same_id : p.id ≡ host
    pub still_open : p.closed ≡ false
    pub marked : (k : ℕ) → contains k (keys p.in_flight) ≡ contains k indices
    pub noted : (k : ℕ) → contains k sched.in_flight ≡ contains k indices

  pub step-Asks :
      (p : Peer F) (store : Store) (sched : Scheduler)
      → IsGenuine sha256 orig cs name store
      → is_complete store ≡ false
      → (indices : List ℕ) × (p' : Peer F) × (sched' : Scheduler) × (step sha256 floats seconds sort
            (scheduler_fires now)
            (alone host w t (idle floats host p) store (record sched { in_flight = [] }))
          ≡ ok (alone host w t p' store sched', []))
        × Asks indices store p' sched'
  unfolding step run_once tick schedule fill_budget time_out timeout_in_flight sweep
      release_in_flight delete_all scheduled asked contains send_batches request_chunks send newest
  step-Asks p store sched v going =
      let (missing, is, listed, counted) = missing_chunks-IsGenuine sha256 orig cs name store v in
      let inside : All (λ i. i < chunk_total orig cs) missing =
        All-contains (chunk_total orig cs) missing (λ j h. ground (arith, h, listed j)) in
      let below : (j : ℕ) → contains j missing ≡ true → j < 2 ^ 32 =
        λ j h. ground (arith, h, listed j, small) in
      let lacking : 0 < length missing =
        lacks_some sha256 orig cs name store missing v going counted in
      let (c, cands, prioritized, holders) =
        prioritized-only host t (chunk_total orig cs) rows sort sorts sched.cursor sched.urgent
          missing inside lacking in
      let (ys, batched, few) = assign-only floats host p w t c cands holders in
      let r =
        assigned floats (with_host floats host p w t) sort sorts sched.cursor t [] sched.urgent
          missing in
      let batches : r.1 ≡ (host, (c.index % 2 ^ 32) ∷ ys) ∷ [] =
        ap (λ l. (assign floats (with_host floats host p w t) l 16 [] []).1) prioritized
        ∙ batched in
      let indices = (c.index % 2 ^ 32) ∷ ys in
      let same : (j : ℕ) → asked j r.1 ≡ contains j indices =
        λ j. ap (asked j) batches ∙ ground arith in
      let wanted : (j : ℕ) → contains j indices ≡ true → contains j missing ≡ true = λ j h.
        (asked-assigned floats (with_host floats host p w t) sort sorts sched.cursor t []
          sched.urgent missing j below (same j ∙ h)).0 in
      (
        indices,
        asked_for now indices (idle floats host p),
        record sched { in_flight = r.0 },
        rw (going, is, batches, request_chunks-host now floats host p w t indices) refl,
        record {
          some_left = (_, ys, refl);
          inside =
              All-contains (chunk_total orig cs) indices
                (λ j h. ground (arith, listed j, wanted j h));
          missing = λ j h. ground (arith, listed j, wanted j h);
          sent = refl;
          few = omega (arith, few);
          same_id = (mark_all_lem now indices (idle floats host p)).0;
          still_open = (mark_all_lem now indices (idle floats host p)).1;
          marked = λ k. (mark_all_lem now indices (idle floats host p)).2 k ∙ ground arith;
          noted = λ k.
              contains-assigned floats (with_host floats host p w t) sort sorts sched.cursor t []
                sched.urgent missing k below
              ∙ same k;
        },
      )
