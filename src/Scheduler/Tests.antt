-- ===== src/Scheduler/Tests.antt =====
-- Concrete runs of internal/scheduler, and its theorems at concrete inputs. Speeds are whole numbers.
use peerwatch.Base.{
  ℕ, ◌+◌, ◌-◌, ◌*◌, ◌/◌, ◌^◌, ◌≤◌, ◌<◌, ◌≡◌, refl, inl, inr, Bool, true, false, ◌||◌, none, some,
  List, [], ◌∷◌, arith,
}
use peerwatch.Base.Tests.{ltb, leb, ◌==◌, if◌then◌else◌, Bool-cases}
use peerwatch.Base.Lists.{length, All}
use peerwatch.Base.Int.{pos, pos_part}
use peerwatch.Base.Keys.{contains, insert_key}
use peerwatch.Base.Floats.{Floats}
use peerwatch.Base.Results.{ok}
use peerwatch.Protocol.Message.{Bytes, Digest}
use peerwatch.Chunk.Bitfield.{bit_at}
use peerwatch.Chunk.Counts.{manifest_of}
use peerwatch.Chunk.Store.Defs.{Store}
use peerwatch.Chunk.Store.Lifecycle.{empty_store, empty_store-IsGenuine}
use peerwatch.Peer.Connection.{Peer, in_flight_count}
use peerwatch.Peer.Tracker.{Tracker, peer_ids_with_chunk}
use peerwatch.Peer.Swarm.{Swarm, get_peer}
use peerwatch.Scheduler.Strategy.{
  ChunkCandidate, prioritize_chunks, select_peer, select_from, weigh, better,
}
use peerwatch.Scheduler.Order.{
  count_if, Ascending, IsSort, InOrder, prioritize_chunks-InOrder, is_empty, for_chunk,
  prioritize_chunks_lem,
}
use peerwatch.Scheduler.Selection.{IsOrdered, IsBest, select_peer-IsBest}
use peerwatch.Scheduler.Tick.{Scheduler, Batches, send_batches, tick, assign, add_request}
use peerwatch.Scheduler.Budget.{asked}
use peerwatch.Scheduler.Requests.{freed, waiting, tick-requests}

abbrev pub whole : Floats ℕ
whole = record {
  plus = λ a b. a + b;
  minus = λ a b. a - b;
  times = λ a b. a * b;
  over = λ a b. a / b;
  less = ltb;
  at_most = leb;
  of_int = pos_part;
  decimal = λ n k. n / 10 ^ k;
}

whole-IsOrdered : IsOrdered whole
whole-IsOrdered = record { irreflexive = λ a. ground arith; transitive = λ a b c h k. ground arith }

-- A sort by insertion.
unfoldable insert_candidate : ChunkCandidate → List ChunkCandidate → List ChunkCandidate
insert_candidate c [] = c ∷ []
insert_candidate c (d ∷ ds) = if leb c.score d.score then c ∷ d ∷ ds else d ∷ insert_candidate c ds

unfoldable pub sort : List ChunkCandidate → List ChunkCandidate
unfolding insert_candidate
sort [] = []
sort (c ∷ cs) = insert_candidate c (sort cs)

count_if-insert_candidate :
    (f : ChunkCandidate → Bool) (c : ChunkCandidate) (cs : List ChunkCandidate)
    → count_if f (insert_candidate c cs) ≡ count_if f (c ∷ cs)
unfolding insert_candidate count_if
count_if-insert_candidate f c [] = refl
count_if-insert_candidate f c (d ∷ ds) = elim (Bool-cases (leb c.score d.score)) [
  | inl low ↦ rw low refl
  | inr high ↦ rw high (omega (arith, count_if-insert_candidate f c ds))
]

count_if-sort :
    (f : ChunkCandidate → Bool) (cs : List ChunkCandidate) → count_if f (sort cs) ≡ count_if f cs
unfolding sort count_if
count_if-sort f [] = refl
count_if-sort f (c ∷ cs) =
    omega (arith, count_if-insert_candidate f c (sort cs), count_if-sort f cs)

All-raise :
    (a b : ℕ) (cs : List ChunkCandidate)
    → a ≤ b
    → All (λ d. b ≤ d.score) cs
    → All (λ d. a ≤ d.score) cs
All-raise a b [] h k = tt
All-raise a b (c ∷ cs) h (low, k) = (omega arith, All-raise a b cs h k)

All-insert_candidate :
    (a : ℕ) (c : ChunkCandidate) (cs : List ChunkCandidate)
    → a ≤ c.score
    → All (λ d. a ≤ d.score) cs
    → All (λ d. a ≤ d.score) (insert_candidate c cs)
unfolding insert_candidate
All-insert_candidate a c [] h k = (h, tt)
All-insert_candidate a c (d ∷ ds) h (low, k) = elim (Bool-cases (leb c.score d.score)) [
  | inl first ↦ rw first (h, (low, k))
  | inr later ↦ rw later (low, All-insert_candidate a c ds h k)
]

insert_candidate-Ascending :
    (c : ChunkCandidate) (cs : List ChunkCandidate)
    → Ascending cs
    → Ascending (insert_candidate c cs)
unfolding insert_candidate Ascending
insert_candidate-Ascending c [] h = (tt, tt)
insert_candidate-Ascending c (d ∷ ds) (low, h) = elim (Bool-cases (leb c.score d.score)) [
  | inl first ↦ rw first ((ground arith, All-raise c.score d.score ds (ground arith) low), (low, h))
  | inr later ↦
      rw later
        (All-insert_candidate d.score c ds (ground arith) low, insert_candidate-Ascending c ds h)
]

sort-Ascending : (cs : List ChunkCandidate) → Ascending (sort cs)
unfolding sort Ascending
sort-Ascending [] = tt
sort-Ascending (c ∷ cs) = insert_candidate-Ascending c (sort cs) (sort-Ascending cs)

pub sort-IsSort : IsSort sort
sort-IsSort = record { same = count_if-sort; ascending = sort-Ascending }

abbrev pub video : Bytes
video = 11 ∷ 22 ∷ 33 ∷ 44 ∷ 55 ∷ []

abbrev pub title : Bytes
title = b'a' ∷ []

abbrev pub sum_digest : Bytes → Digest
sum_digest [] = 0
sum_digest (b ∷ bs) = b + 256 * sum_digest bs

abbrev pub store : Store
store = empty_store (manifest_of sum_digest video 2 title) 5

-- Two peers; peer 7 has all three chunks, and peer 8 the last one.
abbrev known : Tracker
known = record { chunk_count = 3; availability = (7 ∷ []) ∷ (7 ∷ []) ∷ (7 ∷ 8 ∷ []) ∷ [] }

abbrev peer_of : ℕ → ℕ → Peer ℕ
peer_of id speed = record {
  id = id;
  addr = [];
  queue = [];
  bitfield = none;
  speed = speed;
  in_flight = [];
  closed = false;
}

abbrev pub swarm : Swarm ℕ
swarm = record {
  self_id = 1;
  is_host = false;
  manifest = none;
  tracker = some known;
  host_addr = [];
  done = false;
  peers = (7, peer_of 7 500) ∷ (8, peer_of 8 900) ∷ [];
}

-- Chunk 1 is urgent, chunk 0 in flight.
abbrev pub scheduler : Scheduler
scheduler = record { cursor = pos 0; in_flight = 0 ∷ []; urgent = 1 ∷ []; done = false }

tick-requests_example :
    (s' : Scheduler) × (batches : Batches) × (tick whole sort 10 store (scheduler, swarm)
      ≡ ok (s', send_batches 10 batches (waiting whole sort 10 swarm)))
    × (length s'.in_flight ≤ 16)
    × ((j : ℕ)
        → contains j s'.in_flight
          ≡ (contains j (freed whole sort 10 scheduler swarm) || asked j batches))
    × ((j : ℕ)
        → asked j batches ≡ true
        → (j < 3)
          × (bit_at store.bitfield j ≡ false)
          × (contains j (freed whole sort 10 scheduler swarm) ≡ false)
          × (is_empty (peer_ids_with_chunk known (pos j)) ≡ false))
tick-requests_example =
    tick-requests whole sort 10 sum_digest video 2 title store
      (empty_store-IsGenuine sum_digest video 2 title) (omega arith) sort-IsSort scheduler swarm
      known refl (omega arith)

select_peer-IsBest_example :
    IsBest whole swarm (7 ∷ 8 ∷ 9 ∷ []) (select_peer whole swarm (7 ∷ 8 ∷ 9 ∷ []))
select_peer-IsBest_example = select_peer-IsBest whole swarm whole-IsOrdered (7 ∷ 8 ∷ 9 ∷ [])

prioritize_chunks-InOrder_example :
    InOrder 0 known
      (1 ∷ [])
      (prioritize_chunks sort (0 ∷ 1 ∷ 2 ∷ []) (pos 0) known (0 ∷ []) (1 ∷ []))
prioritize_chunks-InOrder_example =
    prioritize_chunks-InOrder 0 known (1 ∷ []) (omega arith) sort sort-IsSort (0 ∷ 1 ∷ 2 ∷ [])
      (0 ∷ [])

-- Chunk 2 stands there once, with holders of whom there are two.
prioritize_chunks_lem_example :
    count_if
      (for_chunk 2 (λ ids. length ids == 2))
      (prioritize_chunks sort (0 ∷ 1 ∷ 2 ∷ []) (pos 0) known (0 ∷ []) (1 ∷ []))
    ≡ 1
unfolding peer_ids_with_chunk contains count_if
prioritize_chunks_lem_example =
    prioritize_chunks_lem sort sort-IsSort (pos 0) known (0 ∷ []) (1 ∷ []) (0 ∷ 1 ∷ 2 ∷ []) 2
      (λ ids. length ids == 2)

abbrev candidate : ℕ → ChunkCandidate
candidate index = record { index = index; score = 100 + index; peer_ids = 7 ∷ [] }

-- Five chunks that only peer 7 has: the loop of one tick gives it all five.
one_peer_gets_all :
    (assign whole swarm
      (candidate 0 ∷ candidate 1 ∷ candidate 2 ∷ candidate 3 ∷ candidate 4 ∷ [])
      16
      []
      []).1
    ≡ (7, 0 ∷ 1 ∷ 2 ∷ 3 ∷ 4 ∷ []) ∷ []
unfolding assign select_peer select_from weigh better get_peer in_flight_count insert_key
    add_request
one_peer_gets_all = refl
