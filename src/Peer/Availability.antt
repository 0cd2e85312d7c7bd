-- ===== src/Peer/Availability.antt =====
-- internal/peer/tracker.go: what the tracker knows of a peer, after any sequence of its operations.
use peerwatch.Base.{
  ℕ, zero, suc, ◌+◌, ◌/◌, ◌≤◌, ◌<◌, ◌≡◌, refl, sym, ap, ◌∙◌, inl, inr, Bool, true, false, not, ◌&&◌,
  List, [], ◌∷◌, map, arith,
}
use peerwatch.Base.Tests.{ltb, leb, ◌==◌, if◌then◌else◌, Bool-cases}
use peerwatch.Base.Lists.{
  length, get_or, set, replicate, All, length-set, length-map, length-replicate, get_or-set_self,
  get_or-set_ne,
}
use peerwatch.Base.Keys.{
  contains, delete_key, Distinct, contains-insert_key, contains-delete_key, insert_key-Distinct,
  delete_key-Distinct,
}
use peerwatch.Base.Int.{pos}
use native.Mathlib.Decide.{ℕ_discrete}
use peerwatch.Protocol.Message.{Bytes}
use peerwatch.Chunk.Bitfield.{bit_at}
use peerwatch.Peer.Tracker.{
  Tracker, new_tracker, update_row, update_rows, update_from_bitfield, remove_peer,
  peer_ids_with_chunk, rarity,
}

-- Peer `p` is in the set of chunk `i`.
unfoldable pub has_peer : Tracker → ℕ → ℕ → Bool
has_peer t i p = contains p (get_or t.availability i [])

contains-update_row :
    (peer : ℕ) (has : Bool) (p : ℕ) (row : List ℕ)
    → contains p (update_row peer has row) ≡ (if peer == p then has else contains p row)
unfolding update_row
contains-update_row peer true p row = ground (arith, contains-insert_key peer p row)
contains-update_row peer false p row = ground (arith, contains-delete_key peer p row)

length-update_rows :
    (n i peer : ℕ) (bf : Bytes) (rows : List (List ℕ))
    → length (update_rows n i peer bf rows) ≡ length rows
unfolding update_rows
length-update_rows zero i peer bf rows = refl
length-update_rows (suc n) i peer bf rows =
    let next = set rows i (update_row peer (bit_at bf i) (get_or rows i [])) in
    ground (
      arith,
      length-update_rows n (i + 1) peer bf next,
      length-set rows i (update_row peer (bit_at bf i) (get_or rows i [])),
    )

-- The peer's own rows follow the bitfield, from `i` to the end of the rounds and of the bitfield.
update_rows_lem :
    (n i peer : ℕ) (bf : Bytes) (rows : List (List ℕ)) (j p : ℕ)
    → i + n ≤ length rows
    → contains p (get_or (update_rows n i peer bf rows) j []) ≡ (
        if (peer == p) && (leb i j && (ltb j (i + n) && ltb (j / 8) (length bf)))
        then bit_at bf j
        else contains p (get_or rows j []))
unfolding update_rows
update_rows_lem zero i peer bf rows j p h = ground arith
update_rows_lem (suc n) i peer bf rows j p h =
    let row = update_row peer (bit_at bf i) (get_or rows i []) in
    let next = set rows i row in
    let rest = update_rows_lem n (i + 1) peer bf next j p (omega (arith, length-set rows i row)) in
    elim (ℕ_discrete i j) [
      | yes here ↦ ground (
        arith,
        rest,
        here,
        ap (bit_at bf) here,
        contains-update_row peer (bit_at bf i) p (get_or rows i []),
        ap (contains p) (ap (λ k. get_or next k []) here),
        ap (contains p) (ap (λ k. get_or rows k []) here),
        ap (contains p) (get_or-set_self rows i row [] (omega arith)),
      )
      | no other ↦ ground (arith, rest, ap (contains p) (get_or-set_ne rows i j row [] other))
    ]

-- UpdateFromBitfield, for every chunk and every peer.
pub has_peer-update :
    (t : Tracker) (peer : ℕ) (bf : Bytes) (i p : ℕ)
    → length t.availability ≡ t.chunk_count
    → has_peer (update_from_bitfield peer bf t) i p ≡ (
        if (peer == p) && (ltb i t.chunk_count && ltb (i / 8) (length bf))
        then bit_at bf i
        else has_peer t i p)
unfolding has_peer update_from_bitfield
has_peer-update t peer bf i p h =
    ground (arith, update_rows_lem t.chunk_count 0 peer bf t.availability i p (omega (arith, h)))

get_or-map :
    (peer : ℕ) (rows : List (List ℕ)) (i p : ℕ)
    → contains p (get_or (map (delete_key peer) rows) i [])
      ≡ (not (peer == p) && contains p (get_or rows i []))
unfolding contains
get_or-map peer [] i p = ground arith
get_or-map peer (row ∷ rows) zero p = contains-delete_key peer p row
get_or-map peer (row ∷ rows) (suc i) p = get_or-map peer rows i p

-- What the tracker is told: a peer's bitfield, or that a peer is gone.
pub data Report : Type 0 where
  heard : ℕ → Bytes → Report
  gone : ℕ → Report

unfoldable pub report : Report → Tracker → Tracker
report (heard peer bf) t = update_from_bitfield peer bf t
report (gone peer) t = remove_peer peer t

-- NewTracker, and then the reports, of which the latest stands first.
unfoldable pub track : ℕ → List Report → Tracker
unfolding report
track count [] = new_tracker count
track count (r ∷ earlier) = report r (track count earlier)

-- What the reports say of chunk `i` and peer `p`: the latest bitfield of the peer that reaches the
-- chunk, unless the peer is gone since.
unfoldable pub last_heard : List Report → ℕ → ℕ → Bool
last_heard [] i p = false
last_heard (heard peer bf ∷ earlier) i p =
    if (peer == p) && ltb (i / 8) (length bf) then bit_at bf i else last_heard earlier i p
last_heard (gone peer ∷ earlier) i p = not (peer == p) && last_heard earlier i p

-- The tracker has a row for each chunk, in which no peer stands twice.
pub record IsTracker (count : ℕ) (t : Tracker) : Type 0 where
  pub count_is : t.chunk_count ≡ count
  pub rows : length t.availability ≡ count
  pub distinct : All Distinct t.availability

All-set :
    (rows : List (List ℕ)) (i : ℕ) (row : List ℕ)
    → All Distinct rows
    → Distinct row
    → All Distinct (set rows i row)
All-set [] i row a d = tt
All-set (r ∷ rows) zero row a d = (d, a.1)
All-set (r ∷ rows) (suc i) row a d = (a.0, All-set rows i row a.1 d)

get_or-Distinct : (rows : List (List ℕ)) (i : ℕ) → All Distinct rows → Distinct (get_or rows i [])
unfolding Distinct
get_or-Distinct [] i a = tt
get_or-Distinct (r ∷ rows) zero a = a.0
get_or-Distinct (r ∷ rows) (suc i) a = get_or-Distinct rows i a.1

update_row-Distinct :
    (peer : ℕ) (has : Bool) (row : List ℕ) → Distinct row → Distinct (update_row peer has row)
unfolding update_row
update_row-Distinct peer true row d = insert_key-Distinct peer row d
update_row-Distinct peer false row d = delete_key-Distinct peer row d

update_rows-Distinct :
    (n i peer : ℕ) (bf : Bytes) (rows : List (List ℕ))
    → All Distinct rows
    → All Distinct (update_rows n i peer bf rows)
unfolding update_rows
update_rows-Distinct zero i peer bf rows a = a
update_rows-Distinct (suc n) i peer bf rows a = elim (Bool-cases (leb (length bf) (i / 8))) [
  | inl behind ↦ rw behind a
  | inr within ↦ rw within (
      update_rows-Distinct n (i + 1) peer bf _
        (All-set rows i _ a (update_row-Distinct peer (bit_at bf i) _ (get_or-Distinct rows i a))))
]

map-Distinct :
    (peer : ℕ) (rows : List (List ℕ))
    → All Distinct rows
    → All Distinct (map (delete_key peer) rows)
map-Distinct peer [] a = tt
map-Distinct peer (row ∷ rows) a = (delete_key-Distinct peer row a.0, map-Distinct peer rows a.1)

replicate-Distinct : (n : ℕ) → All Distinct (replicate n [])
unfolding Distinct
replicate-Distinct zero = tt
replicate-Distinct (suc n) = (tt, replicate-Distinct n)

report-IsTracker :
    (count : ℕ) (r : Report) (t : Tracker) → IsTracker count t → IsTracker count (report r t)
unfolding report update_from_bitfield remove_peer
report-IsTracker count (heard peer bf) t v = record {
  count_is = v.count_is;
  rows = length-update_rows t.chunk_count 0 peer bf t.availability ∙ v.rows;
  distinct = update_rows-Distinct t.chunk_count 0 peer bf t.availability v.distinct;
}
report-IsTracker count (gone peer) t v = record {
  count_is = v.count_is;
  rows = length-map t.availability (delete_key peer) ∙ v.rows;
  distinct = map-Distinct peer t.availability v.distinct;
}

pub track-IsTracker : (count : ℕ) (reports : List Report) → IsTracker count (track count reports)
unfolding track new_tracker
track-IsTracker count [] = record {
  count_is = refl;
  rows = length-replicate count _;
  distinct = replicate-Distinct count;
}
track-IsTracker count (r ∷ earlier) = report-IsTracker count r _ (track-IsTracker count earlier)

get_or-empty : (n i p : ℕ) → contains p (get_or (replicate n []) i []) ≡ false
unfolding contains
get_or-empty zero i p = refl
get_or-empty (suc n) zero p = refl
get_or-empty (suc n) (suc i) p = get_or-empty n i p

has_peer-new : (count i p : ℕ) → has_peer (new_tracker count) i p ≡ false
unfolding has_peer new_tracker
has_peer-new count i p = get_or-empty count i p

pub has_peer-remove :
    (t : Tracker) (peer i p : ℕ)
    → has_peer (remove_peer peer t) i p ≡ (not (peer == p) && has_peer t i p)
unfolding has_peer remove_peer
has_peer-remove t peer i p = get_or-map peer t.availability i p

pub has_peer-track :
    (count : ℕ) (reports : List Report) (i p : ℕ)
    → i < count
    → has_peer (track count reports) i p ≡ last_heard reports i p
unfolding track last_heard report
has_peer-track count [] i p h = has_peer-new count i p
has_peer-track count (heard peer bf ∷ earlier) i p h =
    let t = track count earlier in
    let v = track-IsTracker count earlier in
    ground (
      arith,
      has_peer-update t peer bf i p (v.rows ∙ sym v.count_is),
      v.count_is,
      has_peer-track count earlier i p h,
    )
has_peer-track count (gone peer ∷ earlier) i p h =
    has_peer-remove (track count earlier) peer i p ∙ rw (has_peer-track count earlier i p h)

-- After any reports, PeerIDsWithChunk of a chunk in range lists just the peers that the reports give
-- it, none of them twice, and Rarity is their number. Behind the last chunk there are none.
pub peer_ids-track :
    (count : ℕ) (reports : List Report) (i : ℕ)
    → ((p : ℕ)
        → contains p (peer_ids_with_chunk (track count reports) (pos i))
          ≡ (ltb i count && last_heard reports i p))
      × Distinct (peer_ids_with_chunk (track count reports) (pos i))
      × (rarity (track count reports) (pos i)
          ≡ length (peer_ids_with_chunk (track count reports) (pos i)))
unfolding peer_ids_with_chunk rarity Distinct contains has_peer
peer_ids-track count reports i =
    let t = track count reports in
    let v = track-IsTracker count reports in
    elim (Bool-cases (leb count i)) [
      | inl behind ↦ rw (v.count_is, behind) (λ p. ground arith, tt, refl)
      | inr within ↦
          rw (v.count_is, within)
            (
              λ p. has_peer-track count reports i p (ground arith) ∙ ground arith,
              get_or-Distinct t.availability i v.distinct,
              refl,
            )
    ]
