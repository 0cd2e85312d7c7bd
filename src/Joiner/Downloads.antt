-- ===== src/Joiner/Downloads.antt =====
-- cmd/join.go: a joiner that has just joined a host downloads the whole file.
use peerwatch.Base.{
  ℕ, ◌/◌, ◌^◌, ◌≤◌, ◌<◌, ◌≡◌, sym, ap, ◌∙◌, true, false, none, some, List, [], ◌∷◌, arith,
}
use peerwatch.Base.Tests.{◌==◌, ==_refl, ==_iff}
use peerwatch.Base.Lists.{length}
use peerwatch.Base.Keys.{contains, Distinct}
use peerwatch.Base.Int.{pos}
use peerwatch.Base.Floats.{Floats}
use peerwatch.Base.Results.{ok}
use peerwatch.Protocol.Message.{Bytes, Digest, PeerId}
use peerwatch.Chunk.Bitfield.{bit_at}
use peerwatch.Chunk.Counts.{manifest_of, count_set_full}
use peerwatch.Chunk.Chunker.Counting.{Fits}
use peerwatch.Chunk.Store.Defs.{Store}
use peerwatch.Chunk.Store.Reads.{is_complete}
use peerwatch.Chunk.Store.Integrity.{IsGenuine, chunk_total}
use peerwatch.Chunk.Store.Lifecycle.{empty_store, empty_store-IsGenuine}
use peerwatch.Peer.Connection.{set_bitfield, new_peer}
use peerwatch.Peer.Tracker.{new_tracker, update_from_bitfield, peer_ids_with_chunk}
use peerwatch.Peer.Availability.{heard, track, report, last_heard, peer_ids-track}
use peerwatch.Peer.Swarm.{Swarm, add_peer}
use peerwatch.Peer.Handshake.{announce, peer_on}
use peerwatch.Peer.Duties.{empty_swarm}
use peerwatch.Peer.Joining.{conn_with, joined}
use peerwatch.Scheduler.Strategy.{ChunkCandidate}
use peerwatch.Scheduler.Order.{IsSort}
use peerwatch.Scheduler.Tick
use peerwatch.Joiner.{Joiner}
use peerwatch.Protocol.Decode.{max_message_size}
use peerwatch.Base.{◌+◌}
use peerwatch.Joiner.Turns.{turns}
use peerwatch.Joiner.Completion.{turns_complete}

-- A joiner that has just been wired up.
abbrev pub fresh : {F : Type 0} → (Bytes → Digest) → Bytes → ℕ → Bytes → Swarm F → Joiner F
fresh sha256 orig cs name s = record {
  swarm = s;
  store = empty_store (manifest_of sha256 orig cs name) (length orig);
  sched = Tick.new;
}

single_key :
    (host : ℕ) (xs : List ℕ)
    → Distinct xs
    → ((p : ℕ) → contains p xs ≡ (host == p))
    → xs ≡ host ∷ []
unfolding Distinct contains
single_key host [] d h = absurd (ground (arith, h host, ==_refl host))
single_key host (x ∷ []) d h =
    let e : host ≡ x = (==_iff host x).0 (ground (arith, h x, ==_refl x)) in
    ap (λ z. z ∷ []) (sym e)
single_key host (x ∷ y ∷ xs) (apart, d) h =
    let e : host ≡ x = (==_iff host x).0 (ground (arith, h x, ==_refl x)) in
    let f : host ≡ y = (==_iff host y).0 (ground (arith, h y, ==_refl y)) in
    absurd (ground (arith, apart, ==_iff y x, e, f))

-- A tracker that has heard the host's bitfield only.
holder_row :
    (count host : ℕ) (bf : Bytes) (i : ℕ)
    → i < count
    → i / 8 < length bf
    → bit_at bf i ≡ true
    → peer_ids_with_chunk (update_from_bitfield host bf (new_tracker count)) (pos i) ≡ host ∷ []
unfolding track report last_heard
holder_row count host bf i inside covered has =
    let (holders, distinct, number) = peer_ids-track count (heard host bf ∷ []) i in
    single_key host _ distinct (λ p. holders p ∙ ground (arith, inside, covered, has))

every_bit :
    (sha256 : Bytes → Digest) (orig : Bytes) (cs : ℕ) (name : Bytes) (full : Store) (i : ℕ)
    → IsGenuine sha256 orig cs name full
    → is_complete full ≡ true
    → i < chunk_total orig cs
    → bit_at full.bitfield i ≡ true
unfolding is_complete
every_bit sha256 orig cs name full i v complete inside =
    count_set_full full.bitfield (chunk_total orig cs) i
      (sym v.counted ∙ (==_iff _ _).0 complete ∙ ap (λ m. m.chunk_count) v.manifest_is) inside

-- Turns of a joiner that knows the host's chunks.
pub turns-joined :
    (sha256 : Bytes → Digest) (orig : Bytes) (cs : ℕ) (name : Bytes) {F : Type 0}
    (floats : Floats F) (seconds : ℕ → F) (sort : List ChunkCandidate → List ChunkCandidate)
    (full : Store) (now : ℕ) (host_at addr : Bytes) (host id : PeerId)
    → Fits (length orig) cs
    → chunk_total orig cs ≤ 2 ^ 32
    → cs + 5 ≤ max_message_size
    → IsSort sort
    → IsGenuine sha256 orig cs name full
    → full.file.fault ≡ none
    → is_complete full ≡ true
    → (j : Joiner F) × (turns floats seconds sort sha256 (chunk_total orig cs) now host full (
          fresh sha256 orig cs name (
            joined floats host_at addr host
              (manifest_of sha256 orig cs name)
              full.bitfield
              none
              (empty_swarm id none false)))
        ≡ ok j)
      × (is_complete j.store ≡ true)
      × (j.store.file.contents ≡ orig)
unfolding announce add_peer set_bitfield new_peer
turns-joined sha256 orig cs name floats seconds sort full now host_at addr host id fits small short
      sorts v readable complete =
    let n = chunk_total orig cs in
    let m = manifest_of sha256 orig cs name in
    let every : (i : ℕ) → i < n → bit_at full.bitfield i ≡ true =
      λ i h. every_bit sha256 orig cs name full i v complete h in
    turns_complete sha256 orig cs name fits small short floats seconds sort sorts now host
      (record (empty_swarm id none false) { host_addr = addr; manifest = some m })
      (update_from_bitfield host full.bitfield (new_tracker n))
      (λ i h. holder_row n host full.bitfield i h (v.room i h) (every i h)) full v readable every n
      (set_bitfield full.bitfield (peer_on floats (conn_with host_at []) host))
      (empty_store m (length orig)) Tick.new (empty_store-IsGenuine sha256 orig cs name)
      (omega arith)
