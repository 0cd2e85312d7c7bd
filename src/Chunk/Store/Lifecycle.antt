-- ===== src/Chunk/Store/Lifecycle.antt =====
-- internal/chunk/store.go: new stores, and a peer's download as the sequence of its writes.
use peerwatch.Base.{
  ℕ, zero, suc, ◌+◌, ◌/◌, ◌<◌, ◌≡◌, refl, sym, ◌∙◌, true, false, ◌||◌, List, [], ◌∷◌, none, arith,
}
use peerwatch.Base.Tests.{ltb, leb, lt→ltb, ==_refl}
use peerwatch.Base.Lists.{length, replicate, length-replicate, All}
use peerwatch.Base.Int.{ℤ}
use peerwatch.Base.Results.{Result, ok, ◌>>=◌}
use peerwatch.Protocol.Message.{Bytes, Digest}
use peerwatch.Chunk.File.{WriteOutcome, truncated}
use peerwatch.Chunk.Bitfield.{
  bit_at, put_bit, set_bit, make_bitfield, IsBytes, bit_at-put_bit, length-put_bit, put_bit-IsBytes,
  bit_at-make_bitfield, make_bitfield-IsBytes, make_bitfield-room,
}
use peerwatch.Chunk.Manifest.{Manifest}
use peerwatch.Chunk.Counts.{count_set, count_set-make, manifest_of}
use peerwatch.Chunk.Chunker.Counting.{Fits}
use peerwatch.Chunk.Chunker.Contents.{region}
use peerwatch.Chunk.Store.Defs.{
  Store, StoreError, write_chunk, new_peer_store, new_host_store, set_bits,
}
use peerwatch.Chunk.Store.Reads.{is_complete}
use peerwatch.Chunk.Store.Integrity.{IsGenuine, NoCollision, chunk_total}
use peerwatch.Chunk.Store.Download.{write_chunk-IsGenuine, is_complete-contents}
use mathlib.Core.Bool.{◌&&◌, false≢true}

-- A payload that arrives for an index, and how the disk takes it.
pub record Arrival : Type 0 where
  pub index : ℤ
  pub payload : Bytes
  pub disk : WriteOutcome

-- WriteChunk on each, one after the other.
unfoldable pub write_all : (Bytes → Digest) → Store → List Arrival → Store
write_all sha256 s [] = s
write_all sha256 s (a ∷ rest) =
    write_all sha256 (write_chunk sha256 s a.index a.payload a.disk).0 rest

-- A joiner's part: NewPeerStore, and what arrives.
unfoldable pub download : (Bytes → Digest) → Manifest → List Arrival → Result StoreError Store
download sha256 m arrivals = new_peer_store (ok tt) m >>= λ s. ok (write_all sha256 s arrivals)

-- The state in which NewPeerStore leaves a peer.
abbrev pub empty_store : Manifest → ℕ → Store
empty_store m size = record {
  file = record { contents = replicate size 0; fault = none };
  manifest = m;
  bitfield = make_bitfield m.chunk_count;
  count = 0;
  is_host = false;
  waiters = [];
  woken = [];
}

module _ (sha256 : Bytes → Digest) (orig : Bytes) (cs : ℕ) (name : Bytes) where
  pub new_peer_store_lem :
      new_peer_store (ok tt) (manifest_of sha256 orig cs name)
      ≡ ok (empty_store (manifest_of sha256 orig cs name) (length orig))
  unfolding new_peer_store truncated
  new_peer_store_lem = refl

  pub empty_store-IsGenuine :
      IsGenuine sha256 orig cs name (empty_store (manifest_of sha256 orig cs name) (length orig))
  empty_store-IsGenuine = record {
    manifest_is = refl;
    same_length = length-replicate (length orig) _;
    room = λ i h. make_bitfield-room (chunk_total orig cs) i h;
    bytes = make_bitfield-IsBytes (chunk_total orig cs);
    counted = sym (count_set-make (chunk_total orig cs) (chunk_total orig cs));
    genuine =
        λ i h has. absurd (false≢true (sym (bit_at-make_bitfield (chunk_total orig cs) i) ∙ has));
  }

  module _ (fits : Fits (length orig) cs) where
    pub write_all-IsGenuine :
        (s : Store) (arrivals : List Arrival)
        → IsGenuine sha256 orig cs name s
        → All
            (λ a. (i : ℕ) → i < chunk_total orig cs → NoCollision sha256 orig cs i a.payload)
            arrivals
        → IsGenuine sha256 orig cs name (write_all sha256 s arrivals)
    unfolding write_all
    write_all-IsGenuine s [] v safe = v
    write_all-IsGenuine s (a ∷ rest) v (here, safe) =
        write_all-IsGenuine (write_chunk sha256 s a.index a.payload a.disk).0 rest
          (write_chunk-IsGenuine sha256 orig cs name fits s a.index a.payload a.disk v here) safe

    -- A download, from NewPeerStore on, of whatever payloads in whatever order, some of them wrong,
    -- repeated or lost on the disk, none a second preimage of a digest: it leaves a store, every
    -- chunk that the store has is the host's, and once IsComplete answers true the file is.
    pub download-contents :
        (arrivals : List Arrival)
        → All
            (λ a. (i : ℕ) → i < chunk_total orig cs → NoCollision sha256 orig cs i a.payload)
            arrivals
        → (s : Store) × (download sha256 (manifest_of sha256 orig cs name) arrivals ≡ ok s)
          × ((i : ℕ)
              → i < chunk_total orig cs
              → bit_at s.bitfield i ≡ true
              → region s.file.contents cs i ≡ region orig cs i)
          × (is_complete s ≡ true → s.file.contents ≡ orig)
    unfolding download
    download-contents arrivals safe =
        let m = manifest_of sha256 orig cs name in
        let start = empty_store m (length orig) in
        let v = write_all-IsGenuine start arrivals empty_store-IsGenuine safe in
        (
          write_all sha256 start arrivals,
          rw new_peer_store_lem,
          v.genuine,
          is_complete-contents sha256 orig cs name fits (write_all sha256 start arrivals) v,
        )

-- The bitfield that the loop of NewHostStore makes: every chunk is marked.
set_bits_lem :
    (n i : ℕ) (bf : Bytes)
    → IsBytes bf
    → ((j : ℕ) → j < i + n → j / 8 < length bf)
    → (bf' : Bytes) × (set_bits n i bf ≡ ok bf')
      × IsBytes bf'
      × (length bf' ≡ length bf)
      × ((j : ℕ) → bit_at bf' j ≡ ((leb i j && ltb j (i + n)) || bit_at bf j))
unfolding set_bits set_bit
set_bits_lem zero i bf b room = (bf, refl, b, refl, λ j. ground arith)
set_bits_lem (suc n) i bf b room =
    let bf₁ = put_bit bf i in
    let r =
      set_bits_lem n (i + 1) bf₁ (put_bit-IsBytes bf i b)
        (λ j h. rw (length-put_bit bf i) (room j (omega arith))) in
    (
      r.0,
      rw (lt→ltb (i / 8) (length bf) (room i (omega arith))) r.1,
      r.2,
      r.3 ∙ length-put_bit bf i,
      λ j. r.4 j ∙ ground (arith, bit_at-put_bit bf i j b (room i (omega arith))),
    )

pub count_set_all :
    (bf : Bytes) (n : ℕ) → ((j : ℕ) → j < n → bit_at bf j ≡ true) → count_set bf n ≡ n
unfolding count_set
count_set_all bf zero h = refl
count_set_all bf (suc n) h =
    rw (h n (omega arith)) (omega (arith, count_set_all bf n (λ j l. h j (omega arith))))

-- NewHostStore on the file that the manifest describes: the store is complete from the start, every
-- chunk is marked, and all of it is the file.
pub new_host_store-IsGenuine :
    (sha256 : Bytes → Digest) (orig : Bytes) (cs : ℕ) (name : Bytes)
    → Fits (length orig) cs
    → (s : Store) × (new_host_store
          (ok (record { contents = orig; fault = none }))
          (manifest_of sha256 orig cs name)
        ≡ ok s)
      × IsGenuine sha256 orig cs name s
      × (is_complete s ≡ true)
      × ((i : ℕ) → i < chunk_total orig cs → bit_at s.bitfield i ≡ true)
      × (s.file ≡ record { contents = orig; fault = none })
      × (length s.bitfield ≡ length (make_bitfield (chunk_total orig cs)))
unfolding new_host_store is_complete
new_host_store-IsGenuine sha256 orig cs name fits =
    let n = chunk_total orig cs in
    let zeros = make_bitfield n in
    let r =
      set_bits_lem n 0 zeros (make_bitfield-IsBytes n)
        (λ j h. make_bitfield-room n j (omega arith)) in
    let all : (j : ℕ) → j < n → bit_at r.0 j ≡ true = λ j h. r.4 j ∙ ground arith in
    (
      record {
        file = record { contents = orig; fault = none };
        manifest = manifest_of sha256 orig cs name;
        bitfield = r.0;
        count = n;
        is_host = true;
        waiters = [];
        woken = [];
      },
      rw r.1,
      record {
        manifest_is = refl;
        same_length = refl;
        room = λ i h. rw r.3 (make_bitfield-room n i h);
        bytes = r.2;
        counted = sym (count_set_all r.0 n all);
        genuine = λ i h has. refl;
      },
      ==_refl n,
      all,
      refl,
      r.3,
    )
