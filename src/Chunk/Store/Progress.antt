-- ===== src/Chunk/Store/Progress.antt =====
-- internal/chunk/store.go: a download in which every chunk is delivered is complete in the end.
use peerwatch.Base.{ℕ, ◌*◌, ◌/◌, ◌<◌, ◌≡◌, ◌⊎◌, refl, ap, inl, inr, true, List, [], ◌∷◌, arith}
use peerwatch.Base.Tests.{◌==◌, ==_refl, lt→ltb, Bool-cases}
use peerwatch.Base.Lists.{length, All}
use peerwatch.Base.Keys.{contains}
use peerwatch.Base.Int.{ℤ, pos, negsuc}
use peerwatch.Base.Results.{ok}
use native.Mathlib.Decide.{dec_lt}
use peerwatch.Protocol.Message.{Bytes, Digest}
use peerwatch.Chunk.File.{WriteOutcome, written, failed, write_at}
use peerwatch.Chunk.Bitfield.{bit_at, put_bit, set_bit, bit_at-put_bit}
use peerwatch.Chunk.Counts.{manifest_of}
use peerwatch.Chunk.Chunker.Counting.{Fits}
use peerwatch.Chunk.Chunker.Contents.{region}
use peerwatch.Chunk.Store.Defs.{Store, signal, mark_available, after_write, write_chunk}
use peerwatch.Chunk.Store.Reads.{is_complete}
use peerwatch.Chunk.Store.Integrity.{IsGenuine, NoCollision, chunk_total, write_chunk_lem}
use peerwatch.Chunk.Store.Download.{write_chunk-IsGenuine, write_out_of_range, is_complete-contents}
use peerwatch.Chunk.Store.Lifecycle.{
  Arrival, write_all, download, empty_store, empty_store-IsGenuine, new_peer_store_lem,
  write_all-IsGenuine, count_set_all,
}

bitfield-signal : (i : ℕ) (s : Store) → (signal i s).bitfield ≡ s.bitfield
unfolding signal
bitfield-signal i s = elim (Bool-cases (contains i s.waiters)) [
  | inl waiting ↦ rw (waiting, signal) refl
  | inr nobody ↦ rw (nobody, signal) refl
]

bitfield-after_write :
    (s : Store) (i o : ℕ) (ds : Bytes)
    → i / 8 < length s.bitfield
    → (after_write s i (write_at s.file (pos o) ds written)).0.bitfield ≡ put_bit s.bitfield i
unfolding after_write write_at mark_available set_bit
bitfield-after_write s i o ds room =
    rw (lt→ltb (i / 8) (length s.bitfield) room) (bitfield-signal i _)

module _ (sha256 : Bytes → Digest) (orig : Bytes) (cs : ℕ) (name : Bytes)
    (fits : Fits (length orig) cs) where
  after_write_keeps :
      (s : Store) (i o j : ℕ) (ds : Bytes) (disk : WriteOutcome)
      → IsGenuine sha256 orig cs name s
      → i < chunk_total orig cs
      → bit_at s.bitfield j ≡ true
      → bit_at (after_write s i (write_at s.file (pos o) ds disk)).0.bitfield j ≡ true
  after_write_keeps s i o j ds written v h has =
      rw (bitfield-after_write s i o ds (v.room i h))
        (ground (arith, has, bit_at-put_bit s.bitfield i j v.bytes (v.room i h)))
  after_write_keeps s i o j ds (failed k e) v h has = unfold after_write write_at in has

  -- No write takes a mark back.
  pub write_chunk_keeps :
      (s : Store) (index : ℤ) (payload : Bytes) (disk : WriteOutcome) (j : ℕ)
      → IsGenuine sha256 orig cs name s
      → bit_at s.bitfield j ≡ true
      → bit_at (write_chunk sha256 s index payload disk).0.bitfield j ≡ true
  write_chunk_keeps s (negsuc n) payload disk j v has = unfold write_chunk in has
  write_chunk_keeps s (pos i) payload disk j v has = elim (dec_lt i (chunk_total orig cs)) [
    | yes inside ↦
        rw (write_chunk_lem sha256 orig cs name fits s i payload disk v inside)
          (elim (Bool-cases (bit_at s.bitfield i)) [
            | inl present ↦ rw present has
            | inr missing ↦
                rw missing (elim (Bool-cases (sha256 payload == sha256 (region orig cs i))) [
                  | inl same ↦ rw same (after_write_keeps s i (i * cs) j payload disk v inside has)
                  | inr other ↦ rw other has
                ])
          ])
    | no outside ↦
        rw (write_out_of_range sha256 orig cs name fits s i payload disk v (omega arith)) has
  ]

  pub write_chunk_delivers :
      (s : Store) (i : ℕ)
      → IsGenuine sha256 orig cs name s
      → i < chunk_total orig cs
      → bit_at (write_chunk sha256 s (pos i) (region orig cs i) written).0.bitfield i ≡ true
  write_chunk_delivers s i v inside =
      rw (write_chunk_lem sha256 orig cs name fits s i (region orig cs i) written v inside)
        (elim (Bool-cases (bit_at s.bitfield i)) [
          | inl present ↦ rw present present
          | inr missing ↦
              rw
                (
                  missing,
                  ==_refl (sha256 (region orig cs i)),
                  bitfield-after_write s i (i * cs) (region orig cs i) (v.room i inside),
                )
                (ground (arith, ==_refl i, bit_at-put_bit s.bitfield i i v.bytes (v.room i inside)))
        ])

  -- Among the arrivals is the chunk itself, and the disk takes it.
  abbrev pub Brings : List Arrival → ℕ → Type 0
  Brings [] i = ⊥
  Brings (a ∷ rest) i =
      ((a.index ≡ pos i) × (a.payload ≡ region orig cs i) × (a.disk ≡ written)) ⊎ Brings rest i

  abbrev Safe : List Arrival → Type 0
  Safe = All (λ a. (i : ℕ) → i < chunk_total orig cs → NoCollision sha256 orig cs i a.payload)

  write_all_keeps :
      (s : Store) (arrivals : List Arrival) (j : ℕ)
      → IsGenuine sha256 orig cs name s
      → Safe arrivals
      → bit_at s.bitfield j ≡ true
      → bit_at (write_all sha256 s arrivals).bitfield j ≡ true
  unfolding write_all
  write_all_keeps s [] j v safe has = has
  write_all_keeps s (a ∷ rest) j v (here, safe) has =
      write_all_keeps (write_chunk sha256 s a.index a.payload a.disk).0 rest j
        (write_chunk-IsGenuine sha256 orig cs name fits s a.index a.payload a.disk v here) safe
        (write_chunk_keeps s a.index a.payload a.disk j v has)

  write_all-Brings :
      (s : Store) (arrivals : List Arrival) (i : ℕ)
      → IsGenuine sha256 orig cs name s
      → Safe arrivals
      → i < chunk_total orig cs
      → Brings arrivals i
      → bit_at (write_all sha256 s arrivals).bitfield i ≡ true
  unfolding write_all
  write_all-Brings s [] i v safe inside b = absurd b
  write_all-Brings s (a ∷ rest) i v (here, safe) inside b =
      let s' = (write_chunk sha256 s a.index a.payload a.disk).0 in
      let v' = write_chunk-IsGenuine sha256 orig cs name fits s a.index a.payload a.disk v here in
      elim b [
        | inl (at, is, done) ↦
            write_all_keeps s' rest i v' safe
              (rw (at, is, done) (write_chunk_delivers s i v inside))
        | inr later ↦ write_all-Brings s' rest i v' safe inside later
      ]

  -- A download to which, among whatever else, every chunk of the file is delivered once and written
  -- to the disk is complete in the end, and its file is the host's. No payload may be a second
  -- preimage of a digest.
  pub download_complete :
      (arrivals : List Arrival)
      → All
          (λ a. (i : ℕ) → i < chunk_total orig cs → NoCollision sha256 orig cs i a.payload)
          arrivals
      → ((i : ℕ) → i < chunk_total orig cs → Brings arrivals i)
      → (s : Store) × (download sha256 (manifest_of sha256 orig cs name) arrivals ≡ ok s)
        × (is_complete s ≡ true)
        × (s.file.contents ≡ orig)
  unfolding download is_complete
  download_complete arrivals safe brings =
      let start = empty_store (manifest_of sha256 orig cs name) (length orig) in
      let v₀ = empty_store-IsGenuine sha256 orig cs name in
      let s = write_all sha256 start arrivals in
      let v = write_all-IsGenuine sha256 orig cs name fits start arrivals v₀ safe in
      let all =
        count_set_all s.bitfield (chunk_total orig cs)
          (λ i h. write_all-Brings start arrivals i v₀ safe h (brings i h)) in
      let total : s.manifest.chunk_count ≡ chunk_total orig cs =
        ap (λ m. m.chunk_count) v.manifest_is in
      let complete : (s.count == s.manifest.chunk_count) ≡ true =
        ground (arith, v.counted, all, total) in
      (
        s,
        rw (new_peer_store_lem sha256 orig cs name),
        complete,
        is_complete-contents sha256 orig cs name fits s v complete,
      )
