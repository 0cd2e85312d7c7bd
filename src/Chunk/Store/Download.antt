-- ===== src/Chunk/Store/Download.antt =====
-- internal/chunk/store.go: stores from their creation to the complete file.
use peerwatch.Base.{
  ℕ, zero, suc, ◌+◌, ◌*◌, ◌≤◌, ◌<◌, ◌≡◌, refl, sym, ap, ◌∙◌, true, inl, inr, arith,
}
use peerwatch.Base.Tests.{◌==◌, leb, ==_iff, Bool-cases}
use peerwatch.Base.Lists.{length, take_past, take_all}
use peerwatch.Base.Int.{ℤ, pos, negsuc}
use peerwatch.Base.Results.{err}
use native.Mathlib.Decide.{dec_lt}
use peerwatch.Protocol.Message.{Bytes, Digest}
use peerwatch.Chunk.File.{WriteOutcome}
use peerwatch.Chunk.Bitfield.{bit_at}
use peerwatch.Chunk.Counts.{count_set, count_set_full}
use peerwatch.Chunk.Chunker.Counting.{Fits, ceil_div_bounds}
use peerwatch.Chunk.Chunker.Contents.{region, regions, regions-take}
use peerwatch.Chunk.Store.Defs.{Store, index_out_of_range, write_chunk}
use peerwatch.Chunk.Store.Reads.{is_complete}
use peerwatch.Chunk.Store.Integrity.{
  IsGenuine, NoCollision, chunk_total, after_write-IsGenuine, write_chunk_lem,
}

module _ (sha256 : Bytes → Digest) (orig : Bytes) (cs : ℕ) (name : Bytes)
    (fits : Fits (length orig) cs) where
  pub write_in_range-IsGenuine :
      (s : Store) (i : ℕ) (payload : Bytes) (disk : WriteOutcome)
      → IsGenuine sha256 orig cs name s
      → NoCollision sha256 orig cs i payload
      → i < chunk_total orig cs
      → IsGenuine sha256 orig cs name (write_chunk sha256 s (pos i) payload disk).0
  write_in_range-IsGenuine s i payload disk v safe h =
      rw (write_chunk_lem sha256 orig cs name fits s i payload disk v h)
        (elim (Bool-cases (bit_at s.bitfield i)) [
          | inl present ↦ rw present v
          | inr missing ↦
              rw missing (elim (Bool-cases (sha256 payload == sha256 (region orig cs i))) [
                | inl same ↦
                    rw (same, safe ((==_iff _ _).0 same))
                      (after_write-IsGenuine sha256 orig cs name fits s i disk v h missing)
                | inr other ↦ rw other v
              ])
        ])

  pub write_out_of_range :
      (s : Store) (i : ℕ) (payload : Bytes) (disk : WriteOutcome)
      → IsGenuine sha256 orig cs name s
      → chunk_total orig cs ≤ i
      → write_chunk sha256 s (pos i) payload disk ≡ (s, err (index_out_of_range (pos i)))
  unfolding write_chunk
  write_out_of_range s i payload disk v h =
      let count : s.manifest.chunk_count ≡ chunk_total orig cs =
        ap (λ m. m.chunk_count) v.manifest_is in
      let guard : leb s.manifest.chunk_count i ≡ true = ground arith in rw guard

  -- Whatever arrives, for whatever index, and however the disk behaves: WriteChunk keeps every
  -- available chunk equal to the original's, unless the payload is a second preimage of a digest.
  pub write_chunk-IsGenuine :
      (s : Store) (index : ℤ) (payload : Bytes) (disk : WriteOutcome)
      → IsGenuine sha256 orig cs name s
      → ((i : ℕ) → i < chunk_total orig cs → NoCollision sha256 orig cs i payload)
      → IsGenuine sha256 orig cs name (write_chunk sha256 s index payload disk).0
  write_chunk-IsGenuine s (negsuc n) payload disk v safe = unfold write_chunk in v
  write_chunk-IsGenuine s (pos i) payload disk v safe = elim (dec_lt i (chunk_total orig cs)) [
    | yes inside ↦ write_in_range-IsGenuine s i payload disk v (safe i inside) inside
    | no outside ↦ rw (write_out_of_range s i payload disk v (omega arith)) v
  ]

  regions-eq :
      (bs : Bytes) (n i : ℕ)
      → ((j : ℕ) → i ≤ j → j < i + n → region bs cs j ≡ region orig cs j)
      → regions bs cs n i ≡ regions orig cs n i
  unfolding regions
  regions-eq bs zero i h = refl
  regions-eq bs (suc n) i h = rw (
    h i (omega arith) (omega arith),
    regions-eq bs n (i + 1) (λ j lo hi. h j (omega arith) (omega arith)),
  )

  regions_whole :
      (bs : Bytes) → length bs ≡ length orig → regions bs cs (chunk_total orig cs) 0 ≡ bs
  regions_whole bs e =
      let b = (ceil_div_bounds (length orig) cs fits.some_size fits.some_bytes).0 in
      let z : 0 * cs ≡ 0 = omega arith in
      regions-take bs cs (chunk_total orig cs) 0
      ∙ rw z (take_past bs _ (length bs) (omega arith) (omega arith) ∙ take_all bs (length bs) refl)

  -- A store that says it is complete has the original file, byte for byte.
  pub is_complete-contents :
      (s : Store) → IsGenuine sha256 orig cs name s → is_complete s ≡ true → s.file.contents ≡ orig
  unfolding is_complete
  is_complete-contents s v h =
      sym (regions_whole s.file.contents v.same_length)
      ∙ regions-eq s.file.contents (chunk_total orig cs) 0
          (λ j lo hi. v.genuine j (omega arith) (count_set_full s.bitfield _ j full (omega arith)))
      ∙ regions_whole orig refl
    where
      full : count_set s.bitfield (chunk_total orig cs) ≡ chunk_total orig cs
      full = sym v.counted ∙ (==_iff _ _).0 h ∙ ap (λ m. m.chunk_count) v.manifest_is
