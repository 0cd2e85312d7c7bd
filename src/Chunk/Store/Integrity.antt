-- ===== src/Chunk/Store/Integrity.antt =====
-- What a store holds of the file that its manifest describes, and that WriteChunk keeps it.
use peerwatch.Base.{ℕ, ◌+◌, ◌*◌, ◌/◌, ◌≤◌, ◌<◌, ◌≡◌, refl, ap, ◌∙◌, true, false, inl, inr, arith}
use peerwatch.Base.Tests.{◌==◌, leb, if◌then◌else◌, lt→ltb, Bool-cases}
use peerwatch.Base.Lists.{length, take, get_elem?, length-take}
use peerwatch.Base.Int.{pos, mul64_pos}
use peerwatch.Base.Results.{ok, err}
use native.Mathlib.Decide.{ℕ_discrete}
use peerwatch.Protocol.Message.{Bytes, Digest}
use peerwatch.Chunk.File.{WriteOutcome, written, failed, write_at, splice}
use peerwatch.Chunk.Bitfield.{
  bit_at, put_bit, set_bit, has_bit, IsBytes, bit_at-put_bit, length-put_bit, put_bit-IsBytes,
}
use peerwatch.Chunk.Counts.{count_set, count_set-put_bit, manifest_of, get_elem?-metas}
use peerwatch.Chunk.Chunker.Counting.{ceil_div, Fits, chunk_begins}
use peerwatch.Chunk.Chunker.Contents.{region}
use peerwatch.Chunk.Regions.{length-splice, length-region, region-splice_ne, region-splice_self}
use peerwatch.Chunk.Store.Defs.{
  Store, hash_mismatch, has_chunk, signal, mark_available, after_write, verify_and_write,
  write_missing, write_chunk,
}
use peerwatch.Base.Keys.{contains}

-- The number of chunks of the file.
abbrev pub chunk_total : Bytes → ℕ → ℕ
chunk_total orig cs = ceil_div (length orig) cs

-- The payload is no second preimage of the chunk's digest.
abbrev pub NoCollision : (Bytes → Digest) → Bytes → ℕ → ℕ → Bytes → Type 0
NoCollision sha256 orig cs i payload =
    sha256 payload ≡ sha256 (region orig cs i) → payload ≡ region orig cs i

-- `orig` is the host's file, cut into chunks of `cs` bytes.
module _ (sha256 : Bytes → Digest) (orig : Bytes) (cs : ℕ) (name : Bytes) where
  -- Each chunk that is marked available holds the original's bytes, and `count` counts the marks.
  pub record IsGenuine (s : Store) : Type 0 where
    pub manifest_is : s.manifest ≡ manifest_of sha256 orig cs name
    pub same_length : length s.file.contents ≡ length orig
    pub room : (i : ℕ) → i < (chunk_total orig cs) → i / 8 < length s.bitfield
    pub bytes : IsBytes s.bitfield
    pub counted : s.count ≡ count_set s.bitfield (chunk_total orig cs)
    pub genuine :
        (i : ℕ)
        → i < (chunk_total orig cs)
        → bit_at s.bitfield i ≡ true
        → region s.file.contents cs i ≡ region orig cs i

  module _ (fits : Fits (length orig) cs) where
    -- A write into a missing chunk, of at most the chunk's bytes, keeps all that is available.
    write-IsGenuine :
        (s : Store) (i : ℕ) (ds : Bytes)
        → IsGenuine s
        → i < (chunk_total orig cs)
        → bit_at s.bitfield i ≡ false
        → length ds ≤ length (region orig cs i)
        → IsGenuine
            (record s { file = record (s.file) { contents = splice s.file.contents (i * cs) ds } })
    write-IsGenuine s i ds v h missing short = record {
      manifest_is = v.manifest_is;
      same_length = length-splice s.file.contents (i * cs) ds inside ∙ v.same_length;
      room = v.room;
      bytes = v.bytes;
      counted = v.counted;
      genuine = λ j hj has.
          region-splice_ne s.file.contents cs i j ds (omega (arith, v.same_length, begins))
            (omega (arith, length-region orig cs i)) (λ e. ground (arith, ap (bit_at s.bitfield) e))
          ∙ v.genuine j hj has;
    }
      where
        begins : i * cs < length orig
        begins = chunk_begins (length orig) cs i fits.some_size fits.some_bytes h

        inside : i * cs + length ds ≤ length s.file.contents
        inside = omega (arith, length-region orig cs i, begins, v.same_length)

    signal-IsGenuine : (s : Store) (i : ℕ) → IsGenuine s → IsGenuine (signal i s)
    unfolding signal
    signal-IsGenuine s i v = elim (Bool-cases (contains i s.waiters)) [
      | inl waiting ↦
          rw (waiting, signal)
            (record {
              manifest_is = v.manifest_is;
              same_length = v.same_length;
              room = v.room;
              bytes = v.bytes;
              counted = v.counted;
              genuine = v.genuine;
            })
      | inr nobody ↦ rw (nobody, signal) v
    ]

    -- Once the chunk's own bytes are in place it may be marked.
    mark-IsGenuine :
        (s : Store) (i : ℕ)
        → IsGenuine s
        → i < (chunk_total orig cs)
        → bit_at s.bitfield i ≡ false
        → region s.file.contents cs i ≡ region orig cs i
        → IsGenuine (record s { bitfield = put_bit s.bitfield i; count = s.count + 1 })
    mark-IsGenuine s i v h missing there = record {
      manifest_is = v.manifest_is;
      same_length = v.same_length;
      room = λ j hj. rw (length-put_bit s.bitfield i) (v.room j hj);
      bytes = put_bit-IsBytes s.bitfield i v.bytes;
      counted = omega (
        arith,
        v.counted,
        count_set-put_bit s.bitfield (chunk_total orig cs) i v.bytes (v.room i h) h missing,
      );
      genuine = λ j hj has. elim (ℕ_discrete i j) [
        | yes same ↦ rw (← same) there
        | no other ↦
            v.genuine j hj (ground (arith, bit_at-put_bit s.bitfield i j v.bytes (v.room i h)))
      ];
    }

    -- What follows the hash test, when the payload is the chunk itself.
    pub after_write-IsGenuine :
        (s : Store) (i : ℕ) (disk : WriteOutcome)
        → IsGenuine s
        → i < (chunk_total orig cs)
        → bit_at s.bitfield i ≡ false
        → IsGenuine (after_write s i (write_at s.file (pos (i * cs)) (region orig cs i) disk)).0
    unfolding after_write write_at mark_available set_bit
    after_write-IsGenuine s i written v h missing =
        let begins = chunk_begins (length orig) cs i fits.some_size fits.some_bytes h in
        let w = write-IsGenuine s i (region orig cs i) v h missing (omega arith) in
        rw (lt→ltb (i / 8) (length s.bitfield) (v.room i h)) (
          signal-IsGenuine _ i (
            mark-IsGenuine _ i w h missing (
              region-splice_self s.file.contents cs i (region orig cs i)
                (omega (arith, v.same_length))
                (omega (
                  arith,
                  v.same_length,
                  length-region s.file.contents cs i,
                  length-region orig cs i,
                )))))
    after_write-IsGenuine s i (failed k e) v h missing =
        write-IsGenuine s i (take k (region orig cs i)) v h missing
          (omega (arith, length-take k (region orig cs i)))

    pub has_chunk_lem :
        (s : Store) (i : ℕ)
        → IsGenuine s
        → i < (chunk_total orig cs)
        → has_chunk s i ≡ ok (bit_at s.bitfield i)
    unfolding has_chunk has_bit
    has_chunk_lem s i v h = rw (lt→ltb (i / 8) (length s.bitfield) (v.room i h))

    write_missing_lem :
        (s : Store) (i : ℕ) (payload : Bytes) (disk : WriteOutcome)
        → IsGenuine s
        → i < (chunk_total orig cs)
        → write_missing sha256 s i payload disk (ok false) ≡ (
            if sha256 payload == sha256 (region orig cs i)
            then after_write s i (write_at s.file (pos (i * cs)) payload disk)
            else (s, err (hash_mismatch i)))
    unfolding write_missing
    write_missing_lem s i payload disk v h =
        let begins = chunk_begins (length orig) cs i fits.some_size fits.some_bytes h in
        let limit = fits.no_overflow in
        let meta =
          ap (λ m. get_elem? m.chunks i) v.manifest_is
          ∙ get_elem?-metas sha256 orig cs (chunk_total orig cs) i h in
        let size = ap (λ m. m.chunk_size) v.manifest_is in
        rw (meta, size, verify_and_write, mul64_pos i cs (omega arith))

    -- WriteChunk on a chunk of the file, once the manifest is known.
    pub write_chunk_lem :
        (s : Store) (i : ℕ) (payload : Bytes) (disk : WriteOutcome)
        → IsGenuine s
        → i < (chunk_total orig cs)
        → write_chunk sha256 s (pos i) payload disk ≡ (
            if bit_at s.bitfield i
            then (s, ok tt)
            else if sha256 payload == sha256 (region orig cs i)
            then after_write s i (write_at s.file (pos (i * cs)) payload disk)
            else (s, err (hash_mismatch i)))
    unfolding write_chunk
    write_chunk_lem s i payload disk v h =
        let count : s.manifest.chunk_count ≡ (chunk_total orig cs) =
          ap (λ m. m.chunk_count) v.manifest_is in
        let guard : leb s.manifest.chunk_count i ≡ false = ground arith in
        rw (guard, has_chunk_lem s i v h)
          (elim (Bool-cases (bit_at s.bitfield i)) [
            | inl present ↦ rw present (unfold write_missing in refl)
            | inr missing ↦ rw missing (write_missing_lem s i payload disk v h)
          ])
