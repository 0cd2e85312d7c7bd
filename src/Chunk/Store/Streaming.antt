-- ===== src/Chunk/Store/Streaming.antt =====
-- internal/chunk/store.go: ReadBytes, as the local HTTP server calls it.
use peerwatch.Base.{
  ℕ, ◌+◌, ◌-◌, ◌/◌, ◌^◌, ◌≤◌, ◌<◌, ◌≡◌, sym, ap, ◌∙◌, true, false, ◌||◌, some, none, arith,
}
use peerwatch.Base.Lists.{length, take, drop, length-drop, take_past}
use peerwatch.Base.Int.{pos, ltb_ℤ, leb_ℤ, add64_pos, sub64_pos}
use peerwatch.Base.Results.{ok, ◌>>=◌}
use peerwatch.Protocol.Message.{Bytes, Digest}
use peerwatch.Chunk.File.{File, read_at}
use peerwatch.Chunk.Bitfield.{bit_at}
use peerwatch.Chunk.Chunker.Counting.{Fits, chunk_of-lt, div_mono}
use peerwatch.Chunk.Store.Defs.{Store}
use peerwatch.Base.Keys.{insert_key}
use peerwatch.Chunk.Store.Reads.{
  wait_for_range, clamp_length, covering, rounds, read_range, serve, read_bytes,
}
use peerwatch.Chunk.Store.Integrity.{IsGenuine, chunk_total}
use peerwatch.Chunk.Store.Serving.{
  get_elem?-drop, take_ext, byte-genuine, wait_for_range-available, wait_for_range-blocks,
}
use Prim.Native.Nat.{min}
use native.Mathlib.Decide.{dec_le}

read_at-healthy :
    (f : File) (o n : ℕ) → f.fault ≡ none → read_at f (pos o) n ≡ ok (take n (drop o f.contents))
unfolding read_at
read_at-healthy f o n e = rw (e, read_at)

read_range-available :
    (s : Store) (off n : ℕ)
    → s.file.fault ≡ none
    → read_range s (pos off) (pos n) (s, ok true)
      ≡ (s, ok (some (take n (drop off s.file.contents))))
unfolding read_range
read_range-available s off n e = rw (read_at-healthy s.file off n e)

-- The length that is served: what is asked for, but not beyond the end of the file.
abbrev pub served : ℕ → ℕ → ℕ → ℕ
served fs off len = min len (fs - off)

-- The last chunk of a range; the first is off / cs.
abbrev pub last_chunk : ℕ → ℕ → ℕ → ℕ → ℕ
last_chunk fs cs off len = (off + served fs off len - 1) / cs

pub clamp_length_lem :
    (fs off len : ℕ)
    → off < fs
    → fs < 2 ^ 63
    → off + len < 2 ^ 63
    → clamp_length (pos fs) (pos off) (pos len) ≡ pos (served fs off len)
unfolding clamp_length
clamp_length_lem fs off len h k l =
    rw (add64_pos off len l, sub64_pos fs off (omega arith) k) (ground arith)

pub covering_lem :
    (cs off n : ℕ)
    → 0 < cs
    → 0 < n
    → off + n < 2 ^ 63
    → (covering (pos cs) (pos off) (pos n) >>= rounds)
      ≡ ok (off / cs, (off + n - 1) / cs + 1 - off / cs)
unfolding covering rounds
covering_lem cs off n h k l =
    rw (add64_pos off n l, sub64_pos (off + n) 1 (omega arith) l) (ground arith)

serve_lem :
    (s : Store) (fs cs off len : ℕ)
    → 0 < cs
    → 0 < len
    → off < fs
    → fs < 2 ^ 63
    → off + len < 2 ^ 63
    → serve s (pos fs) (pos cs) (pos off) (pos len)
      ≡ read_range s
          (pos off)
          (pos (served fs off len))
          (wait_for_range (last_chunk fs cs off len + 1 - off / cs) (off / cs) s)
unfolding serve
serve_lem s fs cs off len h k l m n =
    let guard : (ltb_ℤ (pos off) (pos 0) || leb_ℤ (pos fs) (pos off)) ≡ false = ground arith in
    rw
      (
        guard,
        clamp_length_lem fs off len l m n,
        covering_lem cs off (served fs off len) h (omega arith) (omega arith),
      )
      (ap
        (λ n.
          read_range s (pos off) n
            (wait_for_range (last_chunk fs cs off len + 1 - off / cs) (off / cs) s))
        (clamp_length_lem fs off len l m n))

module _ (sha256 : Bytes → Digest) (orig : Bytes) (cs : ℕ) (name : Bytes)
    (fits : Fits (length orig) cs) where
  read_bytes_lem :
      (s : Store) (off len : ℕ)
      → IsGenuine sha256 orig cs name s
      → off < length orig
      → 0 < len
      → off + len < 2 ^ 63
      → read_bytes s (pos off) (pos len)
        ≡ read_range s
            (pos off)
            (pos (served (length orig) off len))
            (wait_for_range (last_chunk (length orig) cs off len + 1 - off / cs) (off / cs) s)
  unfolding read_bytes
  read_bytes_lem s off len v h k l =
      let size = ap (λ m. m.file_size) v.manifest_is in
      let width = ap (λ m. m.chunk_size) v.manifest_is in
      let limit = fits.no_overflow in
      (λ i. serve s (size i) (width i) (pos off) (pos len))
      ∙ serve_lem s (length orig) cs off len fits.some_size k h (omega arith) l

  -- The chunks of a range lie in the file.
  pub covering-in_file :
      (off len : ℕ)
      → off < length orig
      → 0 < len
      → (last_chunk (length orig) cs off len < chunk_total orig cs)
        × (off / cs ≤ last_chunk (length orig) cs off len)
  covering-in_file off len h k = (
    chunk_of-lt (length orig) cs (off + served (length orig) off len - 1) fits.some_size
        fits.some_bytes (omega arith),
    div_mono off (off + served (length orig) off len - 1) cs fits.some_size (omega arith),
  )

  -- The bytes of the range, one by one.
  range-genuine :
      (s : Store) (off len : ℕ)
      → IsGenuine sha256 orig cs name s
      → off < length orig
      → 0 < len
      → ((j : ℕ)
          → off / cs ≤ j
          → j ≤ last_chunk (length orig) cs off len
          → bit_at s.bitfield j ≡ true)
      → take (served (length orig) off len) (drop off s.file.contents) ≡ take len (drop off orig)
  range-genuine s off len v h k has =
      take_ext (drop off s.file.contents) (drop off orig) (served (length orig) off len)
        (omega (arith, length-drop off s.file.contents, length-drop off orig, v.same_length))
        (λ i l.
          get_elem?-drop s.file.contents off i
          ∙ byte-genuine sha256 orig cs name fits s (off + i) v (omega arith) (
              has ((off + i) / cs) (div_mono off (off + i) cs fits.some_size (omega arith)) (
                div_mono (off + i) (off + served (length orig) off len - 1) cs fits.some_size
                  (omega arith)))
          ∙ sym (get_elem?-drop orig off i))
      ∙ elim (dec_le len (length orig - off)) [
        | yes inner ↦
            let e : served (length orig) off len ≡ len = omega arith in
            ap (λ n. take n (drop off orig)) e
        | no over ↦
            take_past (drop off orig) _ len (omega (arith, length-drop off orig))
              (omega (arith, length-drop off orig))
      ]

  -- On a readable store that keeps the invariant and has every chunk of the range, ReadBytes serves the
  -- original's bytes from the offset on, as many as are asked for or as the file still has, and leaves the
  -- store alone. The offset lies in the file, the length is above 0, and their sum does not overflow.
  pub read_bytes-genuine :
      (s : Store) (off len : ℕ)
      → IsGenuine sha256 orig cs name s
      → s.file.fault ≡ none
      → off < length orig
      → 0 < len
      → off + len < 2 ^ 63
      → ((j : ℕ)
          → off / cs ≤ j
          → j ≤ last_chunk (length orig) cs off len
          → bit_at s.bitfield j ≡ true)
      → read_bytes s (pos off) (pos len) ≡ (s, ok (some (take len (drop off orig))))
  read_bytes-genuine s off len v healthy h k l has =
      let c = covering-in_file off len h k in
      read_bytes_lem s off len v h k l
      ∙ rw
          (wait_for_range-available sha256 orig cs name fits s
            (last_chunk (length orig) cs off len + 1 - off / cs) (off / cs) v (omega arith)
            (λ j lo hi. has j lo (omega arith)))
          (read_range-available s off (served (length orig) off len) healthy)
      ∙ ap (λ bs. (s, ok (some bs))) (range-genuine s off len v h k has)

  -- On a store that keeps the invariant, if the range's chunks up to some point are there and the next one is
  -- missing, ReadBytes blocks with a waiter registered for just that chunk, and changes nothing else. The
  -- offset lies in the file, the length is above 0, and their sum does not overflow.
  pub read_bytes_blocks :
      (s : Store) (off len k : ℕ)
      → IsGenuine sha256 orig cs name s
      → off < length orig
      → 0 < len
      → off + len < 2 ^ 63
      → off / cs + k ≤ last_chunk (length orig) cs off len
      → ((j : ℕ) → off / cs ≤ j → j < off / cs + k → bit_at s.bitfield j ≡ true)
      → bit_at s.bitfield (off / cs + k) ≡ false
      → read_bytes s (pos off) (pos len)
        ≡ (record s { waiters = insert_key (off / cs + k) s.waiters }, ok none)
  unfolding read_range
  read_bytes_blocks s off len k v h p l inside has missing =
      let c = covering-in_file off len h p in
      read_bytes_lem s off len v h p l
      ∙ rw (
          wait_for_range-blocks sha256 orig cs name fits s
            (last_chunk (length orig) cs off len + 1 - off / cs) (off / cs) k v (omega arith) has
            (omega arith) missing)
