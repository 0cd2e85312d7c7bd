-- ===== src/Chunk/Store/Serving.antt =====
-- internal/chunk/store.go: ReadChunk and ReadBytes on a store whose chunks are the original's.
use peerwatch.Base.{
  ℕ, zero, suc, ◌+◌, ◌-◌, ◌*◌, ◌/◌, ◌%◌, ◌≤◌, ◌<◌, ◌≡◌, refl, sym, ap, ◌∙◌, true, false, [], ◌∷◌,
  none, arith,
}
use peerwatch.Base.Tests.{leb}
use peerwatch.Base.Lists.{length, take, drop, get_elem?, length-drop, take_past}
use peerwatch.Base.Int.{pos, mul64_pos}
use peerwatch.Base.Results.{ok}
use peerwatch.Protocol.Message.{Bytes, Digest}
use peerwatch.Chunk.File.{read_at}
use peerwatch.Chunk.Bitfield.{bit_at}
use peerwatch.Chunk.Counts.{get_elem?-metas}
use peerwatch.Chunk.Chunker.Counting.{Fits, chunk_begins, chunk_of-lt}
use peerwatch.Chunk.Chunker.Contents.{region}
use peerwatch.Chunk.Regions.{length-region}
use peerwatch.Chunk.Store.Defs.{Store, has_chunk}
use peerwatch.Base.Keys.{insert_key}
use peerwatch.Chunk.Store.Reads.{read_chunk, wait_for_chunk, wait_for_range}
use peerwatch.Chunk.Store.Integrity.{IsGenuine, chunk_total, has_chunk_lem}
use native.Mathlib.Decide.{dec_le}
use native.Mathlib.Nat.{div-add-mod, mod-lt}

-- Bytes by position.
pub get_elem?-take : (xs : Bytes) (n k : ℕ) → k < n → get_elem? (take n xs) k ≡ get_elem? xs k
get_elem?-take xs zero k h = elim h [ ]
get_elem?-take [] (suc n) k h = refl
get_elem?-take (x ∷ xs) (suc n) zero h = refl
get_elem?-take (x ∷ xs) (suc n) (suc k) h = get_elem?-take xs n k (omega arith)

pub get_elem?-drop : (xs : Bytes) (o k : ℕ) → get_elem? (drop o xs) k ≡ get_elem? xs (o + k)
get_elem?-drop xs zero k = let e : 0 + k ≡ k = omega arith in rw e
get_elem?-drop [] (suc o) k = refl
get_elem?-drop (x ∷ xs) (suc o) k =
    let e : suc o + k ≡ suc (o + k) = omega arith in rw e (get_elem?-drop xs o k)

pub take_ext :
    (xs ys : Bytes) (n : ℕ)
    → length xs ≡ length ys
    → ((k : ℕ) → k < n → get_elem? xs k ≡ get_elem? ys k)
    → take n xs ≡ take n ys
take_ext xs ys zero e h = refl
take_ext [] [] (suc n) e h = refl
take_ext [] (y ∷ ys) (suc n) e h = absurd (omega arith)
take_ext (x ∷ xs) [] (suc n) e h = absurd (omega arith)
take_ext (x ∷ xs) (y ∷ ys) (suc n) e h =
    let head = h 0 (omega arith) in
    let rest = take_ext xs ys n (omega arith) (λ k l. h (suc k) (omega arith)) in cc

wait_for_chunk-available :
    (s : Store) (i : ℕ) → has_chunk s i ≡ ok true → wait_for_chunk s i ≡ (s, ok true)
unfolding wait_for_chunk
wait_for_chunk-available s i e = rw (e, wait_for_chunk)

wait_for_chunk-missing :
    (s : Store) (i : ℕ)
    → has_chunk s i ≡ ok false
    → wait_for_chunk s i ≡ (record s { waiters = insert_key i s.waiters }, ok false)
unfolding wait_for_chunk
wait_for_chunk-missing s i e = rw (e, wait_for_chunk)

module _ (sha256 : Bytes → Digest) (orig : Bytes) (cs : ℕ) (name : Bytes)
    (fits : Fits (length orig) cs) where
  -- A byte of an available chunk is the original's.
  pub byte-genuine :
      (s : Store) (p : ℕ)
      → IsGenuine sha256 orig cs name s
      → p < length orig
      → bit_at s.bitfield (p / cs) ≡ true
      → get_elem? s.file.contents p ≡ get_elem? orig p
  byte-genuine s p v h has =
      let i = p / cs in
      let pos_cs = fits.some_size in
      let e = div-add-mod p cs in
      let m = mod-lt p pos_cs in
      let place : p ≡ i * cs + p % cs = omega arith in
      let inside = chunk_of-lt (length orig) cs p pos_cs fits.some_bytes h in
      ap (get_elem? s.file.contents) place
      ∙ sym (at s.file.contents i (p % cs) m)
      ∙ ap (λ r. get_elem? r (p % cs)) (v.genuine i inside has)
      ∙ at orig i (p % cs) m
      ∙ ap (get_elem? orig) (sym place)
    where
      at :
          (bs : Bytes) (i k : ℕ) → k < cs → get_elem? (region bs cs i) k ≡ get_elem? bs (i * cs + k)
      at bs i k l = get_elem?-take (drop (i * cs) bs) cs k l ∙ get_elem?-drop bs (i * cs) k

  -- The size in the manifest cuts the file where the chunk ends.
  take-region :
      (s : Store) (i : ℕ)
      → IsGenuine sha256 orig cs name s
      → take (length (region orig cs i)) (drop (i * cs) s.file.contents)
        ≡ region s.file.contents cs i
  take-region s i v =
      let rest = drop (i * cs) s.file.contents in
      let size = length-region orig cs i in
      let left = length-drop (i * cs) s.file.contents in
      let same = v.same_length in
      elim (dec_le cs (length orig - i * cs)) [
        | yes inner ↦
            let e : length (region orig cs i) ≡ cs = omega arith in ap (λ n. take n rest) e
        | no last ↦ take_past rest _ cs (omega arith) (omega arith)
      ]

  -- ReadChunk of an available chunk gives the original's bytes, of the length in the manifest.
  pub read_chunk-genuine :
      (s : Store) (i : ℕ)
      → IsGenuine sha256 orig cs name s
      → s.file.fault ≡ none
      → i < chunk_total orig cs
      → bit_at s.bitfield i ≡ true
      → read_chunk s (pos i) ≡ ok (region orig cs i)
  unfolding read_chunk read_at
  read_chunk-genuine s i v healthy h has =
      let begins = chunk_begins (length orig) cs i fits.some_size fits.some_bytes h in
      let limit = fits.no_overflow in
      let count : s.manifest.chunk_count ≡ chunk_total orig cs =
        ap (λ m. m.chunk_count) v.manifest_is in
      let guard : leb s.manifest.chunk_count i ≡ false = ground arith in
      let meta =
        ap (λ m. get_elem? m.chunks i) v.manifest_is
        ∙ get_elem?-metas sha256 orig cs (chunk_total orig cs) i h in
      let size = ap (λ m. m.chunk_size) v.manifest_is in
      rw (guard, meta, size, mul64_pos i cs (omega arith), healthy)
        (ap ok (take-region s i v ∙ v.genuine i h has))

  pub wait_for_range-available :
      (s : Store) (n i : ℕ)
      → IsGenuine sha256 orig cs name s
      → i + n ≤ chunk_total orig cs
      → ((j : ℕ) → i ≤ j → j < i + n → bit_at s.bitfield j ≡ true)
      → wait_for_range n i s ≡ (s, ok true)
  unfolding wait_for_range
  wait_for_range-available s zero i v h has = refl
  wait_for_range-available s (suc n) i v h has =
      let there : has_chunk s i ≡ ok true =
        has_chunk_lem sha256 orig cs name fits s i v (omega arith)
        ∙ ap ok (has i (omega arith) (omega arith)) in
      let step = wait_for_chunk-available s i there in
      rw (step, wait_for_range, ap (λ o. o.0) step)
        (wait_for_range-available s n (i + 1) v (omega arith)
          (λ j lo hi. has j (omega arith) (omega arith)))

  -- The first chunk that is not there stops the loop, and a waiter for it is registered.
  pub wait_for_range-blocks :
      (s : Store) (n i k : ℕ)
      → IsGenuine sha256 orig cs name s
      → i + n ≤ chunk_total orig cs
      → ((j : ℕ) → i ≤ j → j < i + k → bit_at s.bitfield j ≡ true)
      → k < n
      → bit_at s.bitfield (i + k) ≡ false
      → wait_for_range n i s ≡ (record s { waiters = insert_key (i + k) s.waiters }, ok false)
  unfolding wait_for_range
  wait_for_range-blocks s zero i k v h has l missing = elim l [ ]
  wait_for_range-blocks s (suc n) i zero v h has l missing =
      let e : i + 0 ≡ i = omega arith in
      let gone : has_chunk s i ≡ ok false =
        has_chunk_lem sha256 orig cs name fits s i v (omega arith)
        ∙ ap ok (ap (bit_at s.bitfield) (sym e) ∙ missing) in
      let step = wait_for_chunk-missing s i gone in rw (step, wait_for_range, ap (λ o. o.0) step, e)
  wait_for_range-blocks s (suc n) i (suc k) v h has l missing =
      let there : has_chunk s i ≡ ok true =
        has_chunk_lem sha256 orig cs name fits s i v (omega arith)
        ∙ ap ok (has i (omega arith) (omega arith)) in
      let e : i + suc k ≡ i + 1 + k = omega arith in
      let step = wait_for_chunk-available s i there in
      rw (step, wait_for_range, ap (λ o. o.0) step, e)
        (wait_for_range-blocks s n (i + 1) k v (omega arith)
          (λ j lo hi. has j (omega arith) (omega arith)) (omega arith)
          (ap (bit_at s.bitfield) (sym e) ∙ missing))
