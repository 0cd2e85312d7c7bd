-- ===== src/Chunk/Tests.antt =====
-- Concrete runs of internal/chunk, and its theorems at concrete inputs.
use peerwatch.Base.{
  some, ℕ, zero, suc, ◌+◌, ◌-◌, ◌*◌, ◌^◌, ◌<◌, ◌≡◌, refl, inl, inr, true, List, [], ◌∷◌, none,
  arith,
}
use peerwatch.Base.Lists.{length}
use peerwatch.Base.Int.{pos, leb_ℤ}
use peerwatch.Base.Results.{ok}
use peerwatch.Protocol.Message.{Bytes, Digest}
use peerwatch.Chunk.File.{written, failed, device}
use peerwatch.Chunk.Bitfield.{bit_at, make_bitfield, set_bit, bit_at-make_bitfield}
use peerwatch.Chunk.Manifest.{build_manifest}
use peerwatch.Chunk.Manifest.Build.{Delivers, build_manifest_lem}
use peerwatch.Chunk.Counts.{manifest_of, count_set}
use peerwatch.Chunk.Chunker.{chunk_count}
use peerwatch.Chunk.Chunker.Counting.{Fits, chunker_of}
use peerwatch.Chunk.Chunker.Contents.{region, read_all, read_all-contents, chunk_count_overflow}
use peerwatch.Chunk.Store.Defs.{Store, write_chunk, new_host_store, set_bits}
use peerwatch.Base.Keys.{insert_key}
use peerwatch.Chunk.Store.Reads.{read_bytes, is_complete}
use peerwatch.Chunk.Store.Integrity.{IsGenuine, chunk_total, NoCollision}
use peerwatch.Chunk.Store.Download.{write_chunk-IsGenuine}
use peerwatch.Chunk.Store.Progress.{Brings, download_complete}
use peerwatch.Chunk.Store.Streaming.{read_bytes-genuine, read_bytes_blocks}
use peerwatch.Chunk.Store.Lifecycle.{
  Arrival, download, download-contents, empty_store, empty_store-IsGenuine,
}

-- A file of five bytes in chunks of two, and a digest that tells short byte strings apart.
abbrev video : Bytes
video = 11 ∷ 22 ∷ 33 ∷ 44 ∷ 55 ∷ []

abbrev title : Bytes
title = b'a' ∷ []

abbrev sum_digest : Bytes → Digest
sum_digest [] = 0
sum_digest (b ∷ bs) = b + 256 * sum_digest bs

video-Fits : Fits (length video) 2
video-Fits = record { some_bytes = omega arith; some_size = omega arith; no_overflow = omega arith }

abbrev peer_store : Store
peer_store = empty_store (manifest_of sum_digest video 2 title) 5

-- Two bytes that are the middle chunk.
middle_safe : (i : ℕ) → i < chunk_total video 2 → NoCollision sum_digest video 2 i (33 ∷ 44 ∷ [])
middle_safe zero h e = absurd (omega arith)
middle_safe (suc zero) h e = refl
middle_safe (suc (suc zero)) h e = absurd (omega arith)
middle_safe (suc (suc (suc i))) h e = absurd (omega arith)

-- Bytes that are no chunk.
junk_safe : (i : ℕ) → i < chunk_total video 2 → NoCollision sum_digest video 2 i (9 ∷ [])
junk_safe zero h e = absurd (omega arith)
junk_safe (suc zero) h e = absurd (omega arith)
junk_safe (suc (suc zero)) h e = absurd (omega arith)
junk_safe (suc (suc (suc i))) h e = absurd (omega arith)

write_chunk-IsGenuine_example :
    IsGenuine sum_digest video 2 title
      (write_chunk sum_digest peer_store (pos 1) (33 ∷ 44 ∷ []) (failed 1 device)).0
write_chunk-IsGenuine_example =
    write_chunk-IsGenuine sum_digest video 2 title video-Fits peer_store (pos 1) (33 ∷ 44 ∷ [])
      (failed 1 device) (empty_store-IsGenuine sum_digest video 2 title) middle_safe

-- A download in which a chunk is refused, one is cut off by the disk, and the three arrive at last.
abbrev arrivals : List Arrival
arrivals =
    record { index = pos 2; payload = 9 ∷ []; disk = written }
    ∷ record { index = pos 1; payload = 33 ∷ 44 ∷ []; disk = failed 1 device }
    ∷ record { index = pos 1; payload = 33 ∷ 44 ∷ []; disk = written }
    ∷ []

download-contents_example :
    (s : Store) × (download sum_digest (manifest_of sum_digest video 2 title) arrivals ≡ ok s)
    × ((i : ℕ) → i < 3 → bit_at s.bitfield i ≡ true → region s.file.contents 2 i ≡ region video 2 i)
    × (is_complete s ≡ true → s.file.contents ≡ video)
download-contents_example =
    download-contents sum_digest video 2 title video-Fits arrivals
      (junk_safe, (middle_safe, (middle_safe, tt)))

-- The host's store, in which all is there.
abbrev host_store : Store
host_store = record {
  file = record { contents = video; fault = none };
  manifest = manifest_of sum_digest video 2 title;
  bitfield = 0xe0 ∷ [];
  count = 3;
  is_host = true;
  waiters = [];
  woken = [];
}

host_bits : (i : ℕ) → i < 3 → bit_at (0xe0 ∷ []) i ≡ true
unfolding bit_at
host_bits zero h = refl
host_bits (suc zero) h = refl
host_bits (suc (suc zero)) h = refl
host_bits (suc (suc (suc i))) h = absurd (omega arith)

host_store-IsGenuine : IsGenuine sum_digest video 2 title host_store
unfolding count_set bit_at
host_store-IsGenuine = record {
  manifest_is = refl;
  same_length = refl;
  room = λ i h. omega arith;
  bytes = omega arith;
  counted = refl;
  genuine = λ i h has. refl;
}

new_host_store_runs :
    new_host_store
      (ok (record { contents = video; fault = none }))
      (manifest_of sum_digest video 2 title)
    ≡ ok host_store
unfolding new_host_store set_bits set_bit make_bitfield
new_host_store_runs = refl

read_bytes-genuine_example :
    read_bytes host_store (pos 1) (pos 3) ≡ (host_store, ok (some (22 ∷ 33 ∷ 44 ∷ [])))
read_bytes-genuine_example =
    read_bytes-genuine sum_digest video 2 title video-Fits host_store 1 3 host_store-IsGenuine refl
      (omega arith) (omega arith) (omega arith) (λ j lo hi. host_bits j (omega arith))

read_bytes_blocks_example :
    read_bytes peer_store (pos 1) (pos 3)
    ≡ (record peer_store { waiters = insert_key 0 [] }, ok none)
read_bytes_blocks_example =
    read_bytes_blocks sum_digest video 2 title video-Fits peer_store 1 3 0
      (empty_store-IsGenuine sum_digest video 2 title) (omega arith) (omega arith) (omega arith)
      (omega arith) (λ j lo hi. absurd (omega arith)) (bit_at-make_bitfield 3 0)

build_manifest_lem_example :
    build_manifest sum_digest
      (ok (record { contents = video; fault = none }))
      title
      (pos 2)
      (2 ∷ 0 ∷ 1 ∷ [])
    ≡ ok (manifest_of sum_digest video 2 title)
build_manifest_lem_example =
    build_manifest_lem sum_digest video 2 video-Fits title (2 ∷ 0 ∷ 1 ∷ []) (omega arith) delivered
  where
    delivered : (i : ℕ) → i < 3 → Delivers i (2 ∷ 0 ∷ 1 ∷ [])
    delivered zero h = inr (inl refl)
    delivered (suc zero) h = inr (inr (inl refl))
    delivered (suc (suc zero)) h = inl refl
    delivered (suc (suc (suc i))) h = absurd (omega arith)

read_all-contents_example : read_all (chunker_of video 2) 2 3 0 ≡ ok video
read_all-contents_example = read_all-contents video 2 2 video-Fits (omega arith)

chunk_count_overflow_example : leb_ℤ (chunk_count (chunker_of video (2 ^ 63 - 1))) (pos 0) ≡ true
chunk_count_overflow_example =
    chunk_count_overflow video (2 ^ 63 - 1) (omega arith) (omega arith) (omega arith)

first_safe : (i : ℕ) → i < chunk_total video 2 → NoCollision sum_digest video 2 i (11 ∷ 22 ∷ [])
first_safe zero h e = refl
first_safe (suc zero) h e = absurd (omega arith)
first_safe (suc (suc zero)) h e = absurd (omega arith)
first_safe (suc (suc (suc i))) h e = absurd (omega arith)

last_safe : (i : ℕ) → i < chunk_total video 2 → NoCollision sum_digest video 2 i (55 ∷ [])
last_safe zero h e = absurd (omega arith)
last_safe (suc zero) h e = absurd (omega arith)
last_safe (suc (suc zero)) h e = refl
last_safe (suc (suc (suc i))) h e = absurd (omega arith)

-- The last chunk comes first, a wrong payload is refused, and the middle chunk needs two attempts.
abbrev deliveries : List Arrival
deliveries =
    record { index = pos 2; payload = 55 ∷ []; disk = written }
    ∷ record { index = pos 0; payload = 9 ∷ []; disk = written }
    ∷ record { index = pos 1; payload = 33 ∷ 44 ∷ []; disk = failed 1 device }
    ∷ record { index = pos 0; payload = 11 ∷ 22 ∷ []; disk = written }
    ∷ record { index = pos 1; payload = 33 ∷ 44 ∷ []; disk = written }
    ∷ []

all_brought :
    (i : ℕ) → i < chunk_total video 2 → Brings sum_digest video 2 title video-Fits deliveries i
all_brought zero h = inr (inr (inr (inl (refl, refl, refl))))
all_brought (suc zero) h = inr (inr (inr (inr (inl (refl, refl, refl)))))
all_brought (suc (suc zero)) h = inl (refl, refl, refl)
all_brought (suc (suc (suc i))) h = absurd (omega arith)

download_complete_example :
    (s : Store) × (download sum_digest (manifest_of sum_digest video 2 title) deliveries ≡ ok s)
    × (is_complete s ≡ true)
    × (s.file.contents ≡ video)
download_complete_example =
    download_complete sum_digest video 2 title video-Fits deliveries
      (last_safe, (junk_safe, (middle_safe, (first_safe, (middle_safe, tt))))) all_brought
