-- ===== src/Peer/Tests.antt =====
-- Theorems of internal/peer at concrete inputs. Speeds are whole numbers.
use peerwatch.Base.{
  ℕ, ◌+◌, ◌-◌, ◌*◌, ◌/◌, ◌^◌, ◌≡◌, refl, true, false, ◌&&◌, none, List, [], ◌∷◌, arith,
}
use peerwatch.Base.Tests.{ltb, leb}
use peerwatch.Base.Lists.{length}
use peerwatch.Base.Int.{mul64, pos, pos_part}
use peerwatch.Base.Keys.{contains, Distinct}
use peerwatch.Base.Floats.{Floats}
use peerwatch.Base.Results.{ok}
use peerwatch.Chunk.Manifest.{Manifest}
use peerwatch.Peer.Tracker.{peer_ids_with_chunk, rarity}
use peerwatch.Peer.Availability.{Report, heard, gone, track, last_heard, peer_ids-track}
use peerwatch.Peer.Connection.{Peer, timeout_in_flight, in_flight_count}
use peerwatch.Base.{zero, suc, ◌<◌, some}
use peerwatch.Base.Results.{panic}
use peerwatch.Protocol.Message.{Bytes, Digest, bitfield, request}
use peerwatch.Chunk.File.{written, write_at}
use peerwatch.Chunk.Bitfield.{bit_at, set_bit, has_bit, make_bitfield}
use peerwatch.Chunk.Counts.{manifest_of}
use peerwatch.Chunk.Chunker.Counting.{Fits}
use peerwatch.Chunk.Chunker.Contents.{region}
use peerwatch.Chunk.Store.Defs.{
  Store, has_chunk, write_chunk, write_missing, verify_and_write, after_write, mark_available,
}
use peerwatch.Chunk.Store.Integrity.{IsGenuine, NoCollision, chunk_total}
use peerwatch.Chunk.Store.Download.{write_chunk-IsGenuine}
use peerwatch.Chunk.Store.Lifecycle.{empty_store, empty_store-IsGenuine}
use peerwatch.Peer.Connection
use peerwatch.Peer.Tracker.{Tracker}
use peerwatch.Peer.Availability.{track-IsTracker, has_peer}
use peerwatch.Peer.Swarm.{
  Swarm, get_peer, add_peer, disconnect, serve_request, answer_if, handle_message,
}
use peerwatch.Peer.Serving.{enqueue, handle_request-genuine, handle_bitfield-agree}
use peerwatch.Peer.Roster.{disconnect-add_peer}

abbrev pub whole : Floats ℕ
whole = record {
  plus = λ a b. a + b;
  minus = λ a b. a - b;
  times = λ a b. a * b;
  over = λ a b. a / b;
  less = ltb;
  at_most = leb;
  of_int = pos_part;
  decimal = λ n k. n / 10 ^ k;
}

-- Peer 7 announces chunks 0 and 1, then chunk 9 as well in two bytes; peer 8 comes and goes.
abbrev reports : List Report
reports = gone 8 ∷ heard 7 (0xc0 ∷ 0x40 ∷ []) ∷ heard 8 (0xff ∷ []) ∷ heard 7 (0xc0 ∷ []) ∷ []

peer_ids-track_example :
    ((p : ℕ)
      → contains p (peer_ids_with_chunk (track 10 reports) (pos 9))
        ≡ (true && last_heard reports 9 p))
    × Distinct (peer_ids_with_chunk (track 10 reports) (pos 9))
    × (rarity (track 10 reports) (pos 9) ≡ length (peer_ids_with_chunk (track 10 reports) (pos 9)))
peer_ids-track_example = peer_ids-track 10 reports 9

-- A request of time 5 and one of time 90, at time 100.
abbrev asking : Peer ℕ
asking = record {
  id = 7;
  addr = [];
  queue = [];
  bitfield = none;
  speed = 500;
  in_flight = (3, 5) ∷ (4, 90) ∷ [];
  closed = false;
}

abbrev pub described : Manifest
described = record {
  file_name = b'a' ∷ [];
  file_size = pos 5;
  chunk_size = pos 4;
  chunk_count = 2;
  chunks = record { size = pos 4; hash = 77 } ∷ record { size = pos 1; hash = 78 } ∷ [];
}

abbrev video : Bytes
video = 11 ∷ 22 ∷ 33 ∷ 44 ∷ 55 ∷ []

abbrev title : Bytes
title = b'a' ∷ []

abbrev sum_digest : Bytes → Digest
sum_digest [] = 0
sum_digest (b ∷ bs) = b + 256 * sum_digest bs

video-Fits : Fits (length video) 2
video-Fits = record { some_bytes = omega arith; some_size = omega arith; no_overflow = omega arith }

abbrev joined : Store
joined = empty_store (manifest_of sum_digest video 2 title) 5

-- The bitfield of three chunks has one byte, and index 8 wants a second one.
request_panics : serve_request joined (8 ∷ []) asking ≡ panic
unfolding serve_request has_chunk has_bit make_bitfield answer_if
request_panics = refl

-- The store of a joiner that has written the middle chunk.
abbrev middle : Store
middle = (write_chunk sum_digest joined (pos 1) (33 ∷ 44 ∷ []) written).0

middle_safe : (i : ℕ) → i < chunk_total video 2 → NoCollision sum_digest video 2 i (33 ∷ 44 ∷ [])
middle_safe zero h e = absurd (omega arith)
middle_safe (suc zero) h e = refl
middle_safe (suc (suc zero)) h e = absurd (omega arith)
middle_safe (suc (suc (suc i))) h e = absurd (omega arith)

middle-IsGenuine : IsGenuine sum_digest video 2 title middle
middle-IsGenuine =
    write_chunk-IsGenuine sum_digest video 2 title video-Fits joined (pos 1) (33 ∷ 44 ∷ []) written
      (empty_store-IsGenuine sum_digest video 2 title) middle_safe

healthy : middle.file.fault ≡ none
unfolding write_chunk write_missing verify_and_write after_write write_at mark_available set_bit
    has_chunk has_bit make_bitfield mul64
healthy = refl

handle_request-genuine_example :
    handle_message whole (λ n. n) 100 (some middle) [] (request (0 ∷ 1 ∷ [])) (asking, none)
    ≡ ok (
      (record asking { queue = enqueue (region video 2) middle.bitfield (0 ∷ 1 ∷ []) [] }, none),
      [],
    )
handle_request-genuine_example =
    handle_request-genuine sum_digest video 2 title video-Fits middle middle-IsGenuine healthy whole
      (λ n. n) 100 [] (0 ∷ 1 ∷ []) asking none refl (omega arith, (omega arith, tt))

handle_bitfield-agree_example :
    (p' : Peer ℕ) × (t' : Tracker) × (handle_message whole
        (λ n. n)
        100
        none
        []
        (bitfield (0xa0 ∷ []))
        (asking, some (track 3 []))
      ≡ ok ((p', some t'), []))
    × (Connection.has_chunk p' 2 ≡ bit_at (0xa0 ∷ []) 2)
    × (has_peer t' 2 7 ≡ bit_at (0xa0 ∷ []) 2)
handle_bitfield-agree_example =
    handle_bitfield-agree whole (λ n. n) 100 none [] (0xa0 ∷ []) asking (track 3 []) 3 2
      (track-IsTracker 3 []) (omega arith) (omega arith)

abbrev room : Swarm ℕ
room = record {
  self_id = 1;
  is_host = true;
  manifest = none;
  tracker = some (track 3 []);
  host_addr = [];
  done = false;
  peers = (7, asking) ∷ [];
}

disconnect-add_peer_example :
    (t' : Tracker) × ((disconnect asking (add_peer asking room)).0.tracker ≡ some t')
    × (get_peer (disconnect asking (add_peer asking room)).0 7 ≡ none)
    × (has_peer t' 0 7 ≡ false)
disconnect-add_peer_example = disconnect-add_peer room (track 3 []) asking asking 7 0 refl refl
