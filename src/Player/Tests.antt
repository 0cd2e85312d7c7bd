-- ===== src/Player/Tests.antt =====
-- A theorem of internal/player at a concrete input.
use peerwatch.Base.{ℕ, zero, suc, ◌+◌, ◌*◌, ◌<◌, ◌≡◌, refl, true, false, none, [], ◌∷◌, arith}
use peerwatch.Base.Lists.{length}
use peerwatch.Base.Int.{pos}
use peerwatch.Base.Results.{ok}
use peerwatch.Protocol.Message.{Bytes, Digest}
use peerwatch.Chunk.Bitfield.{bit_at}
use peerwatch.Chunk.Counts.{manifest_of, count_set}
use peerwatch.Chunk.Chunker.Counting.{Fits}
use peerwatch.Chunk.Store.Defs.{Store}
use peerwatch.Chunk.Store.Integrity.{IsGenuine}
use peerwatch.Scheduler.Tick.{new}
use peerwatch.Player.Server.{copied_all, serve_video}
use peerwatch.Player.Copying.{serve_video-genuine}

abbrev film : Bytes
film = 11 ∷ 22 ∷ 33 ∷ 44 ∷ 55 ∷ []

abbrev sum_digest : Bytes → Digest
sum_digest [] = 0
sum_digest (b ∷ bs) = b + 256 * sum_digest bs

film-Fits : Fits (length film) 2
film-Fits = record { some_bytes = omega arith; some_size = omega arith; no_overflow = omega arith }

abbrev full : Store
full = record {
  file = record { contents = film; fault = none };
  manifest = manifest_of sum_digest film 2 [];
  bitfield = 0xe0 ∷ [];
  count = 3;
  is_host = false;
  waiters = [];
  woken = [];
}

full_bits : (i : ℕ) → i < 3 → bit_at full.bitfield i ≡ true
unfolding bit_at
full_bits zero h = refl
full_bits (suc zero) h = refl
full_bits (suc (suc zero)) h = refl
full_bits (suc (suc (suc i))) h = absurd (omega arith)

full-IsGenuine : IsGenuine sum_digest film 2 [] full
unfolding count_set bit_at
full-IsGenuine = record {
  manifest_is = refl;
  same_length = refl;
  room = λ i h. omega arith;
  bytes = omega arith;
  counted = refl;
  genuine = λ i h has. refl;
}

-- Bytes 1 to 3, by a buffer of two.
serve_video-genuine_example :
    serve_video 3 2 1 3 new full
    ≡ ok (
      pos 5,
      record {
        reader = record { offset = pos 4; file_size = pos 5; chunk_size = pos 2 };
        sched = new;
        store = full;
        out = 22 ∷ 33 ∷ 44 ∷ [];
        end = copied_all;
      },
    )
serve_video-genuine_example =
    serve_video-genuine sum_digest film 2 [] film-Fits full full-IsGenuine refl full_bits new 3 2 1
      3 (omega arith) (omega arith) (omega arith)
