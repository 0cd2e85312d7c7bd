-- ===== src/Commands/Tests.antt =====
-- The commands at concrete inputs. Numbers of the player are whole.
use peerwatch.Base.{
  ℕ, ◌+◌, ◌-◌, ◌*◌, ◌/◌, ◌^◌, ◌<◌, ◌≡◌, ◌≢◌, refl, false, none, some, [], ◌∷◌, arith,
}
use peerwatch.Base.Tests.{ltb, leb}
use peerwatch.Base.Int.{pos, pos_part}
use peerwatch.Base.Keys.{contains}
use peerwatch.Base.Floats.{Floats}
use peerwatch.Base.Results.{ok, panic}
use peerwatch.Protocol.Message.{Bytes, Digest, piece}
use peerwatch.Chunk.File.{written}
use peerwatch.Chunk.Manifest.{Manifest}
use peerwatch.Chunk.Bitfield.{has_bit, make_bitfield}
use peerwatch.Chunk.Store.Defs.{
  Store, write_chunk, write_missing, verify_and_write, has_chunk, hash_mismatch,
}
use peerwatch.Chunk.Store.Lifecycle.{empty_store}
use peerwatch.Peer.Connection.{Peer, timeout_in_flight, in_flight_chunks}
use peerwatch.Peer.Swarm.{piece_received, handle_message}
use peerwatch.Scheduler.Tick.{Scheduler, new, release_in_flight}
use peerwatch.Commands.{choose, usage, help, start, unknown, chunk_index, on_piece, on_disconnected}
use peerwatch.Commands.Cursor.{chunk_index-below}
use peerwatch.Commands.Pieces.{handle_message-on_piece}

abbrev whole : Floats ℕ
whole = record {
  plus = λ a b. a + b;
  minus = λ a b. a - b;
  times = λ a b. a * b;
  over = λ a b. a / b;
  less = ltb;
  at_most = leb;
  of_int = pos_part;
  decimal = λ n k. n / 10 ^ k;
}

chosen :
    (choose ((b'p' ∷ []) ∷ (45 ∷ b'h' ∷ []) ∷ []) ≡ help)
    × (choose ((b'p' ∷ []) ∷ (b's' ∷ b't' ∷ b'a' ∷ b'r' ∷ b't' ∷ []) ∷ (b'f' ∷ []) ∷ [])
        ≡ start ((b'f' ∷ []) ∷ []))
    × (choose ((b'p' ∷ []) ∷ (b's' ∷ []) ∷ []) ≡ unknown (b's' ∷ []))
    × (choose [] ≡ usage)
unfolding choose
chosen = (refl, refl, refl, refl)

abbrev film : Manifest
film = record {
  file_name = b'a' ∷ [];
  file_size = pos 5;
  chunk_size = pos 4;
  chunk_count = 2;
  chunks = record { size = pos 4; hash = 77 } ∷ record { size = pos 1; hash = 78 } ∷ [];
}

chunk_index-below_example :
    (film.chunk_size ≢ pos 0
      → (k : ℕ) × (chunk_index whole pos {E = Unit {0}} film 90 30 ≡ ok (pos k)) × (k < 2))
    × (film.chunk_size ≡ pos 0 → chunk_index whole pos {E = Unit {0}} film 90 30 ≡ panic)
chunk_index-below_example = chunk_index-below whole pos film 90 30 (omega arith) (omega arith)

abbrev first_byte : Bytes → Digest
first_byte [] = 0
first_byte (b ∷ payload) = b

abbrev store : Store
store = empty_store film 5

abbrev asked : Peer ℕ
asked = record {
  id = 7;
  addr = [];
  queue = [];
  bitfield = none;
  speed = 500;
  in_flight = (1, 5) ∷ [];
  closed = false;
}

abbrev waiting : Scheduler
waiting = record new { in_flight = 1 ∷ [] }

handle_message-on_piece_example :
    (p' : Peer ℕ) × (store' : Store) × (handle_message whole
        (λ n. n)
        9
        (some store)
        []
        (piece (record { chunk_index = 1; payload = 5 ∷ [] }))
        (asked, none)
      ≡ ok ((p', none), piece_received 1 (5 ∷ []) ∷ []))
    × (on_piece first_byte written 1 (5 ∷ []) (store, waiting) ≡ ok (store', waiting))
    × ((limit later : ℕ)
        → contains 1
            (release_in_flight (timeout_in_flight whole limit later p').1 waiting).in_flight
          ≡ contains 1 waiting.in_flight)
    × (contains 1 (on_disconnected (in_flight_chunks p') waiting).in_flight
        ≡ contains 1 waiting.in_flight)
unfolding write_chunk write_missing verify_and_write has_chunk has_bit make_bitfield
handle_message-on_piece_example =
    handle_message-on_piece whole first_byte (λ n. n) 9 1 (5 ∷ []) written [] asked none store
      waiting (hash_mismatch 1) refl
