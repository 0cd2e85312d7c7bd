-- ===== src/Peer/Sessions.antt =====
-- Sessions of two peers, from the handshake to the end of the stream, at concrete inputs.
use peerwatch.Base.{
  ℕ, ◌/◌, ◌<◌, ◌≡◌, ◌≢◌, refl, true, false, Option, none, some, List, [], ◌∷◌, ◌++◌, arith,
}
use peerwatch.Base.Lists.{length, take}
use peerwatch.Base.Int.{pos}
use peerwatch.Base.Results.{ok}
use peerwatch.Protocol.Message.{Message, have, keepalive, manifest, ManifestMsg}
use peerwatch.Protocol.Encode.{frame, encode_payload, encode_chunks, encode_addrs}
use peerwatch.Protocol.Wire.{be_bytes, read_full}
use peerwatch.Protocol.Decode.{DecodeError, read_message, read_uint, read_bytes}
use peerwatch.Protocol.RoundTrip.{IsMessage}
use peerwatch.Chunk.Store.Defs.{Store}
use peerwatch.Chunk.Store.Lifecycle.{empty_store}
use peerwatch.Peer.Conversion.{manifest_to_proto}
use peerwatch.Chunk.Bitfield.{bit_at}
use peerwatch.Peer.Tracker.{Tracker}
use peerwatch.Peer.Availability.{has_peer}
use peerwatch.Peer.Swarm.{Swarm, get_peer, add_peer, peer_addrs}
use peerwatch.Peer.Connection.{Peer}
use peerwatch.Protocol.Message.{Bytes}
use peerwatch.Peer.Mesh.{dial_peers, dial_peers-get_peer}
use peerwatch.Peer.Handshake.{
  Conn, ◌>>=◌, hello, peer_on, greet, write_msg, read_msg, connect, handle_incoming,
  connect_to_host,
}
use peerwatch.Peer.Joining.{conn_with, joined, connect_to_host-handle_incoming}
use peerwatch.Peer.Loops.{ended, out_of_fuel, read_loop, write_loop}
use peerwatch.Peer.Delivery.{handled, read_loop-out_of_fuel, read_loop-write_loop}
use peerwatch.Peer.Refusal.{Refused, table, connect-handle_incoming-Refused}
use peerwatch.Base.Tests.{if◌then◌else◌}
use peerwatch.Peer.Swarm.{same_bytes, knows, addrs_of}
use peerwatch.Peer.Duties.{reconnect}
use peerwatch.Peer.Duties.{has_host_connection}
use peerwatch.Base.{◌||◌}
use peerwatch.Protocol.Encode.{encode_bitfield}
use peerwatch.Peer.Reconnect.{Handshakes, host_conn, joining, reconnect-connect_to_host}
use peerwatch.Peer.Tests.{whole, described}

-- A handler that keeps what it is given, and a close that is noted at the end.
abbrev heard : List Message → Message → List Message
heard s m = s ++ (m ∷ [])

abbrev queue : List Message
queue = have 3 ∷ keepalive ∷ have 7 ∷ []

-- The third write fails after two bytes: the reader gets two messages.
abbrev writes : List (Option ℕ)
writes = none ∷ none ∷ some 2 ∷ []

read_loop-out_of_fuel_example : read_loop heard (λ s. s) 4 (0 ∷ 0 ∷ 0 ∷ []) [] ≢ out_of_fuel
read_loop-out_of_fuel_example =
    read_loop-out_of_fuel heard (λ s. s) 4 (0 ∷ 0 ∷ 0 ∷ []) [] (omega arith)

read_loop-write_loop_example :
    (n : ℕ) × (e : DecodeError) × (read_loop heard (λ s. s) 4 (write_loop queue writes []).0 []
      ≡ ended (handled heard (λ s. s) [] (take n queue)) e)
    × ((write_loop queue writes []).1 ≡ false → n ≡ length queue)
unfolding encode_payload be_bytes
read_loop-write_loop_example =
    read_loop-write_loop heard (λ s. s) queue writes 4 []
      ((omega arith, omega arith), ((tt, omega arith), ((omega arith, omega arith), tt)))
      (omega arith)

abbrev host : Swarm ℕ
host = record {
  self_id = 1;
  is_host = true;
  manifest = some described;
  tracker = none;
  host_addr = [];
  done = false;
  peers = [];
}

abbrev joiner : Swarm ℕ
joiner = record host { self_id = 2; is_host = false; manifest = none }

abbrev described_msg : ManifestMsg
described_msg = record {
  file_name = b'a' ∷ [];
  file_size = pos 5;
  chunk_size = pos 4;
  chunk_count = 2;
  chunks = record { size = 4; hash = 77 } ∷ record { size = 1; hash = 78 } ∷ [];
}

abbrev full_store : Store
full_store = record (empty_store described 5) { bitfield = 0xc0 ∷ []; count = 2 }

-- The other side closes at once: the read of its handshake fails.
refused : (connect whole none (conn_with [] [], joiner)).0.0.closed ≡ true
unfolding connect greet write_msg read_msg read_message ◌>>=◌ read_uint read_bytes read_full
refused = refl

described-IsMessage : IsMessage (manifest described_msg)
described-IsMessage = record {
  name_fits = omega arith;
  size_fits = omega arith;
  chunk_fits = omega arith;
  count_fits = omega arith;
  count_agrees = refl;
  chunks_fit = (
    record { size_fits = omega arith; hash_fits = omega arith },
    (record { size_fits = omega arith; hash_fits = omega arith }, tt),
  );
}

connect_to_host-handle_incoming_example :
    (talk : Conn) × (t : Tracker) × (handle_incoming whole
        (some full_store)
        (conn_with [] (frame (hello 2)), host)
      ≡ (
        (talk, add_peer (peer_on whole (conn_with [] []) 2) host),
        ok (peer_on whole (conn_with [] []) 2),
      ))
    × (connect_to_host whole [] none (conn_with [] (talk.outgoing ++ []), joiner) ≡ (
      (
        record (conn_with [] []) { outgoing = frame (hello 2) },
        joined whole [] [] 1 described (0xc0 ∷ []) none joiner,
      ),
      ok (described, []),
    ))
    × ((joined whole [] [] 1 described (0xc0 ∷ []) none joiner).tracker ≡ some t)
    × ((i : ℕ) → i < 2 → i / 8 < 1 → has_peer t i 1 ≡ bit_at (0xc0 ∷ []) i)
unfolding encode_payload encode_chunks be_bytes manifest_to_proto peer_addrs encode_addrs
connect_to_host-handle_incoming_example =
    connect_to_host-handle_incoming whole [] [] [] [] host joiner described described_msg full_store
      none refl refl (omega arith) ((4, refl, omega arith), ((1, refl, omega arith), tt))
      (omega arith, omega arith) (omega arith, omega arith) (described-IsMessage, omega arith)
      (tt, omega arith) ((omega arith, tt), omega arith)

connect-handle_incoming-Refused_example :
    Refused (λ w. w) (conn_with [] [], joiner) (connect whole none (conn_with [] [], joiner))
    × Refused
        (λ w. w)
        (conn_with [] [], joiner)
        (handle_incoming whole none (conn_with [] [], joiner))
    × Refused table
        (conn_with [] [], joiner)
        (connect_to_host whole [] none (conn_with [] [], joiner))
connect-handle_incoming-Refused_example =
    connect-handle_incoming-Refused whole [] none (conn_with [] [], joiner)

described-Handshakes : Handshakes whole host 2 described described_msg full_store
unfolding encode_payload encode_chunks be_bytes manifest_to_proto peer_addrs encode_addrs
    encode_bitfield
described-Handshakes = record {
  sent = refl;
  counts = refl;
  fits = omega arith;
  short = ((4, refl, omega arith), ((1, refl, omega arith), tt));
  joiner_hello = (omega arith, omega arith);
  host_hello = (omega arith, omega arith);
  manifest_travels = (described-IsMessage, omega arith);
  bitfield_travels = (tt, omega arith);
  list_travels = ((omega arith, tt), omega arith);
}

-- The host was dialled by name, and its connections have numbers for addresses.
reconnect-connect_to_host_example :
    ((reconnect whole (b'h' ∷ []) none (
      host_conn whole (b'1' ∷ []) [] host described full_store 2,
      (joining whole (b'1' ∷ []) [] (b'h' ∷ []) host described full_store none joiner).0.1,
    )).1
      ≡ (if same_bytes (b'1' ∷ []) (b'h' ∷ [])
          then none
          else some (ok (described, peer_addrs host))))
    × (has_host_connection
          (reconnect whole (b'h' ∷ []) none (
            host_conn whole (b'1' ∷ []) [] host described full_store 2,
            (joining whole (b'1' ∷ []) [] (b'h' ∷ []) host described full_store none joiner).0.1,
          )).0.1
        ≡ (same_bytes (b'1' ∷ []) (b'h' ∷ []) || same_bytes (b'1' ∷ []) (b'h' ∷ [])))
unfolding knows addrs_of
reconnect-connect_to_host_example =
    reconnect-connect_to_host whole (b'1' ∷ []) [] (b'1' ∷ []) [] [] b'h' host host joiner described
      described_msg full_store none none described-Handshakes described-Handshakes refl

-- Only peer 7 can be reached, at the second of three addresses.
abbrev dial_seven : Bytes → Option Conn
dial_seven addr =
    if same_bytes addr (b'7' ∷ []) then some (conn_with addr (frame (hello 7) ++ [])) else none

dial_peers-get_peer_example :
    ((p : Peer ℕ) × (get_peer
          (dial_peers whole dial_seven none ((b'6' ∷ []) ∷ (b'7' ∷ []) ∷ (b'8' ∷ []) ∷ []) joiner)
          7
        ≡ some p))
    × ((other : ℕ) (q : Peer ℕ)
        → get_peer joiner other ≡ some q
        → (p : Peer ℕ) × (get_peer
              (dial_peers whole dial_seven none
                ((b'6' ∷ []) ∷ (b'7' ∷ []) ∷ (b'8' ∷ []) ∷ [])
                joiner)
              other
            ≡ some p))
unfolding encode_payload be_bytes
dial_peers-get_peer_example =
    dial_peers-get_peer whole dial_seven none ((b'6' ∷ []) ∷ []) ((b'8' ∷ []) ∷ []) (b'7' ∷ [])
      (b'7' ∷ []) [] 7 joiner refl (omega arith, omega arith)
