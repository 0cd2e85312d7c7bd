-- ===== src/Joiner/Tests.antt =====
-- A running joiner, and a room, at concrete inputs.
use peerwatch.Base.{
  ℕ, zero, suc, ◌≤◌, ◌<◌, ◌≡◌, refl, ap, Bool, false, true, Option, none, some, List, [], ◌∷◌, ◌++◌,
  inl, inr, arith,
}
use peerwatch.Base.Lists.{length, All}
use peerwatch.Base.Int.{pos}
use peerwatch.Base.Results.{ok, err}
use peerwatch.Protocol.Message.{Bytes, manifest, piece, request, ManifestMsg}
use peerwatch.Protocol.Encode.{frame, encode_payload, encode_chunks}
use peerwatch.Protocol.Wire.{be_bytes}
use peerwatch.Chunk.File.{written}
use peerwatch.Chunk.Bitfield.{make_bitfield}
use peerwatch.Chunk.Chunker.Counting.{Fits}
use peerwatch.Chunk.Store.Reads.{is_complete}
use peerwatch.Chunk.Store.Integrity.{NoCollision, chunk_total}
use peerwatch.Chunk.Store.Lifecycle.{empty_store-IsGenuine, new_host_store-IsGenuine}
use peerwatch.Peer.Swarm.{Effect}
use peerwatch.Peer.Handshake.{Conn, hello, handle_incoming}
use peerwatch.Peer.Joining.{conn_with}
use peerwatch.Scheduler.Tests.{
  whole, sort, sort-IsSort, video, title, sum_digest, store, swarm, scheduler,
}
use peerwatch.Token.{Token}
use peerwatch.Token.RoundTrip.{IsJson}
use peerwatch.Commands.Start.{
  Room, Machine, base, token_for, hex_string, get_local_ip, trim_slashes, last_element, check_file,
  supported, unsupported_format, ext, decimal, has_byte, start,
}
use peerwatch.Commands.Rooms.{sound_machine, room_token}
use peerwatch.Joiner.{
  Joiner, in_table, Event, received, told, heard, ended, scheduler_fires, demanded, cursor_moved,
  run,
}
use peerwatch.Joiner.Serving.{IsHonestTable, IsHonestPeer}
use peerwatch.Joiner.Invariant.{IsLawful, IsOwn, IsAdmissible, IsSound, Keeps}
use peerwatch.Joiner.Steps.{run-Keeps}
use peerwatch.Joiner.Turns.{turns}
use peerwatch.Joiner.Arrivals.{turns-wire_up}
use peerwatch.Joiner.Rooms.{no_peers-Travels, same_length-Travels}
use peerwatch.Joiner.Join.{wire_up}
use peerwatch.Peer.Handshake.{connect_to_host, hello}
use peerwatch.Protocol.Encode.{encode_addrs, encode_bitfield}
use peerwatch.Peer.Swarm.{peer_addrs}
use peerwatch.Chunk.Store.Defs.{Store}
use peerwatch.Chunk.Counts.{manifest_of}
use peerwatch.Peer.Duties.{empty_swarm}
use peerwatch.Joiner.Join.{join}
use peerwatch.Joiner.Rooms.{start-join}
use peerwatch.Chunk.Manifest.Build.{Delivers}
use peerwatch.Protocol.RoundTrip.{IsMessage}
use peerwatch.Peer.Conversion.{manifest_to_proto}

abbrev joiner : Joiner ℕ
joiner = record { swarm = swarm; store = store; sched = scheduler }

video-Fits : Fits (length video) 2
video-Fits = record { some_bytes = omega arith; some_size = omega arith; no_overflow = omega arith }

middle_safe : (i : ℕ) → i < chunk_total video 2 → NoCollision sum_digest video 2 i (33 ∷ 44 ∷ [])
middle_safe zero h e = absurd (omega arith)
middle_safe (suc zero) h e = refl
middle_safe (suc (suc zero)) h e = absurd (omega arith)
middle_safe (suc (suc (suc i))) h e = absurd (omega arith)

joiner-IsSound : IsSound sum_digest video 2 title joiner
unfolding IsHonestTable IsHonestPeer
joiner-IsSound = record {
  genuine = empty_store-IsGenuine sum_digest video 2 title;
  healthy = refl;
  few = omega arith;
  honest = record { tracked = (_, refl); honest = (tt, (tt, tt)) };
}

-- The player asks for chunk 2, a tick sends requests, the middle chunk arrives from peer 7, which then
-- asks for it and goes.
abbrev events : List (Event ℕ)
events =
    demanded 2
    ∷ scheduler_fires 10
    ∷ received 11 (in_table 7) (piece (record { chunk_index = 1; payload = 33 ∷ 44 ∷ [] })) written
    ∷ received 12 (in_table 7) (request (1 ∷ 2 ∷ [])) written
    ∷ told [] (manifest_of sum_digest video 2 title)
    ∷ heard 7 (0xe0 ∷ [])
    ∷ ended (in_table 7)
    ∷ cursor_moved (pos 1)
    ∷ []

events-IsAdmissible : All (IsAdmissible sum_digest video 2 title) events
unfolding IsAdmissible IsOwn IsLawful
events-IsAdmissible = (
  omega arith,
  (tt, ((tt, middle_safe), ((tt, (omega arith, (omega arith, tt))), (tt, (tt, (tt, (tt, tt))))))),
)

run-Keeps_example :
    Keeps sum_digest video 2 title (run sum_digest whole (λ n. n) sort events joiner)
run-Keeps_example =
    run-Keeps sum_digest video 2 title video-Fits (omega arith) whole (λ n. n) sort sort-IsSort
      events joiner joiner-IsSound events-IsAdmissible

-- A room for a.mp4 on port 80 of a machine without a network.
abbrev name : Bytes
name = b'a' ∷ b'.' ∷ b'm' ∷ b'p' ∷ b'4' ∷ []

abbrev extension : Bytes
extension = b'm' ∷ b'p' ∷ b'4' ∷ []

abbrev machine : Machine (Unit {0})
machine = sound_machine video (2 ∷ 0 ∷ 1 ∷ []) tt (1 ∷ 2 ∷ 254 ∷ 255 ∷ []) none 5

abbrev tok : Token
tok = room_token sum_digest video 2 (1 ∷ 2 ∷ 254 ∷ 255 ∷ []) none name (pos 80)

abbrev accepts : Bytes → Bool
accepts addr = true

abbrev to_json : Token → Option Bytes
to_json t = some (123 ∷ t.host ++ 125 ∷ [])

abbrev from_json : Bytes → Option Token
from_json json = some tok

parts :
    (ext name ≡ b'.' ∷ extension)
    × (base (b'/' ∷ b'v' ∷ b'/' ∷ name) ≡ name)
    × (base (b'v' ∷ b'/' ∷ []) ≡ b'v' ∷ [])
    × (tok.host
        ≡ b'1' ∷ b'2' ∷ b'7' ∷ b'.' ∷ b'0' ∷ b'.' ∷ b'0' ∷ b'.' ∷ b'1' ∷ b':' ∷ b'8' ∷ b'0' ∷ [])
    × (tok.room_id ≡ b'0' ∷ b'1' ∷ b'0' ∷ b'2' ∷ b'f' ∷ b'e' ∷ b'f' ∷ b'f' ∷ [])
unfolding ext base decimal token_for hex_string get_local_ip has_byte trim_slashes last_element
parts = (refl, refl, refl, refl, refl)

tok-IsJson : IsJson to_json from_json tok
unfolding token_for get_local_ip decimal
tok-IsJson = record { text = _; gives = refl; bytes = omega arith; takes = refl }

refused :
    start
      (λ s. s)
      sum_digest
      accepts
      to_json
      {F = ℕ}
      machine
      (pos 80)
      (pos 2)
      ((b'a' ∷ b'.' ∷ b'p' ∷ []) ∷ [])
    ≡ err (unsupported_format (b'.' ∷ b'p' ∷ []))
unfolding start check_file ext supported
refused = refl

abbrev msg : ManifestMsg
msg = record {
  file_name = name;
  file_size = pos 5;
  chunk_size = pos 2;
  chunk_count = 3;
  chunks =
      record { size = 2; hash = 5643 }
      ∷ record { size = 2; hash = 11297 }
      ∷ record { size = 1; hash = 55 }
      ∷ [];
}

msg-IsMessage : IsMessage (manifest msg)
msg-IsMessage = record {
  name_fits = omega arith;
  size_fits = omega arith;
  chunk_fits = omega arith;
  count_fits = omega arith;
  count_agrees = refl;
  chunks_fit = (
    record { size_fits = omega arith; hash_fits = omega arith },
    (
      record { size_fits = omega arith; hash_fits = omega arith },
      (record { size_fits = omega arith; hash_fits = omega arith }, tt),
    ),
  );
}

delivered : (i : ℕ) → i < chunk_total video 2 → Delivers i (2 ∷ 0 ∷ 1 ∷ [])
delivered zero h = inr (inl refl)
delivered (suc zero) h = inr (inr (inl refl))
delivered (suc (suc zero)) h = inl refl
delivered (suc (suc (suc i))) h = absurd (omega arith)

start-join_example :
    (r : Room ℕ (Unit {0})) × (talk : Conn) × (c : Conn) × (j : Joiner ℕ) × (start
        (λ s. s)
        sum_digest
        accepts
        to_json
        machine
        (pos 80)
        (pos 2)
        (name ∷ [])
      ≡ ok r)
    × ((handle_incoming whole (some r.store) (conn_with [] (frame (hello 6)), r.swarm)).0.0 ≡ talk)
    × (join whole accepts from_json
          (λ addr. some (conn_with [] talk.outgoing))
          (ok tt)
          6
          (r.invitation ∷ [])
        ≡ ok (c, j))
    × ((events : List (Event ℕ))
        → All (IsAdmissible sum_digest video 2 name) events
        → (j' : Joiner ℕ) × (out : List Effect) × (run sum_digest whole (λ n. n) sort events j
            ≡ ok (j', out))
          × (length j'.sched.in_flight ≤ 16)
          × (is_complete j'.store ≡ true → j'.store.file.contents ≡ video))
    × ((now : ℕ)
        → (j' : Joiner ℕ) × (turns whole (λ n. n) sort sum_digest 3 now 5 r.store j ≡ ok j')
          × (is_complete j'.store ≡ true)
          × (j'.store.file.contents ≡ video))
unfolding base has_byte supported manifest_to_proto make_bitfield encode_payload encode_chunks
    be_bytes trim_slashes last_element
start-join_example =
    start-join (λ s. s) sum_digest accepts to_json from_json whole (λ n. n) sort video 2
      (2 ∷ 0 ∷ 1 ∷ []) tt (1 ∷ 2 ∷ 254 ∷ 255 ∷ []) none 5 6 (b'a' ∷ []) extension (pos 80) [] [] msg
      video-Fits (omega arith) (omega arith) (omega arith, (omega arith, (omega arith, tt)))
      delivered refl refl refl refl refl tok-IsJson refl (omega arith, omega arith)
      (omega arith, omega arith) (msg-IsMessage, omega arith) (tt, omega arith) sort-IsSort

-- The host of the video, and what is known of its store.
abbrev host_store : Store
host_store = (new_host_store-IsGenuine sum_digest video 2 name video-Fits).0

turns-wire_up_example :
    (talk : Conn) × (c : Conn) × (j₀ : Joiner ℕ) × (j : Joiner ℕ) × ((handle_incoming whole
        (some host_store)
        (
          conn_with [] (frame (hello 6)),
          record (empty_swarm {F = ℕ} 5 none true) {
            is_host = true;
            manifest = some (manifest_of sum_digest video 2 name);
          },
        )).0.0
      ≡ talk)
    × (wire_up
          (ok tt)
          (connect_to_host whole [] none (conn_with [] talk.outgoing, empty_swarm 6 none false))
        ≡ ok (c, j₀))
    × (turns whole (λ n. n) sort sum_digest 3 10 5 host_store j₀ ≡ ok j)
    × (is_complete j.store ≡ true)
    × (j.store.file.contents ≡ video)
unfolding manifest_to_proto encode_payload encode_chunks encode_addrs be_bytes peer_addrs
    make_bitfield encode_bitfield
turns-wire_up_example =
    let (s, opens, genuine, complete, marks, file, long) =
      new_host_store-IsGenuine sum_digest video 2 name video-Fits in
    turns-wire_up sum_digest video 2 name whole (λ n. n) sort host_store 10 [] [] []
      (empty_swarm 5 none true) 6 msg video-Fits (omega arith) (omega arith) sort-IsSort genuine
      (ap (λ f. f.fault) file) complete refl (omega arith, omega arith) (omega arith, omega arith)
      (msg-IsMessage, omega arith)
      (same_length-Travels (make_bitfield 3) host_store.bitfield long (tt, omega arith))
      no_peers-Travels
