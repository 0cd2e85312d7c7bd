-- ===== src/Protocol/RoundTrip.antt =====
-- What WriteMessage writes, ReadMessage reads back (internal/protocol/codec.go).
mod Loops
pub use Loops.{IsChunkInfo, IsManifest}
use peerwatch.Base.{
  ℕ, zero, suc, ◌+◌, ◌%◌, ◌^◌, ◌≤◌, ◌<◌, ◌≡◌, refl, sym, ap, ◌∙◌, List, [], ◌∷◌, ◌++◌, append_assoc,
  true, false, arith,
}
use peerwatch.Base.Tests.{ltb, ◌==◌, if◌then◌else◌, le→ltb_false}
use peerwatch.Base.Lists.{
  length, All, take, drop, get_or, take_all, drop-append_next, get_or-append_self, take-append_self,
  drop-append_self, length-append,
}
use peerwatch.Base.Int.{IsInt64, to_u64, of_u64, of_u64-to_u64, to_u64-lt}
use peerwatch.Base.Results.{ok, err, panic}
use peerwatch.Protocol.Message.{
  Bytes, Message, HandshakeMsg, ManifestMsg, PieceMsg, SyncMsg, handshake, manifest, bitfield, have,
  request, piece, cancel, sync, peer_list, keepalive, message_type,
}
use peerwatch.Protocol.Wire.{be_bytes, be_value, length-be_bytes, be_value-be_bytes}
use peerwatch.Protocol.Encode.{
  encode_handshake, encode_manifest, encode_uint32_msg, encode_request, encode_piece, encode_sync,
  encode_peer_list, encode_indices, encode_bitfield, encode_payload, frame,
}
use peerwatch.Protocol.Guards.{
  decode_handshake_lem, decode_uint32_msg_lem, decode_piece_lem, decode_sync_lem,
}
use peerwatch.Protocol.Decode.{
  DecodeError, message_too_large, request_count, peer_count, pure, ◌>>=◌, read_uint, read_bytes,
  decode_handshake, decode_manifest, decode_uint32_msg, decode_request_batch, decode_piece,
  decode_sync, decode_peer_list, read_indices, read_addrs, decode_bitfield, decode_payload,
  decode_body, check_length, read_message, max_message_size, with_rest,
}
use peerwatch.Protocol.Readers.{
  Parses, bind-Parses, map-Parses, read_bytes-Parses, read_uint-Parses, run-Parses,
}
use Loops.{read_length-Parses, read_manifest-Parses, read_indices-Parses, read_addrs-Parses}

-- A fixed field at the front of a payload, and what stands behind it.
take-be_bytes :
    (k n : ℕ) (rest : Bytes) → n < 256 ^ k → be_value (take k (be_bytes k n ++ rest)) ≡ n
take-be_bytes k n rest h =
    ground
      (arith, take-append_self (be_bytes k n) rest k, length-be_bytes k n, be_value-be_bytes k n)

drop-be_bytes : (k n : ℕ) (rest : Bytes) → drop k (be_bytes k n ++ rest) ≡ rest
drop-be_bytes k n rest = drop-append_self (be_bytes k n) rest k (sym (length-be_bytes k n))

length-field : (k n : ℕ) (rest : Bytes) → length (be_bytes k n ++ rest) ≡ k + length rest
length-field k n rest = omega (arith, length-append (be_bytes k n) rest, length-be_bytes k n)

decode_uint32_msg-encode : (v : ℕ) → v < 2 ^ 32 → decode_uint32_msg (encode_uint32_msg v) ≡ ok v
unfolding encode_uint32_msg
decode_uint32_msg-encode v h =
    decode_uint32_msg_lem (encode_uint32_msg v)
    ∙ ground (arith, length-be_bytes 4 v, take_all (be_bytes 4 v) 4, be_value-be_bytes 4 v)

decode_handshake-encode :
    (m : HandshakeMsg) → m.peer_id < 2 ^ 128 → decode_handshake (encode_handshake m) ≡ ok m
unfolding encode_handshake
decode_handshake-encode m h =
    decode_handshake_lem (encode_handshake m)
    ∙ ground (
      arith,
      length-field 16 m.peer_id (m.version ∷ []),
      take-be_bytes 16 m.peer_id (m.version ∷ []),
      get_or-append_self (be_bytes 16 m.peer_id) [] m.version 0 16,
      length-be_bytes 16 m.peer_id,
    )

decode_piece-encode : (m : PieceMsg) → m.chunk_index < 2 ^ 32 → decode_piece (encode_piece m) ≡ ok m
unfolding encode_piece
decode_piece-encode m h =
    decode_piece_lem (encode_piece m)
    ∙ ground (
      arith,
      length-field 4 m.chunk_index m.payload,
      take-be_bytes 4 m.chunk_index m.payload,
      drop-be_bytes 4 m.chunk_index m.payload,
    )

sync_tail : (m : SyncMsg) → drop 9 (encode_sync m) ≡ be_bytes 8 (to_u64 m.unix_ms)
unfolding encode_sync
sync_tail m =
    drop-append_next (be_bytes 8 m.playback_time) (be_bytes 8 (to_u64 m.unix_ms)) m.state 9
      (omega (arith, length-be_bytes 8 m.playback_time))

decode_sync-encode :
    (m : SyncMsg)
    → m.playback_time < 2 ^ 64
    → IsInt64 m.unix_ms
    → decode_sync (encode_sync m) ≡ ok m
unfolding encode_sync
decode_sync-encode m h hu =
    let stamp = be_bytes 8 (to_u64 m.unix_ms) in
    decode_sync_lem (encode_sync m)
    ∙ ground (
      arith,
      length-field 8 m.playback_time (m.state ∷ stamp),
      take-be_bytes 8 m.playback_time (m.state ∷ stamp),
      get_or-append_self (be_bytes 8 m.playback_time) stamp m.state 0 8,
      length-be_bytes 8 m.playback_time,
      sync_tail m,
      length-be_bytes 8 (to_u64 m.unix_ms),
      take_all stamp 8,
      be_value-be_bytes 8 (to_u64 m.unix_ms),
      to_u64-lt m.unix_ms,
      of_u64-to_u64 m.unix_ms,
    )

decode_request-encode :
    (indices : List ℕ)
    → length indices < 2 ^ 32
    → All (λ idx. idx < 2 ^ 32) indices
    → decode_request_batch (encode_request indices) ≡ ok indices
unfolding decode_request_batch encode_request encode_uint32_msg
decode_request-encode indices h hs =
    rw
      (le→ltb_false (length (encode_request indices)) 4
        (omega (arith, length-field 4 (length indices % 2 ^ 32) (encode_indices indices))))
      (run-Parses (
        bind-Parses (λ count. read_indices count 0)
          (read_length-Parses 4 request_count (length indices) h)
          (read_indices-Parses indices 0 hs)))

decode_peer_list-encode :
    (addrs : List Bytes)
    → length addrs < 2 ^ 32
    → All (λ addr. length addr < 2 ^ 16) addrs
    → decode_peer_list (encode_peer_list addrs) ≡ ok addrs
unfolding decode_peer_list encode_peer_list encode_uint32_msg
decode_peer_list-encode addrs h hs = run-Parses (
    bind-Parses (λ count. read_addrs count 0) (read_length-Parses 4 peer_count (length addrs) h)
      (read_addrs-Parses addrs 0 hs))

decode_manifest-encode :
    (m : ManifestMsg) → IsManifest m → decode_manifest (encode_manifest m) ≡ ok m
unfolding decode_manifest
decode_manifest-encode m h = run-Parses (read_manifest-Parses m h)

-- The ranges of the Go types, and the lengths that their prefixes can hold.
abbrev pub IsMessage : Message → Type 0
IsMessage (handshake m) = m.peer_id < 2 ^ 128
IsMessage (manifest m) = IsManifest m
IsMessage (bitfield bf) = Unit {0}
IsMessage (have index) = index < 2 ^ 32
IsMessage (request indices) = (length indices < 2 ^ 32) × All (λ idx. idx < 2 ^ 32) indices
IsMessage (piece m) = m.chunk_index < 2 ^ 32
IsMessage (cancel index) = index < 2 ^ 32
IsMessage (sync m) = (m.playback_time < 2 ^ 64) × IsInt64 m.unix_ms
IsMessage (peer_list addrs) = (length addrs < 2 ^ 32) × All (λ addr. length addr < 2 ^ 16) addrs
IsMessage keepalive = Unit {0}

pub decode-encode :
    (m : Message) → IsMessage m → decode_payload (message_type m) (encode_payload m) ≡ ok m
unfolding decode_payload message_type encode_payload
decode-encode (handshake m) h = rw (decode_handshake-encode m h)
decode-encode (manifest m) h = rw (decode_manifest-encode m h)
decode-encode (bitfield bf) h = unfold decode_bitfield encode_bitfield in refl
decode-encode (have index) h = rw (decode_uint32_msg-encode index h)
decode-encode (request indices) h = rw (decode_request-encode indices h.0 h.1)
decode-encode (piece m) h = rw (decode_piece-encode m h)
decode-encode (cancel index) h = rw (decode_uint32_msg-encode index h)
decode-encode (sync m) h = rw (decode_sync-encode m h.0 h.1)
decode-encode (peer_list addrs) h = rw (decode_peer_list-encode addrs h.0 h.1)
decode-encode keepalive h = refl
