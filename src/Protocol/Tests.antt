-- ===== src/Protocol/Tests.antt =====
-- Concrete runs of internal/protocol, and its theorems at concrete inputs.
use peerwatch.Base.{ℕ, ◌^◌, ◌≤◌, ◌<◌, ◌≡◌, refl, ◌⊎◌, [], ◌∷◌, ◌++◌, arith}
use peerwatch.Base.Lists.{length, take, replicate, length-replicate}
use peerwatch.Base.Int.{pos}
use peerwatch.Base.Results.{ok, err}
use peerwatch.Protocol.Message.{
  Bytes, ManifestMsg, manifest, request, keepalive, bitfield, message_type,
}
use peerwatch.Protocol.Wire.{ReadError, be_bytes}
use peerwatch.Protocol.Encode.{
  frame, encode_payload, encode_indices, encode_chunks, encode_bitfield,
}
use peerwatch.Protocol.Decode.{length_read, body_read, message_too_large, read_message}
use peerwatch.Protocol.RoundTrip.{IsMessage}
use peerwatch.Protocol.Framing.{wire_length, read-frame, read-frame_too_large}
use peerwatch.Protocol.Truncation.{read-take-frame}
use peerwatch.Protocol.Types.{IsTyped, Typed}
use peerwatch.Protocol.Legality.{read_message-Typed}

abbrev two_chunks : ManifestMsg
two_chunks = record {
  file_name = b'a' ∷ b'.' ∷ b'm' ∷ [];
  file_size = pos 700_000;
  chunk_size = pos 524_288;
  chunk_count = 2;
  chunks = record { size = 524_288; hash = 7 } ∷ record { size = 175_712; hash = 2 ^ 255 } ∷ [];
}

two_chunks_fit : IsMessage (manifest two_chunks)
two_chunks_fit = record {
  name_fits = omega arith;
  size_fits = omega arith;
  chunk_fits = omega arith;
  count_fits = omega arith;
  count_agrees = refl;
  chunks_fit = (
    record { size_fits = omega arith; hash_fits = omega arith },
    (record { size_fits = omega arith; hash_fits = omega arith }, tt),
  );
}

request_bytes :
    frame (request (3 ∷ 256 ∷ []))
    ≡ 0 ∷ 0 ∷ 0 ∷ 13 ∷ 5 ∷ 0 ∷ 0 ∷ 0 ∷ 2 ∷ 0 ∷ 0 ∷ 0 ∷ 3 ∷ 0 ∷ 0 ∷ 1 ∷ 0 ∷ []
unfolding frame message_type encode_payload encode_indices be_bytes
request_bytes = refl

read-frame_example :
    read_message (frame (manifest two_chunks) ++ (0 ∷ 0 ∷ []))
    ≡ ok (manifest two_chunks, 0 ∷ 0 ∷ [])
unfolding encode_payload encode_chunks be_bytes
read-frame_example = read-frame (manifest two_chunks) (0 ∷ 0 ∷ []) two_chunks_fit (omega arith)

zeros : ℕ → Bytes
zeros n = replicate n 0

length-zeros : (n : ℕ) → length (zeros n) ≡ n
unfolding zeros
length-zeros n = length-replicate n 0

-- A bitfield of 16 MB, for 2^27 chunks.
read-frame_too_large_example :
    read_message (frame (bitfield (zeros (2 ^ 24))) ++ [])
    ≡ err (message_too_large (wire_length (bitfield (zeros (2 ^ 24)))))
unfolding encode_payload encode_bitfield
read-frame_too_large_example =
    read-frame_too_large (bitfield (zeros (2 ^ 24))) [] (omega (arith, length-zeros (2 ^ 24)))
      (omega (arith, length-zeros (2 ^ 24)))

read-take-frame_example :
    (e : ReadError) × (((3 < 4) × (read_message (take 3 (frame keepalive)) ≡ err (length_read e)))
      ⊎ ((4 ≤ 3) × (read_message (take 3 (frame keepalive)) ≡ err (body_read e))))
unfolding frame message_type encode_payload be_bytes
read-take-frame_example = read-take-frame keepalive 3 (omega arith) (omega arith)

-- A HAVE of chunk 7, with two bytes behind it.
read_message-Typed_example :
    Typed IsTyped (read_message (0 ∷ 0 ∷ 0 ∷ 5 ∷ 4 ∷ 0 ∷ 0 ∷ 0 ∷ 7 ∷ 1 ∷ 255 ∷ []))
read_message-Typed_example = read_message-Typed (0 ∷ 0 ∷ 0 ∷ 5 ∷ 4 ∷ 0 ∷ 0 ∷ 0 ∷ 7 ∷ 1 ∷ 255 ∷ []) (
  omega arith,
  (
    omega arith,
    (
      omega arith,
      (
        omega arith,
        (
          omega arith,
          (
            omega arith,
            (omega arith, (omega arith, (omega arith, (omega arith, (omega arith, tt))))),
          ),
        ),
      ),
    ),
  ),
)
