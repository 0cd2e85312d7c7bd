-- ===== src/Protocol/Framing.antt =====
-- internal/protocol/codec.go: the frame round a message, in both directions and at its limits.
use peerwatch.Base.{ℕ, suc, ◌%◌, ◌^◌, ◌≤◌, ◌<◌, ◌≡◌, refl, ap, ◌∙◌, ◌∷◌, ◌++◌, append_assoc, arith}
use peerwatch.Base.Lists.{length}
use peerwatch.Base.Results.{ok, err}
use peerwatch.Protocol.Message.{Bytes, Message, message_type}
use peerwatch.Protocol.Wire.{be_bytes}
use peerwatch.Protocol.Encode.{encode_payload, frame}
use peerwatch.Protocol.Decode.{
  Reader, message_too_large, body_read, length_read, ◌>>=◌, read_bytes, decode_body, check_length,
  read_message, max_message_size, with_rest,
}
use peerwatch.Protocol.Readers.{read_bytes-Parses, read_uint-Parses}
use peerwatch.Protocol.RoundTrip.{IsMessage, decode-encode}
use native.Mathlib.Nat.{mod-eq_of_lt}

-- The value of the length prefix: the type byte and the payload.
abbrev pub wire_length : Message → ℕ
wire_length m = suc (length (encode_payload m))

-- What ReadMessage does behind the prefix.
abbrev pub after_prefix : ℕ → Reader Message
after_prefix prefix = do
  n ← check_length prefix
  body ← read_bytes n body_read
  λ r. with_rest r (decode_body body)

pub read_message-prefix :
    (n : ℕ) (body : Bytes) → n < 2 ^ 32 → read_message (be_bytes 4 n ++ body) ≡ after_prefix n body
unfolding read_message
read_message-prefix n body h = rw ((read_uint-Parses 4 length_read n h).takes body, ◌>>=◌)

-- A frame of less than 4 GB, and what follows it.
pub frame_lem :
    (m : Message)
    → wire_length m < 2 ^ 32
    → frame m ≡ be_bytes 4 (wire_length m) ++ message_type m ∷ encode_payload m
unfolding frame
frame_lem m h = let e : wire_length m % 2 ^ 32 ≡ wire_length m = mod-eq_of_lt h in rw e

frame-append :
    (m : Message) (rest : Bytes)
    → wire_length m < 2 ^ 32
    → frame m ++ rest ≡ be_bytes 4 (wire_length m) ++ ((message_type m ∷ encode_payload m) ++ rest)
frame-append m rest h =
    rw (frame_lem m h)
      (append_assoc (be_bytes 4 (wire_length m)) (message_type m ∷ encode_payload m) rest)

pub check_length_within :
    (n : ℕ) (r : Bytes) → 0 < n → n ≤ max_message_size → check_length n r ≡ ok (n, r)
unfolding check_length
check_length_within n r h k = ground arith

check_length_above :
    (n : ℕ) (r : Bytes) → max_message_size < n → check_length n r ≡ err (message_too_large n)
unfolding check_length
check_length_above n r h = ground arith

after_prefix-frame :
    (m : Message) (rest : Bytes)
    → IsMessage m
    → wire_length m ≤ max_message_size
    → after_prefix (wire_length m) ((message_type m ∷ encode_payload m) ++ rest) ≡ ok (m, rest)
unfolding decode_body
after_prefix-frame m rest h fits =
    let body = message_type m ∷ encode_payload m in
    rw (
      check_length_within (wire_length m) (body ++ rest) (omega arith) fits,
      (read_bytes-Parses (wire_length m) body_read body refl).takes rest,
      decode-encode m h,
      ◌>>=◌,
    )

-- A message whose fields are in range and whose frame is within the limit is read back whole, and
-- the bytes behind it stay in the stream.
pub read-frame :
    (m : Message) (rest : Bytes)
    → IsMessage m
    → wire_length m ≤ max_message_size
    → read_message (frame m ++ rest) ≡ ok (m, rest)
read-frame m rest h fits =
    ap read_message (frame-append m rest (omega arith))
    ∙ read_message-prefix (wire_length m) _ (omega arith)
    ∙ after_prefix-frame m rest h fits

-- WriteMessage has no limit of its own: a message above 16 MB and below 4 GB, whatever it holds, is
-- framed, and the other side refuses it by its length.
pub read-frame_too_large :
    (m : Message) (rest : Bytes)
    → max_message_size < wire_length m
    → wire_length m < 2 ^ 32
    → read_message (frame m ++ rest) ≡ err (message_too_large (wire_length m))
read-frame_too_large m rest big fits =
    ap read_message (frame-append m rest fits)
    ∙ read_message-prefix (wire_length m) _ fits
    ∙ rw (check_length_above (wire_length m) _ big, ◌>>=◌)
