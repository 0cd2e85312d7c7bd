-- ===== src/Protocol/Legality.antt =====
-- internal/protocol/codec.go: whatever bytes arrive, ReadMessage does not panic, and the fields of a message
-- that it gives are in the ranges of their Go types.
use peerwatch.Base.{ℕ, ◌^◌, ◌<◌, ◌≡◌, inl, inr, [], ◌∷◌, arith}
use peerwatch.Base.Tests.{ltb, ◌==◌, Bool-cases}
use peerwatch.Base.Lists.{length}
use peerwatch.Base.Results.{Result, ok, err, panic}
use peerwatch.Protocol.Message.{
  Bytes, Message, have, cancel, msg_handshake, msg_manifest, msg_bitfield, msg_have, msg_request,
  msg_piece, msg_cancel, msg_sync, msg_peer_list, msg_keepalive,
}
use peerwatch.Protocol.Decode.{
  DecodeError, read_uint, read_bytes, check_length, decode_body, with_rest, read_message, body_read,
  length_read, max_message_size, decode_payload, decode_bitfield,
}
use peerwatch.Protocol.Types.{
  AreBytes, IsTyped, Typed, read_bytes-Typed, bind-Typed, read_uint-Typed,
}
use peerwatch.Protocol.Payloads.{
  Legal, if-Legal, handshake-Legal, manifest-Legal, uint32-Legal, request-Legal, piece-Legal,
  sync-Legal, peer_list-Legal,
}

-- The switch on the type byte.
decode_payload-Legal : (t : ℕ) (bs : Bytes) → AreBytes bs → Legal IsTyped (decode_payload t bs)
unfolding decode_payload decode_bitfield
decode_payload-Legal t bs h = if-Legal IsTyped (t == msg_handshake) _ _ (handshake-Legal bs h) (
    if-Legal IsTyped (t == msg_manifest) _ _ (manifest-Legal bs h) (
      if-Legal IsTyped (t == msg_bitfield) _ _ (tt, h)
        (if-Legal IsTyped (t == msg_have) _ _ (uint32-Legal have bs (λ v p. (p, tt)) h) (
          if-Legal IsTyped (t == msg_request) _ _ (request-Legal bs h) (
            if-Legal IsTyped (t == msg_piece) _ _ (piece-Legal bs h) (
              if-Legal IsTyped (t == msg_cancel) _ _ (uint32-Legal cancel bs (λ v p. (p, tt)) h) (
                if-Legal IsTyped (t == msg_sync) _ _ (sync-Legal bs h) (
                  if-Legal IsTyped (t == msg_peer_list) _ _ (peer_list-Legal bs h)
                    (if-Legal IsTyped (t == msg_keepalive) _ _ (tt, tt) (tt))))))))))

check_length-Typed : (n : ℕ) (r : Bytes) → AreBytes r → Typed (λ k. 0 < k) (check_length n r)
unfolding check_length
check_length-Typed n r h = elim (Bool-cases (n == 0)) [
  | inl empty ↦ rw empty tt
  | inr some ↦ rw some (elim (Bool-cases (ltb max_message_size n)) [
    | inl above ↦ rw above tt
    | inr within ↦ rw within (ground (arith, some), h)
  ])
]

decode_body-Legal : (bs : Bytes) → 0 < length bs → AreBytes bs → Legal IsTyped (decode_body bs)
unfolding decode_body
decode_body-Legal [] some h = elim some [ ]
decode_body-Legal (t ∷ bs) some (here, h) = decode_payload-Legal t bs h

with_rest-Typed :
    (r : Bytes) (x : Result DecodeError Message)
    → AreBytes r
    → Legal IsTyped x
    → Typed IsTyped (with_rest r x)
with_rest-Typed r (ok m) h p = (p, h)
with_rest-Typed r (err e) h p = tt
with_rest-Typed r panic h p = p

-- Whatever bytes arrive, ReadMessage does not panic, if there is memory for the lists that a message
-- announces; a message that it gives has each field in the range of its Go type, bytes and texts made of
-- bytes, and each length in the range of its prefix; what is left of the stream are bytes.
pub read_message-Typed : (r : Bytes) → AreBytes r → Typed IsTyped (read_message r)
unfolding read_message
read_message-Typed r h =
    bind-Typed (λ v. v < 256 ^ 4) IsTyped (read_uint 4 length_read) _ r
      (read_uint-Typed 4 length_read r h)
      (λ prefix r₁ s h₁.
        bind-Typed (λ k. 0 < k) IsTyped (check_length prefix) _ r₁ (check_length-Typed prefix r₁ h₁)
          (λ n r₂ some h₂.
            bind-Typed (λ bs. (length bs ≡ n) × AreBytes bs) IsTyped (read_bytes n body_read) _ r₂
              (read_bytes-Typed n body_read r₂ h₂)
              (λ body r₃ b h₃.
                with_rest-Typed r₃ (decode_body body) h₃
                  (decode_body-Legal body (omega (arith, b.0)) b.1))))
