-- ===== src/Protocol/Truncation.antt =====
-- internal/protocol/codec.go: a stream that ends inside a frame.
use peerwatch.Base.{
  ℕ, zero, suc, ◌+◌, ◌-◌, ◌^◌, ◌≤◌, ◌<◌, ◌≡◌, refl, ap, ◌∙◌, ◌⊎◌, inl, inr, [], ◌∷◌, ◌++◌, arith,
}
use peerwatch.Base.Tests.{lt→ltb}
use peerwatch.Base.Lists.{length, take, length-take, take-append_past, length-append}
use peerwatch.Base.Results.{err}
use native.Mathlib.Decide.{dec_lt}
use peerwatch.Protocol.Message.{Bytes, Message, message_type}
use peerwatch.Protocol.Wire.{ReadError, eof, unexpected_eof, be_bytes, read_full, length-be_bytes}
use peerwatch.Protocol.Encode.{encode_payload, frame}
use peerwatch.Protocol.Decode.{
  DecodeError, body_read, length_read, ◌>>=◌, read_uint, read_bytes, read_message, max_message_size,
}
use peerwatch.Protocol.Framing.{wire_length, read_message-prefix, check_length_within, frame_lem}

-- The error of a stream that ends too early, after `r`.
abbrev cut_error : Bytes → ReadError
cut_error [] = eof
cut_error (b ∷ r) = unexpected_eof

read_full_short : (n : ℕ) (r : Bytes) → length r < n → read_full n r ≡ err (cut_error r)
unfolding read_full
read_full_short zero r h = elim h [ ]
read_full_short (suc n) [] h = refl
read_full_short (suc n) (b ∷ r) h = rw (lt→ltb (length (b ∷ r)) (suc n) h)

read_bytes_short :
    (n : ℕ) (w : ReadError → DecodeError) (r : Bytes)
    → length r < n
    → read_bytes n w r ≡ err (w (cut_error r))
unfolding read_bytes
read_bytes_short n w r h = rw (read_full_short n r h, read_bytes)

-- Within the prefix.
read_message_cut_prefix :
    (r : Bytes) → length r < 4 → read_message r ≡ err (length_read (cut_error r))
unfolding read_message read_uint
read_message_cut_prefix r h = rw (read_bytes_short 4 length_read r h, ◌>>=◌)

-- Within the body.
read_message_cut_body :
    (n : ℕ) (r : Bytes)
    → 0 < n
    → n ≤ max_message_size
    → length r < n
    → read_message (be_bytes 4 n ++ r) ≡ err (body_read (cut_error r))
read_message_cut_body n r pos fits h =
    read_message-prefix n r (omega arith)
    ∙ rw (check_length_within n r pos fits, ◌>>=◌, read_bytes_short n body_read r h)

-- The first `k` bytes of a frame, beyond the prefix.
take-frame :
    (m : Message) (k : ℕ)
    → wire_length m < 2 ^ 32
    → 4 ≤ k
    → take k (frame m)
      ≡ be_bytes 4 (wire_length m) ++ take (k - 4) (message_type m ∷ encode_payload m)
take-frame m k fits h =
    let prefix = be_bytes 4 (wire_length m) in
    let body = message_type m ∷ encode_payload m in
    ap (take k) (frame_lem m fits)
    ∙ take-append_past prefix body k (omega (arith, length-be_bytes 4 (wire_length m)))
    ∙ ap (λ n. prefix ++ take (k - n) body) (length-be_bytes 4 (wire_length m))

length-frame : (m : Message) → wire_length m < 2 ^ 32 → length (frame m) ≡ 4 + wire_length m
length-frame m fits =
    ap length (frame_lem m fits)
    ∙ omega (
      arith,
      length-append (be_bytes 4 (wire_length m)) (message_type m ∷ encode_payload m),
      length-be_bytes 4 (wire_length m),
    )

-- A stream that ends after the first `k` bytes of a frame of legal size gives an error of the length
-- prefix if k < 4, and an error of the body otherwise.
pub read-take-frame :
    (m : Message) (k : ℕ)
    → wire_length m ≤ max_message_size
    → k < length (frame m)
    → (e : ReadError) × (((k < 4) × (read_message (take k (frame m)) ≡ err (length_read e)))
        ⊎ ((4 ≤ k) × (read_message (take k (frame m)) ≡ err (body_read e))))
read-take-frame m k fits h = elim (dec_lt k 4) [
  | yes early ↦ (
    cut_error (take k (frame m)),
    inl (
      early,
      read_message_cut_prefix (take k (frame m)) (omega (arith, length-take k (frame m))),
    ),
  )
  | no late ↦
      let body = take (k - 4) (message_type m ∷ encode_payload m) in
      (
        cut_error body,
        inr (
          omega arith,
          ap read_message (take-frame m k (omega arith) (omega arith))
              ∙ read_message_cut_body (wire_length m) body (omega arith) fits (
                  omega (
                    arith,
                    length-take (k - 4) (message_type m ∷ encode_payload m),
                    length-frame m (omega arith),
                  )),
        ),
      )
]
