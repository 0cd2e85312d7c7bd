-- ===== src/Token/RoundTrip.antt =====
-- internal/token/token.go: tokens that are encoded and decoded again, and what Decode accepts.
use peerwatch.Base.{
  ℕ, ◌<◌, ◌≡◌, ◌≢◌, refl, sym, subst, ◌∙◌, Bool, true, false, Option, none, some, [], ◌∷◌, ◌++◌,
  arith,
}
use peerwatch.Base.Lists.{All}
use peerwatch.Base.Int.{pos, ltb_ℤ}
use peerwatch.Base.Results.{Result, ok, err}
use peerwatch.Protocol.Message.{Bytes}
use peerwatch.Token.Base64.{
  group, char_of, encode_to_string, decode_string, decode_string-encode_to_string,
}
use peerwatch.Token.{
  Token, TokenError, invalid_encoding, invalid_json, validate, encode, read_token, decode,
  token_prefix, trim_prefix, is_empty,
}

-- What Encode relies on: json.Unmarshal takes back what json.Marshal gives, whose text is bytes and
-- starts with a brace.
pub record IsJson (marshal : Token → Option Bytes) (unmarshal : Bytes → Option Token) (t : Token)
    : Type 0 where
  pub text : Bytes
  pub gives : marshal t ≡ some (123 ∷ text)
  pub bytes : All (λ b. b < 256) (123 ∷ text)
  pub takes : unmarshal (123 ∷ text) ≡ some t

-- What a token needs: an address that SplitHostPort accepts, a room, a name and positive numbers.
pub record IsUsable (split_host_port : Bytes → Bool) (t : Token) : Type 0 where
  pub has_host : t.host ≢ []
  pub good_host : split_host_port t.host ≡ true
  pub has_room : t.room_id ≢ []
  pub has_name : t.file_name ≢ []
  pub good_size : ltb_ℤ (pos 0) t.file_size ≡ true
  pub good_count : ltb_ℤ (pos 0) t.chunk_count ≡ true

pub is_empty-false : (s : Bytes) → is_empty s ≡ false → s ≢ []
is_empty-false [] h = cc
is_empty-false (c ∷ s) h = λ q. cc

not_empty-is_empty : (s : Bytes) → s ≢ [] → is_empty s ≡ false
not_empty-is_empty [] h = absurd (h refl)
not_empty-is_empty (c ∷ s) h = refl

-- The text of a JSON object encodes to a string that does not start with the prefix.
starts_with_e : (text : Bytes) → (s : Bytes) × (encode_to_string (123 ∷ text) ≡ 101 ∷ s)
unfolding encode_to_string group char_of
starts_with_e [] = (_, refl)
starts_with_e (a ∷ []) = (_, refl)
starts_with_e (a ∷ b ∷ bs) = (_, refl)

trim_prefix-e : (s : Bytes) → trim_prefix (101 ∷ s) ≡ 101 ∷ s
unfolding trim_prefix
trim_prefix-e [] = refl
trim_prefix-e (a ∷ []) = refl
trim_prefix-e (a ∷ b ∷ s) = refl

trim_prefix-append : (s : Bytes) → trim_prefix (token_prefix ++ s) ≡ s
unfolding trim_prefix
trim_prefix-append s = refl

module _ (split_host_port : Bytes → Bool) (marshal : Token → Option Bytes)
    (unmarshal : Bytes → Option Token) where
  encode_lem :
      (t : Token) (json : Bytes)
      → validate split_host_port t ≡ none
      → marshal t ≡ some json
      → encode split_host_port marshal t ≡ ok (token_prefix ++ encode_to_string json)
  unfolding encode
  encode_lem t json valid gives = rw (encode, valid, gives) refl

  read_token_lem :
      (t : Token) (json : Bytes)
      → validate split_host_port t ≡ none
      → unmarshal json ≡ some t
      → read_token split_host_port unmarshal json ≡ ok t
  unfolding read_token
  read_token_lem t json valid takes = rw (read_token, takes, valid) refl

  validate-IsUsable : (t : Token) → validate split_host_port t ≡ none → IsUsable split_host_port t
  unfolding validate
  validate-IsUsable t h = record {
    has_host = is_empty-false t.host (ground (arith, h));
    good_host = ground (arith, h);
    has_room = is_empty-false t.room_id (ground (arith, h));
    has_name = is_empty-false t.file_name (ground (arith, h));
    good_size = ground (arith, h);
    good_count = ground (arith, h);
  }

  IsUsable-validate : (t : Token) → IsUsable split_host_port t → validate split_host_port t ≡ none
  unfolding validate
  IsUsable-validate t u =
      let host = not_empty-is_empty t.host u.has_host in
      let room = not_empty-is_empty t.room_id u.has_room in
      let name = not_empty-is_empty t.file_name u.has_name in
      ground (arith, host, room, name, u.good_host, u.good_size, u.good_count)

  decode_trimmed :
      (t : Token) (json : Bytes) (c : ℕ) (s : Bytes)
      → trim_prefix (c ∷ s) ≡ encode_to_string json
      → All (λ b. b < 256) json
      → validate split_host_port t ≡ none
      → unmarshal json ≡ some t
      → decode split_host_port unmarshal (c ∷ s) ≡ ok t
  unfolding decode
  decode_trimmed t json c s trimmed bytes valid takes =
      rw (decode, trimmed, decode_string-encode_to_string json bytes)
        (read_token_lem t json valid takes)

  -- A usable token, whose JSON text starts with a brace and json.Unmarshal takes back, is encoded, and Decode gives it back
  -- from the string with its prefix and without.
  pub decode-encode :
      (t : Token)
      → IsUsable split_host_port t
      → IsJson marshal unmarshal t
      → (s : Bytes) × (encode split_host_port marshal t ≡ ok (token_prefix ++ s))
        × (decode split_host_port unmarshal (token_prefix ++ s) ≡ ok t)
        × (decode split_host_port unmarshal s ≡ ok t)
  decode-encode t usable json =
      let valid = IsUsable-validate t usable in
      let (s, is) = starts_with_e json.text in
      (
        encode_to_string (123 ∷ json.text),
        encode_lem t (123 ∷ json.text) valid json.gives,
        decode_trimmed t (123 ∷ json.text) 112 _ (trim_prefix-append _) json.bytes valid json.takes,
        rw is (
            decode_trimmed t (123 ∷ json.text) 101 s (trim_prefix-e s ∙ sym is) json.bytes valid
              json.takes),
      )

  validated :
      (x t : Token) (e : Option TokenError)
      → validate split_host_port x ≡ e
      → ◌≡◌ {A = Result TokenError Token} (elim e [ some f ↦ err f | none ↦ ok x ]) (ok t)
      → validate split_host_port t ≡ none
  validated x t none v h =
      let same : x ≡ t = cc in subst (λ y. validate split_host_port y ≡ none) same v
  validated x t (some f) v h = absurd (cc)

  accepted :
      (t : Token) (found : Option Token)
      → ◌≡◌ {A = Result TokenError Token}
          (elim found [
            | some x ↦ elim (validate split_host_port x) [ some e ↦ err e | none ↦ ok x ]
            | none ↦ err invalid_json
          ])
          (ok t)
      → validate split_host_port t ≡ none
  accepted t none h = absurd (cc)
  accepted t (some x) h = validated x t (validate split_host_port x) refl h

  decoded :
      (t : Token) (json : Option Bytes)
      → ◌≡◌ {A = Result TokenError Token}
          (elim json [
            | some bs ↦ read_token split_host_port unmarshal bs
            | none ↦ err invalid_encoding
          ])
          (ok t)
      → validate split_host_port t ≡ none
  unfolding read_token
  decoded t none h = absurd (cc)
  decoded t (some json) h = accepted t (unmarshal json) h

  -- Whatever the string, a token that Decode accepts is usable.
  pub decode-IsUsable :
      (s : Bytes) (t : Token)
      → decode split_host_port unmarshal s ≡ ok t
      → IsUsable split_host_port t
  unfolding decode
  decode-IsUsable [] t h = absurd (cc)
  decode-IsUsable (c ∷ s) t h =
      validate-IsUsable t (decoded t (decode_string (trim_prefix (c ∷ s))) h)
