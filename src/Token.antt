-- ===== src/Token.antt =====
-- internal/token/token.go: Encode and Decode of a connection token. encoding/json and
-- net.SplitHostPort are parameters: what json.Marshal gives, what json.Unmarshal finds, and whether
-- SplitHostPort accepts an address. An error says which return it comes from.
pub mod Base64
pub mod RoundTrip
mod Tests
use peerwatch.Base.{ℕ, Bool, true, false, Option, none, some, List, [], ◌∷◌, ◌++◌, not}
use peerwatch.Base.Tests.{◌==◌, if◌then◌else◌}
use peerwatch.Base.Int.{ℤ, pos, leb_ℤ}
use peerwatch.Base.Results.{Result, ok, err, panic}
use peerwatch.Protocol.Message.{Bytes}
use peerwatch.Token.Base64.{encode_to_string, decode_string}

pub record Token : Type 0 where
  pub host : Bytes
  pub room_id : Bytes
  pub file_name : Bytes
  pub file_size : ℤ
  pub chunk_count : ℤ

pub data TokenError : Type 0 where
  missing_host bad_host missing_room_id missing_file_name : TokenError
  invalid_file_size invalid_chunk_count : ℤ → TokenError
  marshal_failed token_is_empty invalid_encoding invalid_json : TokenError

abbrev pub is_empty : Bytes → Bool
is_empty [] = true
is_empty (c ∷ s) = false

-- strings.TrimPrefix(s, "pw_")
unfoldable pub trim_prefix : Bytes → Bytes
trim_prefix (a ∷ b ∷ c ∷ s) =
    if a == 112
    then (if b == 119 then (if c == 95 then s else a ∷ b ∷ c ∷ s) else a ∷ b ∷ c ∷ s)
    else a ∷ b ∷ c ∷ s
trim_prefix s = s

-- "pw_"
abbrev pub token_prefix : Bytes
token_prefix = 112 ∷ 119 ∷ 95 ∷ []

module _ (split_host_port : Bytes → Bool) where
  -- The error that validate returns, if any.
  unfoldable pub validate : Token → Option TokenError
  validate t =
      if is_empty t.host
      then some missing_host
      else if not (split_host_port t.host)
      then some bad_host
      else if is_empty t.room_id
      then some missing_room_id
      else if is_empty t.file_name
      then some missing_file_name
      else if leb_ℤ t.file_size (pos 0)
      then some (invalid_file_size t.file_size)
      else if leb_ℤ t.chunk_count (pos 0)
      then some (invalid_chunk_count t.chunk_count)
      else none

  unfoldable pub encode : (Token → Option Bytes) → Token → Result TokenError Bytes
  unfolding validate
  encode marshal t = elim (validate t) [
    | some e ↦ err e
    | none ↦ elim (marshal t) [
      | some json ↦ ok (token_prefix ++ encode_to_string json)
      | none ↦ err marshal_failed
    ]
  ]

  -- What Decode does with the decoded bytes.
  unfoldable pub read_token : (Bytes → Option Token) → Bytes → Result TokenError Token
  unfolding validate
  read_token unmarshal json = elim (unmarshal json) [
    | some t ↦ elim (validate t) [ some e ↦ err e | none ↦ ok t ]
    | none ↦ err invalid_json
  ]

  unfoldable pub decode : (Bytes → Option Token) → Bytes → Result TokenError Token
  unfolding read_token trim_prefix decode_string
  decode unmarshal [] = err token_is_empty
  decode unmarshal (c ∷ s) = elim (decode_string (trim_prefix (c ∷ s))) [
    | some json ↦ read_token unmarshal json
    | none ↦ err invalid_encoding
  ]
