-- ===== src/Token/Tests.antt =====
-- Tokens at concrete values. JSON stands for itself: a text of one token.
use peerwatch.Base.{◌≡◌, refl, Bool, true, false, Option, none, some, [], ◌∷◌, ◌++◌, arith}
use peerwatch.Base.Tests.{◌==◌, if◌then◌else◌}
use peerwatch.Base.Int.{pos}
use peerwatch.Base.Results.{ok, err}
use peerwatch.Protocol.Message.{Bytes}
use peerwatch.Token.Base64.{
  char_of, group, value_of, values, ungroup, encode_to_string, decode_string,
}
use peerwatch.Token.{
  Token, token_is_empty, invalid_encoding, validate, encode, decode, read_token, trim_prefix,
  token_prefix,
}
use peerwatch.Token.RoundTrip.{IsUsable, IsJson, decode-encode, decode-IsUsable}

abbrev room : Token
room = record {
  host = 49 ∷ 58 ∷ 56 ∷ [];
  room_id = 114 ∷ [];
  file_name = 102 ∷ [];
  file_size = pos 100;
  chunk_count = pos 1;
}

-- An address needs a colon here.
abbrev has_colon : Bytes → Bool
has_colon [] = false
has_colon (c ∷ s) = let more = has_colon s in if c == 58 then true else more

abbrev to_json : Token → Option Bytes
to_json t = some (123 ∷ t.host ++ 125 ∷ [])

abbrev from_json : Bytes → Option Token
from_json json = some room

room-IsUsable : IsUsable has_colon room
room-IsUsable = record {
  has_host = λ q. cc;
  good_host = refl;
  has_room = λ q. cc;
  has_name = λ q. cc;
  good_size = refl;
  good_count = refl;
}

room-IsJson : IsJson to_json from_json room
room-IsJson = record {
  text = 49 ∷ 58 ∷ 56 ∷ 125 ∷ [];
  gives = refl;
  bytes = omega arith;
  takes = refl;
}

-- "foob" is "Zm9vYg".
encodes : encode_to_string (102 ∷ 111 ∷ 111 ∷ 98 ∷ []) ≡ 90 ∷ 109 ∷ 57 ∷ 118 ∷ 89 ∷ 103 ∷ []
unfolding encode_to_string group char_of
encodes = refl

-- A line break is passed over; a lone last character and padding are refused.
decodes :
    (decode_string (90 ∷ 10 ∷ 109 ∷ 56 ∷ []) ≡ some (102 ∷ 111 ∷ []))
    × (decode_string (90 ∷ []) ≡ none)
    × (decode_string (90 ∷ 103 ∷ 61 ∷ 61 ∷ []) ≡ none)
unfolding decode_string values value_of ungroup
decodes = (refl, refl, refl)

refuses :
    (decode has_colon from_json [] ≡ err token_is_empty)
    × (decode has_colon from_json (33 ∷ []) ≡ err invalid_encoding)
unfolding decode decode_string trim_prefix values value_of ungroup
refuses = (refl, refl)

decode-encode_example :
    (s : Bytes) × (encode has_colon to_json room ≡ ok (token_prefix ++ s))
    × (decode has_colon from_json (token_prefix ++ s) ≡ ok room)
    × (decode has_colon from_json s ≡ ok room)
decode-encode_example = decode-encode has_colon to_json from_json room room-IsUsable room-IsJson

decode-IsUsable_example : IsUsable has_colon room
unfolding decode read_token decode_string trim_prefix values value_of ungroup validate
decode-IsUsable_example = decode-IsUsable has_colon to_json from_json (101 ∷ 119 ∷ []) room refl
