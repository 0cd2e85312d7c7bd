-- ===== src/Token/Base64.antt =====
-- encoding/base64: RawURLEncoding, which internal/token/token.go uses. Its decoder passes over line
-- breaks, refuses a lone last character and any padding, and ignores the bits left over at the end.
use peerwatch.Base.{
  ℕ, ◌+◌, ◌-◌, ◌*◌, ◌/◌, ◌%◌, ◌<◌, ◌≡◌, refl, false, ◌||◌, Option, none, some, List, [], ◌∷◌, map,
  arith,
}
use mathlib.Core.Option
use peerwatch.Base.Tests.{ltb, ◌==◌, if◌then◌else◌}
use peerwatch.Base.Lists.{All}
use peerwatch.Protocol.Message.{Bytes}

-- A to Z, a to z, 0 to 9, - and _.
unfoldable pub char_of : ℕ → ℕ
char_of v =
    if ltb v 26
    then v + 65
    else if ltb v 52
    then v + 71
    else if ltb v 62
    then v - 52 + 48
    else if v == 62
    then 45
    else 95

unfoldable pub value_of : ℕ → Option ℕ
value_of c =
    if ltb c 91
    then if ltb c 65
      then if ltb c 58
        then (if ltb c 48 then (if c == 45 then some 62 else none) else some (c - 48 + 52))
        else none
      else some (c - 65)
    else if c == 95
    then some 63
    else if ltb c 97
    then none
    else if ltb c 123
    then some (c - 71)
    else none

-- Three bytes are four values of six bits.
unfoldable pub group : Bytes → List ℕ
group [] = []
group (a ∷ []) = a / 4 ∷ a % 4 * 16 ∷ []
group (a ∷ b ∷ []) = a / 4 ∷ (a % 4 * 16 + b / 16) ∷ b % 16 * 4 ∷ []
group (a ∷ b ∷ c ∷ bs) = a / 4 ∷ (a % 4 * 16 + b / 16) ∷ (b % 16 * 4 + c / 64) ∷ c % 64 ∷ group bs

unfoldable pub ungroup : List ℕ → Option Bytes
ungroup [] = some []
ungroup (p ∷ []) = none
ungroup (p ∷ q ∷ []) = some ((p * 4 + q / 16) ∷ [])
ungroup (p ∷ q ∷ r ∷ []) = some ((p * 4 + q / 16) ∷ (q % 16 * 16 + r / 4) ∷ [])
ungroup (p ∷ q ∷ r ∷ s ∷ vs) =
    Option.map (λ bs. (p * 4 + q / 16) ∷ (q % 16 * 16 + r / 4) ∷ (r % 4 * 64 + s) ∷ bs) (ungroup vs)

unfoldable pub values : Bytes → Option (List ℕ)
values [] = some []
values (c ∷ cs) =
    let rest = values cs in
    if (c == 10) || (c == 13)
    then rest
    else elim (value_of c) [ some v ↦ Option.map (◌∷◌ v) rest | none ↦ none ]

unfoldable pub encode_to_string : Bytes → Bytes
unfolding group char_of
encode_to_string bs = map char_of (group bs)

unfoldable pub decode_string : Bytes → Option Bytes
unfolding values ungroup
decode_string s = elim (values s) [ some vs ↦ ungroup vs | none ↦ none ]

value_of-char_of : (v : ℕ) → v < 64 → value_of (char_of v) ≡ some v
unfolding value_of char_of
value_of-char_of v h = ground arith

char_of-printable : (v : ℕ) → ((char_of v == 10) || (char_of v == 13)) ≡ false
unfolding char_of
char_of-printable v = ground arith

values-map : (vs : List ℕ) → All (λ v. v < 64) vs → values (map char_of vs) ≡ some vs
unfolding values
values-map [] h = refl
values-map (v ∷ vs) (h, hs) = rw (char_of-printable v, value_of-char_of v h, values-map vs hs)

group-small : (bs : Bytes) → All (λ b. b < 256) bs → All (λ v. v < 64) (group bs)
unfolding group
group-small [] h = tt
group-small (a ∷ []) h = omega arith
group-small (a ∷ b ∷ []) h = omega arith
group-small (a ∷ b ∷ c ∷ bs) (ha, (hb, (hc, hs))) =
    (omega arith, (omega arith, (omega arith, (omega arith, group-small bs hs))))

ungroup-group : (bs : Bytes) → All (λ b. b < 256) bs → ungroup (group bs) ≡ some bs
unfolding group ungroup
ungroup-group [] h = refl
ungroup-group (a ∷ []) h = ground arith
ungroup-group (a ∷ b ∷ []) h = ground arith
ungroup-group (a ∷ b ∷ c ∷ bs) (ha, (hb, (hc, hs))) = rw (ungroup-group bs hs) (ground arith)

-- What was encoded is decoded.
pub decode_string-encode_to_string :
    (bs : Bytes) → All (λ b. b < 256) bs → decode_string (encode_to_string bs) ≡ some bs
unfolding decode_string encode_to_string
decode_string-encode_to_string bs h =
    rw (values-map (group bs) (group-small bs h), decode_string) (ungroup-group bs h)
