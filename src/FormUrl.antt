-- ===== src/FormUrl.antt =====
-- `FormUrlEncode`, `FormUrlDecode` of src/Utils.cpp and `charToHex` of include/Utils.h, over bytes.
pub mod RoundTrip
use lce.Prelude.{
  ℕ, ◌+◌, ◌-◌, ◌*◌, ◌/◌, ◌%◌, Bool, ◌&&◌, ◌||◌, List, [], ◌∷◌, ◌++◌, Option, none, some, ltb, leb,
  ◌==◌, if◌then◌else◌,
}
use mathlib.Core.Option

abbrev pub hex_digit : ℕ → ℕ
hex_digit d = if ltb 9 d then d + (b'A' - 10) else d + b'0'

unfoldable pub char_to_hex : ℕ → List ℕ
char_to_hex c = hex_digit (c / 16) ∷ hex_digit (c % 16) ∷ []

-- The characters that `FormUrlEncode` copies.
unfoldable pub is_plain : ℕ → Bool
is_plain c =
    leb b'A' c && leb c b'Z'
    || leb b'a' c && leb c b'z'
    || leb b'0' c && leb c b'9'
    || c == b'-'
    || c == b'_'
    || c == b'.'

unfoldable pub encode_char : ℕ → List ℕ
unfolding char_to_hex is_plain
encode_char c =
    if c == b' ' then b'+' ∷ [] else (if is_plain c then c ∷ [] else b'%' ∷ char_to_hex c)

unfoldable pub form_url_encode : List ℕ → List ℕ
unfolding encode_char
form_url_encode [] = []
form_url_encode (c ∷ cs) = encode_char c ++ form_url_encode cs

-- a digit of `strtol` in base 16
unfoldable pub hex_value : ℕ → Option ℕ
hex_value c =
    if leb b'0' c && leb c b'9'
    then some (c - b'0')
    else (if leb b'A' c && leb c b'F'
        then some (c - b'A' + 10)
        else (if leb b'a' c && leb c b'f' then some (c - b'a' + 10) else none))

-- `strtol("0x0ab", 0, 16)`: it reads as far as the digits go.
unfoldable pub parse_hex : ℕ → ℕ → ℕ
unfolding hex_value
parse_hex a b = elim (hex_value a) [
  | none ↦ 0
  | some u ↦ elim (hex_value b) [ none ↦ u | some v ↦ u * 16 + v ]
]

-- `none` is the `out_of_range` of `at` for a `%` with fewer than two characters behind it.
unfoldable pub form_url_decode : List ℕ → Option (List ℕ)
unfolding parse_hex
form_url_decode [] = some []
form_url_decode (c ∷ []) =
    if c == b'+' then some (b' ' ∷ []) else (if c == b'%' then none else some (c ∷ []))
form_url_decode (c ∷ a ∷ []) =
    let rest = form_url_decode (a ∷ []) in
    if c == b'+'
    then Option.map (λ r. b' ' ∷ r) rest
    else (if c == b'%' then none else Option.map (λ r. c ∷ r) rest)
form_url_decode (c ∷ a ∷ b ∷ cs) =
    let rest = form_url_decode (a ∷ b ∷ cs) in
    let after = form_url_decode cs in
    if c == b'+'
    then Option.map (λ r. b' ' ∷ r) rest
    else (if c == b'%'
        then Option.map (λ r. parse_hex a b ∷ r) after
        else Option.map (λ r. c ∷ r) rest)
