-- ===== src/FormUrl/RoundTrip.antt =====
-- Form encoding and decoding undo each other.
use lce.Prelude.{
  ℕ, ◌+◌, ◌*◌, ◌/◌, ◌%◌, ◌<◌, ◌≡◌, refl, ap, ◌∙◌, false, List, [], ◌∷◌, ◌++◌, some, ◌==◌, inl, inr,
  Bool-cases, arith,
}
use mathlib.Core.Option
use lce.FormUrl.{
  is_plain, encode_char, form_url_encode, hex_value, parse_hex, form_url_decode, hex_digit,
}

abbrev pub AreBytes : List ℕ → Type 0
AreBytes [] = Unit {0}
AreBytes (c ∷ cs) = (c < 256) × AreBytes cs

parse_hex-digits : (u v : ℕ) → u < 16 → v < 16 → parse_hex (hex_digit u) (hex_digit v) ≡ u * 16 + v
unfolding parse_hex hex_value
parse_hex-digits u v hu hv = ground arith

-- One character in front.
decode_plain :
    (c : ℕ) (cs : List ℕ)
    → (c == b'+') ≡ false
    → (c == b'%') ≡ false
    → form_url_decode (c ∷ cs) ≡ Option.map (λ r. c ∷ r) (form_url_decode cs)
unfolding form_url_decode
decode_plain c [] p q = rw (p, q)
decode_plain c (a ∷ []) p q = rw (p, q)
decode_plain c (a ∷ b ∷ cs) p q = rw (p, q)

decode_plus :
    (cs : List ℕ) → form_url_decode (b'+' ∷ cs) ≡ Option.map (λ r. b' ' ∷ r) (form_url_decode cs)
unfolding form_url_decode
decode_plus [] = refl
decode_plus (a ∷ []) = refl
decode_plus (a ∷ b ∷ cs) = refl

decode_percent :
    (a b : ℕ) (cs : List ℕ)
    → form_url_decode (b'%' ∷ a ∷ b ∷ cs) ≡ Option.map (λ r. parse_hex a b ∷ r) (form_url_decode cs)
unfolding form_url_decode
decode_percent a b cs = refl

decode_char :
    (c : ℕ) (cs : List ℕ)
    → c < 256
    → form_url_decode (encode_char c ++ cs) ≡ Option.map (λ r. c ∷ r) (form_url_decode cs)
unfolding encode_char
decode_char c cs h = elim (Bool-cases (c == b' ')) [
  | inl e ↦
      rw e (decode_plus cs ∙ ap (λ d. Option.map (λ r. d ∷ r) (form_url_decode cs)) (ground arith))
  | inr ne ↦ elim (Bool-cases (is_plain c)) [
    | inl p ↦ rw (ne, p) (decode_plain c cs (ground arith) (ground arith))
    | inr np ↦
        rw (ne, np)
          (decode_percent (hex_digit (c / 16)) (hex_digit (c % 16)) cs
            ∙ ap (λ d. Option.map (λ r. d ∷ r) (form_url_decode cs))
                (parse_hex-digits (c / 16) (c % 16) (omega arith) (omega arith) ∙ omega arith))
  ]
]

-- Decoding what was encoded gives the bytes back, whatever bytes they are.
pub form_url_decode-encode :
    (bs : List ℕ) → AreBytes bs → form_url_decode (form_url_encode bs) ≡ some bs
unfolding form_url_encode
form_url_decode-encode [] h = nothing
  where
    nothing : form_url_decode [] ≡ some []
    nothing = unfold form_url_decode in refl
form_url_decode-encode (c ∷ cs) h =
    rw (decode_char c (form_url_encode cs) h.0, form_url_decode-encode cs h.1)
