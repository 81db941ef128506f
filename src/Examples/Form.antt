-- ===== src/Examples/Form.antt =====
-- A form value with a space, a sign and a byte above the ASCII range.
use lce.Prelude.{◌≡◌, [], ◌∷◌, some, arith}
use lce.FormUrl.{form_url_encode, form_url_decode}
use lce.FormUrl.RoundTrip.{form_url_decode-encode}

form_url_decode-encode_example :
    form_url_decode (form_url_encode (97 ∷ 32 ∷ 38 ∷ 233 ∷ [])) ≡ some (97 ∷ 32 ∷ 38 ∷ 233 ∷ [])
form_url_decode-encode_example =
    form_url_decode-encode (97 ∷ 32 ∷ 38 ∷ 233 ∷ [])
      (omega arith, (omega arith, (omega arith, (omega arith, tt))))
