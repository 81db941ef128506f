-- ===== src/Examples/Codec.antt =====
-- A small `CAnyValue`: an array of a number, a string and an object.
use lce.Prelude.{◌≡◌, ◌≢◌, inl, [], ◌∷◌, ◌++◌, arith}
use lce.AnyValue.{Value, integer, sinteger, string, vector, map, nil, cons, end, field, encode}
use lce.AnyValue.Decode.{ok, deep, decode}
use lce.AnyValue.Valid.{Valid}
use lce.AnyValue.Total.{decode_total}
use lce.AnyValue.RoundTrip.{decode-encode}

abbrev sample : Value
sample = vector (
    cons (integer 300)
      (cons (string (104 ∷ 105 ∷ [])) (cons (map (field (97 ∷ []) (sinteger 5) end)) nil)))

sample-Valid : Valid sample
sample-Valid = (
  omega arith,
  (omega arith, (omega arith, ((omega arith, (omega arith, inl (omega arith), tt, tt)), tt))),
)

decode-encode_example : decode (encode sample ++ 9 ∷ []) ≡ ok sample
decode-encode_example = decode-encode sample (9 ∷ []) sample-Valid

decode_total_example : decode (8 ∷ 0 ∷ 0 ∷ []) ≢ deep
decode_total_example = decode_total (8 ∷ 0 ∷ 0 ∷ [])
