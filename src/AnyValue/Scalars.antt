-- ===== src/AnyValue/Scalars.antt =====
-- `decode` of the numbers and strings that `encode` wrote.
use lce.Prelude.{
  ℕ, ◌%◌, ◌^◌, ◌≤◌, ◌<◌, ◌≡◌, refl, ◌⊎◌, inl, inr, true, false, List, ◌++◌, append_assoc, length,
  lt→ltb, le→ltb, le→leb, lt→leb, Bool-cases, arith,
}
use native.Mathlib.Decide.{dec_lt}
use lce.Prelude.Words.{be_bytes, be_bytes-mod}
use lce.AnyValue.{
  Value, null, boolean, integer, sinteger, float, string, encode_none, encode_bool, encode_integer,
  encode_sinteger, encode_float, encode_string, at_least_minus,
}
use lce.AnyValue.Read.{read_byte, read_word-be_bytes, read_bytes-append}
use lce.AnyValue.Decode.{
  Result, ok, ◌>>=◌, read_word, sign_extend, decode_null, init_as_buf, decode_number, decode_string,
  dispatch,
}

-- one number behind its tag
decode_number_lem :
    (n v : ℕ) (build : ℕ → Value) (rest : List ℕ)
    → v < 256 ^ n
    → decode_number n build (be_bytes n v ++ rest) ≡ ok (build v, rest)
unfolding decode_number
decode_number_lem n v build rest h = rw (read_word-be_bytes n v rest h)

decode_string_lem :
    (n : ℕ) (bs rest : List ℕ)
    → length bs < 256 ^ n
    → decode_string n null (be_bytes n (length bs) ++ (bs ++ rest)) ≡ ok (string bs, rest)
unfolding decode_string init_as_buf
decode_string_lem n bs rest h =
    rw (read_word-be_bytes n (length bs) (bs ++ rest) h, read_bytes-append (length bs) bs rest refl)

module _ (dec : Value → List ℕ → Result (Value × List ℕ)) where
  -- Each tag calls its decoder.
  pub integer-dispatch :
      (v : ℕ) (rest : List ℕ)
      → v < 2 ^ 64
      → (do (tag, bs) ← read_word 1 (encode_integer v ++ rest); dispatch dec tag null bs)
        ≡ ok (integer v, rest)
  unfolding encode_integer dispatch
  integer-dispatch v rest h = elim (dec_lt v 0xFF) [
    | yes lt ↦ rw (lt→ltb v 0xFF lt, read_byte, decode_number_lem 1 v integer rest (omega arith))
    | no ge ↦ elim (dec_lt 0xFFFF v) [
      | no le ↦ rw (
        le→ltb v 0xFF (omega arith),
        le→leb v 0xFFFF (omega arith),
        read_byte,
        decode_number_lem 2 v integer rest (omega arith),
      )
      | yes gt ↦ elim (dec_lt 0xFFFFFFFF v) [
        | no le ↦ rw (
          le→ltb v 0xFF (omega arith),
          lt→leb v 0xFFFF gt,
          le→leb v 0xFFFFFFFF (omega arith),
          read_byte,
          decode_number_lem 4 v integer rest (omega arith),
        )
        | yes gt' ↦ rw (
          le→ltb v 0xFF (omega arith),
          lt→leb v 0xFFFF gt,
          lt→leb v 0xFFFFFFFF gt',
          read_byte,
          decode_number_lem 8 v integer rest (omega arith),
        )
      ]
    ]
  ]

  -- A signed number of `n` bytes is written as its low bytes and widened again.
  sinteger_lem :
      (n v : ℕ) (rest : List ℕ)
      → sign_extend n (v % 256 ^ n) ≡ v
      → v % 256 ^ n < 256 ^ n
      → decode_number n (λ x. sinteger (sign_extend n x)) (be_bytes n v ++ rest)
        ≡ ok (sinteger v, rest)
  sinteger_lem n v rest back lt = rw (
    be_bytes-mod n v,
    decode_number_lem n (v % 256 ^ n) (λ x. sinteger (sign_extend n x)) rest lt,
    back,
  )

  pub sinteger-dispatch :
      (v : ℕ) (rest : List ℕ)
      → (v < 128) ⊎ ((2 ^ 63 ≤ v) × (v < 2 ^ 64))
      → (do (tag, bs) ← read_word 1 (encode_sinteger v ++ rest); dispatch dec tag null bs)
        ≡ ok (sinteger v, rest)
  unfolding encode_sinteger dispatch
  sinteger-dispatch v rest h = elim (Bool-cases (at_least_minus 128 v)) [
    | inl a ↦ rw (a, read_byte, sinteger_lem 1 v rest (back1 a) (omega arith))
    | inr a ↦ elim (Bool-cases (at_least_minus 32768 v)) [
      | inl b ↦ rw (a, b, read_byte, sinteger_lem 2 v rest (back2 a b) (omega arith))
      | inr b ↦ elim (Bool-cases (at_least_minus 2147483648 v)) [
        | inl c ↦ rw (a, b, c, read_byte, sinteger_lem 4 v rest (back4 a c) (omega arith))
        | inr c ↦ rw (a, b, c, read_byte, decode_number_lem 8 v sinteger rest (omega arith))
      ]
    ]
  ]
    where
      back1 : at_least_minus 128 v ≡ true → sign_extend 1 (v % 256 ^ 1) ≡ v
      back1 a = unfold sign_extend in ground arith

      back2 :
          at_least_minus 128 v ≡ false
          → at_least_minus 32768 v ≡ true
          → sign_extend 2 (v % 256 ^ 2) ≡ v
      back2 a b = unfold sign_extend in ground arith

      back4 :
          at_least_minus 128 v ≡ false
          → at_least_minus 2147483648 v ≡ true
          → sign_extend 4 (v % 256 ^ 4) ≡ v
      back4 a b = unfold sign_extend in ground arith

  pub bool-dispatch :
      (v : ℕ) (rest : List ℕ)
      → v < 256
      → (do (tag, bs) ← read_word 1 (encode_bool v ++ rest); dispatch dec tag null bs)
        ≡ ok (boolean v, rest)
  unfolding encode_bool dispatch
  bool-dispatch v rest h = rw (read_byte, decode_number_lem 1 v boolean rest (omega arith))

  pub float-dispatch :
      (v : ℕ) (rest : List ℕ)
      → v < 2 ^ 64
      → (do (tag, bs) ← read_word 1 (encode_float v ++ rest); dispatch dec tag null bs)
        ≡ ok (float v, rest)
  unfolding encode_float dispatch
  float-dispatch v rest h = rw (read_byte, decode_number_lem 8 v float rest (omega arith))

  pub null-dispatch :
      (rest : List ℕ)
      → (do (tag, bs) ← read_word 1 (encode_none ++ rest); dispatch dec tag null bs)
        ≡ ok (null, rest)
  unfolding encode_none dispatch decode_null
  null-dispatch rest = rw read_byte

  pub string-dispatch :
      (s rest : List ℕ)
      → length s < 2 ^ 32
      → (do (tag, bs) ← read_word 1 (encode_string s ++ rest); dispatch dec tag null bs)
        ≡ ok (string s, rest)
  unfolding encode_string dispatch
  string-dispatch s rest h = elim (dec_lt 0xFF (length s)) [
    | no le ↦ rw (
      le→leb (length s) 0xFF (omega arith),
      read_byte,
      append_assoc,
      decode_string_lem 1 s rest (omega arith),
    )
    | yes gt ↦ elim (dec_lt 0xFFFF (length s)) [
      | no le ↦ rw (
        lt→leb (length s) 0xFF gt,
        le→leb (length s) 0xFFFF (omega arith),
        read_byte,
        append_assoc,
        decode_string_lem 2 s rest (omega arith),
      )
      | yes gt' ↦ rw (
        lt→leb (length s) 0xFF gt,
        lt→leb (length s) 0xFFFF gt',
        read_byte,
        append_assoc,
        decode_string_lem 4 s rest (omega arith),
      )
    ]
  ]
