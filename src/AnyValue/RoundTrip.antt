-- ===== src/AnyValue/RoundTrip.antt =====
-- `decode` of what `encode` wrote, for whole values.
use lce.Prelude.{
  ℕ, zero, suc, ◌^◌, ◌≤◌, ◌<◌, ◌≡◌, refl, ap, ◌∙◌, true, List, ◌∷◌, ◌++◌, append_assoc, length,
  length-append, lt→ltb, arith, max,
}
use lce.Prelude.Words.{be_bytes, length-be_bytes}
use lce.AnyValue.Tag
use lce.AnyValue.{
  Value, null, stale, boolean, integer, sinteger, float, string, vector, map, Items, nil, cons,
  Fields, end, field, count_items, count_fields, encode, encode_items, encode_fields, encode_none,
  encode_bool, encode_integer, encode_sinteger, encode_float, encode_string,
}
use lce.AnyValue.Valid.{Before, AllBefore, After, Valid, ValidItems, ValidFields}
use lce.AnyValue.Read.{read_byte, read_word-be_bytes, read_bytes-append}
use lce.AnyValue.Scalars.{
  integer-dispatch, sinteger-dispatch, bool-dispatch, float-dispatch, null-dispatch,
  string-dispatch,
}
use lce.AnyValue.Decode.{
  Result, ok, ◌>>=◌, read_word, init_as_vector, init_as_map, less, get, put, decode_items,
  decode_field, decode_fields, decode_vector, decode_map, dispatch, decode_at, decode,
}

-- how deep containers are nested
mutual
  depth : Value → ℕ
  depth (vector vs) = suc (depth_items vs)
  depth (map fs) = suc (depth_fields fs)
  depth _ = 0

  depth_items : Items → ℕ
  depth_items nil = 0
  depth_items (cons v vs) = max (depth v) (depth_items vs)

  depth_fields : Fields → ℕ
  depth_fields end = 0
  depth_fields (field k v fs) = max (depth v) (depth_fields fs)

mutual
  unfolding depth encode encode_none encode_bool encode_integer encode_sinteger encode_float
      encode_string

  depth-le : (v : Value) → depth v < length (encode v)
  depth-le null = omega arith
  depth-le (stale v) = omega arith
  depth-le (boolean v) = omega arith
  depth-le (integer v) = ground arith
  depth-le (sinteger v) = ground arith
  depth-le (float v) = omega arith
  depth-le (string bs) = ground arith
  depth-le (vector vs) = omega (
    arith,
    depth_items-le vs,
    length-append (be_bytes 4 (count_items vs)) (encode_items vs),
    length-be_bytes 4 (count_items vs),
  )
  depth-le (map fs) = omega (
    arith,
    depth_fields-le fs,
    length-append (be_bytes 4 (count_fields fs)) (encode_fields fs),
    length-be_bytes 4 (count_fields fs),
  )

  depth_items-le : (vs : Items) → depth_items vs ≤ length (encode_items vs)
  depth_items-le nil = omega arith
  depth_items-le (cons v vs) =
      omega (arith, depth-le v, depth_items-le vs, length-append (encode v) (encode_items vs))

  depth_fields-le : (fs : Fields) → depth_fields fs ≤ length (encode_fields fs)
  depth_fields-le end = omega arith
  depth_fields-le (field k v fs) = omega (
    arith,
    depth-le v,
    depth_fields-le fs,
    length-append (be_bytes 1 (length k)) (k ++ (encode v ++ encode_fields fs)),
    length-append k (encode v ++ encode_fields fs),
    length-append (encode v) (encode_fields fs),
  )

-- two maps, the names of the second after those of the first
join : Fields → Fields → Fields
join end fs = fs
join (field k v acc) fs = field k v (join acc fs)

join-end : (fs : Fields) → join fs end ≡ fs
unfolding join
join-end end = refl
join-end (field k v fs) = ap (field k v) (join-end fs)

join_assoc :
    (a : Fields) (k : List ℕ) (v : Value) (c : Fields)
    → join (join a (field k v end)) c ≡ join a (field k v c)
unfolding join
join_assoc end k v c = refl
join_assoc (field j w a) k v c = ap (field j w) (join_assoc a k v c)

-- A name after all others is new, and goes to the end.
get-Before : (k : List ℕ) (acc : Fields) → Before acc k → get k acc ≡ null
unfolding get
get-Before k end h = refl
get-Before k (field j v acc) h = rw h.0 (get-Before k acc h.1)

put-Before :
    (k : List ℕ) (v : Value) (acc : Fields) → Before acc k → put k v acc ≡ join acc (field k v end)
unfolding put join
put-Before k v end h = refl
put-Before k v (field j w acc) h = rw h.0 (ap (field j w) (put-Before k v acc h.1))

Before-join :
    (acc : Fields) (k : List ℕ) (v : Value) (j : List ℕ)
    → Before acc j
    → less k j ≡ true
    → Before (join acc (field k v end)) j
unfolding join
Before-join end k v j h lt = (lt, tt)
Before-join (field i w acc) k v j h lt = (h.0, Before-join acc k v j h.1 lt)

AllBefore-join :
    (acc : Fields) (k : List ℕ) (v : Value) (fs : Fields)
    → AllBefore acc fs
    → After k fs
    → AllBefore (join acc (field k v end)) fs
AllBefore-join acc k v end h a = tt
AllBefore-join acc k v (field j w fs) h a =
    (Before-join acc k v j h.0 a.0, AllBefore-join acc k v fs h.1 a.1)

AllBefore-end : (fs : Fields) → AllBefore end fs
AllBefore-end end = tt
AllBefore-end (field k v fs) = (tt, AllBefore-end fs)

join-none : (fs : Fields) → join end fs ≡ fs
unfolding join
join-none fs = refl

entry_code :
    (k : List ℕ) (v : Value) (fs : Fields) (rest : List ℕ)
    → (be_bytes 1 (length k) ++ (k ++ (encode v ++ encode_fields fs))) ++ rest
      ≡ be_bytes 1 (length k) ++ (k ++ (encode v ++ (encode_fields fs ++ rest)))
entry_code k v fs rest = simp append_assoc

-- One entry of a map behind entries with smaller names.
decode_field_lem :
    (dec : Value → List ℕ → Result (Value × List ℕ)) (acc : Fields) (k : List ℕ) (v : Value)
    (code rest : List ℕ)
    → length k < 256
    → Before acc k
    → 0 < length code
    → dec null (code ++ rest) ≡ ok (v, rest)
    → decode_field dec acc (be_bytes 1 (length k) ++ (k ++ (code ++ rest)))
      ≡ ok (join acc (field k v end), rest)
unfolding decode_field
decode_field_lem dec acc k v code rest short before pos e = rw (
  read_word-be_bytes 1 (length k) (k ++ (code ++ rest)) (omega arith),
  read_bytes-append (length k) k (code ++ rest) refl,
  lt→ltb 0 (length (code ++ rest)) (omega (arith, length-append code rest)),
  get-Before k acc before,
  e,
  put-Before k v acc before,
)

-- The containers, over a decoder of what is in them.
module _ (dec : Value → List ℕ → Result (Value × List ℕ)) (code rest : List ℕ) where
  vector-dispatch :
      (vs : Items)
      → count_items vs < 2 ^ 32
      → decode_items dec (count_items vs) nil (code ++ rest) ≡ ok (vs, rest)
      → (do
        (tag, bs) ← read_word 1 ((Tag.vector ∷ be_bytes 4 (count_items vs) ++ code) ++ rest)
        dispatch dec tag null bs)
        ≡ ok (vector vs, rest)
  unfolding dispatch decode_vector init_as_vector
  vector-dispatch vs small e = rw (
    read_byte,
    append_assoc (be_bytes 4 (count_items vs)) code rest,
    read_word-be_bytes 4 (count_items vs) (code ++ rest) (omega arith),
    e,
  )

  map-dispatch :
      (fs : Fields)
      → count_fields fs < 2 ^ 32
      → decode_fields dec (count_fields fs) end (code ++ rest) ≡ ok (fs, rest)
      → (do
        (tag, bs) ← read_word 1 ((Tag.map ∷ be_bytes 4 (count_fields fs) ++ code) ++ rest)
        dispatch dec tag null bs)
        ≡ ok (map fs, rest)
  unfolding dispatch decode_map init_as_map
  map-dispatch fs small e = rw (
    read_byte,
    append_assoc (be_bytes 4 (count_fields fs)) code rest,
    read_word-be_bytes 4 (count_fields fs) (code ++ rest) (omega arith),
    e,
  )

mutual
  unfolding depth encode decode_items decode_fields decode_at

  value_lem :
      (v : Value) (fuel : ℕ) (rest : List ℕ)
      → Valid v
      → depth v ≤ fuel
      → decode_at (suc fuel) null (encode v ++ rest) ≡ ok (v, rest)
  value_lem null fuel rest ok' le = null-dispatch (decode_at fuel) rest
  value_lem (stale v) fuel rest ok' le = elim ok' [ ]
  value_lem (boolean v) fuel rest ok' le = bool-dispatch (decode_at fuel) v rest ok'
  value_lem (integer v) fuel rest ok' le = integer-dispatch (decode_at fuel) v rest ok'
  value_lem (sinteger v) fuel rest ok' le = sinteger-dispatch (decode_at fuel) v rest ok'
  value_lem (float v) fuel rest ok' le = float-dispatch (decode_at fuel) v rest ok'
  value_lem (string bs) fuel rest ok' le = string-dispatch (decode_at fuel) bs rest ok'
  value_lem (vector vs) zero rest ok' le = absurd (omega arith)
  value_lem (vector vs) (suc fuel) rest ok' le =
      vector-dispatch (decode_at (suc fuel)) (encode_items vs) rest vs ok'.0
        (items_lem vs fuel rest ok'.1 (omega arith))
  value_lem (map fs) zero rest ok' le = absurd (omega arith)
  value_lem (map fs) (suc fuel) rest ok' le =
      map-dispatch (decode_at (suc fuel)) (encode_fields fs) rest fs ok'.0 (
        fields_lem fs end fuel rest ok'.1 (AllBefore-end fs) (omega arith)
        ∙ ap (λ x. ok (x, rest)) (join-none fs))

  items_lem :
      (vs : Items) (fuel : ℕ) (rest : List ℕ)
      → ValidItems vs
      → depth_items vs ≤ fuel
      → decode_items (decode_at (suc fuel)) (count_items vs) nil (encode_items vs ++ rest)
        ≡ ok (vs, rest)
  items_lem nil fuel rest ok' le = refl
  items_lem (cons v vs) fuel rest ok' le = rw (
    append_assoc (encode v) (encode_items vs) rest,
    value_lem v fuel (encode_items vs ++ rest) ok'.0 (omega arith),
    items_lem vs fuel rest ok'.1 (omega arith),
  )

  fields_lem :
      (fs acc : Fields) (fuel : ℕ) (rest : List ℕ)
      → ValidFields fs
      → AllBefore acc fs
      → depth_fields fs ≤ fuel
      → decode_fields (decode_at (suc fuel)) (count_fields fs) acc (encode_fields fs ++ rest)
        ≡ ok (join acc fs, rest)
  fields_lem end acc fuel rest ok' before le = rw join-end
  fields_lem (field k v fs) acc fuel rest ok' before le = rw (
    entry_code k v fs rest,
    decode_field_lem (decode_at (suc fuel)) acc k v (encode v) (encode_fields fs ++ rest) ok'.0
        before.0 (omega (arith, depth-le v))
        (value_lem v fuel (encode_fields fs ++ rest) ok'.1 (omega arith)),
    fields_lem fs (join acc (field k v end)) fuel rest ok'.3
        (AllBefore-join acc k v fs before.1 ok'.2) (omega arith),
    join_assoc acc k v fs,
  )

-- What `encode` wrote for a valid value, `decode` reads back as the same value, and leaves what
-- follows it, if the fuel is no less than the bytes.
pub decode_at-encode :
    (v : Value) (fuel : ℕ) (rest : List ℕ)
    → Valid v
    → length (encode v) ≤ fuel
    → decode_at (suc fuel) null (encode v ++ rest) ≡ ok (v, rest)
decode_at-encode v fuel rest h le = value_lem v fuel rest h (omega (arith, depth-le v))

-- A value within the limits of the format that is encoded and decoded comes back, whatever bytes
-- follow it.
pub decode-encode : (v : Value) (rest : List ℕ) → Valid v → decode (encode v ++ rest) ≡ ok v
unfolding decode
decode-encode v rest h = rw (
    decode_at-encode v (length (encode v ++ rest)) rest h
      (omega (arith, length-append (encode v) rest)))
