-- ===== src/AnyValue.antt =====
-- `CAnyValue` of include/CAnyValue.h: the values of the serialisation format, and the bytes that
-- `encode` appends for one. A number is the 64-bit pattern of `m_value`; a `float` is its bit
-- pattern; a `map` lists its entries in the order of `std::map`. `stale v` is a value of type Null
-- whose union still holds what it held as `v`. `m_ucSubType` and `m_bHasData` are left out: neither
-- `encode` nor the outcome of `decode` depends on them.
pub mod Tag
pub mod Decode
pub mod Read
pub mod Valid
pub mod Total
pub mod Scalars
pub mod RoundTrip
use lce.Prelude.{
  ℕ, suc, ◌+◌, ◌-◌, ◌^◌, Bool, ◌||◌, List, [], ◌∷◌, ◌++◌, length, ltb, leb, if◌then◌else◌,
}
use lce.Prelude.Words.{be_bytes}

mutual
  pub data Value : Type 0 where
    null : Value
    stale : Value → Value
    boolean : ℕ → Value
    integer : ℕ → Value
    sinteger : ℕ → Value
    float : ℕ → Value
    string : List ℕ → Value
    vector : Items → Value
    map : Fields → Value

  pub data Items : Type 0 where
    nil : Items
    cons : Value → Items → Items

  pub data Fields : Type 0 where
    end : Fields
    field : List ℕ → Value → Fields → Fields

unfoldable pub encode_integer : ℕ → List ℕ
encode_integer v =
    if ltb v 0xFF
    then Tag.integer1 ∷ be_bytes 1 v
    else (if leb v 0xFFFF
        then Tag.integer2 ∷ be_bytes 2 v
        else (if leb v 0xFFFFFFFF
            then Tag.integer4 ∷ be_bytes 4 v
            else Tag.integer8 ∷ be_bytes 8 v))

-- `-k <= (int64_t)v`, for a pattern `v` of 64 bits
abbrev pub at_least_minus : ℕ → ℕ → Bool
at_least_minus k v = ltb v (2 ^ 63) || leb (2 ^ 64 - k) v

unfoldable pub encode_sinteger : ℕ → List ℕ
encode_sinteger v =
    if at_least_minus 128 v
    then Tag.sinteger1 ∷ be_bytes 1 v
    else (if at_least_minus 32768 v
        then Tag.sinteger2 ∷ be_bytes 2 v
        else (if at_least_minus 2147483648 v
            then Tag.sinteger4 ∷ be_bytes 4 v
            else Tag.sinteger8 ∷ be_bytes 8 v))

unfoldable pub encode_bool : ℕ → List ℕ
encode_bool v = Tag.boolean ∷ be_bytes 1 v

unfoldable pub encode_float : ℕ → List ℕ
encode_float v = Tag.float ∷ be_bytes 8 v

unfoldable pub encode_string : List ℕ → List ℕ
encode_string bs =
    (if leb (length bs) 0xFF
      then Tag.string1 ∷ be_bytes 1 (length bs)
      else (if leb (length bs) 0xFFFF
          then Tag.string2 ∷ be_bytes 2 (length bs)
          else Tag.string4 ∷ be_bytes 4 (length bs)))
    ++ bs

unfoldable pub encode_none : List ℕ
encode_none = Tag.null ∷ []

abbrev pub count_items : Items → ℕ
count_items nil = 0
count_items (cons v vs) = suc (count_items vs)

abbrev pub count_fields : Fields → ℕ
count_fields end = 0
count_fields (field k v fs) = suc (count_fields fs)

-- `encode`, with `encode_vector` and `encode_map` as the loops over the elements and the entries.
-- The count of a map, written once the entries have been, stands where its place was kept.
unfoldable mutual
  pub encode : Value → List ℕ
  encode null = encode_none
  encode (stale v) = encode_none
  encode (boolean v) = encode_bool v
  encode (integer v) = encode_integer v
  encode (sinteger v) = encode_sinteger v
  encode (float v) = encode_float v
  encode (string bs) = encode_string bs
  encode (vector vs) = Tag.vector ∷ be_bytes 4 (count_items vs) ++ encode_items vs
  encode (map fs) = Tag.map ∷ be_bytes 4 (count_fields fs) ++ encode_fields fs

  pub encode_items : Items → List ℕ
  encode_items nil = []
  encode_items (cons v vs) = encode v ++ encode_items vs

  pub encode_fields : Fields → List ℕ
  encode_fields end = []
  encode_fields (field k v fs) = be_bytes 1 (length k) ++ (k ++ (encode v ++ encode_fields fs))
