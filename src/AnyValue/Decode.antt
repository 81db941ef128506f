-- ===== src/AnyValue/Decode.antt =====
-- `decode` of include/CAnyValue.h. The data from `dwDecodePos` on are the list that is left, so
-- `check(dwDecodePos + n, dwDataSize)` asks for `n` bytes in it. A value is decoded into an object
-- that may hold one already, as `map[name]` does for a name that occurs twice. `throws` is the
-- `runtime_error`; `fault` is the use of a stale union member as a pointer to another type; `deep`
-- is fuel that ran out. The objects of a failed call are dropped.
use lce.Prelude.{
  ℕ, zero, suc, ◌+◌, ◌-◌, ◌/◌, ◌^◌, Bool, true, false, List, [], ◌∷◌, length, take, drop, ltb, ◌==◌,
  if◌then◌else◌,
}
use lce.Prelude.Words.{be_value}
use lce.AnyValue.Tag
use lce.AnyValue.{
  Value, null, stale, boolean, integer, sinteger, float, string, vector, map, Items, nil, cons,
  Fields, end, field,
}

pub data Result {ℓ} (A : Type ℓ) : Type ℓ where
  ok : A → Result A
  throws : Result A
  fault : Result A
  deep : Result A

infixl 5 ◌>>=◌
abbrev pub ◌>>=◌ {ℓ κ} : {A : Type ℓ} {B : Type κ} → Result A → (A → Result B) → Result B
ok a >>= f = f a
throws >>= f = throws
fault >>= f = fault
deep >>= f = deep

-- `check`, and a big-endian word of `n` bytes after it
unfoldable pub read_word : ℕ → List ℕ → Result (ℕ × List ℕ)
read_word n bs = if ltb (length bs) n then throws else ok (be_value (take n bs), drop n bs)

-- `check`, and `n` bytes after it
unfoldable pub read_bytes : ℕ → List ℕ → Result (List ℕ × List ℕ)
read_bytes n bs = if ltb (length bs) n then throws else ok (take n bs, drop n bs)

-- A pattern of `n` bytes as an `intN_t`, widened to 64 bits.
unfoldable pub sign_extend : ℕ → ℕ → ℕ
sign_extend n v = if ltb v (256 ^ n / 2) then v else v + (2 ^ 64 - 256 ^ n)

-- The type becomes Null, and the union stays: `decode_null`.
unfoldable pub decode_null : Value → Value
decode_null null = null
decode_null (stale v) = stale v
decode_null (boolean zero) = null
decode_null (integer zero) = null
decode_null (sinteger zero) = null
decode_null (float zero) = null
decode_null v = stale v

-- `initAsBuf`, `initAsVector` and `initAsMap`: how the value at hand is taken as a string, array or
-- object. The function puts the new contents back into it.
unfoldable pub init_as_buf : Value → Result (List ℕ → Value)
init_as_buf null = ok string
init_as_buf (string bs) = ok string
init_as_buf (stale (string bs)) = ok (λ new. stale (string new))
init_as_buf (stale v) = fault
init_as_buf v = throws

unfoldable pub init_as_vector : Value → Result (Items × (Items → Value))
init_as_vector null = ok (nil, vector)
init_as_vector (vector vs) = ok (vs, vector)
init_as_vector (stale (vector vs)) = ok (vs, λ new. stale (vector new))
init_as_vector (stale v) = fault
init_as_vector v = throws

unfoldable pub init_as_map : Value → Result (Fields × (Fields → Value))
init_as_map null = ok (end, map)
init_as_map (map fs) = ok (fs, map)
init_as_map (stale (map fs)) = ok (fs, λ new. stale (map new))
init_as_map (stale v) = fault
init_as_map v = throws

-- `std::string`'s order, of unsigned bytes
unfoldable pub less : List ℕ → List ℕ → Bool
less xs [] = false
less [] (y ∷ ys) = true
less (x ∷ xs) (y ∷ ys) =
    let rest = less xs ys in if ltb x y then true else (if ltb y x then false else rest)

-- `map[name]`: the entry of that name, or a new Null one
unfoldable pub get : List ℕ → Fields → Value
get k end = null
get k (field j v fs) =
    let rest = get k fs in if less j k then rest else (if less k j then null else v)

-- the map with the entry of that name put in its place
unfoldable pub put : List ℕ → Value → Fields → Fields
put k v end = field k v end
put k v (field j w fs) =
    let rest = put k v fs in
    if less j k
    then field j w rest
    else (if less k j then field k v (field j w fs) else field k v fs)

-- The loops of `decode_vector` and `decode_map` over the decoder of the elements. The elements past
-- the new size are gone, and missing ones are Null: `resize`.
module _ (decode_value : Value → List ℕ → Result (Value × List ℕ)) where
  unfoldable pub decode_items : ℕ → Items → List ℕ → Result (Items × List ℕ)
  decode_items zero vs bs = ok (nil, bs)
  decode_items (suc n) nil bs = do
    (v, rest) ← decode_value null bs
    (vs', rest') ← decode_items n nil rest
    ok (cons v vs', rest')
  decode_items (suc n) (cons v vs) bs = do
    (v', rest) ← decode_value v bs
    (vs', rest') ← decode_items n vs rest
    ok (cons v' vs', rest')

  -- one round of the loop of `decode_map`
  unfoldable pub decode_field : Fields → List ℕ → Result (Fields × List ℕ)
  decode_field fs bs = do
    (len, after_len) ← read_word 1 bs
    (name, rest) ← read_bytes len after_len
    if ltb 0 (length rest)
        then (do (v, rest') ← decode_value (get name fs) rest; ok (put name v fs, rest'))
        else ok (fs, rest)

  unfoldable pub decode_fields : ℕ → Fields → List ℕ → Result (Fields × List ℕ)
  decode_fields zero fs bs = ok (fs, bs)
  decode_fields (suc n) fs bs = do (fs', rest) ← decode_field fs bs; decode_fields n fs' rest

  unfoldable pub decode_vector : Value → List ℕ → Result (Value × List ℕ)
  decode_vector this bs = do
    (vs, rebuild) ← init_as_vector this
    (n, rest) ← read_word 4 bs
    (vs', rest') ← decode_items n vs rest
    ok (rebuild vs', rest')

  unfoldable pub decode_map : Value → List ℕ → Result (Value × List ℕ)
  decode_map this bs = do
    (fs, rebuild) ← init_as_map this
    (n, rest) ← read_word 4 bs
    (fs', rest') ← decode_fields n fs rest
    ok (rebuild fs', rest')

-- `decode_bool`, `decode_integer1` to `decode_sinteger8` and `decode_float`: a word of `n` bytes
unfoldable pub decode_number : ℕ → (ℕ → Value) → List ℕ → Result (Value × List ℕ)
decode_number n build bs = do (v, rest) ← read_word n bs; ok (build v, rest)

-- `decode_string1`, `decode_string2` and `decode_string4`: the length has `n` bytes.
unfoldable pub decode_string : ℕ → Value → List ℕ → Result (Value × List ℕ)
decode_string n this bs = do
  rebuild ← init_as_buf this
  (len, rest) ← read_word n bs
  (new, rest') ← read_bytes len rest
  ok (rebuild new, rest')

-- `arDecodeFunc[m_ucSubType]`; an unknown tag and EXT read nothing and leave the object as it is.
unfoldable pub dispatch :
    (Value → List ℕ → Result (Value × List ℕ)) → ℕ → Value → List ℕ → Result (Value × List ℕ)
dispatch decode_value tag this bs =
    if tag == Tag.integer1
    then decode_number 1 integer bs
    else (if tag == Tag.integer2
        then decode_number 2 integer bs
        else (if tag == Tag.integer4
            then decode_number 4 integer bs
            else (if tag == Tag.integer8
                then decode_number 8 integer bs
                else (if tag == Tag.string1
                    then decode_string 1 this bs
                    else (if tag == Tag.string2
                        then decode_string 2 this bs
                        else (if tag == Tag.string4
                            then decode_string 4 this bs
                            else (if tag == Tag.vector
                                then decode_vector decode_value this bs
                                else (if tag == Tag.map
                                    then decode_map decode_value this bs
                                    else (if tag == Tag.float
                                        then decode_number 8 float bs
                                        else (if tag == Tag.boolean
                                            then decode_number 1 boolean bs
                                            else (if tag == Tag.null
                                                then ok (decode_null this, bs)
                                                else (if tag == Tag.sinteger1
                                                    then decode_number 1
                                                        (λ v. sinteger (sign_extend 1 v)) bs
                                                    else (if tag == Tag.sinteger2
                                                        then decode_number 2
                                                            (λ v. sinteger (sign_extend 2 v)) bs
                                                        else (if tag == Tag.sinteger4
                                                            then decode_number 4
                                                            (λ v. sinteger (sign_extend 4 v)) bs
                                                            else (if tag == Tag.sinteger8
                                                            then decode_number 8 sinteger bs
                                                            else ok (this, bs))))))))))))))))

-- `decode(dwDecodePos, pData, dwDataSize)`, on fuel for the nesting
unfoldable pub decode_at : ℕ → Value → List ℕ → Result (Value × List ℕ)
decode_at zero this bs = deep
decode_at (suc fuel) this bs = do
  (tag, rest) ← read_word 1 bs
  dispatch (decode_at fuel) tag this rest

-- `decode(pData, dwDataSize)` of a fresh object; the data left over are not looked at.
unfoldable pub decode : List ℕ → Result Value
decode bs = do (v, rest) ← decode_at (suc (length bs)) null bs; ok v
