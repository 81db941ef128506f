-- ===== src/AnyValue/Total.antt =====
-- The decoder's fuel is enough for every input, and no read goes past the data.
use lce.Prelude.{
  ℕ, zero, suc, ◌≤◌, ◌<◌, ◌≡◌, ◌≢◌, refl, List, [], ◌∷◌, length, length-drop, ltb, if◌then◌else◌,
  Bool-cases, inl, inr, arith,
}
use lce.AnyValue.{Value, null, integer, boolean, sinteger, float, Items, nil, cons, Fields}
use lce.AnyValue.Read.{read_byte}
use lce.AnyValue.Decode.{
  Result, ok, throws, fault, deep, ◌>>=◌, read_word, read_bytes, sign_extend, init_as_buf,
  init_as_vector, init_as_map, get, put, decode_items, decode_field, decode_fields, decode_vector,
  decode_map, decode_number, decode_string, dispatch, decode_at, decode,
}

-- The outcome is no lack of fuel, and leaves at most `n` bytes.
abbrev pub Within : {A : Type 0} → ℕ → Result (A × List ℕ) → Type 0
Within n (ok (a, rest)) = length rest ≤ n
Within n throws = Unit {0}
Within n fault = Unit {0}
Within n deep = ⊥

Within-bind :
    {A B : Type 0} (n : ℕ) (m : Result (A × List ℕ)) (f : A × List ℕ → Result (B × List ℕ))
    → Within n m
    → ((a : A) (rest : List ℕ) → length rest ≤ n → Within n (f (a, rest)))
    → Within n (m >>= f)
Within-bind n (ok (a, rest)) f h k = k a rest h
Within-bind n throws f h k = tt
Within-bind n fault f h k = tt
Within-bind n deep f h k = elim h [ ]

Within-mono : {A : Type 0} (n k : ℕ) (m : Result (A × List ℕ)) → n ≤ k → Within n m → Within k m
Within-mono n k (ok (a, rest)) le h = omega arith
Within-mono n k throws le h = tt
Within-mono n k fault le h = tt
Within-mono n k deep le h = h

read_word-Within : (k n : ℕ) (bs : List ℕ) → length bs ≤ n → Within n (read_word k bs)
unfolding read_word
read_word-Within k n bs h = ground (arith, length-drop k bs)

read_bytes-Within : (k n : ℕ) (bs : List ℕ) → length bs ≤ n → Within n (read_bytes k bs)
unfolding read_bytes
read_bytes-Within k n bs h = ground (arith, length-drop k bs)

decode_number-Within :
    (k n : ℕ) (build : ℕ → Value) (bs : List ℕ)
    → length bs ≤ n
    → Within n (decode_number k build bs)
unfolding decode_number
decode_number-Within k n build bs h =
    Within-bind n (read_word k bs) _ (read_word-Within k n bs h) (λ v rest le. le)

-- The kinds of value that an object can be taken as are found without fuel.
abbrev NotDeep : {A : Type 0} → Result A → Type 0
NotDeep (ok a) = Unit {0}
NotDeep throws = Unit {0}
NotDeep fault = Unit {0}
NotDeep deep = ⊥

NotDeep-bind :
    {A B : Type 0} (n : ℕ) (m : Result A) (f : A → Result (B × List ℕ))
    → NotDeep m
    → ((a : A) → Within n (f a))
    → Within n (m >>= f)
NotDeep-bind n (ok a) f h k = k a
NotDeep-bind n throws f h k = tt
NotDeep-bind n fault f h k = tt
NotDeep-bind n deep f h k = elim h [ ]

init_as_buf-NotDeep : (v : Value) → NotDeep (init_as_buf v)
unfolding init_as_buf
init_as_buf-NotDeep v = ground arith

init_as_vector-NotDeep : (v : Value) → NotDeep (init_as_vector v)
unfolding init_as_vector
init_as_vector-NotDeep v = ground arith

init_as_map-NotDeep : (v : Value) → NotDeep (init_as_map v)
unfolding init_as_map
init_as_map-NotDeep v = ground arith

decode_string-Within :
    (k n : ℕ) (v : Value) (bs : List ℕ) → length bs ≤ n → Within n (decode_string k v bs)
unfolding decode_string
decode_string-Within k n v bs h =
    NotDeep-bind n (init_as_buf v) _ (init_as_buf-NotDeep v) (λ rebuild.
      Within-bind n (read_word k bs) _ (read_word-Within k n bs h) (λ len rest le.
        Within-bind n (read_bytes len rest) _ (read_bytes-Within len n rest le)
          (λ new rest' le'. le')))

module _ (dec : Value → List ℕ → Result (Value × List ℕ)) (n : ℕ)
    (good : (v : Value) (bs : List ℕ) → length bs ≤ n → Within n (dec v bs)) where
  decode_items-Within :
      (k : ℕ) (vs : Items) (bs : List ℕ) → length bs ≤ n → Within n (decode_items dec k vs bs)
  unfolding decode_items
  decode_items-Within zero vs bs h = h
  decode_items-Within (suc k) nil bs h =
      Within-bind n (dec null bs) _ (good null bs h) (λ v rest le.
        Within-bind n (decode_items dec k nil rest) _ (decode_items-Within k nil rest le)
          (λ vs' rest' le'. le'))
  decode_items-Within (suc k) (cons v vs) bs h =
      Within-bind n (dec v bs) _ (good v bs h) (λ v' rest le.
        Within-bind n (decode_items dec k vs rest) _ (decode_items-Within k vs rest le)
          (λ vs' rest' le'. le'))

  decode_field-Within :
      (fs : Fields) (bs : List ℕ) → length bs ≤ n → Within n (decode_field dec fs bs)
  unfolding decode_field
  decode_field-Within fs bs h =
      Within-bind n (read_word 1 bs) _ (read_word-Within 1 n bs h) (λ len after le.
        Within-bind n (read_bytes len after) _ (read_bytes-Within len n after le)
          (λ name rest le'. entry name rest le'))
    where
      entry :
          (name rest : List ℕ)
          → length rest ≤ n
          → Within n (
              if ltb 0 (length rest)
              then (do (v, rest') ← dec (get name fs) rest; ok (put name v fs, rest'))
              else ok (fs, rest))
      entry name rest le = elim (Bool-cases (ltb 0 (length rest))) [
        | inl e ↦ rw e (
            Within-bind n (dec (get name fs) rest) _ (good (get name fs) rest le)
              (λ v rest' le'. le'))
        | inr e ↦ rw e le
      ]

  decode_fields-Within :
      (k : ℕ) (fs : Fields) (bs : List ℕ) → length bs ≤ n → Within n (decode_fields dec k fs bs)
  unfolding decode_fields
  decode_fields-Within zero fs bs h = h
  decode_fields-Within (suc k) fs bs h =
      Within-bind n (decode_field dec fs bs) _ (decode_field-Within fs bs h)
        (λ fs' rest le. decode_fields-Within k fs' rest le)

  decode_vector-Within :
      (v : Value) (bs : List ℕ) → length bs ≤ n → Within n (decode_vector dec v bs)
  unfolding decode_vector
  decode_vector-Within v bs h =
      NotDeep-bind n (init_as_vector v) _ (init_as_vector-NotDeep v) (λ (vs, rebuild).
        Within-bind n (read_word 4 bs) _ (read_word-Within 4 n bs h) (λ k rest le.
          Within-bind n (decode_items dec k vs rest) _ (decode_items-Within k vs rest le)
            (λ vs' rest' le'. le')))

  decode_map-Within : (v : Value) (bs : List ℕ) → length bs ≤ n → Within n (decode_map dec v bs)
  unfolding decode_map
  decode_map-Within v bs h =
      NotDeep-bind n (init_as_map v) _ (init_as_map-NotDeep v) (λ (fs, rebuild).
        Within-bind n (read_word 4 bs) _ (read_word-Within 4 n bs h) (λ k rest le.
          Within-bind n (decode_fields dec k fs rest) _ (decode_fields-Within k fs rest le)
            (λ fs' rest' le'. le')))

  dispatch-Within :
      (tag : ℕ) (v : Value) (bs : List ℕ) → length bs ≤ n → Within n (dispatch dec tag v bs)
  unfolding dispatch
  dispatch-Within tag v bs h = ground (
    arith,
    decode_number-Within 1 n integer bs h,
    decode_number-Within 2 n integer bs h,
    decode_number-Within 4 n integer bs h,
    decode_number-Within 8 n integer bs h,
    decode_string-Within 1 n v bs h,
    decode_string-Within 2 n v bs h,
    decode_string-Within 4 n v bs h,
    decode_vector-Within v bs h,
    decode_map-Within v bs h,
    decode_number-Within 8 n float bs h,
    decode_number-Within 1 n boolean bs h,
    decode_number-Within 1 n (λ (x : ℕ). sinteger (sign_extend 1 x)) bs h,
    decode_number-Within 2 n (λ (x : ℕ). sinteger (sign_extend 2 x)) bs h,
    decode_number-Within 4 n (λ (x : ℕ). sinteger (sign_extend 4 x)) bs h,
    decode_number-Within 8 n sinteger bs h,
  )

read_nothing : read_word 1 [] ≡ throws
unfolding read_word
read_nothing = refl

-- With more fuel than bytes, decoding ends for another reason than fuel, and leaves at most the
-- bytes that it was given.
pub decode_at-Within :
    (fuel : ℕ) (v : Value) (bs : List ℕ)
    → length bs < fuel
    → Within (length bs) (decode_at fuel v bs)
unfolding decode_at
decode_at-Within zero v bs h = absurd (omega arith)
decode_at-Within (suc fuel) v [] h = rw (read_nothing) tt
decode_at-Within (suc fuel) v (b ∷ bs) h = rw (read_byte b bs) (
    Within-mono (length bs) (suc (length bs)) (dispatch (decode_at fuel) b v bs) (omega arith) (
      dispatch-Within (decode_at fuel) (length bs)
        (λ w cs le.
          Within-mono (length cs) (length bs) (decode_at fuel w cs) le
            (decode_at-Within fuel w cs (omega arith)))
        b v bs (omega arith)))

-- `decode` always comes to an end by itself: on no input does the model's fuel run out.
pub decode_total : (bs : List ℕ) → decode bs ≢ deep
unfolding decode
decode_total bs =
    keeps (decode_at (suc (length bs)) null bs)
      (decode_at-Within (suc (length bs)) null bs (omega arith))
  where
    keeps : (r : Result (Value × List ℕ)) → Within (length bs) r → (r >>= λ (v, rest). ok v) ≢ deep
    keeps (ok (v, rest)) h = λ e. cc
    keeps throws h = λ e. cc
    keeps fault h = λ e. cc
    keeps deep h = elim h [ ]
