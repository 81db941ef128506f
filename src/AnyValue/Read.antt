-- ===== src/AnyValue/Read.antt =====
-- What the checked reads of the decoder make of words and strings that were written.
use lce.Prelude.{
  ℕ, suc, ◌^◌, ◌<◌, ◌≡◌, ap, List, ◌∷◌, ◌++◌, length, length-append, take_of_append, drop_of_append,
  le→ltb, arith,
}
use lce.Prelude.Words.{be_bytes, be_from, length-be_bytes, be_value-be_bytes}
use lce.AnyValue.Decode.{ok, read_word, read_bytes}

pub read_byte : (b : ℕ) (bs : List ℕ) → read_word 1 (b ∷ bs) ≡ ok (b, bs)
unfolding read_word be_from
read_byte b bs = rw (le→ltb (suc (length bs)) 1 (omega arith)) (ap (λ k. ok (k, bs)) (omega arith))

pub read_word-be_bytes :
    (n v : ℕ) (rest : List ℕ) → v < 256 ^ n → read_word n (be_bytes n v ++ rest) ≡ ok (v, rest)
unfolding read_word
read_word-be_bytes n v rest h = rw (
  le→ltb (length (be_bytes n v ++ rest)) n
      (omega (arith, length-append (be_bytes n v) rest, length-be_bytes n v)),
  take_of_append n (be_bytes n v) rest (length-be_bytes n v),
  drop_of_append n (be_bytes n v) rest (length-be_bytes n v),
  be_value-be_bytes n v h,
)

pub read_bytes-append :
    (n : ℕ) (bs rest : List ℕ) → length bs ≡ n → read_bytes n (bs ++ rest) ≡ ok (bs, rest)
unfolding read_bytes
read_bytes-append n bs rest h = rw (
  le→ltb (length (bs ++ rest)) n (omega (arith, length-append bs rest)),
  take_of_append n bs rest h,
  drop_of_append n bs rest h,
)
