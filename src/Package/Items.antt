-- ===== src/Package/Items.antt =====
-- Whole messages: values that are written to a `CPackage` one after another and read back, and
-- values that are filled in later.
use lce.Prelude.{
  ℕ, ◌+◌, ◌^◌, ◌≤◌, ◌<◌, ◌≡◌, refl, sym, ap, ◌∙◌, List, [], ◌∷◌, ◌++◌, append_assoc, append-nil,
  length, length-append, take_of_append, drop_of_append, drop-append_le, lt→ltb, le→ltb, le→leb,
  arith,
}
use lce.Prelude.Words.{int_of, be_bytes, be_value, length-be_bytes, be_value-be_bytes}
use lce.Package.{
  Package, Outcome, ok, ◌>>=◌, write_bytes, write_word, put_word, replace, write_pos, room, advance,
  get_word, read, read_sized,
}
use lce.Package.Left.{Left, length-Left, room_lem, advance-Left, fetch_lem}
use lce.Package.Reads.{signed_room}

-- A value that was reserved by `write` and filled in by `writePos`, whatever has been written behind
-- it, stands there as if it had been written at once.
pub write_pos-write_word :
    (n : ℕ) (p : Package) (v new : ℕ) (more : List ℕ)
    → write_pos n (write_bytes (write_word n p v).0 more) new (write_word n p v).1
      ≡ ok (write_bytes (write_word n p new).0 more) tt
unfolding write_pos write_bytes write_word replace
write_pos-write_word n p v new more = rw (
  append_assoc p.bytes (be_bytes n v) more,
  le→ltb (length (p.bytes ++ (be_bytes n v ++ more))) (length p.bytes)
      (omega (arith, length-append p.bytes (be_bytes n v ++ more))),
  take_of_append (length p.bytes) p.bytes (be_bytes n v ++ more) refl,
  drop_of_append (length p.bytes) p.bytes (be_bytes n v ++ more) refl,
  drop_of_append n (be_bytes n v) more (length-be_bytes n v),
  append_assoc p.bytes (be_bytes n new) more,
)

-- a word of `n` bytes, or bytes behind their length in `n` bytes
pub data Item : Type 0 where
  word : ℕ → ℕ → Item
  text : ℕ → List ℕ → Item

pub data Shape : Type 0 where
  word_shape : ℕ → Shape
  text_shape : ℕ → Shape

abbrev pub shape : Item → Shape
shape (word n v) = word_shape n
shape (text n bs) = text_shape n

abbrev pub shapes : List Item → List Shape
shapes [] = []
shapes (i ∷ is) = shape i ∷ shapes is

-- A sender writes its values with `<<`.
unfoldable pub put_items : Package → List Item → Package
put_items p [] = p
put_items p (word n v ∷ is) = put_items (put_word n p v) is
put_items p (text n bs ∷ is) = put_items (write_bytes (put_word n p (length bs)) bs) is

-- A receiver reads them with `>>` and `readString1`, `readString2` or `readString4`.
unfoldable pub get_items : ℕ → Package → List Shape → Outcome (List Item)
get_items head p [] = ok p []
get_items head p (word_shape n ∷ ss) =
    get_word head n p >>= λ q v. get_items head q ss >>= λ r is. ok r (word n v ∷ is)
get_items head p (text_shape n ∷ ss) =
    read_sized head n p >>= λ q bs. get_items head q ss >>= λ r is. ok r (text n bs ∷ is)

-- Values that their fields can hold.
abbrev pub Fits : List Item → Type 0
Fits [] = Unit {0}
Fits (word n v ∷ is) = (v < 256 ^ n) × Fits is
Fits (text n bs ∷ is) = (n < 2 ^ 31) × (length bs < 256 ^ n) × Fits is

abbrev item_bytes : Item → List ℕ
item_bytes (word n v) = be_bytes n v
item_bytes (text n bs) = be_bytes n (length bs) ++ bs

items_bytes : List Item → List ℕ
items_bytes [] = []
items_bytes (i ∷ is) = item_bytes i ++ items_bytes is

put_items_lem :
    (is : List Item) (p : Package) → put_items p is ≡ record p { bytes = p.bytes ++ items_bytes is }
unfolding put_items items_bytes put_word write_bytes
put_items_lem [] p = ap (λ bs. record p { bytes = bs }) (sym (append-nil p.bytes))
put_items_lem (word n v ∷ is) p =
    put_items_lem is (put_word n p v)
    ∙ ap (λ bs. record p { bytes = bs }) (append_assoc p.bytes (be_bytes n v) (items_bytes is))
put_items_lem (text n bs ∷ is) p =
    put_items_lem is (write_bytes (put_word n p (length bs)) bs)
    ∙ ap (λ l. record p { bytes = l }) (simp append_assoc)

regroup :
    (n : ℕ) (bs : List ℕ) (is : List Item) (rest : List ℕ)
    → ((be_bytes n (length bs) ++ bs) ++ items_bytes is) ++ rest
      ≡ be_bytes n (length bs) ++ (bs ++ (items_bytes is ++ rest))
regroup n bs is rest = simp append_assoc

module _ {head : ℕ} where
  got_word :
      {p : Package} (n v : ℕ) (rest : List ℕ)
      → Left head p (be_bytes n v ++ rest)
      → v < 256 ^ n
      → (get_word head n p ≡ ok (advance head p n) v) × Left head (advance head p n) rest
  unfolding get_word
  got_word {p} n v rest h fits = (
    rw (
      le→leb n (room head p) (omega (arith, room_lem (be_bytes n v ++ rest) h, long)),
      fetch_lem (be_bytes n v ++ rest) h n be_value long,
      take_of_append n (be_bytes n v) rest (length-be_bytes n v),
      be_value-be_bytes n v fits,
    ),
    rw (sym (drop_of_append n (be_bytes n v) rest (length-be_bytes n v)))
        (advance-Left (be_bytes n v ++ rest) h n long),
  )
    where
      long : n ≤ length (be_bytes n v ++ rest)
      long = omega (arith, length-append (be_bytes n v) rest, length-be_bytes n v)

  got_text :
      {p : Package} (n : ℕ) (bs rest : List ℕ)
      → Left head p (be_bytes n (length bs) ++ (bs ++ rest))
      → n < 2 ^ 31
      → length bs < 256 ^ n
      → (q : Package) × (read_sized head n p ≡ ok q bs) × Left head q rest
  unfolding read_sized read
  got_text {p} n bs rest h small fits = (
    advance head q (length bs),
    rw (
      signed_room all h n small,
      le→leb n (length all) long,
      fetch_lem all h n be_value long,
      take_of_append n (be_bytes n (length bs)) (bs ++ rest) (length-be_bytes n (length bs)),
      be_value-be_bytes n (length bs) fits,
      word,
      signed_room (bs ++ rest) left (length bs) short,
      le→leb (length bs) (length (bs ++ rest)) enough,
      lt→ltb (length bs) (2 ^ 63) (omega (arith, short)),
      fetch_lem (bs ++ rest) left (length bs) (λ l. l) enough,
      take_of_append (length bs) bs rest refl,
    ),
    rw (sym (drop_of_append (length bs) bs rest refl))
        (advance-Left (bs ++ rest) left (length bs) enough),
  )
    where
      all : List ℕ
      all = be_bytes n (length bs) ++ (bs ++ rest)

      q : Package
      q = advance head p n

      enough : length bs ≤ length (bs ++ rest)
      enough = omega (arith, length-append bs rest)

      total : length all ≡ n + length (bs ++ rest)
      total =
          length-append (be_bytes n (length bs)) (bs ++ rest)
          ∙ ap (λ k. k + length (bs ++ rest)) (length-be_bytes n (length bs))

      long : n ≤ length all
      long = omega (arith, total)

      short : length bs < 2 ^ 31
      short = omega (arith, total, enough, length-Left all h, h.small)

      word : int_of (length bs) ≡ length bs
      word = ground (arith, short)

      left : Left head q (bs ++ rest)
      left =
          rw
            (sym (
              drop_of_append n (be_bytes n (length bs)) (bs ++ rest)
                (length-be_bytes n (length bs))))
            (advance-Left all h n long)

  got_items :
      (is : List Item) {p : Package} (rest : List ℕ)
      → Left head p (items_bytes is ++ rest)
      → Fits is
      → (q : Package) × (get_items head p (shapes is) ≡ ok q is) × Left head q rest
  unfolding get_items items_bytes
  got_items [] {p} rest h fits = (p, refl, h)
  got_items (word n v ∷ is) {p} rest h fits =
      let (e, left) =
        got_word {p = p} n v (items_bytes is ++ rest)
          (rw (sym (append_assoc (be_bytes n v) (items_bytes is) rest)) h) fits.0 in
      let (q, e', left') = got_items is rest left fits.1 in (q, rw (e, e'), left')
  got_items (text n bs ∷ is) {p} rest h fits =
      let (q, e, left) =
        got_text {p = p} n bs (items_bytes is ++ rest) (rw (sym (regroup n bs is rest)) h) fits.0
          fits.1 in
      let (r, e', left') = got_items is rest left fits.2 in (r, rw (e, e'), left')

-- A message of values that their fields can hold, written to a package that has nothing left to read,
-- is read back value by value, and then there is nothing left again. The package stays below 2^31
-- bytes.
pub get_items-put_items :
    (head : ℕ) {p : Package} (is : List Item)
    → Left head p []
    → Fits is
    → length (put_items p is).bytes < 2 ^ 31
    → (q : Package) × (get_items head (put_items p is) (shapes is) ≡ ok q is) × Left head q []
get_items-put_items head {p} is h fits small = rw (put_items_lem is p) (got_items is [] filled fits)
  where
    size : length (p.bytes ++ items_bytes is) < 2 ^ 31
    size = rw (sym (ap (λ r. length r.bytes) (put_items_lem is p))) small

    filled : Left head (record p { bytes = p.bytes ++ items_bytes is }) (items_bytes is ++ [])
    filled = record {
      small = size;
      inside = omega (arith, h.inside, length-append p.bytes (items_bytes is));
      behind =
          drop-append_le (head + p.pos) p.bytes (items_bytes is) h.inside
          ∙ ap (λ l. l ++ items_bytes is) h.behind
          ∙ sym (append-nil (items_bytes is));
    }
