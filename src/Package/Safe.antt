-- ===== src/Package/Safe.antt =====
-- No sequence of checked reads leaves a `CPackage`, whatever it holds.
use lce.Prelude.{
  ℕ, ◌-◌, ◌^◌, ◌≤◌, ◌<◌, ◌≡◌, refl, sym, ◌∙◌, ◌⊎◌, inl, inr, List, [], ◌∷◌, true, length, take,
  drop, Option, none, some, le→leb, lt→leb, le→ltb, lt→ltb, arith,
}
use native.Mathlib.Decide.{dec_lt}
use lce.Prelude.Words.{int_of, le_signed, be_value}
use lce.Package.{
  Package, Outcome, ok, throws, fault, room, advance, get_word, read, read_into, read_sized,
}
use lce.Package.Left.{Left, length-Left, room_lem, advance-Left, fetch_lem}
use lce.Package.Reads.{Takes, get_word_lem, read_lem, signed_room}

-- `>>` of a word, `read` into a string and into a buffer, and `readString1` and its likes
pub data Request : Type 0 where
  want_word : ℕ → Request
  want_bytes : ℕ → Request
  want_into : ℕ → Request
  want_text : ℕ → Request

-- What a caller that catches the class's errors goes on with; `none` after a fault.
abbrev pub after : {A : Type 0} → Outcome A → Option Package
after (ok p a) = some p
after (throws e p) = some p
after fault = none

abbrev pub perform : ℕ → Package → Request → Option Package
perform head p (want_word n) = after (get_word head n p)
perform head p (want_bytes n) = after (read head p n)
perform head p (want_into n) = after (read_into head p n)
perform head p (want_text n) = after (read_sized head n p)

unfoldable pub perform_all : ℕ → Package → List Request → Option Package
perform_all head p [] = some p
perform_all head p (r ∷ rs) = elim (perform head p r) [
  | none ↦ none
  | some q ↦ perform_all head q rs
]

-- Lengths that an `int` can hold, negative ones included. A length field has at most 4 bytes, and
-- the length of a read into a buffer is not negative.
abbrev pub IsInt : ℕ → Type 0
IsInt n = (n < 2 ^ 31) ⊎ ((2 ^ 64 - 2 ^ 31 ≤ n) × (n < 2 ^ 64))

abbrev pub AreInts : List Request → Type 0
AreInts [] = Unit {0}
AreInts (want_word n ∷ rs) = AreInts rs
AreInts (want_bytes n ∷ rs) = IsInt n × AreInts rs
AreInts (want_into n ∷ rs) = (n < 2 ^ 31) × AreInts rs
AreInts (want_text n ∷ rs) = (n < 2 ^ 31) × AreInts rs

AreInts-tail : (r : Request) (rs : List Request) → AreInts (r ∷ rs) → AreInts rs
AreInts-tail (want_word n) rs ints = ints
AreInts-tail (want_bytes n) rs ints = ints.1
AreInts-tail (want_into n) rs ints = ints.1
AreInts-tail (want_text n) rs ints = ints.1

-- the same bytes, and a position inside them
abbrev pub Within : ℕ → Package → Option Package → Type 0
Within head p none = ⊥
Within head p (some q) = (q.bytes ≡ p.bytes) × ((rest : List ℕ) × Left head q rest)

module _ {head : ℕ} where
  Takes-Within :
      {A : Type 0} (p : Package) (rest : List ℕ) (n : ℕ) (f : List ℕ → A) (o : Outcome A)
      → Left head p rest
      → Takes head p rest n f o
      → Within head p (after o)
  Takes-Within p rest n f (ok q a) h t = (t.2, (drop n rest, t.3))
  Takes-Within p rest n f (throws e q) h t = rw t.2 (refl, (rest, h))
  Takes-Within p rest n f fault h t = elim t [ ]

  read-Within :
      (p : Package) (rest : List ℕ) (n : ℕ)
      → Left head p rest
      → IsInt n
      → Within head p (after (read head p n))
  unfolding read
  read-Within p rest n h (inl small) =
      Takes-Within p rest n (λ bs. bs) (read head p n) h (read_lem rest h n small)
  read-Within p rest n h (inr (low, high)) =
      rw (passes, le→ltb n (2 ^ 63) (omega arith)) (refl, (rest, h))
    where
      passes : le_signed n (int_of (room head p)) ≡ true
      passes = ground (arith, room_lem rest h, length-Left rest h, h.small)

  read_into-Within :
      (p : Package) (rest : List ℕ) (n : ℕ)
      → Left head p rest
      → n < 2 ^ 31
      → Within head p (after (read_into head p n))
  unfolding read_into read
  read_into-Within p rest n h small = rw (sym same) (read-Within p rest n h (inl small))
    where
      same : read head p n ≡ read_into head p n
      same = rw (lt→ltb n (2 ^ 63) (omega arith)) refl

  read_sized-Within :
      (p : Package) (rest : List ℕ) (n : ℕ)
      → Left head p rest
      → n < 2 ^ 31
      → Within head p (after (read_sized head n p))
  unfolding read_sized
  read_sized-Within p rest n h small = elim (dec_lt (length rest) n) [
    | yes lt ↦ rw (signed_room rest h n small, lt→leb n (length rest) lt) (refl, (rest, h))
    | no le ↦
        rw
          (
            signed_room rest h n small,
            le→leb n (length rest) (omega arith),
            fetch_lem rest h n be_value (omega arith),
          )
          (read-Within (advance head p n) (drop n rest) (int_of (be_value (take n rest)))
            (advance-Left rest h n (omega arith)) (is_int (be_value (take n rest))))
  ]
    where
      is_int : (w : ℕ) → IsInt (int_of w)
      is_int w = ground arith

  perform-Within :
      (p : Package) (rest : List ℕ) (r : Request) (rs : List Request)
      → Left head p rest
      → AreInts (r ∷ rs)
      → Within head p (perform head p r)
  perform-Within p rest (want_word n) rs h ints =
      Takes-Within p rest n be_value (get_word head n p) h (get_word_lem rest h n)
  perform-Within p rest (want_bytes n) rs h ints = read-Within p rest n h ints.0
  perform-Within p rest (want_into n) rs h ints = read_into-Within p rest n h ints.0
  perform-Within p rest (want_text n) rs h ints = read_sized-Within p rest n h ints.0

  Within-step :
      (p : Package) (o : Option Package) (k : Package → Option Package)
      → Within head p o
      → ((q : Package) (rest : List ℕ) → Left head q rest → Within head q (k q))
      → Within head p (elim o [ none ↦ none | some q ↦ k q ])
  Within-step p none k w next = elim w [ ]
  Within-step p (some q) k w next = chain (k q) (next q w.1.0 w.1.1)
    where
      chain : (o : Option Package) → Within head q o → Within head p o
      chain none w' = elim w' [ ]
      chain (some r) w' = (w'.0 ∙ w.0, w'.1)

-- Whatever a package holds below 2^31 bytes, no sequence of `>>`, `read` and `readString1`, `2`, `4`
-- that starts at a position inside it reads outside its bytes, whether the reads succeed or throw,
-- and none changes the bytes. A length given to `read` into a string is any `int`, also a negative one;
-- one given to `read` into a buffer is an `int` that is not negative.
pub perform_all-Within :
    {head : ℕ} {p : Package} (rs : List Request) (rest : List ℕ)
    → Left head p rest
    → AreInts rs
    → Within head p (perform_all head p rs)
unfolding perform_all
perform_all-Within [] rest h ints = (refl, (rest, h))
perform_all-Within {head} {p} (r ∷ rs) rest h ints =
    Within-step p (perform head p r) (λ q. perform_all head q rs)
      (perform-Within p rest r rs h ints)
      (λ q rest' left. perform_all-Within {p = q} rs rest' left (AreInts-tail r rs ints))
