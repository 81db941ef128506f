-- ===== src/Package/Reads.antt =====
-- The checked reads of a `CPackage` stay inside it.
use lce.Prelude.{
  ℕ, ◌^◌, ◌≤◌, ◌<◌, ◌≡◌, refl, List, length, take, drop, leb, lt→ltb, le→leb, lt→leb, arith,
}
use native.Mathlib.Decide.{dec_lt}
use lce.Prelude.Words.{int_of, le_signed, be_value}
use lce.Package.{Package, no_enough_buf, Outcome, ok, throws, fault, room, fetch, get_word, read}
use lce.Package.Left.{Left, length-Left, room_lem, advance-Left, fetch_lem}

-- A read of `n` bytes either has them, and hands out what `f` makes of them and stands behind them,
-- or throws and changes nothing, exactly if there are fewer.
abbrev pub Takes :
    {A : Type 0} (head : ℕ) → Package → List ℕ → ℕ → (List ℕ → A) → Outcome A → Type 0
Takes head p rest n f (ok p' a) =
    (n ≤ length rest) × (a ≡ f (take n rest)) × (p'.bytes ≡ p.bytes) × Left head p' (drop n rest)
Takes head p rest n f (throws e p') = (length rest < n) × (e ≡ no_enough_buf) × (p' ≡ p)
Takes head p rest n f fault = ⊥

module _ {head : ℕ} {p : Package} (rest : List ℕ) (h : Left head p rest) where
  fetch-Takes :
      {A : Type 0} (n : ℕ) (f : List ℕ → A)
      → n ≤ length rest
      → Takes head p rest n f (fetch head p n f)
  fetch-Takes n f le = rw (fetch_lem rest h n f le) (le, refl, refl, advance-Left rest h n le)

  -- `>>` of a word takes its bytes exactly if they are there.
  pub get_word_lem : (n : ℕ) → Takes head p rest n be_value (get_word head n p)
  unfolding get_word
  get_word_lem n = elim (dec_lt (length rest) n) [
    | yes lt ↦ rw (lt→leb n (room head p) (omega (arith, room_lem rest h))) (lt, refl, refl)
    | no le ↦
        rw (le→leb n (room head p) (omega (arith, room_lem rest h)))
          (fetch-Takes n be_value (omega arith))
  ]

  -- the checks on `int`s, which are small here
  pub signed_room : (n : ℕ) → n < 2 ^ 31 → le_signed n (int_of (room head p)) ≡ leb n (length rest)
  signed_room n lt = ground (arith, room_lem rest h, length-Left rest h, h.small)

  -- `read` of a length that is not negative takes the bytes exactly if they are there.
  pub read_lem : (n : ℕ) → n < 2 ^ 31 → Takes head p rest n (λ bs. bs) (read head p n)
  unfolding read
  read_lem n small = elim (dec_lt (length rest) n) [
    | yes lt ↦ rw (signed_room n small, lt→leb n (length rest) lt) (lt, refl, refl)
    | no le ↦
        rw
          (
            signed_room n small,
            le→leb n (length rest) (omega arith),
            lt→ltb n (2 ^ 63) (omega arith),
          )
          (fetch-Takes n (λ bs. bs) (omega arith))
  ]
