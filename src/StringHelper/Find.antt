-- ===== src/StringHelper/Find.antt =====
-- `std::string::find` on the part of a string from a position on.
use lce.Prelude.{
  ℕ, ◌+◌, ◌≤◌, ◌≡◌, refl, inl, inr, true, false, List, [], ◌∷◌, ◌++◌, none, some, length,
  length-append, drop_of_append, le→ltb, arith, Bool-cases, Option-cases,
}
use lce.StringHelper.{starts, find_in, find}

pub length-starts : (pat s : List ℕ) → starts pat s ≡ true → length pat ≤ length s
length-starts [] s e = omega arith
length-starts (p ∷ ps) [] e = absurd (cc)
length-starts (p ∷ ps) (c ∷ s) e = ground (arith, length-starts ps s)

pub find_in-bound : (pat s : List ℕ) (i : ℕ) → find_in pat s ≡ some i → i + length pat ≤ length s
find_in-bound [] [] i e = ground arith
find_in-bound (p ∷ ps) [] i e = absurd (cc)
find_in-bound pat (c ∷ s) i e = elim (Bool-cases (starts pat (c ∷ s))) [
  | inl t ↦ ground (arith, length-starts pat (c ∷ s) t, t, e)
  | inr f ↦ elim (Option-cases (find_in pat s)) [
    | inl none_behind ↦ absurd (miss f none_behind)
    | inr (j, found) ↦ ground (arith, f, found, find_in-bound pat s j found, e)
  ]
]
  where
    miss : starts pat (c ∷ s) ≡ false → find_in pat s ≡ none → ⊥
    miss f n = ground (arith, f, n, e)

-- The search behind a part that is done.
pub find_behind :
    (pat front rest : List ℕ) (i : ℕ)
    → find_in pat rest ≡ some i
    → find (front ++ rest) pat (length front) ≡ some (length front + i)
unfolding find
find_behind pat front rest i e =
    rw
      (
        le→ltb (length (front ++ rest)) (length front) (omega (arith, length-append front rest)),
        drop_of_append (length front) front rest refl,
        e,
      )
      refl

pub find_behind_none :
    (pat front rest : List ℕ)
    → find_in pat rest ≡ none
    → find (front ++ rest) pat (length front) ≡ none
unfolding find
find_behind_none pat front rest e =
    rw
      (
        le→ltb (length (front ++ rest)) (length front) (omega (arith, length-append front rest)),
        drop_of_append (length front) front rest refl,
        e,
      )
      refl
