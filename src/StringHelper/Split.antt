-- ===== src/StringHelper/Split.antt =====
-- `SplitStr` with a separator of one character.
use lce.Prelude.{
  ℕ, zero, suc, ◌+◌, ◌-◌, ◌≤◌, ◌<◌, ◌≡◌, refl, sym, ap, ap₂, ◌∙◌, inl, inr, Bool, true, false, ◌||◌,
  List, [], ◌∷◌, ◌++◌, append_assoc, none, some, length, length-append, length-take, length-drop,
  take, drop, drop_of_append, le→ltb, ◌==◌, ==→eq, arith, Bool-cases, Option-cases,
}
use lce.StringHelper.{Outcome, ok, ◌>>=◌, find_in, substr, substr_from, split_from, split_str}
use lce.StringHelper.Find.{find_in-bound, find_behind, find_behind_none}

abbrev pub has_char : ℕ → List ℕ → Bool
has_char c [] = false
has_char c (d ∷ s) = (c == d) || has_char c s

-- The pieces, the first and the others, with the separator between them.
abbrev pub joined : ℕ → List ℕ → List (List ℕ) → List ℕ
joined c piece [] = piece
joined c piece (next ∷ pieces) = piece ++ (c ∷ joined c next pieces)

abbrev pub NoneHas : ℕ → List (List ℕ) → Type 0
NoneHas c [] = Unit {0}
NoneHas c (piece ∷ pieces) = (has_char c piece ≡ false) × NoneHas c pieces

pub find_char :
    (c : ℕ) (s : List ℕ) (i : ℕ)
    → find_in (c ∷ []) s ≡ some i
    → (s ≡ take i s ++ (c ∷ drop (i + 1) s)) × (has_char c (take i s) ≡ false)
find_char c [] i e = absurd (cc)
find_char c (d ∷ s) i e = elim (Bool-cases (c == d)) [
  | inl t ↦ rw (here t) (ap (λ k. k ∷ s) (sym (==→eq c d t)), refl)
  | inr f ↦ elim (Option-cases (find_in (c ∷ []) s)) [
    | inl n ↦ absurd (missed f n)
    | inr (j, found) ↦
        let (a, b) = find_char c s j found in
        rw (later f j found, suc_one j) (ap (λ l. d ∷ l) a, rw f b)
  ]
]
  where
    suc_one : (j : ℕ) → suc j + 1 ≡ suc (j + 1)
    suc_one j = omega arith

    here : (c == d) ≡ true → i ≡ 0
    here t = ground (arith, t, e)

    missed : (c == d) ≡ false → find_in (c ∷ []) s ≡ none → ⊥
    missed f n = ground (arith, f, n, e)

    later : (c == d) ≡ false → (j : ℕ) → find_in (c ∷ []) s ≡ some j → i ≡ suc j
    later f j found = ground (arith, f, found, e)

pub find_char_none : (c : ℕ) (s : List ℕ) → find_in (c ∷ []) s ≡ none → has_char c s ≡ false
find_char_none c [] e = refl
find_char_none c (d ∷ s) e = elim (Option-cases (find_in (c ∷ []) s)) [
  | inl n ↦ ground (arith, find_char_none c s n, n, e)
  | inr (j, found) ↦ absurd (ground (arith, found, e))
]

-- What the loop makes of the rest of the string.
record Pieces (c : ℕ) (rest : List ℕ) (o : Outcome (List (List ℕ))) : Type 0 where
  piece : List ℕ
  pieces : List (List ℕ)
  returns : o ≡ ok (piece ∷ pieces)
  are_joined : joined c piece pieces ≡ rest
  none_has : NoneHas c (piece ∷ pieces)

last_part : (front rest : List ℕ) → substr_from (front ++ rest) (length front) ≡ ok rest
unfolding substr_from
last_part front rest =
    rw
      (
        le→ltb (length (front ++ rest)) (length front) (omega (arith, length-append front rest)),
        drop_of_append (length front) front rest refl,
      )
      refl

next_part :
    (front rest : List ℕ) (i : ℕ)
    → i + 1 ≤ length rest
    → substr (front ++ rest) (length front) (length front + i - length front) ≡ ok (take i rest)
unfolding substr
next_part front rest i le =
    rw
      (
        le→ltb (length (front ++ rest)) (length front) (omega (arith, length-append front rest)),
        drop_of_append (length front) front rest refl,
      )
      (ap (λ k. ok (take k rest)) (omega arith))

then_pieces :
    (piece : List ℕ) {o : Outcome (List (List ℕ))} {pieces : List (List ℕ)}
    → o ≡ ok pieces
    → (o >>= λ ps. ok (piece ∷ ps)) ≡ ok (piece ∷ pieces)
then_pieces piece e = ap (λ o. o >>= λ ps. ok (piece ∷ ps)) e

split_from_lem :
    (n c : ℕ) (front rest : List ℕ)
    → length rest < n
    → Pieces c rest (split_from n (front ++ rest) (c ∷ []) (length front))
unfolding split_from
split_from_lem zero c front rest lt = absurd (omega arith)
split_from_lem (suc n) c front rest lt = elim (Option-cases (find_in (c ∷ []) rest)) [
  | inl e ↦ record {
    piece = rest;
    pieces = [];
    returns = rw (find_behind_none (c ∷ []) front rest e, last_part front rest, split_from) refl;
    are_joined = refl;
    none_has = (find_char_none c rest e, tt);
  }
  | inr (i, e) ↦
      let (cut, free) = find_char c rest i e in
      let r =
        split_from_lem n c (front ++ (take i rest ++ (c ∷ []))) (drop (i + 1) rest)
          (omega (arith, length-drop (i + 1) rest, bound i e)) in
      record {
        piece = take i rest;
        pieces = r.piece ∷ r.pieces;
        returns =
            rw (find_behind (c ∷ []) front rest i e, next_part front rest i (bound i e), split_from)
              (then_pieces (take i rest) (
                ap₂ (λ s pos. split_from n s (c ∷ []) pos) (string i cut) (place i (bound i e))
                ∙ r.returns));
        are_joined = ap (λ l. take i rest ++ (c ∷ l)) r.are_joined ∙ sym cut;
        none_has = (free, r.none_has);
      }
]
  where
    bound : (i : ℕ) → find_in (c ∷ []) rest ≡ some i → i + 1 ≤ length rest
    bound i e = find_in-bound (c ∷ []) rest i e

    string :
        (i : ℕ)
        → rest ≡ take i rest ++ (c ∷ drop (i + 1) rest)
        → front ++ rest ≡ (front ++ (take i rest ++ (c ∷ []))) ++ drop (i + 1) rest
    string i cut =
        ap (λ l. front ++ l) (cut ∙ sym (append_assoc (take i rest) (c ∷ []) (drop (i + 1) rest)))
        ∙ sym (append_assoc front (take i rest ++ (c ∷ [])) (drop (i + 1) rest))

    place :
        (i : ℕ)
        → i + 1 ≤ length rest
        → length front + i + 1 ≡ length (front ++ (take i rest ++ (c ∷ [])))
    place i le = omega (
      arith,
      length-append front (take i rest ++ (c ∷ [])),
      length-append (take i rest) (c ∷ []),
      length-take i rest,
    )

-- `SplitStr` with a separator of one character comes to an end on every string, within one round more
-- than the string has characters, and throws nothing. No piece has the separator in it, and
-- the pieces with the separator between them are the string.
pub split_str_lem :
    (c : ℕ) (s : List ℕ)
    → (piece : List ℕ) × (pieces : List (List ℕ)) × (split_str (length s + 1) s (c ∷ [])
        ≡ ok (piece ∷ pieces))
      × (joined c piece pieces ≡ s)
      × NoneHas c (piece ∷ pieces)
unfolding split_str
split_str_lem c s =
    let r = split_from_lem (length s + 1) c [] s (omega arith) in
    (r.piece, r.pieces, r.returns, r.are_joined, r.none_has)
