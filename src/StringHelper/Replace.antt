-- ===== src/StringHelper/Replace.antt =====
-- `ReplaceStr` and the replacement that it means.
use lce.Prelude.{
  ℕ, zero, suc, ◌+◌, ◌-◌, ◌≤◌, ◌<◌, ◌≡◌, refl, sym, ap, ap₂, ◌∙◌, inl, inr, true, false, List, [],
  ◌∷◌, ◌++◌, append_assoc, none, some, length, length-append, length-take, length-drop, take, drop,
  take-append_ge, drop-append_ge, le→ltb, if◌then◌else◌, arith, Bool-cases, Option-cases,
}
use lce.StringHelper.{ok, endless, starts, find_in, find, replace_from, replace_str}
use lce.StringHelper.Find.{find_in-bound, find_behind, find_behind_none}

-- From left to right: an occurrence gives way to `new`, and its other characters are skipped.
abbrev pub replaced : List ℕ → List ℕ → ℕ → List ℕ → List ℕ
replaced pat new skip [] = []
replaced pat new zero (c ∷ s) =
    let there = replaced pat new (length pat - 1) s in
    let here = replaced pat new zero s in if starts pat (c ∷ s) then new ++ there else c ∷ here
replaced pat new (suc k) (c ∷ s) = replaced pat new k s

replaced-skip :
    (pat new : List ℕ) (k : ℕ) (s : List ℕ) → replaced pat new k s ≡ replaced pat new 0 (drop k s)
replaced-skip pat new zero s = refl
replaced-skip pat new (suc k) [] = refl
replaced-skip pat new (suc k) (c ∷ s) = replaced-skip pat new k s

replaced-none : (pat new s : List ℕ) → find_in pat s ≡ none → replaced pat new 0 s ≡ s
replaced-none pat new [] e = refl
replaced-none pat new (c ∷ s) e = elim (Bool-cases (starts pat (c ∷ s))) [
  | inl t ↦ absurd (hit t)
  | inr f ↦ rw f (ap (λ l. c ∷ l) (replaced-none pat new s (behind f)))
]
  where
    hit : starts pat (c ∷ s) ≡ true → ⊥
    hit t = ground (arith, t, e)

    behind : starts pat (c ∷ s) ≡ false → find_in pat s ≡ none
    behind f = elim (Option-cases (find_in pat s)) [
      | inl n ↦ n
      | inr (j, found) ↦ absurd (ground (arith, f, found, e))
    ]

replaced-some :
    (p : ℕ) (ps new s : List ℕ) (i : ℕ)
    → find_in (p ∷ ps) s ≡ some i
    → replaced (p ∷ ps) new 0 s
      ≡ take i s ++ (new ++ replaced (p ∷ ps) new 0 (drop (i + length (p ∷ ps)) s))
replaced-some p ps new [] i e = absurd (cc)
replaced-some p ps new (c ∷ s) i e = elim (Bool-cases (starts (p ∷ ps) (c ∷ s))) [
  | inl t ↦
      rw (t, at_front t, one_less (length ps), none_more (suc (length ps)))
        (ap (λ l. new ++ l) (replaced-skip (p ∷ ps) new (length ps) s))
  | inr f ↦ elim (Option-cases (find_in (p ∷ ps) s)) [
    | inl n ↦ absurd (missed f n)
    | inr (j, found) ↦
        rw (f, behind f j found, one_more j (suc (length ps)))
          (ap (λ l. c ∷ l) (replaced-some p ps new s j found))
  ]
]
  where
    one_less : (n : ℕ) → suc n - 1 ≡ n
    one_less n = omega arith

    none_more : (n : ℕ) → 0 + n ≡ n
    none_more n = omega arith

    one_more : (j n : ℕ) → suc j + n ≡ suc (j + n)
    one_more j n = omega arith

    at_front : starts (p ∷ ps) (c ∷ s) ≡ true → i ≡ 0
    at_front t = ground (arith, t, e)

    missed : starts (p ∷ ps) (c ∷ s) ≡ false → find_in (p ∷ ps) s ≡ none → ⊥
    missed f n = ground (arith, f, n, e)

    behind : starts (p ∷ ps) (c ∷ s) ≡ false → (j : ℕ) → find_in (p ∷ ps) s ≡ some j → i ≡ suc j
    behind f j found = ground (arith, f, found, e)

-- What a round leaves is done up to the end of the new text.
round :
    (n p : ℕ) (ps new front rest : List ℕ) (i : ℕ)
    → find_in (p ∷ ps) rest ≡ some i
    → replace_from n
        (p ∷ ps)
        new
        ((front ++ take i rest ++ new) ++ drop (i + length (p ∷ ps)) rest)
        (length (front ++ take i rest ++ new))
      ≡ ok (
          (front ++ take i rest ++ new)
          ++ replaced (p ∷ ps) new 0 (drop (i + length (p ∷ ps)) rest))
    → replace_from n
        (p ∷ ps)
        new
        (take (length front + i) (front ++ rest)
          ++ (new ++ drop (length front + i + length (p ∷ ps)) (front ++ rest)))
        (length front + i + length new)
      ≡ ok (front ++ replaced (p ∷ ps) new 0 rest)
round n p ps new front rest i e rounds =
    ap₂ (λ s pos. replace_from n (p ∷ ps) new s pos) string
      (place (find_in-bound (p ∷ ps) rest i e))
    ∙ rounds
    ∙ ap ok (
        append_assoc (front ++ take i rest) new _
        ∙ append_assoc front (take i rest) _
        ∙ ap (λ l. front ++ l) (sym (replaced-some p ps new rest i e)))
  where
    len : ℕ
    len = length (p ∷ ps)

    string :
        take (length front + i) (front ++ rest)
          ++ (new ++ drop (length front + i + len) (front ++ rest))
        ≡ (front ++ take i rest ++ new) ++ drop (i + len) rest
    string =
        rw
          (
            take-append_ge (length front + i) front rest (omega arith),
            drop-append_ge (length front + i + len) front rest (omega arith),
            (ap (λ k. take k rest) {x = length front + i - length front} {y = i} (omega arith)),
            (ap (λ k. drop k rest) {x = length front + i + len - length front} {y = i + len}
                (omega arith)),
          )
          (sym (append_assoc (front ++ take i rest) new (drop (i + len) rest)))

    place :
        i + len ≤ length rest → length front + i + length new ≡ length (front ++ take i rest ++ new)
    place le = omega (
      arith,
      length-append (front ++ take i rest) new,
      length-append front (take i rest),
      length-take i rest,
    )

-- a round of the loop, behind a part that is done
replace_from_lem :
    (n p : ℕ) (ps new front rest : List ℕ)
    → length rest < n
    → replace_from n (p ∷ ps) new (front ++ rest) (length front)
      ≡ ok (front ++ replaced (p ∷ ps) new 0 rest)
unfolding replace_from
replace_from_lem zero p ps new front rest lt = absurd (omega arith)
replace_from_lem (suc n) p ps new front rest lt = elim (Option-cases (find_in (p ∷ ps) rest)) [
  | inl e ↦
      rw (find_behind_none (p ∷ ps) front rest e, replace_from)
        (ap (λ l. ok (front ++ l)) (sym (replaced-none (p ∷ ps) new rest e)))
  | inr (i, e) ↦
      rw (find_behind (p ∷ ps) front rest i e, replace_from)
        (round n p ps new front rest i e (
          replace_from_lem n p ps new (front ++ take i rest ++ new)
            (drop (i + length (p ∷ ps)) rest)
            (omega
              (arith, length-drop (i + length (p ∷ ps)) rest, find_in-bound (p ∷ ps) rest i e))))
]

-- `ReplaceStr` comes to an end on every string and every pattern that is not empty, within one round
-- more than the string has characters, also where the new text contains the pattern. It
-- replaces the occurrences from left to right.
pub replace_str_lem :
    (p : ℕ) (ps new s : List ℕ)
    → replace_str (length s + 1) s (p ∷ ps) new ≡ ok (replaced (p ∷ ps) new 0 s)
unfolding replace_str
replace_str_lem p ps new s = replace_from_lem (length s + 1) p ps new [] s (omega arith)

find_empty : (s : List ℕ) → find_in [] s ≡ some 0
find_empty [] = refl
find_empty (c ∷ s) = refl

stays : (n : ℕ) (new s : List ℕ) (pos : ℕ) → pos ≤ length s → replace_from n [] new s pos ≡ endless
unfolding replace_from find
stays zero new s pos le = refl
stays (suc n) new s pos le =
    rw (le→ltb (length s) pos le, find_empty (drop pos s), find, replace_from)
      (stays n new (take (pos + 0) s ++ (new ++ drop (pos + 0 + 0) s)) (pos + 0 + length new) (
        omega (
          arith,
          length-append (take (pos + 0) s) (new ++ drop (pos + 0 + 0) s),
          length-append new (drop (pos + 0 + 0) s),
          length-take (pos + 0) s,
          le,
        )))

-- With an empty pattern the loop never ends, whatever the fuel.
pub replace_str_endless : (n : ℕ) (s new : List ℕ) → replace_str n s [] new ≡ endless
unfolding replace_str
replace_str_endless n s new = stays n new s 0 (omega arith)
