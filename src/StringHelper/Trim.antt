-- ===== src/StringHelper/Trim.antt =====
-- `TrimStr`: what it takes off, and what it leaves.
use lce.Prelude.{
  ℕ, zero, suc, ◌+◌, ◌-◌, ◌≤◌, ◌<◌, ◌≡◌, refl, ap, ◌∙◌, inl, inr, true, false, List, [], ◌∷◌,
  length, take, drop, le→leb, lt→leb, arith, Bool-cases,
}
use native.Mathlib.Decide.{dec_le}
use lce.StringHelper.{is_blank, char_at, skip_front, skip_back, trim_str}

skip_front-le : (s : List ℕ) → skip_front s ≤ length s
unfolding skip_front
skip_front-le [] = omega arith
skip_front-le (c ∷ s) = elim (Bool-cases (is_blank c)) [
  | inl t ↦ rw (t, skip_front) (omega (arith, skip_front-le s))
  | inr f ↦ rw (f, skip_front) (omega arith)
]

skip_front-blank : (s : List ℕ) (k : ℕ) → k < skip_front s → is_blank (char_at k s) ≡ true
unfolding skip_front
skip_front-blank [] k lt = absurd (omega arith)
skip_front-blank (c ∷ s) zero lt = elim (Bool-cases (is_blank c)) [
  | inl t ↦ t
  | inr f ↦ absurd (none_there (rw (f, skip_front) at lt))
]
  where
    none_there : 0 < 0 → ⊥
    none_there lt = omega arith
skip_front-blank (c ∷ s) (suc k) lt = elim (Bool-cases (is_blank c)) [
  | inl t ↦ skip_front-blank s k (less (rw (t, skip_front) at lt))
  | inr f ↦ absurd (none_there (rw (f, skip_front) at lt))
]
  where
    none_there : suc k < 0 → ⊥
    none_there lt = omega arith

    less : suc k < suc (skip_front s) → k < skip_front s
    less lt = omega arith

skip_front-stops :
    (s : List ℕ) → skip_front s < length s → is_blank (char_at (skip_front s) s) ≡ false
unfolding skip_front
skip_front-stops [] lt = absurd (omega arith)
skip_front-stops (c ∷ s) lt = elim (Bool-cases (is_blank c)) [
  | inl t ↦ rw (t, skip_front) (skip_front-stops s (less (rw (t, skip_front) at lt)))
  | inr f ↦ rw (f, skip_front) f
]
  where
    less : suc (skip_front s) < suc (length s) → skip_front s < length s
    less lt = omega arith

skip_back-le : (s : List ℕ) (j : ℕ) → skip_back s j ≤ j
unfolding skip_back
skip_back-le s zero = omega arith
skip_back-le s (suc j) = elim (Bool-cases (is_blank (char_at (suc j) s))) [
  | inl t ↦ rw (t, skip_back) (omega (arith, skip_back-le s j))
  | inr f ↦ rw (f, skip_back) (omega arith)
]

skip_back-blank : (s : List ℕ) (j k : ℕ) → skip_back s j < k → k ≤ j → is_blank (char_at k s) ≡ true
unfolding skip_back
skip_back-blank s zero k lt le = absurd (omega arith)
skip_back-blank s (suc j) k lt le = elim (Bool-cases (is_blank (char_at (suc j) s))) [
  | inl t ↦ elim (dec_le k j) [
    | yes below ↦ skip_back-blank s j k (rw (t, skip_back) at lt) below
    | no above ↦ ap (λ i. is_blank (char_at i s)) {x = k} {y = suc j} (omega arith) ∙ t
  ]
  | inr f ↦ absurd (beyond (rw (f, skip_back) at lt))
]
  where
    beyond : suc j < k → ⊥
    beyond lt = omega arith

skip_back-stops :
    (s : List ℕ) (j : ℕ) → 0 < skip_back s j → is_blank (char_at (skip_back s j) s) ≡ false
unfolding skip_back
skip_back-stops s zero lt = absurd (omega arith)
skip_back-stops s (suc j) lt = elim (Bool-cases (is_blank (char_at (suc j) s))) [
  | inl t ↦ rw (t, skip_back) (skip_back-stops s j (rw (t, skip_back) at lt))
  | inr f ↦ rw (f, skip_back) f
]

-- `TrimStr` leaves a run of the characters of the string, with blanks alone before and behind it; and if
-- the run is not empty, its first and its last character are not blank.
pub trim_str_lem :
    (s : List ℕ)
    → (i : ℕ) × (n : ℕ) × (trim_str s ≡ take n (drop i s))
      × (i + n ≤ length s)
      × ((k : ℕ) → k < i → is_blank (char_at k s) ≡ true)
      × ((k : ℕ) → i + n ≤ k → k < length s → is_blank (char_at k s) ≡ true)
      × (0 < n → (is_blank (char_at i s) ≡ false) × (is_blank (char_at (i + n - 1) s) ≡ false))
unfolding trim_str
trim_str_lem [] = (
  0,
  0,
  refl,
  omega arith,
  λ k lt. absurd (omega arith),
  λ k le lt. absurd (omega arith),
  λ lt. absurd (omega arith),
)
trim_str_lem (c ∷ cs) = elim (dec_le i j) [
  | yes le ↦ (
    i,
    j - i + 1,
    rw (le→leb i j le) refl,
    omega (arith, j_le, le),
    skip_front-blank s,
    λ k above below. skip_back-blank s (length s - 1) k (omega (arith, above, le)) (omega arith),
    λ some. (
      skip_front-stops s (omega (arith, j_le, le)),
      ap (λ k. is_blank (char_at k s)) {x = i + (j - i + 1) - 1} {y = j} (omega (arith, le))
          ∙ ends le,
    ),
  )
  | no gt ↦ (
    i,
    0,
    rw (lt→leb i j (omega (arith, gt))) refl,
    omega (arith, skip_front-le s),
    skip_front-blank s,
    λ k above below. absurd (stops_late gt (omega (arith, above, below))),
    λ some. absurd (omega arith),
  )
]
  where
    s : List ℕ
    s = c ∷ cs

    i : ℕ
    i = skip_front s

    j : ℕ
    j = skip_back s (length s - 1)

    j_le : j ≤ length cs
    j_le = omega (arith, skip_back-le s (length s - 1))

    ends : i ≤ j → is_blank (char_at j s) ≡ false
    ends le = elim (dec_le 1 j) [
      | yes pos ↦ skip_back-stops s (length s - 1) (omega (arith, pos))
      | no zero_j ↦
          ap (λ k. is_blank (char_at k s)) {x = j} {y = i} (omega (arith, le, zero_j))
          ∙ skip_front-stops s (omega (arith, le, zero_j))
    ]

    stops_late : (i ≤ j → ⊥) → i < length s → ⊥
    stops_late gt lt =
        let blank = skip_back-blank s (length s - 1) i (omega (arith, gt)) (omega (arith, lt)) in
        let not_blank = skip_front-stops s lt in cc
