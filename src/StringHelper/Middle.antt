-- ===== src/StringHelper/Middle.antt =====
-- `GetMiddleStr` and `SplitHostPort`: what stands before, between and behind what they look for.
use lce.Prelude.{
  ℕ, suc, ◌+◌, ◌-◌, ◌≤◌, ◌≡◌, refl, sym, ap, ap₂, ◌∙◌, inl, inr, true, false, List, [], ◌∷◌, ◌++◌,
  Option, none, some, length, take, take-append-drop, drop, drop-nil, drop-drop, ltb, ◌==◌, ==→eq,
  arith, Bool-cases, Option-cases,
}
use lce.StringHelper.{starts, find_in, find, get_middle_from, get_middle_str, split_host_port}
use lce.StringHelper.Split.{has_char, find_char, find_char_none}

starts-split : (pat s : List ℕ) → starts pat s ≡ true → s ≡ pat ++ drop (length pat) s
starts-split [] s e = refl
starts-split (p ∷ ps) [] e = absurd (cc)
starts-split (p ∷ ps) (c ∷ s) e = elim (Bool-cases (p == c)) [
  | inl t ↦ ap₂ (λ k l. k ∷ l) (sym (==→eq p c t)) (starts-split ps s (behind t))
  | inr f ↦ absurd (apart f)
]
  where
    behind : (p == c) ≡ true → starts ps s ≡ true
    behind t = ground (arith, t, e)

    apart : (p == c) ≡ false → ⊥
    apart f = ground (arith, f, e)

find_in-split :
    (pat s : List ℕ) (i : ℕ) → find_in pat s ≡ some i → drop i s ≡ pat ++ drop (i + length pat) s
find_in-split [] [] i e = drop-nil i ∙ sym (drop-nil (i + 0))
find_in-split (p ∷ ps) [] i e = absurd (cc)
find_in-split pat (c ∷ s) i e = elim (Bool-cases (starts pat (c ∷ s))) [
  | inl t ↦ rw (at_front t, none_more (length pat)) (starts-split pat (c ∷ s) t)
  | inr f ↦ elim (Option-cases (find_in pat s)) [
    | inl n ↦ absurd (missed f n)
    | inr (j, found) ↦ rw (behind f j found, one_more j (length pat)) (find_in-split pat s j found)
  ]
]
  where
    none_more : (n : ℕ) → 0 + n ≡ n
    none_more n = omega arith

    one_more : (j n : ℕ) → suc j + n ≡ suc (j + n)
    one_more j n = omega arith

    at_front : starts pat (c ∷ s) ≡ true → i ≡ 0
    at_front t = ground (arith, t, e)

    missed : starts pat (c ∷ s) ≡ false → find_in pat s ≡ none → ⊥
    missed f n = ground (arith, f, n, e)

    behind : starts pat (c ∷ s) ≡ false → (j : ℕ) → find_in pat s ≡ some j → i ≡ suc j
    behind f j found = ground (arith, f, found, e)

-- A place that `find` gives.
find-split :
    (s pat : List ℕ) (pos i : ℕ)
    → find s pat pos ≡ some i
    → (pos ≤ i) × (drop i s ≡ pat ++ drop (i + length pat) s)
unfolding find
find-split s pat pos i e = elim (Bool-cases (ltb (length s) pos)) [
  | inl t ↦ absurd (short t)
  | inr f ↦ elim (Option-cases (find_in pat (drop pos s))) [
    | inl n ↦ absurd (missed f n)
    | inr (k, found) ↦ rw (at f k found) (
      omega arith,
      sym (drop-drop k pos s)
          ∙ find_in-split pat (drop pos s) k found
          ∙ ap (λ l. pat ++ l)
              (drop-drop (k + length pat) pos s ∙ ap (λ j. drop j s) (omega arith)),
    )
  ]
]
  where
    short : ltb (length s) pos ≡ true → ⊥
    short t = ground (arith, t, e)

    missed : ltb (length s) pos ≡ false → find_in pat (drop pos s) ≡ none → ⊥
    missed f n = ground (arith, f, n, e)

    at : ltb (length s) pos ≡ false → (k : ℕ) → find_in pat (drop pos s) ≡ some k → i ≡ pos + k
    at f k found = ground (arith, f, found, e)

some_pair :
    {a b : List ℕ} {m n : ℕ}
    → ◌≡◌ {A = Option (List ℕ × ℕ)} (some (a, m)) (some (b, n))
    → (b ≡ a) × (n ≡ m)
some_pair e = (ground arith, ground arith)

-- What `GetMiddleStr` cuts out stands in the string between `beg`, found at or behind the place where
-- the search begins, and `end`; and it returns the place behind `end`.
pub get_middle_str_lem :
    (begin : ℕ) (s beg end out : List ℕ) (next : ℕ)
    → get_middle_str begin s beg end ≡ some (out, next)
    → (i : ℕ) × (begin ≤ i) × (drop i s ≡ beg ++ (out ++ (end ++ drop next s)))
unfolding get_middle_str get_middle_from
get_middle_str_lem begin s beg end out next e = elim (Option-cases (find s beg begin)) [
  | inl n ↦ absurd (missed n)
  | inr (i, found) ↦ elim (Option-cases (find s end (i + length beg))) [
    | inl n ↦ absurd (no_end i found n)
    | inr (k, ends) ↦
        let (from, is_beg) = find-split s beg begin i found in
        let (behind, is_end) = find-split s end (i + length beg) k ends in
        let same : (out ≡ take (k - (i + length beg)) (drop (i + length beg) s))
            × (next ≡ k + length end) =
          some_pair (sym (rw (found, ends, get_middle_str, get_middle_from) refl) ∙ e) in
        (i, from, is_beg ∙ ap (λ l. beg ++ l) (rw (same.0, same.1) (middle i k behind is_end)))
  ]
]
  where
    middle :
        (i k : ℕ)
        → i + length beg ≤ k
        → drop k s ≡ end ++ drop (k + length end) s
        → drop (i + length beg) s
          ≡ take (k - (i + length beg)) (drop (i + length beg) s)
            ++ (end ++ drop (k + length end) s)
    middle i k le is_end =
        sym (take-append-drop (k - (i + length beg)) (drop (i + length beg) s))
        ∙ ap (λ l. take (k - (i + length beg)) (drop (i + length beg) s) ++ l)
            (drop-drop (k - (i + length beg)) (i + length beg) s
              ∙ ap (λ j. drop j s) (omega (arith, le))
              ∙ is_end)

    missed : find s beg begin ≡ none → ⊥
    missed n = ground (arith, n, e)

    no_end : (i : ℕ) → find s beg begin ≡ some i → find s end (i + length beg) ≡ none → ⊥
    no_end i found n = ground (arith, found, n, e)

-- A cut at the first `c`, or no `c` at all.
abbrev pub FirstCut : ℕ → List ℕ → Option (List ℕ × List ℕ) → Type 0
FirstCut c s none = has_char c s ≡ false
FirstCut c s (some (host, port)) = (s ≡ host ++ (c ∷ port)) × (has_char c host ≡ false)

-- `SplitHostPort` cuts the string at the first splitter, and returns false exactly if it has none.
pub split_host_port_lem : (s : List ℕ) (c : ℕ) → FirstCut c s (split_host_port s c)
unfolding split_host_port
split_host_port_lem s c = elim (Option-cases (find_in (c ∷ []) s)) [
  | inl n ↦ rw (n, split_host_port) (find_char_none c s n)
  | inr (i, e) ↦ rw (e, split_host_port) (find_char c s i e)
]
