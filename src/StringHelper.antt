-- ===== src/StringHelper.antt =====
-- The functions of include/StringHelper.h: replacing, splitting, cutting out and trimming. A string is
-- the list of its characters. A loop runs on fuel, and `endless` says that it ran out.
pub mod Find
pub mod Replace
pub mod Split
pub mod Trim
pub mod Middle
use lce.Prelude.{
  ℕ, zero, suc, ◌+◌, ◌-◌, Bool, true, false, ◌&&◌, ◌||◌, List, [], ◌∷◌, ◌++◌, Option, none, some,
  length, take, drop, ltb, leb, ◌==◌, if◌then◌else◌,
}

pub data Outcome (A : Type 0) : Type 0 where
  ok : A → Outcome A
  out_of_range : Outcome A
  endless : Outcome A

-- `starts pat s`: `s` begins with `pat`.
abbrev pub starts : List ℕ → List ℕ → Bool
starts [] s = true
starts (p ∷ ps) [] = false
starts (p ∷ ps) (c ∷ s) = (p == c) && starts ps s

abbrev pub find_in : List ℕ → List ℕ → Option ℕ
find_in pat [] = if starts pat [] then some 0 else none
find_in pat (c ∷ s) =
    let rest = find_in pat s in
    if starts pat (c ∷ s) then some 0 else elim rest [ none ↦ none | some i ↦ some (suc i) ]

-- `s.find(pat, pos)`; `none` is `npos`.
unfoldable pub find : List ℕ → List ℕ → ℕ → Option ℕ
find s pat pos =
    if ltb (length s) pos
    then none
    else elim (find_in pat (drop pos s)) [ none ↦ none | some i ↦ some (pos + i) ]

-- `s.substr(pos)` and `s.substr(pos, n)`
unfoldable pub substr_from : List ℕ → ℕ → Outcome (List ℕ)
substr_from s pos = if ltb (length s) pos then out_of_range else ok (drop pos s)

unfoldable pub substr : List ℕ → ℕ → ℕ → Outcome (List ℕ)
substr s pos n = if ltb (length s) pos then out_of_range else ok (take n (drop pos s))

-- the loop of `ReplaceStr`
unfoldable pub replace_from : ℕ → List ℕ → List ℕ → List ℕ → ℕ → Outcome (List ℕ)
replace_from zero pat new s pos = endless
replace_from (suc n) pat new s pos = elim (find s pat pos) [
  | none ↦ ok s
  | some i ↦ replace_from n pat new (take i s ++ (new ++ drop (i + length pat) s)) (i + length new)
]

unfoldable pub replace_str : ℕ → List ℕ → List ℕ → List ℕ → Outcome (List ℕ)
replace_str n s pat new = replace_from n pat new s 0

-- `SplitHostPort(sSrc, Host, Port, splitter)`; `none` is `false`.
unfoldable pub split_host_port : List ℕ → ℕ → Option (List ℕ × List ℕ)
split_host_port s splitter = elim (find_in (splitter ∷ []) s) [
  | none ↦ none
  | some i ↦ some (take i s, drop (i + 1) s)
]

infixl 5 ◌>>=◌
abbrev pub ◌>>=◌ : {A B : Type 0} → Outcome A → (A → Outcome B) → Outcome B
ok a >>= f = f a
out_of_range >>= f = out_of_range
endless >>= f = endless

-- the loop of `SplitStr` and the piece behind it
unfoldable pub split_from : ℕ → List ℕ → List ℕ → ℕ → Outcome (List (List ℕ))
split_from zero s sep start = endless
split_from (suc n) s sep start = elim (find s sep start) [
  | none ↦ substr_from s start >>= λ piece. ok (piece ∷ [])
  | some end ↦ substr s start (end - start) >>= λ piece.
      split_from n s sep (end + 1) >>= λ pieces. ok (piece ∷ pieces)
]

unfoldable pub split_str : ℕ → List ℕ → List ℕ → Outcome (List (List ℕ))
split_str n s sep = split_from n s sep 0

-- `GetMiddleStr(begPos, str, out, beg, end)` with an index for `beg`, and with a string; `none` is `npos`.
-- A place that `find` gives is inside the string, where `substr` does not throw.
unfoldable pub get_middle_from : List ℕ → ℕ → List ℕ → Option (List ℕ × ℕ)
get_middle_from s beg end = elim (find s end beg) [
  | none ↦ none
  | some pos ↦ some (take (pos - beg) (drop beg s), pos + length end)
]

unfoldable pub get_middle_str : ℕ → List ℕ → List ℕ → List ℕ → Option (List ℕ × ℕ)
get_middle_str beg_pos s beg end = elim (find s beg beg_pos) [
  | none ↦ none
  | some pos ↦ get_middle_from s (pos + length beg) end
]

-- space, CR, LF and tab
abbrev pub is_blank : ℕ → Bool
is_blank c = (c == 32) || ((c == 13) || ((c == 10) || (c == 9)))

-- the first loop of `TrimStr`: the index of the first character that is not blank
unfoldable pub skip_front : List ℕ → ℕ
skip_front [] = 0
skip_front (c ∷ s) = let rest = skip_front s in if is_blank c then suc rest else 0

-- the character at an index that the string has
abbrev pub char_at : ℕ → List ℕ → ℕ
char_at i [] = 0
char_at zero (c ∷ s) = c
char_at (suc i) (c ∷ s) = char_at i s

-- the second loop, from the index `j` down
unfoldable pub skip_back : List ℕ → ℕ → ℕ
skip_back s zero = zero
skip_back s (suc j) =
    let rest = skip_back s j in if is_blank (char_at (suc j) s) then rest else suc j

unfoldable pub trim_str : List ℕ → List ℕ
trim_str [] = []
trim_str (c ∷ cs) =
    let s = c ∷ cs in
    let i = skip_front s in
    let j = skip_back s (length s - 1) in if leb i j then take (j - i + 1) (drop i s) else []
