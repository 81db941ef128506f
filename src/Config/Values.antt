-- ===== src/Config/Values.antt =====
-- What a line of a configuration file does to the values.
use lce.Prelude.{
  ℕ, ◌+◌, ◌-◌, ◌<◌, ◌≡◌, ◌≢◌, refl, ap, ap₂, ◌∙◌, inl, inr, false, ◌&&◌, List, [], ◌∷◌, ◌++◌, some,
  length, take, drop, take_of_append, drop-append_ge, lt→ltb, le→ltb, ne→==, if◌then◌else◌, arith,
  Bool-cases,
}
use lce.StringHelper.{find_in, find, trim_str}
use lce.StringHelper.Split.{has_char}
use lce.Config.{
  same_string, assign_value, Reader, skip_blanks, store_pair, load_pair, load_line, get_value,
}

pub find_first :
    (c : ℕ) (s rest : List ℕ)
    → has_char c s ≡ false
    → find_in (c ∷ []) (s ++ (c ∷ rest)) ≡ some (length s)
find_first c [] rest e = ground arith
find_first c (d ∷ s) rest e = ground (arith, find_first c s rest)

-- Blanks at the beginning of a line are not skipped.
pub skip_blanks-none : (s : List ℕ) → skip_blanks s ≡ 0
unfolding skip_blanks
skip_blanks-none [] = refl
skip_blanks-none (c ∷ s) = ground arith

find_equals :
    (name value : List ℕ)
    → has_char 61 name ≡ false
    → find (name ++ (61 ∷ value)) (61 ∷ []) 0 ≡ some (length name)
unfolding find
find_equals name value e =
    rw (find_first 61 name value e, le→ltb (length (name ++ (61 ∷ value))) 0 (omega arith))
      (ap some (omega arith))

-- a line that is neither a comment nor a section
load_line-pair :
    (r : Reader) (c : ℕ) (s : List ℕ)
    → c ≢ 35
    → c ≢ 59
    → c ≢ 91
    → load_line r (c ∷ s) ≡ load_pair r (c ∷ s) 0
unfolding load_line
load_line-pair r c s a b d =
    rw (skip_blanks-none (c ∷ s), ne→== c 35 a, ne→== c 59 b, ne→== c 91 d) refl

load_pair-equals :
    (r : Reader) (name value : List ℕ)
    → has_char 61 name ≡ false
    → 0 < length name
    → load_pair r (name ++ (61 ∷ value)) 0 ≡ store_pair r name value
unfolding load_pair
load_pair-equals r name value e pos =
    rw (find_equals name value e, lt→ltb 0 (length name) pos, load_pair)
      (ap₂ (λ n v. store_pair r n v) before behind)
  where
    before : take (length name - 0) (name ++ (61 ∷ value)) ≡ name
    before = take_of_append (length name - 0) name (61 ∷ value) (omega arith)

    behind : drop (length name + 1) (name ++ (61 ∷ value)) ≡ value
    behind =
        drop-append_ge (length name + 1) name (61 ∷ value) (omega arith)
        ∙ ap (λ k. drop k (61 ∷ value)) {x = length name + 1 - length name} {y = 1} (omega arith)

pub get_value-store_pair :
    (r : Reader) (name value app key default : List ℕ)
    → length (trim_str name) ≢ 0
    → get_value (store_pair r name value).config app key default ≡ (
        if same_string app (trim_str r.app) && same_string key (trim_str name)
        then trim_str value
        else get_value r.config app key default)
unfolding store_pair assign_value get_value
get_value-store_pair r name value app key default filled =
    rw (ne→== (length (trim_str name)) 0 filled, store_pair)
      (elim (Bool-cases (same_string app (trim_str r.app) && same_string key (trim_str name))) [
        | inl t ↦ rw (t, get_value) refl
        | inr f ↦ rw (f, get_value) refl
      ])

-- A line of a name, `=` and a value, where the name neither has `=` in it nor begins like a comment or a
-- section, and is not blank: then `getValue` gives the value, without the blanks around it, for
-- this name in the section of the line, and what it gave before for all others.
pub get_value-load_line :
    (r : Reader) (c : ℕ) (name value app key default : List ℕ)
    → has_char 61 (c ∷ name) ≡ false
    → c ≢ 35
    → c ≢ 59
    → c ≢ 91
    → length (trim_str (c ∷ name)) ≢ 0
    → get_value (load_line r ((c ∷ name) ++ (61 ∷ value))).config app key default ≡ (
        if same_string app (trim_str r.app) && same_string key (trim_str (c ∷ name))
        then trim_str value
        else get_value r.config app key default)
get_value-load_line r c name value app key default no_eq a b d filled =
    ap (λ q. get_value q.config app key default)
      (load_line-pair r c (name ++ (61 ∷ value)) a b d
        ∙ load_pair-equals r (c ∷ name) value no_eq (omega arith))
    ∙ get_value-store_pair r (c ∷ name) value app key default filled
