-- ===== src/Config/Sections.antt =====
-- What the line of a section does.
use lce.Prelude.{
  ℕ, suc, ◌-◌, ◌≡◌, ◌≢◌, refl, ap, ◌∙◌, false, ◌&&◌, List, [], ◌∷◌, ◌++◌, none, some, length, take,
  take_of_append, le→ltb, ne→==, if◌then◌else◌, arith,
}
use lce.StringHelper.{find_in, find, trim_str}
use lce.StringHelper.Split.{has_char}
use lce.Config.{same_string, Reader, store_pair, load_pair, load_app, load_line, get_value}
use lce.Config.Values.{find_first, skip_blanks-none, get_value-store_pair}

find_in-absent : (c : ℕ) (s : List ℕ) → has_char c s ≡ false → find_in (c ∷ []) s ≡ none
find_in-absent c [] e = refl
find_in-absent c (d ∷ s) e = ground (arith, find_in-absent c s)

abbrev pub bracketed : List ℕ → List ℕ
bracketed app = 91 ∷ (app ++ (93 ∷ []))

find_bracket :
    (app : List ℕ)
    → has_char 93 app ≡ false
    → find (bracketed app) (93 ∷ []) 0 ≡ some (suc (length app))
unfolding find
find_bracket app e =
    rw (find_first 93 (91 ∷ app) [] e, le→ltb (length (bracketed app)) 0 (omega arith))
      (ap some (omega arith))

find_no_equals : (s : List ℕ) → has_char 61 s ≡ false → find s (61 ∷ []) 0 ≡ none
unfolding find
find_no_equals s e = rw (find_in-absent 61 s e, le→ltb (length s) 0 (omega arith)) refl

has_char-bracketed : (app : List ℕ) → has_char 61 app ≡ false → has_char 61 (bracketed app) ≡ false
has_char-bracketed [] e = refl
has_char-bracketed (c ∷ app) e = ground (arith, has_char-bracketed app)

load_line-app : (r : Reader) (s : List ℕ) → load_line r (91 ∷ s) ≡ load_app r (91 ∷ s) 0
unfolding load_line
load_line-app r s = rw (skip_blanks-none (91 ∷ s)) refl

load_pair-absent :
    (r : Reader) (s : List ℕ) → has_char 61 s ≡ false → load_pair r s 0 ≡ store_pair r s s
unfolding load_pair
load_pair-absent r s e = rw (find_no_equals s e, load_pair) refl

-- A section line goes on into the case for names and values.
load_app-bracketed :
    (r : Reader) (app : List ℕ)
    → has_char 93 app ≡ false
    → has_char 61 app ≡ false
    → length (trim_str app) ≢ 0
    → load_app r (bracketed app) 0
      ≡ store_pair (record r { app = trim_str app }) (bracketed app) (bracketed app)
unfolding load_app
load_app-bracketed r app closed no_eq filled =
    rw (find_bracket app closed, load_app, inner, ne→== (length (trim_str app)) 0 filled)
      (load_pair-absent (record r { app = trim_str app }) (bracketed app)
        (has_char-bracketed app no_eq))
  where
    inner : take (suc (length app) - 0 - 1) (app ++ (93 ∷ [])) ≡ app
    inner = take_of_append (suc (length app) - 0 - 1) app (93 ∷ []) (omega arith)

-- A line of a section's name in brackets, where the name has neither `]` nor `=` in it and is not blank,
-- makes this section, without the blanks around its name, the section of the lines that follow. It
-- also stores a value in the section: the line itself is a name there, and the line is its value.
pub get_value-section :
    (r : Reader) (app other key default : List ℕ)
    → has_char 93 app ≡ false
    → has_char 61 app ≡ false
    → length (trim_str app) ≢ 0
    → length (trim_str (bracketed app)) ≢ 0
    → ((load_line r (bracketed app)).app ≡ trim_str (trim_str app))
      × (get_value (load_line r (bracketed app)).config other key default ≡ (
          if same_string other (trim_str (trim_str app))
            && same_string key (trim_str (bracketed app))
          then trim_str (bracketed app)
          else get_value r.config other key default))
get_value-section r app other key default closed no_eq filled named = (
  ap (λ q. q.app) step
      ∙ (unfold store_pair in rw (ne→== (length (trim_str (bracketed app))) 0 named) refl),
  ap (λ q. get_value q.config other key default) step
      ∙ get_value-store_pair (record r { app = trim_str app }) (bracketed app) (bracketed app) other
          key default named,
)
  where
    step :
        load_line r (bracketed app)
        ≡ store_pair (record r { app = trim_str app }) (bracketed app) (bracketed app)
    step = load_line-app r (app ++ (93 ∷ [])) ∙ load_app-bracketed r app closed no_eq filled
