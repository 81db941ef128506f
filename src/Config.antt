-- ===== src/Config.antt =====
-- `CConfig` of src/CConfig.cpp: a file of sections, names and values. The file is the list of its lines,
-- or nothing if it cannot be opened. `m_mapConfig` is the function from a section and a name to a
-- value. `getValue` is the one for strings; the others convert its result.
pub mod Values
pub mod Sections
use lce.Prelude.{
  ℕ, zero, suc, ◌+◌, ◌-◌, Bool, true, false, not, ◌&&◌, ◌||◌, List, [], ◌∷◌, Option, none, some,
  length, take, drop, ltb, ◌==◌, if◌then◌else◌,
}
use lce.StringHelper.{find, char_at, trim_str}

abbrev pub same_string : List ℕ → List ℕ → Bool
same_string [] [] = true
same_string [] (d ∷ t) = false
same_string (c ∷ s) [] = false
same_string (c ∷ s) (d ∷ t) = (c == d) && same_string s t

abbrev pub MapConfig : Type 0
MapConfig = List ℕ → List ℕ → Option (List ℕ)

-- `m_mapConfig[sApp][sName] = sValue`
unfoldable pub assign_value : MapConfig → List ℕ → List ℕ → List ℕ → MapConfig
assign_value config app name value =
    λ a n. if same_string a app && same_string n name then some value else config a n

-- the section that the lines belong to, and the map
pub record Reader : Type 0 where
  pub app : List ℕ
  pub config : MapConfig

-- the loop over the blanks at the beginning, with the condition of the code
unfoldable pub skip_blanks : List ℕ → ℕ
skip_blanks [] = 0
skip_blanks (c ∷ s) =
    let rest = skip_blanks s in if not (c == 32) || not (c == 9) then 0 else suc rest

-- a name and a value behind the test for `=`; `m_mapConfig` gets them if the name is not empty
unfoldable pub store_pair : Reader → List ℕ → List ℕ → Reader
store_pair r name value =
    let app = trim_str r.app in
    let key = trim_str name in
    if length key == 0
    then record r { app = app }
    else record { app = app; config = assign_value r.config app key (trim_str value) }

-- `default:` of the switch; without `=` in the line, `j` is `npos`, and `j + 1` is 0.
unfoldable pub load_pair : Reader → List ℕ → ℕ → Reader
load_pair r line i = elim (find line (61 ∷ []) i) [
  | none ↦ store_pair r (drop i line) line
  | some j ↦ if ltb i j then store_pair r (take (j - i) (drop i line)) (drop (j + 1) line) else r
]

-- `case '[':`, which goes on to `default:`
unfoldable pub load_app : Reader → List ℕ → ℕ → Reader
load_app r line i = elim (find line (93 ∷ []) i) [
  | none ↦ r
  | some j ↦
      let app = trim_str (take (j - i - 1) (drop (i + 1) line)) in
      if length app == 0 then record r { app = app } else load_pair (record r { app = app }) line i
]

-- a round of the loop over the lines
unfoldable pub load_line : Reader → List ℕ → Reader
load_line r [] = r
load_line r (c ∷ cs) =
    let line = c ∷ cs in
    let i = skip_blanks line in
    if (char_at i line == 35) || (char_at i line == 59)
    then r
    else (if char_at i line == 91 then load_app r line i else load_pair r line i)

abbrev pub load_lines : Reader → List (List ℕ) → Reader
load_lines r [] = r
load_lines r (line ∷ lines) = load_lines (load_line r line) lines

-- `loadConfig(sCfgFileName)`
unfoldable pub load_config : MapConfig → Option (List (List ℕ)) → MapConfig × Bool
load_config config none = (config, false)
load_config config (some lines) =
    ((load_lines (record { app = []; config = config }) lines).config, true)

-- `getValue(sApp, sName, sValue, sDefault)`
unfoldable pub get_value : MapConfig → List ℕ → List ℕ → List ℕ → List ℕ
get_value config app name default = elim (config app name) [ none ↦ default | some value ↦ value ]
