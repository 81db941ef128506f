-- ===== src/Examples/Configs.antt =====
-- Lines of a configuration file, and the theorems at concrete lines. 61 is `=`, 97 is `a`.
use lce.Prelude.{◌≡◌, refl, [], ◌∷◌, none, arith}
use lce.StringHelper.{trim_str, skip_front, skip_back}
use lce.Config.{Reader, load_line, get_value}
use lce.Config.Values.{get_value-load_line}
use lce.Config.Sections.{bracketed, get_value-section}

-- in the section `s`
abbrev in_section : Reader
in_section = record { app = 115 ∷ []; config = λ a n. none }

get_value-load_line_example :
    get_value (load_line in_section (97 ∷ 32 ∷ 61 ∷ 32 ∷ 98 ∷ [])).config (115 ∷ []) (97 ∷ []) []
    ≡ 98 ∷ []
unfolding trim_str skip_front skip_back get_value
get_value-load_line_example =
    get_value-load_line in_section 97 (32 ∷ []) (32 ∷ 98 ∷ []) (115 ∷ []) (97 ∷ []) [] refl
      (omega arith) (omega arith) (omega arith) (omega arith)

get_value-section_example :
    ((load_line in_section (bracketed (97 ∷ []))).app ≡ 97 ∷ [])
    × (get_value
          (load_line in_section (bracketed (97 ∷ []))).config
          (97 ∷ [])
          (91 ∷ 97 ∷ 93 ∷ [])
          []
        ≡ 91 ∷ 97 ∷ 93 ∷ [])
unfolding trim_str skip_front skip_back get_value
get_value-section_example =
    get_value-section in_section (97 ∷ []) (97 ∷ []) (91 ∷ 97 ∷ 93 ∷ []) [] refl refl (omega arith)
      (omega arith)
