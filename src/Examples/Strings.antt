-- ===== src/Examples/Strings.antt =====
-- The string functions at work, and their theorems at concrete inputs. 97 is `a`, 45 is `-`.
use lce.Prelude.{ℕ, ◌≡◌, refl, List, [], ◌∷◌}
use lce.StringHelper.{ok, endless, find, substr, substr_from, replace_str, split_str, split_from}
use lce.StringHelper.Replace.{replace_str_lem, replace_str_endless}
use lce.StringHelper.Split.{joined, NoneHas, split_str_lem}

-- The new text contains the pattern.
replace_str_lem_example :
    replace_str 5 (97 ∷ 98 ∷ 97 ∷ 97 ∷ []) (97 ∷ []) (97 ∷ 97 ∷ [])
    ≡ ok (97 ∷ 97 ∷ 98 ∷ 97 ∷ 97 ∷ 97 ∷ 97 ∷ [])
replace_str_lem_example = replace_str_lem 97 [] (97 ∷ 97 ∷ []) (97 ∷ 98 ∷ 97 ∷ 97 ∷ [])

replace_str_endless_example : replace_str 1000 (97 ∷ []) [] (98 ∷ []) ≡ endless
replace_str_endless_example = replace_str_endless 1000 (97 ∷ []) (98 ∷ [])

split_str_lem_example :
    (piece : List ℕ) × (pieces : List (List ℕ)) × (split_str 5 (97 ∷ 45 ∷ 45 ∷ 98 ∷ []) (45 ∷ [])
      ≡ ok (piece ∷ pieces))
    × (joined 45 piece pieces ≡ 97 ∷ 45 ∷ 45 ∷ 98 ∷ [])
    × NoneHas 45 (piece ∷ pieces)
split_str_lem_example = split_str_lem 45 (97 ∷ 45 ∷ 45 ∷ 98 ∷ [])

-- A separator of two characters leaves its second one in the next piece.
split_of_two :
    split_str 5 (97 ∷ 45 ∷ 45 ∷ 98 ∷ []) (45 ∷ 45 ∷ []) ≡ ok ((97 ∷ []) ∷ (45 ∷ 98 ∷ []) ∷ [])
unfolding split_str split_from find substr substr_from
split_of_two = refl

abbrev tagged : List ℕ
tagged = 60 ∷ 97 ∷ 62 ∷ 98 ∷ []

abbrev spaced : List ℕ
spaced = 32 ∷ 97 ∷ 32 ∷ 98 ∷ 10 ∷ []
