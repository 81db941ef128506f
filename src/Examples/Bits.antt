-- ===== src/Examples/Bits.antt =====
-- A bitmap of 16 fields of two bits, and its theorems at concrete inputs.
use lce.Prelude.{ℕ, ◌<◌, ◌≡◌, refl, true, [], ◌∷◌, some, none, ◌==◌, if◌then◌else◌, arith}
use lce.BitMap.{BitMap, two_bits, get_2, set_2}
use lce.BitMap.Access.{Fields, get-set, set_at_size}

abbrev some_bits : BitMap
some_bits = record { max_index = 16; bytes = 0xE4 ∷ 0 ∷ 0xFF ∷ 3 ∷ [] }

some_bits-Fields : Fields two_bits 16 some_bits
some_bits-Fields = record {
  indices = refl;
  sized = refl;
  are_bytes = (omega arith, (omega arith, (omega arith, (omega arith, tt))));
}

get-set_example :
    (m' : BitMap) × (set_2 some_bits 1 2 ≡ some (m', true))
    × Fields two_bits 16 m'
    × ((j : ℕ) → j < 16 → get_2 m' j ≡ (if j == 1 then some 2 else get_2 some_bits j))
get-set_example =
    get-set {w = two_bits} {n = 16} {m = some_bits} some_bits-Fields 1 2 (omega arith) (omega arith)

set_at_size_example : (get_2 some_bits 16 ≡ none) × (set_2 some_bits 16 1 ≡ none)
set_at_size_example = set_at_size {w = two_bits} {n = 16} {m = some_bits} some_bits-Fields 1 refl
