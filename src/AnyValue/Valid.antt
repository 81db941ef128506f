-- ===== src/AnyValue/Valid.antt =====
-- The values whose encoding keeps everything: the limits of the format.
use lce.Prelude.{ℕ, ◌^◌, ◌≤◌, ◌<◌, ◌≡◌, ◌⊎◌, true, List, length}
use lce.AnyValue.{
  Value, null, stale, boolean, integer, sinteger, float, string, vector, map, Items, nil, cons,
  Fields, end, field, count_items, count_fields,
}
use lce.AnyValue.Decode.{less}

-- Every name of the first map comes before the name, or before every name of the second.
abbrev pub Before : Fields → List ℕ → Type 0
Before end k = Unit {0}
Before (field j v fs) k = (less j k ≡ true) × Before fs k

abbrev pub AllBefore : Fields → Fields → Type 0
AllBefore acc end = Unit {0}
AllBefore acc (field k v fs) = Before acc k × AllBefore acc fs

abbrev pub After : List ℕ → Fields → Type 0
After j end = Unit {0}
After j (field k v fs) = (less j k ≡ true) × After j fs

-- Numbers of 64 bits, strings and containers whose length has 32 bits, names of at most 255 bytes in
-- the order of the map. A signed number that is not negative is below 128; this is where
-- `encode_sinteger` keeps it.
abbrev mutual
  pub Valid : Value → Type 0
  Valid null = Unit {0}
  Valid (stale v) = ⊥
  Valid (boolean v) = v < 256
  Valid (integer v) = v < 2 ^ 64
  Valid (sinteger v) = (v < 128) ⊎ ((2 ^ 63 ≤ v) × (v < 2 ^ 64))
  Valid (float v) = v < 2 ^ 64
  Valid (string bs) = length bs < 2 ^ 32
  Valid (vector vs) = (count_items vs < 2 ^ 32) × ValidItems vs
  Valid (map fs) = (count_fields fs < 2 ^ 32) × ValidFields fs

  pub ValidItems : Items → Type 0
  ValidItems nil = Unit {0}
  ValidItems (cons v vs) = Valid v × ValidItems vs

  pub ValidFields : Fields → Type 0
  ValidFields end = Unit {0}
  ValidFields (field k v fs) = (length k < 256) × Valid v × After k fs × ValidFields fs
