-- ===== src/BitMap.antt =====
-- `CBitmap<1>`, `CBitmap<2>`, `CBitmap<4>` and `CBitmap<8>` of include/CBitMap.h: fields of that many
-- bits in shared memory. The memory behind the head is a list of bytes; what a new segment holds
-- is a parameter of `init`. `none` is a read or write outside that memory. The bytes are `char`s: the
-- bits that a field's mask keeps are the same whether the shift copies the sign or not.
pub mod Fields
pub mod Access
use lce.Prelude.{
  ℕ, zero, suc, ◌+◌, ◌-◌, ◌*◌, ◌/◌, ◌%◌, ◌^◌, Bool, true, false, List, [], ◌∷◌, ◌++◌, Option, none,
  some, length, take, drop, replicate, ltb, ◌==◌, if◌then◌else◌,
}
use Prim.Native.Nat.{bit_and, bit_or}

pub record BitMap : Type 0 where
  pub max_index : ℕ
  pub bytes : List ℕ

-- the template's argument, for the fields that share a byte
pub data Width : Type 0 where
  one_bit two_bits four_bits : Width

abbrev pub bits : Width → ℕ
bits one_bit = 1
bits two_bits = 2
bits four_bits = 4

abbrev pub per_byte : Width → ℕ
per_byte one_bit = 8
per_byte two_bits = 4
per_byte four_bits = 2

-- the masks of `get`, and the tables `caUinFlag` of `set`
abbrev pub low_mask : Width → ℕ
low_mask one_bit = 0x1
low_mask two_bits = 0x3
low_mask four_bits = 0x0F

abbrev pub flags_1 : List ℕ
flags_1 = 0xfe ∷ 0xfd ∷ 0xfb ∷ 0xf7 ∷ 0xef ∷ 0xdf ∷ 0xbf ∷ 0x7f ∷ []

abbrev pub flags_2 : List ℕ
flags_2 = 0xfc ∷ 0xf3 ∷ 0xcf ∷ 0x3f ∷ []

abbrev pub flags_4 : List ℕ
flags_4 = 0xf0 ∷ 0x0f ∷ []

abbrev pub flags : Width → List ℕ
flags one_bit = flags_1
flags two_bits = flags_2
flags four_bits = flags_4

abbrev flag_at : ℕ → List ℕ → ℕ
flag_at i [] = 0
flag_at zero (f ∷ fs) = f
flag_at (suc i) (f ∷ fs) = flag_at i fs

abbrev pub byte_at : ℕ → List ℕ → Option ℕ
byte_at i [] = none
byte_at zero (b ∷ bs) = some b
byte_at (suc i) (b ∷ bs) = byte_at i bs

abbrev pub put_byte : ℕ → ℕ → List ℕ → List ℕ
put_byte i b [] = []
put_byte zero b (c ∷ bs) = b ∷ bs
put_byte (suc i) b (c ∷ bs) = c ∷ put_byte i b bs

-- the bytes behind the head
abbrev pub data_size : Width → ℕ → ℕ
data_size w n = (n + 7) / 8 * bits w

-- `init` of a new segment, which has `fresh` in it; an empty one is refused.
unfoldable pub init : Width → ℕ → (ℕ → List ℕ) → Option BitMap
init w n fresh =
    if data_size w n == 0
    then none
    else some (record { max_index = n; bytes = fresh (data_size w n) })

-- the field in a byte, and the byte with another value in it
unfoldable pub field : Width → ℕ → ℕ → ℕ
field w b p = bit_and (b / 2 ^ (p * bits w)) (low_mask w)

unfoldable pub with_field : Width → ℕ → ℕ → ℕ → ℕ
with_field w b p v = bit_or (bit_and b (flag_at p (flags w))) (v * 2 ^ (p * bits w)) % 256

-- `get(dwIndex)`
unfoldable pub get : Width → BitMap → ℕ → Option ℕ
get w m i = if ltb m.max_index i then some 0 else elim (byte_at (i / per_byte w) m.bytes) [
  | none ↦ none
  | some b ↦ some (field w b (i % per_byte w))
]

-- `set(dwIndex, ucVal)`
unfoldable pub set : Width → BitMap → ℕ → ℕ → Option (BitMap × Bool)
set w m i v =
    if ltb m.max_index i then some (m, false) else elim (byte_at (i / per_byte w) m.bytes) [
      | none ↦ none
      | some b ↦ some (
        record m { bytes = put_byte (i / per_byte w) (with_field w b (i % per_byte w) v) m.bytes },
        true,
      )
    ]

-- `clear()`
unfoldable pub clear : BitMap → BitMap
clear m = record m { bytes = replicate (length m.bytes) 0 }

-- the classes, by their template's argument
abbrev pub init_1 : ℕ → (ℕ → List ℕ) → Option BitMap
init_1 = init one_bit

abbrev pub get_1 : BitMap → ℕ → Option ℕ
get_1 = get one_bit

abbrev pub set_1 : BitMap → ℕ → ℕ → Option (BitMap × Bool)
set_1 = set one_bit

abbrev pub init_2 : ℕ → (ℕ → List ℕ) → Option BitMap
init_2 = init two_bits

abbrev pub get_2 : BitMap → ℕ → Option ℕ
get_2 = get two_bits

abbrev pub set_2 : BitMap → ℕ → ℕ → Option (BitMap × Bool)
set_2 = set two_bits

abbrev pub init_4 : ℕ → (ℕ → List ℕ) → Option BitMap
init_4 = init four_bits

abbrev pub get_4 : BitMap → ℕ → Option ℕ
get_4 = get four_bits

abbrev pub set_4 : BitMap → ℕ → ℕ → Option (BitMap × Bool)
set_4 = set four_bits

-- `CBitmap<8>`, whose fields are the bytes
unfoldable pub init_8 : ℕ → (ℕ → List ℕ) → Option BitMap
init_8 n fresh = if n == 0 then none else some (record { max_index = n; bytes = fresh n })

unfoldable pub get_8 : BitMap → ℕ → Option ℕ
get_8 m i = if ltb m.max_index i then some 0 else byte_at i m.bytes

unfoldable pub set_8 : BitMap → ℕ → ℕ → Option (BitMap × Bool)
set_8 m i v = if ltb m.max_index i then some (m, false) else elim (byte_at i m.bytes) [
  | none ↦ none
  | some b ↦ some (record m { bytes = put_byte i v m.bytes }, true)
]
