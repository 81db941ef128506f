-- ===== src/Prelude/Words.antt =====
-- Machine words: `size_t` arithmetic modulo 2^64, and words as strings of bytes in the two orders.
use mathlib.Core.Path.{◌≡◌, refl, sym, ap, ap₂, ◌∙◌}
use mathlib.Core.List.{List, [], ◌∷◌, ◌++◌}
use Prim.Native.Nat.{ℕ, zero, suc, ◌+◌, ◌-◌, ◌*◌, ◌/◌, ◌%◌, ◌^◌, ◌<◌}
use native.Mathlib.Omega.{arith}
use native.Mathlib.Nat.{pow-suc, mod-add-div'}
use mathlib.Core.Bool.{Bool}
use lce.Prelude.Bools.{ltb, leb, if◌then◌else◌}
use lce.Prelude.Lists.{length, length-append}

-- `a + b` and `a - b` on `unsigned long`
abbrev pub add_size : ℕ → ℕ → ℕ
add_size a b = (a + b) % 2 ^ 64

abbrev pub sub_size : ℕ → ℕ → ℕ
sub_size a b = (a + 2 ^ 64 - b) % 2 ^ 64

-- An `int` or `long` as the 64-bit pattern of its value: the cast `(int)` of a `size_t`, and `<=`.
abbrev pub int_of : ℕ → ℕ
int_of w = if ltb (w % 2 ^ 32) (2 ^ 31) then w % 2 ^ 32 else w % 2 ^ 32 + (2 ^ 64 - 2 ^ 32)

abbrev pub le_signed : ℕ → ℕ → Bool
le_signed a b = leb ((a + 2 ^ 63) % 2 ^ 64) ((b + 2 ^ 63) % 2 ^ 64)

-- the `n` low bytes of a word, low byte first: its image in the memory of the host (x86_64)
unfoldable pub le_bytes : ℕ → ℕ → List ℕ
le_bytes zero v = []
le_bytes (suc n) v = v % 256 ∷ le_bytes n (v / 256)

unfoldable pub le_value : List ℕ → ℕ
le_value [] = 0
le_value (b ∷ bs) = b + 256 * le_value bs

-- the `n` low bytes of a word, high byte first: network order
unfoldable pub be_bytes : ℕ → ℕ → List ℕ
be_bytes zero v = []
be_bytes (suc n) v = be_bytes n (v / 256) ++ (v % 256) ∷ []

unfoldable pub be_from : ℕ → List ℕ → ℕ
be_from acc [] = acc
be_from acc (b ∷ bs) = be_from (acc * 256 + b) bs

abbrev pub be_value : List ℕ → ℕ
be_value = be_from 0

pub length-le_bytes : (n v : ℕ) → length (le_bytes n v) ≡ n
unfolding le_bytes
length-le_bytes zero v = refl
length-le_bytes (suc n) v = ap suc (length-le_bytes n (v / 256))

pub length-be_bytes : (n v : ℕ) → length (be_bytes n v) ≡ n
unfolding be_bytes
length-be_bytes zero v = refl
length-be_bytes (suc n) v =
    length-append (be_bytes n (v / 256)) ((v % 256) ∷ [])
    ∙ omega (arith, length-be_bytes n (v / 256))

-- A word that fits is read back.
pub le_value-le_bytes : (n v : ℕ) → v < 256 ^ n → le_value (le_bytes n v) ≡ v
unfolding le_value le_bytes
le_value-le_bytes zero v h = omega arith
le_value-le_bytes (suc n) v h =
    omega (arith, le_value-le_bytes n (v / 256) (omega (arith, pow-suc 256 n)))

be_from-snoc : (acc b : ℕ) (bs : List ℕ) → be_from acc (bs ++ b ∷ []) ≡ be_from acc bs * 256 + b
unfolding be_from
be_from-snoc acc b [] = refl
be_from-snoc acc b (c ∷ bs) = be_from-snoc (acc * 256 + c) b bs

pub be_value-be_bytes : (n v : ℕ) → v < 256 ^ n → be_value (be_bytes n v) ≡ v
unfolding be_bytes be_from
be_value-be_bytes zero v h = omega arith
be_value-be_bytes (suc n) v h =
    be_from-snoc 0 (v % 256) (be_bytes n (v / 256))
    ∙ omega (arith, be_value-be_bytes n (v / 256) (omega (arith, pow-suc 256 n)))

-- Only the low bytes of a word are written.
be_bytes-add : (n v k : ℕ) → be_bytes n (v + k * 256 ^ n) ≡ be_bytes n v
unfolding be_bytes
be_bytes-add zero v k = refl
be_bytes-add (suc n) v k =
    ap₂ (λ a b. a ++ b ∷ []) (ap (be_bytes n) (omega (arith, shift)) ∙ be_bytes-add n (v / 256) k)
      (omega (arith, shift))
  where
    shift : k * 256 ^ suc n ≡ 256 * (k * 256 ^ n)
    shift = rw (pow-suc 256 n) (omega arith)

pub be_bytes-mod : (n v : ℕ) → be_bytes n v ≡ be_bytes n (v % 256 ^ n)
be_bytes-mod n v =
    ap (be_bytes n) (sym (mod-add-div' v (256 ^ n))) ∙ be_bytes-add n (v % 256 ^ n) (v / 256 ^ n)
