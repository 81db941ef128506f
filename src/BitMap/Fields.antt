-- ===== src/BitMap/Fields.antt =====
-- A field in a byte, by going through all bytes.
use lce.Prelude.{
  ℕ, zero, suc, ◌^◌, ◌<◌, ◌≡◌, refl, Bool, true, ◌&&◌, ◌==◌, ==→eq, if◌then◌else◌, arith,
}
use lce.BitMap.{Width, one_bit, two_bits, four_bits, bits, per_byte, field, with_field}

all_below : ℕ → (ℕ → Bool) → Bool
all_below zero p = true
all_below (suc n) p = p n && all_below n p

all_below_lem : (n : ℕ) (p : ℕ → Bool) (x : ℕ) → all_below n p ≡ true → x < n → p x ≡ true
unfolding all_below
all_below_lem zero p x h lt = absurd (omega arith)
all_below_lem (suc n) p x h lt = ground (arith, all_below_lem n p x)

test : Width → ℕ → ℕ → ℕ → ℕ → Bool
test w b p v q = field w (with_field w b p v) q == (if q == p then v else field w b q)

four_bits_table :
    all_below 256
      (λ b. all_below 2 (λ p. all_below 16 (λ v. all_below 2 (λ q. test four_bits b p v q))))
    ≡ true
unfolding all_below test field with_field
four_bits_table = refl

two_bits_table :
    all_below 256
      (λ b. all_below 4 (λ p. all_below 4 (λ v. all_below 4 (λ q. test two_bits b p v q))))
    ≡ true
unfolding all_below test field with_field
two_bits_table = refl

one_bit_table :
    all_below 256
      (λ b. all_below 8 (λ p. all_below 2 (λ v. all_below 8 (λ q. test one_bit b p v q))))
    ≡ true
unfolding all_below test field with_field
one_bit_table = refl

passed :
    (w : Width) (b p v q : ℕ)
    → b < 256
    → p < per_byte w
    → v < 2 ^ bits w
    → q < per_byte w
    → test w b p v q ≡ true
passed one_bit b p v q lb lp lv lq =
    all_below_lem 8 _ q
      (all_below_lem 2 _ v (all_below_lem 8 _ p (all_below_lem 256 _ b one_bit_table lb) lp) lv) lq
passed two_bits b p v q lb lp lv lq =
    all_below_lem 4 _ q
      (all_below_lem 4 _ v (all_below_lem 4 _ p (all_below_lem 256 _ b two_bits_table lb) lp) lv) lq
passed four_bits b p v q lb lp lv lq =
    all_below_lem 2 _ q
      (all_below_lem 16 _ v (all_below_lem 2 _ p (all_below_lem 256 _ b four_bits_table lb) lp) lv)
      lq

-- The field has the value, and the other fields of the byte keep theirs.
pub field-with_field :
    (w : Width) (b p v q : ℕ)
    → b < 256
    → p < per_byte w
    → v < 2 ^ bits w
    → q < per_byte w
    → field w (with_field w b p v) q ≡ (if q == p then v else field w b q)
unfolding test
field-with_field w b p v q lb lp lv lq =
    ==→eq (field w (with_field w b p v) q) (if q == p then v else field w b q)
      (passed w b p v q lb lp lv lq)

pub with_field-byte : (w : Width) (b p v : ℕ) → with_field w b p v < 256
unfolding with_field
with_field-byte w b p v = omega arith

pub field-zero : (w : Width) (p : ℕ) → p < per_byte w → field w 0 p ≡ 0
unfolding all_below field
field-zero one_bit p lt = ==→eq _ _ (all_below_lem 8 (λ p. field one_bit 0 p == 0) p refl lt)
field-zero two_bits p lt = ==→eq _ _ (all_below_lem 4 (λ p. field two_bits 0 p == 0) p refl lt)
field-zero four_bits p lt = ==→eq _ _ (all_below_lem 2 (λ p. field four_bits 0 p == 0) p refl lt)
