-- ===== src/Prelude/Cyclic.antt =====
-- Buffers whose indices go round at `size`: the contents from a position on, and stores that wrap.
use mathlib.Core.Path.{◌≡◌, refl, sym, ap, ap₂, ◌∙◌}
use mathlib.Core.Logic.{◌≢◌, ◌⊎◌, inl, inr}
use mathlib.Core.List.{List, [], ◌∷◌, ◌++◌, append-nil, append_assoc}
use Prim.Native.Nat.{ℕ, zero, suc, ◌+◌, ◌-◌, ◌%◌, ◌≤◌, ◌<◌}
use native.Mathlib.Omega.{arith}
use native.Mathlib.Nat.{mod-add-mod, mod-eq_of_lt, mod-eq-sub-mod, mod-lt, mod_self}
use native.Mathlib.Decide.{dec_lt}
use lce.Prelude.Lists.{length}
use lce.Prelude.Memory.{Memory, put, store, load, put_self, put_ne}

-- Below twice the modulus a remainder is taken by at most one subtraction.
pub mod-cases :
    (a size : ℕ)
    → a < size + size
    → ((a < size) × (a % size ≡ a)) ⊎ ((size ≤ a) × (a % size ≡ a - size))
mod-cases a size h = elim (dec_lt a size) [
  | yes p ↦ inl (p, mod-eq_of_lt p)
  | no p ↦ inr (
    omega arith,
    mod-eq-sub-mod {n = a} {m = size} (omega arith)
        ∙ mod-eq_of_lt {n = a - size} {m = size} (omega arith),
  )
]

-- Fewer than `size` steps round the buffer lead to different places.
pub add-mod-ne : (size h j k : ℕ) → h < size → j < k → k < size → (h + j) % size ≢ (h + k) % size
add-mod-ne size h j k hh hj hk =
    ground (arith, mod-cases (h + j) size (omega arith), mod-cases (h + k) size (omega arith))

pub mod-step : (a b size : ℕ) → (a % size + b) % size ≡ (a + b) % size
mod-step a b size = mod-add-mod a size b

module _ {ℓ} {A : Type ℓ} where
  -- the `n` entries from index `h` on
  unfoldable pub window : Memory A → ℕ → ℕ → ℕ → List A
  window m size h zero = []
  window m size h (suc n) = m h ∷ window m size ((h + 1) % size) n

  -- entries written one after another from index `i` on
  unfoldable pub ring_store : Memory A → ℕ → ℕ → List A → Memory A
  ring_store m size i [] = m
  ring_store m size i (b ∷ bs) = ring_store (put m i b) size ((i + 1) % size) bs

  pub length-window : (m : Memory A) (size h n : ℕ) → length (window m size h n) ≡ n
  unfolding window
  length-window m size h zero = refl
  length-window m size h (suc n) = ap suc (length-window m size ((h + 1) % size) n)

  pub window-append :
      (m : Memory A) (size h a b : ℕ)
      → h < size
      → window m size h (a + b) ≡ window m size h a ++ window m size ((h + a) % size) b
  unfolding window
  window-append m size h zero b lt =
      ap₂ (window m size) (sym (mod-eq_of_lt {n = h + 0} {m = size} (omega arith) ∙ omega arith))
        (omega arith)
  window-append m size h (suc a) b lt =
      ap (window m size h) {x = suc a + b} {y = suc (a + b)} (omega arith)
      ∙ ap (◌∷◌ (m h)) (
          window-append m size ((h + 1) % size) a b (mod-lt _ (omega arith))
          ∙ ap (λ k. window m size ((h + 1) % size) a ++ window m size k b)
              (mod-step (h + 1) a size
                ∙ ap (λ k. k % size) {x = h + 1 + a} {y = h + suc a} (omega arith)))

  -- The first entry of a window, and the others.
  pub window_tail :
      (m : Memory A) (size f n : ℕ) (x : A) (xs : List A)
      → window m size f (suc n) ≡ x ∷ xs
      → (m f ≡ x) × (window m size ((f + 1) % size) n ≡ xs)
  unfolding window
  window_tail m size f n x xs e = (cc, cc)

  -- A window that does not reach past the end is a plain load.
  pub window_flat :
      (m : Memory A) (size h n : ℕ) → h < size → h + n ≤ size → window m size h n ≡ load m h n
  unfolding window load
  window_flat m size h zero lt le = refl
  window_flat m size h (suc zero) lt le = refl
  window_flat m size h (suc (suc n)) lt le = ap (◌∷◌ (m h)) (
      ap (λ k. window m size k (suc n)) (mod-eq_of_lt {n = h + 1} {m = size} (omega arith))
      ∙ window_flat m size (h + 1) (suc n) (omega arith) (omega arith))

  pub window-ext :
      (m m' : Memory A) (size h n : ℕ)
      → ((k : ℕ) → k < n → m ((h + k) % size) ≡ m' ((h + k) % size))
      → h < size
      → window m size h n ≡ window m' size h n
  unfolding window
  window-ext m m' size h zero e lt = refl
  window-ext m m' size h (suc n) e lt =
      ap₂ ◌∷◌ (sym (ap m first) ∙ e 0 (omega arith) ∙ ap m' first) (
        window-ext m m' size ((h + 1) % size) n
          (λ k p. ap m (shift k) ∙ e (suc k) (omega arith) ∙ sym (ap m' (shift k)))
          (mod-lt _ (omega arith)))
    where
      first : (h + 0) % size ≡ h
      first = mod-eq_of_lt {n = h + 0} {m = size} (omega arith) ∙ omega arith

      shift : (k : ℕ) → ((h + 1) % size + k) % size ≡ (h + suc k) % size
      shift k = mod-step (h + 1) k size ∙ ap (λ j. j % size) (omega arith)

  -- An entry written just past a window does not disturb it, and extends it.
  pub window-put :
      (m : Memory A) (size h n : ℕ) (x : A)
      → h < size
      → n < size
      → window (put m ((h + n) % size) x) size h (n + 1) ≡ window m size h n ++ (x ∷ [])
  unfolding window
  window-put m size h n x lt le =
      window-append (put m ((h + n) % size) x) size h n 1 lt
      ∙ ap₂ ◌++◌
          (window-ext (put m ((h + n) % size) x) m size h n
            (λ k p. put_ne m ((h + n) % size) x ((h + k) % size) (add-mod-ne size h k n lt p le))
            lt)
          (ap (λ y. y ∷ []) (put_self m ((h + n) % size) x))

  -- So do several entries.
  pub window-ring_store :
      (m : Memory A) (size h n : ℕ) (bs : List A)
      → h < size
      → n + length bs ≤ size
      → window (ring_store m size ((h + n) % size) bs) size h (n + length bs)
        ≡ window m size h n ++ bs
  unfolding ring_store
  window-ring_store m size h n [] lt le =
      ap (window m size h) (omega arith) ∙ sym (append-nil (window m size h n))
  window-ring_store m size h n (b ∷ bs) lt le =
      ap₂ (λ e k. window (ring_store m' size e bs) size h k)
        (mod-step (h + n) 1 size ∙ ap (λ j. j % size) (omega arith)) count
      ∙ window-ring_store m' size h (n + 1) bs lt (omega arith)
      ∙ ap (λ l. l ++ bs) (window-put m size h n b lt (omega arith))
      ∙ append_assoc (window m size h n) (b ∷ []) bs
    where
      m' : Memory A
      m' = put m ((h + n) % size) b

      count : n + suc (length bs) ≡ n + 1 + length bs
      count = omega arith

  -- A wrapping store that reaches at most to the end is a plain one.
  pub ring_store_flat :
      (m : Memory A) (size i : ℕ) (bs : List A)
      → i + length bs ≤ size
      → ring_store m size i bs ≡ store m i bs
  unfolding ring_store store
  ring_store_flat m size i [] le = refl
  ring_store_flat m size i (b ∷ []) le = refl
  ring_store_flat m size i (b ∷ c ∷ bs) le =
      ap (λ k. ring_store (put m i b) size k (c ∷ bs))
        (mod-eq_of_lt {n = i + 1} {m = size} (omega arith))
      ∙ ring_store_flat (put m i b) size (i + 1) (c ∷ bs) (omega arith)

  pub ring_store-append :
      (m : Memory A) (size i : ℕ) (xs ys : List A)
      → i < size
      → ring_store m size i (xs ++ ys)
        ≡ ring_store (ring_store m size i xs) size ((i + length xs) % size) ys
  unfolding ring_store
  ring_store-append m size i [] ys lt =
      ap (λ k. ring_store m size k ys)
        (sym (mod-eq_of_lt {n = i + 0} {m = size} (omega arith) ∙ omega arith))
  ring_store-append m size i (x ∷ xs) ys lt =
      ring_store-append (put m i x) size ((i + 1) % size) xs ys (mod-lt _ (omega arith))
      ∙ ap (λ k. ring_store (ring_store (put m i x) size ((i + 1) % size) xs) size k ys)
          (mod-step (i + 1) (length xs) size ∙ ap (λ j. j % size) (omega arith))

  -- No index from `size` on is written.
  pub ring_store_outside :
      (m : Memory A) (size i : ℕ) (bs : List A) (j : ℕ)
      → i < size
      → size ≤ j
      → ring_store m size i bs j ≡ m j
  unfolding ring_store
  ring_store_outside m size i [] j lt le = refl
  ring_store_outside m size i (b ∷ bs) j lt le =
      ring_store_outside (put m i b) size ((i + 1) % size) bs j (mod-lt _ (omega arith)) le
      ∙ put_ne m i b j (omega arith)

  -- A store that reaches the end goes on at index 0.
  pub ring_store_wrap :
      (m : Memory A) (size i : ℕ) (xs ys : List A)
      → i < size
      → i + length xs ≡ size
      → length ys ≤ size
      → ring_store m size i (xs ++ ys) ≡ store (store m i xs) 0 ys
  ring_store_wrap m size i xs ys lt e le =
      ring_store-append m size i xs ys lt
      ∙ ap (λ k. ring_store (ring_store m size i xs) size k ys)
          (ap (λ k. k % size) e ∙ mod_self size)
      ∙ ring_store_flat (ring_store m size i xs) size 0 ys (omega arith)
      ∙ ap (λ k. store k 0 ys) (ring_store_flat m size i xs (omega arith))

  -- A window that reaches the end goes on at index 0.
  pub window_wrap :
      (m : Memory A) (size h a b : ℕ)
      → h < size
      → h + a ≡ size
      → b ≤ size
      → window m size h (a + b) ≡ load m h a ++ load m 0 b
  window_wrap m size h a b lt e le =
      window-append m size h a b lt
      ∙ ap₂ ◌++◌ (window_flat m size h a lt (omega arith)) (
          ap (λ k. window m size k b) (ap (λ k. k % size) e ∙ mod_self size)
          ∙ window_flat m size 0 b (omega arith) (omega arith))
