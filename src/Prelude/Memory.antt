-- ===== src/Prelude/Memory.antt =====
-- Buffers in memory: a buffer is what each index holds, `memcpy` in is `store`, `memcpy` out is
-- `load`. Bounds are no part of it: the modules of the buffers prove which indices are written.
use mathlib.Core.Path.{◌≡◌, refl, sym, ap, ap₂, ◌∙◌}
use mathlib.Core.Logic.{◌⊎◌, ◌≢◌}
use mathlib.Core.List.{List, [], ◌∷◌, ◌++◌}
use Prim.Native.Nat.{ℕ, zero, suc, ◌+◌, ◌-◌, ◌≤◌, ◌<◌}
use native.Mathlib.Omega.{arith}
use native.Mathlib.Decide.{ℕ_discrete}
use lce.Prelude.Bools.{◌==◌, if◌then◌else◌}
use lce.Prelude.Lists.{length, take, drop}

abbrev pub Memory {ℓ} : Type ℓ → Type ℓ
Memory A = ℕ → A

module _ {ℓ} {A : Type ℓ} where
  -- `m[i] = b`
  unfoldable pub put : Memory A → ℕ → A → Memory A
  put m i b j = if j == i then b else m j

  -- `memcpy(m + i, bs, n)` for the `n` bytes `bs`
  unfoldable pub store : Memory A → ℕ → List A → Memory A
  store m i [] = m
  store m i (b ∷ bs) = store (put m i b) (i + 1) bs

  -- the `n` bytes from `m + i` on
  unfoldable pub load : Memory A → ℕ → ℕ → List A
  load m i zero = []
  load m i (suc n) = m i ∷ load m (i + 1) n

  pub put_self : (m : Memory A) (i : ℕ) (b : A) → put m i b i ≡ b
  unfolding put
  put_self m i b = ground arith

  pub put_ne : (m : Memory A) (i : ℕ) (b : A) (j : ℕ) → j ≢ i → put m i b j ≡ m j
  unfolding put
  put_ne m i b j h = ground arith

  pub length-load : (m : Memory A) (i n : ℕ) → length (load m i n) ≡ n
  unfolding load
  length-load m i zero = refl
  length-load m i (suc n) = ap suc (length-load m (i + 1) n)

  -- `load` depends on the indices that it reads.
  pub load-ext :
      (m m' : Memory A) (i n : ℕ)
      → ((j : ℕ) → i ≤ j → j < i + n → m j ≡ m' j)
      → load m i n ≡ load m' i n
  unfolding load
  load-ext m m' i zero h = refl
  load-ext m m' i (suc n) h =
      ap₂ ◌∷◌ (h i (omega arith) (omega arith))
        (load-ext m m' (i + 1) n (λ j p q. h j (omega arith) (omega arith)))

  -- Equal contents agree at every index.
  pub load-agrees :
      (m m' : Memory A) (i n j : ℕ) → load m i n ≡ load m' i n → j < n → m (i + j) ≡ m' (i + j)
  unfolding load
  load-agrees m m' i zero j e lt = absurd (omega arith)
  load-agrees m m' i (suc n) zero e lt =
      let here : m i ≡ m' i = cc in ap m {x = i + 0} (omega arith) ∙ here ∙ ap m' (omega arith)
  load-agrees m m' i (suc n) (suc j) e lt =
      let rest : load m (i + 1) n ≡ load m' (i + 1) n = cc in
      ap m {x = i + suc j} {y = i + 1 + j} (omega arith)
      ∙ load-agrees m m' (i + 1) n j rest (omega arith)
      ∙ ap m' (omega arith)

  -- A store leaves every index outside its range as it was.
  pub store_outside :
      (m : Memory A) (i : ℕ) (bs : List A) (j : ℕ)
      → (j < i) ⊎ (i + length bs ≤ j)
      → store m i bs j ≡ m j
  unfolding store
  store_outside m i [] j h = refl
  store_outside m i (b ∷ bs) j h =
      store_outside (put m i b) (i + 1) bs j (omega arith) ∙ put_ne m i b j (omega arith)

  pub load-append : (m : Memory A) (i a b : ℕ) → load m i (a + b) ≡ load m i a ++ load m (i + a) b
  unfolding load
  load-append m i zero b = ap₂ (load m) (omega arith) (omega arith)
  load-append m i (suc a) b =
      ap (load m i) {x = suc a + b} {y = suc (a + b)} (omega arith)
      ∙ ap (◌∷◌ (m i)) (
          load-append m (i + 1) a b
          ∙ ap (λ k. load m (i + 1) a ++ load m k b) {x = i + 1 + a} {y = i + suc a} (omega arith))

  pub load-store_outside :
      (m : Memory A) (i : ℕ) (bs : List A) (j n : ℕ)
      → (j + n ≤ i) ⊎ (i + length bs ≤ j)
      → load (store m i bs) j n ≡ load m j n
  load-store_outside m i bs j n h =
      load-ext (store m i bs) m j n (λ k p q. store_outside m i bs k (omega arith))

  -- What was stored is read back.
  pub load-store : (m : Memory A) (i : ℕ) (bs : List A) → load (store m i bs) i (length bs) ≡ bs
  unfolding load store
  load-store m i [] = refl
  load-store m i (b ∷ bs) =
      ap₂ ◌∷◌ (store_outside (put m i b) (i + 1) bs i (omega arith) ∙ put_self m i b)
        (load-store (put m i b) (i + 1) bs)

  pub store-append :
      (m : Memory A) (i : ℕ) (xs ys : List A)
      → store m i (xs ++ ys) ≡ store (store m i xs) (i + length xs) ys
  unfolding store
  store-append m i [] ys = ap (λ k. store m k ys) (omega arith)
  store-append m i (x ∷ xs) ys =
      store-append (put m i x) (i + 1) xs ys
      ∙ ap (λ k. store (store (put m i x) (i + 1) xs) k ys) (omega arith)

  -- A load stops earlier, or starts later.
  pub take-load : (m : Memory A) (i n k : ℕ) → k ≤ n → take k (load m i n) ≡ load m i k
  unfolding load
  take-load m i n zero h = refl
  take-load m i zero (suc k) h = absurd (omega arith)
  take-load m i (suc n) (suc k) h = ap (◌∷◌ (m i)) (take-load m (i + 1) n k (omega arith))

  pub drop-load : (m : Memory A) (i n k : ℕ) → k ≤ n → drop k (load m i n) ≡ load m (i + k) (n - k)
  unfolding load
  drop-load m i n zero h = ap₂ (load m) (omega arith) (omega arith)
  drop-load m i zero (suc k) h = absurd (omega arith)
  drop-load m i (suc n) (suc k) h =
      drop-load m (i + 1) n k (omega arith) ∙ ap₂ (load m) (omega arith) (omega arith)

  -- A copy of the first `n` indices agrees with the original on them.
  copied : (m' m : Memory A) (i n j : ℕ) → i ≤ j → j < i + n → store m' i (load m i n) j ≡ m j
  unfolding store load
  copied m' m i zero j le lt = absurd (omega arith)
  copied m' m i (suc n) j le lt = elim (ℕ_discrete j i) [
    | yes e ↦
        store_outside (put m' i (m i)) (i + 1) (load m (i + 1) n) j (omega arith)
        ∙ ap (put m' i (m i)) e
        ∙ put_self m' i (m i)
        ∙ ap m (sym e)
    | no ne ↦ copied (put m' i (m i)) m (i + 1) n j (omega arith) (omega arith)
  ]

  pub store-load : (m' m : Memory A) (n j : ℕ) → j < n → store m' 0 (load m 0 n) j ≡ m j
  store-load m' m n j lt = copied m' m 0 n j (omega arith) (omega arith)
