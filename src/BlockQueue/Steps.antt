-- ===== src/BlockQueue/Steps.antt =====
-- Whatever the order in which threads get the lock, a `CBlockQueue` is a bounded FIFO.
use lce.Prelude.{
  ℕ, suc, ◌+◌, ◌%◌, ◌≤◌, ◌<◌, ◌≡◌, refl, sym, ap, ap₂, ◌∙◌, List, [], ◌∷◌, ◌++◌, length,
  length-append, Bool, true, false, Option, none, some, leb, le→leb, lt→leb, ne→==, if◌then◌else◌,
  arith,
}
use native.Mathlib.Decide.{dec_lt}
use native.Mathlib.Nat.{mod-lt}
use lce.Prelude.Memory.{Memory, put, put_self}
use lce.Prelude.Cyclic.{window, window-put, window_tail, mod-step}
use lce.BlockQueue.{
  BlockQueue, Section, returns, waits, build, clear, has_nothing, after, peek_back, push_section,
  take_item, pop_section, pop_timed,
}

-- What the FIFO of at most `limit` elements does; `none` is a call that has to wait.
module _ {A : Type 0} where
  abbrev pub offer : ℕ → List A → A → Option (List A × Bool)
  offer limit xs x = if leb limit (length xs) then none else some (xs ++ x ∷ [], true)

  abbrev pub poll : List A → Option (List A × Option A)
  poll [] = none
  poll (x ∷ xs) = some (xs, some x)

after-lt : (limit : ℕ) (i : Option ℕ) → 0 < limit → after limit i < limit
after-lt limit none lt = mod-lt 0 {m = limit} lt
after-lt limit (some i) lt = mod-lt (i + 1) {m = limit} lt

-- The queue holds these elements, oldest first.
pub record Waiting {A : Type 0} (q : BlockQueue A) (xs : List A) : Type 0 where
  pub positive : 0 < q.max_size
  pub counted : q.size ≡ length xs
  pub fits : length xs ≤ q.max_size
  pub back_at : after q.max_size q.back ≡ (after q.max_size q.front + length xs) % q.max_size
  pub contents : window q.slots q.max_size (after q.max_size q.front) (length xs) ≡ xs

module _ {A : Type 0} where
  -- What a critical section may do: return what the FIFO says and leave the queue holding what the
  -- FIFO holds, or wait where the FIFO waits.
  abbrev pub Follows : {B : Type 0} → ℕ → Section A B → Option (List A × B) → Type 0
  Follows limit (returns q b) (some (xs, c)) = Waiting q xs × (q.max_size ≡ limit) × (b ≡ c)
  Follows limit waits none = Unit {0}
  Follows limit _ _ = ⊥

  -- A new queue is empty and well-formed, whatever size is asked for.
  pub build-Waiting : (fresh : Memory A) (n : ℕ) → Waiting (build fresh n) []
  unfolding build window
  build-Waiting fresh n = record {
    positive = ground arith;
    counted = refl;
    fits = omega arith;
    back_at = sym (mod-step 0 0 (build fresh n).max_size);
    contents = refl;
  }

  -- A queue that holds elements is empty and well-formed after `clear`.
  pub clear-Waiting : {q : BlockQueue A} (xs : List A) → Waiting q xs → Waiting (clear q) []
  unfolding clear window
  clear-Waiting {q} xs h = record {
    positive = h.positive;
    counted = refl;
    fits = omega arith;
    back_at = sym (mod-step 0 0 q.max_size);
    contents = refl;
  }

  -- On a queue that holds elements, `push` with the lock puts its element last, or waits if the
  -- queue is full.
  pub push_section_lem :
      {q : BlockQueue A} (xs : List A) (x : A)
      → Waiting q xs
      → Follows q.max_size (push_section q x) (offer q.max_size xs x)
  unfolding push_section
  push_section_lem {q} xs x h = elim (dec_lt (length xs) q.max_size) [
    | no ge ↦
        rw
          (
            le→leb q.max_size q.size (omega (arith, h.counted)),
            le→leb q.max_size (length xs) (omega arith),
          )
          tt
    | yes lt ↦
        rw (lt→leb q.max_size q.size (omega (arith, h.counted)), lt→leb q.max_size (length xs) lt)
          (more lt, refl, refl)
  ]
    where
      first : ℕ
      first = after q.max_size q.front

      at : ℕ
      at = after q.max_size q.back

      count : length (xs ++ x ∷ []) ≡ length xs + 1
      count = length-append xs (x ∷ [])

      more :
          length xs < q.max_size
          → Waiting
              (record q { back = some at; slots = put q.slots at x; size = q.size + 1 })
              (xs ++ x ∷ [])
      more lt = record {
        positive = h.positive;
        counted = omega (arith, h.counted, count);
        fits = omega (arith, count);
        back_at =
            ap (λ k. (k + 1) % q.max_size) h.back_at
            ∙ mod-step (first + length xs) 1 q.max_size
            ∙ ap (λ k. k % q.max_size) {x = first + length xs + 1} (omega (arith, count));
        contents =
            ap₂ (λ r k. window (put q.slots r x) q.max_size first k) h.back_at count
            ∙ window-put q.slots q.max_size first (length xs) x
                (after-lt q.max_size q.front h.positive) lt
            ∙ ap (λ l. l ++ x ∷ []) h.contents;
      }

  take_item_lem :
      {q : BlockQueue A} (x : A) (xs : List A)
      → Waiting q (x ∷ xs)
      → Follows q.max_size (take_item q) (some (xs, some x))
  unfolding take_item
  take_item_lem {q} x xs h = (
    record {
      positive = h.positive;
      counted = omega (arith, h.counted);
      fits = omega (arith, h.fits);
      back_at =
          h.back_at
          ∙ ap (λ k. k % q.max_size) {x = first + suc (length xs)} (omega arith)
          ∙ sym (mod-step (first + 1) (length xs) q.max_size);
      contents = split.1;
    },
    refl,
    ap some split.0,
  )
    where
      first : ℕ
      first = after q.max_size q.front

      split :
          (q.slots first ≡ x)
          × (window q.slots q.max_size ((first + 1) % q.max_size) (length xs) ≡ xs)
      split = window_tail q.slots q.max_size first (length xs) x xs h.contents

  -- On a queue that holds these elements, `pop` with the lock takes the oldest, or waits if there
  -- is none.
  pub pop_section_lem :
      {q : BlockQueue A} (xs : List A) → Waiting q xs → Follows q.max_size (pop_section q) (poll xs)
  unfolding pop_section
  pop_section_lem {q} [] h = rw (le→leb q.size 0 (omega (arith, h.counted))) tt
  pop_section_lem {q} (x ∷ xs) h =
      rw (lt→leb q.size 0 (omega (arith, h.counted))) (take_item_lem x xs h)

  -- What the timed `pop` gives: an element that is there at once, or after the wait; nothing if
  -- the wait fails or there is still none.
  abbrev pub patience : List A → List A → Bool → List A × Option A
  patience (x ∷ xs) ys woken = (xs, some x)
  patience [] ys false = (ys, none)
  patience [] [] true = ([], none)
  patience [] (y ∷ ys) true = (ys, some y)

  -- The timed `pop` never waits a second time. It takes the oldest element of the queue that it
  -- finds, before its wait or after a wait that succeeded, and otherwise leaves the queue as it
  -- finds it. Both queues hold the elements given and have the same number of slots.
  pub pop_timed_lem :
      {q found : BlockQueue A} (xs ys : List A) (woken : Bool)
      → Waiting q xs
      → Waiting found ys
      → found.max_size ≡ q.max_size
      → Follows q.max_size (pop_timed q found woken) (some (patience xs ys woken))
  unfolding pop_timed take_item
  pop_timed_lem {q} {found} (x ∷ xs) ys woken h f same =
      rw (lt→leb q.size 0 (omega (arith, h.counted))) (take_item_lem x xs h)
  pop_timed_lem {q} {found} [] ys false h f same =
      rw (le→leb q.size 0 (omega (arith, h.counted))) (f, same, refl)
  pop_timed_lem {q} {found} [] [] true h f same =
      rw
        (le→leb q.size 0 (omega (arith, h.counted)), le→leb found.size 0 (omega (arith, f.counted)))
        (f, same, refl)
  pop_timed_lem {q} {found} [] (y ∷ ys) true h f same =
      rw
        (le→leb q.size 0 (omega (arith, h.counted)), lt→leb found.size 0 (omega (arith, f.counted)))
        (let r = take_item_lem y ys f in (r.0, r.1 ∙ same, r.2))

  -- Where a queue that holds elements has room, `push` succeeds, and `back` then gives the element
  -- that it pushed.
  pub peek_back-push_section :
      {q : BlockQueue A} (xs : List A) (x : A)
      → Waiting q xs
      → length xs < q.max_size
      → (q' : BlockQueue A) × (push_section q x ≡ returns q' true)
        × (peek_back q' ≡ returns q' (some x))
  unfolding push_section peek_back has_nothing
  peek_back-push_section {q} xs x h lt = (
    record q { back = some at; slots = put q.slots at x; size = q.size + 1 },
    rw (lt→leb q.max_size q.size (omega (arith, h.counted))),
    rw (ne→== 0 (q.size + 1) (λ e. omega arith), put_self q.slots at x),
  )
    where
      at : ℕ
      at = after q.max_size q.back
