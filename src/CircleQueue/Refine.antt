-- ===== src/CircleQueue/Refine.antt =====
-- A `CCircleQueue` is a bounded FIFO of one element less than it has slots.
use lce.Prelude.{
  ℕ, suc, ◌+◌, ◌-◌, ◌%◌, ◌^◌, ◌≤◌, ◌<◌, ◌≡◌, refl, sym, ap, ap₂, ◌∙◌, ◌⊎◌, List, [], ◌∷◌, ◌++◌,
  length, length-append, Bool, true, false, inl, inr, Option, none, some, ltb, ◌==◌, le→ltb, lt→ltb,
  eq→==, ne→==, if◌then◌else◌, arith,
}
use native.Mathlib.Decide.{ℕ_discrete}
use native.Mathlib.Nat.{mod-lt, mod-eq_of_lt}
use lce.Prelude.Memory.{Memory, put}
use lce.Prelude.Cyclic.{window, window-put, window_tail, mod-cases, mod-step}
use lce.CircleQueue.{CircleQueue, start, is_empty, is_full, next, enque, deque}

module _ {ℓ} {A : Type ℓ} where
  -- The queue holds these elements, oldest first.
  pub record Queued (q : CircleQueue A) (xs : List A) : Type ℓ where
    pub small : q.size < 2 ^ 32
    pub front_in : q.front < q.size
    pub rear_at : q.rear ≡ (q.front + length xs) % q.size
    pub fits : length xs < q.size
    pub contents : window q.slots q.size q.front (length xs) ≡ xs

  -- A new queue is empty. It has one slot more than it was asked for, or 1001 if that was 0; the
  -- number asked for is below 2^32 - 1.
  pub start-Queued :
      (fresh : Memory A) (n : ℕ)
      → n + 1 < 2 ^ 32
      → Queued (start fresh n) [] × ((start fresh n).size ≡ (if n == 0 then 1000 else n) + 1)
  unfolding start window
  start-Queued fresh n lt = (
    record {
      small = ground arith;
      front_in = ground arith;
      rear_at = ground arith;
      fits = ground arith;
      contents = refl;
    },
    ground arith,
  )

  rear-cases :
      {q : CircleQueue A} (xs : List A)
      → Queued q xs
      → ((q.front + length xs < q.size) × (q.rear ≡ q.front + length xs))
        ⊎ ((q.size ≤ q.front + length xs) × (q.rear ≡ q.front + length xs - q.size))
  rear-cases {q} xs h = omega (
    arith,
    h.rear_at,
    h.fits,
    h.front_in,
    mod-cases (q.front + length xs) q.size (omega (arith, h.fits, h.front_in)),
  )

  next-step :
      {q : CircleQueue A} (xs : List A) (i : ℕ)
      → Queued q xs
      → i < q.size
      → next q i ≡ (i + 1) % q.size
  next-step {q} xs i h lt =
      ap (λ k. k % q.size) (mod-eq_of_lt {n = i + 1} {m = 2 ^ 32} (omega (arith, h.small)))

  is_full_lem :
      {q : CircleQueue A} (xs : List A)
      → Queued q xs
      → ((suc (length xs) ≡ q.size) × (is_full q ≡ true))
        ⊎ ((suc (length xs) < q.size) × (is_full q ≡ false))
  unfolding is_full
  is_full_lem {q} xs h =
      let rear_in : q.rear < q.size = omega (arith, rear-cases xs h, h.fits, h.front_in) in
      let step = next-step xs q.rear h rear_in in
      let cases = mod-cases (q.rear + 1) q.size (omega arith) in
      elim (ℕ_discrete (suc (length xs)) q.size) [
        | yes e ↦ inl (
          e,
          eq→== (next q q.rear) q.front (omega (arith, step, cases, rear-cases xs h, h.front_in)),
        )
        | no ne ↦ inr (
          omega (arith, h.fits),
          ne→== (next q q.rear) q.front
              (omega (arith, step, cases, rear-cases xs h, h.front_in, h.fits)),
        )
      ]

  is_empty_lem :
      {q : CircleQueue A} (xs : List A)
      → Queued q xs
      → ((length xs ≡ 0) × (is_empty q ≡ true)) ⊎ ((0 < length xs) × (is_empty q ≡ false))
  unfolding is_empty
  is_empty_lem {q} xs h = elim (ℕ_discrete (length xs) 0) [
    | yes e ↦ inl (e, eq→== q.front q.rear (omega (arith, rear-cases xs h, h.front_in)))
    | no ne ↦
        inr (omega arith, ne→== q.front q.rear (omega (arith, rear-cases xs h, h.fits, h.front_in)))
  ]

  -- The specification: a FIFO of at most `room` elements.
  abbrev pub put_last : ℕ → List A → A → List A × Bool
  put_last room xs x = if ltb (length xs) room then (xs ++ x ∷ [], true) else (xs, false)

  abbrev pub take_first : List A → List A × Option A
  take_first [] = ([], none)
  take_first (x ∷ xs) = (xs, some x)

  -- `enque` puts the element last, or refuses it and changes nothing if all slots but one are taken.
  pub enque_lem :
      {q : CircleQueue A} (xs : List A) (x : A)
      → Queued q xs
      → Queued (enque q x).0 (put_last (q.size - 1) xs x).0
        × ((enque q x).1 ≡ (put_last (q.size - 1) xs x).1)
        × ((enque q x).0.size ≡ q.size)
  unfolding enque
  enque_lem {q} xs x h = elim (is_full_lem xs h) [
    | inl (e, full) ↦ rw (full, le→ltb (length xs) (q.size - 1) (omega arith)) (h, refl, refl)
    | inr (lt, room) ↦
        rw (room, lt→ltb (length xs) (q.size - 1) (omega arith)) (more lt, refl, refl)
  ]
    where
      count : length (xs ++ x ∷ []) ≡ length xs + 1
      count = length-append xs (x ∷ [])

      rear_in : q.rear < q.size
      rear_in = omega (arith, rear-cases xs h, h.fits, h.front_in)

      more :
          suc (length xs) < q.size
          → Queued (record q { slots = put q.slots q.rear x; rear = next q q.rear }) (xs ++ x ∷ [])
      more lt = record {
        small = h.small;
        front_in = h.front_in;
        rear_at =
            next-step xs q.rear h rear_in
            ∙ ap (λ k. (k + 1) % q.size) h.rear_at
            ∙ mod-step (q.front + length xs) 1 q.size
            ∙ ap (λ k. k % q.size) (omega (arith, count));
        fits = omega (arith, count);
        contents =
            ap₂ (λ r k. window (put q.slots r x) q.size q.front k) h.rear_at count
            ∙ window-put q.slots q.size q.front (length xs) x h.front_in h.fits
            ∙ ap (λ l. l ++ x ∷ []) h.contents;
      }

  -- `deque` takes the oldest element, if there is one.
  pub deque_lem :
      {q : CircleQueue A} (xs : List A)
      → Queued q xs
      → Queued (deque q).0 (take_first xs).0
        × ((deque q).1 ≡ (take_first xs).1)
        × ((deque q).0.size ≡ q.size)
  unfolding deque
  deque_lem {q} [] h = elim (is_empty_lem [] h) [
    | inl (e, empty) ↦ rw empty (h, refl, refl)
    | inr (lt, some_left) ↦ absurd (omega arith)
  ]
  deque_lem {q} (x ∷ xs) h = elim (is_empty_lem (x ∷ xs) h) [
    | inl (e, empty) ↦ absurd (omega arith)
    | inr (lt, some_left) ↦ rw some_left (less, ap some split.0, refl)
  ]
    where
      split :
          (q.slots q.front ≡ x) × (window q.slots q.size ((q.front + 1) % q.size) (length xs) ≡ xs)
      split = window_tail q.slots q.size q.front (length xs) x xs h.contents

      step : next q q.front ≡ (q.front + 1) % q.size
      step = next-step (x ∷ xs) q.front h h.front_in

      less : Queued (record q { front = next q q.front }) xs
      less = record {
        small = h.small;
        front_in =
            omega (arith, step, mod-lt (q.front + 1) {m = q.size} (omega (arith, h.front_in)));
        rear_at =
            h.rear_at
            ∙ ap (λ k. k % q.size) {x = q.front + suc (length xs)} (omega arith)
            ∙ sym (mod-step (q.front + 1) (length xs) q.size)
            ∙ ap (λ k. (k + length xs) % q.size) (sym step);
        fits = omega (arith, h.fits);
        contents = ap (λ k. window q.slots q.size k (length xs)) step ∙ split.1;
      }

-- The calls of a client, and what each shows.
pub data RingCall {ℓ} (A : Type ℓ) : Type ℓ where
  enque_call : A → RingCall A
  deque_call : RingCall A

pub data RingReply {ℓ} (A : Type ℓ) : Type ℓ where
  accepted : Bool → RingReply A
  taken : Option A → RingReply A

module _ {ℓ} {A : Type ℓ} where
  unfoldable pub serve : CircleQueue A → List (RingCall A) → List (RingReply A)
  serve q [] = []
  serve q (enque_call x ∷ cs) = accepted (enque q x).1 ∷ serve (enque q x).0 cs
  serve q (deque_call ∷ cs) = taken (deque q).1 ∷ serve (deque q).0 cs

  unfoldable pub serve_spec : ℕ → List A → List (RingCall A) → List (RingReply A)
  serve_spec room xs [] = []
  serve_spec room xs (enque_call x ∷ cs) =
      accepted (put_last room xs x).1 ∷ serve_spec room (put_last room xs x).0 cs
  serve_spec room xs (deque_call ∷ cs) =
      taken (take_first xs).1 ∷ serve_spec room (take_first xs).0 cs

  -- Any sequence of calls on a queue that holds elements shows exactly what a FIFO of those
  -- elements shows that has room for one element less than the queue has slots.
  pub serve_refines :
      (cs : List (RingCall A)) {q : CircleQueue A} (xs : List A)
      → Queued q xs
      → serve q cs ≡ serve_spec (q.size - 1) xs cs
  unfolding serve serve_spec
  serve_refines [] xs h = refl
  serve_refines (enque_call x ∷ cs) {q} xs h =
      let (after, reply, same) = enque_lem xs x h in
      ap₂ (λ r l. accepted r ∷ l) reply
        (serve_refines cs (put_last (q.size - 1) xs x).0 after
          ∙ ap (λ s. serve_spec (s - 1) (put_last (q.size - 1) xs x).0 cs) same)
  serve_refines (deque_call ∷ cs) {q} xs h =
      let (after, reply, same) = deque_lem xs h in
      ap₂ (λ r l. taken r ∷ l) reply
        (serve_refines cs (take_first xs).0 after
          ∙ ap (λ s. serve_spec (s - 1) (take_first xs).0 cs) same)
