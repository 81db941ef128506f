-- ===== src/BufferQueue/Push.antt =====
-- `push` of `CBufferQueue` against the list of messages.
use lce.Prelude.{
  ℕ, ◌+◌, ◌-◌, ◌%◌, ◌^◌, ◌≤◌, ◌<◌, ◌≡◌, refl, sym, ap, ap₂, ◌∙◌, List, [], ◌∷◌, ◌++◌, length, true,
  false, inl, inr, ◌⊎◌, length-append, length-take, length-drop, append_assoc, take, drop,
  take-append-drop, arith, ◌==◌, le→ltb, lt→ltb, le→leb, le→ltb, ne→==, Bool-cases,
}
use native.Mathlib.Decide.{dec_lt}
use lce.Prelude.Words.{add_size, sub_size}
use lce.Prelude.Memory.{Memory, store, store-append}
use lce.Prelude.Cyclic.{
  mod-cases, window, ring_store, ring_store_flat, ring_store_wrap, window-ring_store, mod-step,
}
use lce.BufferQueue.{
  BufferQueue, ok, throws, full_queue, mark_len, reserve_len, set_len, check_room, place, push,
}
use lce.BufferQueue.Spec.{enqueue, Matches}
use lce.BufferQueue.Frames.{
  frame, used, Holds, length-set_len, length-frame, frames-snoc, used-snoc, AllNonempty-snoc,
  end-cases, count-le-used,
}

-- The stores of the three layouts are one store of the frame that goes round.
module _ (m : Memory ℕ) (s e : ℕ) (buffer : List ℕ) (lt : e < s) where
  pub store_flat :
      e + (mark_len + length buffer) ≤ s
      → store (store m e (set_len (length buffer))) (e + mark_len) buffer
        ≡ ring_store m s e (frame buffer)
  unfolding frame
  store_flat le =
      sym (
        store-append m e (set_len (length buffer)) buffer
        ∙ ap (λ k. store (store m e (set_len (length buffer))) (e + k) buffer) (length-set_len _))
      ∙ sym (ring_store_flat m s e (frame buffer) (omega (arith, length-frame buffer)))

  pub store_body_split :
      (k : ℕ)
      → e + mark_len + k ≡ s
      → k ≤ length buffer
      → length buffer ≤ s
      → store
          (store (store m e (set_len (length buffer))) (e + mark_len) (take k buffer))
          0
          (drop k buffer)
        ≡ ring_store m s e (frame buffer)
  unfolding frame
  store_body_split k at le small =
      ap (λ t. store t 0 (drop k buffer))
        (sym (
          store-append m e mark (take k buffer)
          ∙ ap (λ j. store (store m e mark) (e + j) (take k buffer)) (length-set_len _)))
      ∙ sym (
          ring_store_wrap m s e (mark ++ take k buffer) (drop k buffer) lt
            (omega (
              arith,
              length-append mark (take k buffer),
              length-take k buffer,
              length-set_len (length buffer),
            ))
            (omega (arith, length-drop k buffer)))
      ∙ ap (ring_store m s e) (
          append_assoc mark (take k buffer) (drop k buffer)
          ∙ ap (λ l. mark ++ l) (take-append-drop k buffer))
    where
      mark : List ℕ
      mark = set_len (length buffer)

  pub store_mark_split :
      (k : ℕ)
      → e + k ≡ s
      → k ≤ mark_len
      → mark_len + length buffer ≤ s
      → store
          (store
            (store m e (take k (set_len (length buffer))))
            0
            (drop k (set_len (length buffer))))
          (mark_len - k)
          buffer
        ≡ ring_store m s e (frame buffer)
  unfolding frame
  store_mark_split k at le small =
      sym (
        store-append (store m e (take k mark)) 0 (drop k mark) buffer
        ∙ ap (λ j. store (store (store m e (take k mark)) 0 (drop k mark)) j buffer)
            (omega (arith, length-drop k mark, length-set_len (length buffer))))
      ∙ sym (
          ring_store_wrap m s e (take k mark) (drop k mark ++ buffer) lt
            (omega (arith, length-take k mark, length-set_len (length buffer)))
            (omega (
              arith,
              length-append (drop k mark) buffer,
              length-drop k mark,
              length-set_len (length buffer),
            )))
      ∙ ap (ring_store m s e) (
          sym (append_assoc (take k mark) (drop k mark) buffer)
          ∙ ap (λ l. l ++ buffer) (take-append-drop k mark))
    where
      mark : List ℕ
      mark = set_len (length buffer)

-- The state after a message has been placed.
abbrev pub after_push : BufferQueue → List ℕ → BufferQueue
after_push q m = record q {
  bytes = ring_store q.bytes q.buf_size q.end (frame m);
  end = (q.end + (mark_len + length m)) % q.buf_size;
  num = (q.num + 1) % 2 ^ 64;
}

-- The arithmetic of `place`, which never wraps a word.
module _ (s e n : ℕ) (small : s ≤ 2 ^ 32) (lt : e < s) (room : mark_len + n + reserve_len ≤ s) where
  pub end_mark : add_size e mark_len ≡ e + mark_len
  end_mark = omega arith

  pub end_frame : add_size (add_size e mark_len) n ≡ e + (mark_len + n)
  end_frame = omega arith

  pub mark_part : sub_size s e ≡ s - e
  mark_part = omega arith

  pub body_part : e + mark_len ≤ s → sub_size (sub_size s e) mark_len ≡ s - e - mark_len
  body_part le = omega arith

  pub mark_over : s < e + mark_len → sub_size (add_size e mark_len) s ≡ mark_len - (s - e)
  mark_over le = omega arith

  pub end_round :
      s ≤ e + (mark_len + n)
      → (sub_size (add_size (add_size n e) mark_len) s ≡ (e + (mark_len + n)) % s)
        × ((e + (mark_len + n)) % s ≡ e + (mark_len + n) - s)
  end_round le = omega (arith, mod-cases (e + (mark_len + n)) s (omega arith))

  pub end_body :
      s ≤ e + (mark_len + n)
      → e + mark_len ≤ s
      → sub_size n (sub_size (sub_size s e) mark_len) ≡ (e + (mark_len + n)) % s
  end_body le le' = omega (arith, mod-cases (e + (mark_len + n)) s (omega arith))

-- With room up to `begin`, all three layouts store the frame, move `end` past it and pass their
-- assertions.
module _ (q : BufferQueue) (m : List ℕ) (small : q.buf_size ≤ 2 ^ 32) (lt : q.end < q.buf_size)
    (bin : q.begin < q.buf_size) (room : mark_len + length m + reserve_len ≤ q.buf_size)
    (round : q.buf_size < q.end + (mark_len + length m)
      → q.end + (mark_len + length m) + reserve_len ≤ q.buf_size + q.begin) where
  open q use {buf_size as s, end as e}

  place_flat : e + (mark_len + length m) ≤ s → place q m ≡ ok (after_push q m) tt
  unfolding place
  place_flat le = rw (
    end_frame s e (length m) small lt room,
    end_mark s e (length m) small lt room,
    le→ltb s (e + mark_len) (omega arith),
    le→ltb s (e + (mark_len + length m)) le,
    store_flat q.bytes s e m lt le,
  )

  place_body : e + mark_len ≤ s → s < e + (mark_len + length m) → place q m ≡ ok (after_push q m) tt
  unfolding place
  place_body le gt = rw (
    end_body s e (length m) small lt room (omega arith) le,
    body_part s e (length m) small lt room le,
    end_frame s e (length m) small lt room,
    end_mark s e (length m) small lt room,
    le→ltb s (e + mark_len) le,
    lt→ltb s (e + (mark_len + length m)) gt,
    store_body_split q.bytes s e m lt (s - e - mark_len) (omega arith) (omega arith) (omega arith),
    le→leb (add_size ((e + (mark_len + length m)) % s) reserve_len) q.begin
        (let r = round gt in omega (arith, end_round s e (length m) small lt room (omega arith))),
  )

  place_mark : s < e + mark_len → place q m ≡ ok (after_push q m) tt
  unfolding place
  place_mark gt = rw (
    (end_round s e (length m) small lt room (omega arith)).0,
    mark_over s e (length m) small lt room gt,
    end_mark s e (length m) small lt room,
    mark_part s e (length m) small lt room,
    lt→ltb s (e + mark_len) gt,
    store_mark_split q.bytes s e m lt (s - e) (omega arith) (omega arith) (omega arith),
    le→leb (add_size ((e + (mark_len + length m)) % s) reserve_len) q.begin (
        let r = round (omega arith) in
        omega (arith, end_round s e (length m) small lt room (omega arith))),
  )

  pub place_lem : place q m ≡ ok (after_push q m) tt
  place_lem = elim (dec_lt s (e + mark_len)) [
    | yes gt ↦ place_mark gt
    | no ng ↦ elim (dec_lt s (e + (mark_len + length m))) [
      | yes gt ↦ place_body (omega arith) gt
      | no le ↦ place_flat (omega arith)
    ]
  ]

-- `check_room` and `full` agree with what the messages leave free.
module _ {q : BufferQueue} (ms : List (List ℕ)) (n : ℕ) (h : Holds q ms) (word : n < 2 ^ 63) where
  open q use {buf_size as s, begin as b, end as e}

  pub check_room_ok : used ms + (mark_len + n) + reserve_len ≤ s → check_room q n ≡ ok q tt
  unfolding check_room
  check_room_ok le = ground (arith, end-cases ms h)

  pub check_room_full :
      s < used ms + (mark_len + n) + reserve_len → check_room q n ≡ throws full_queue q
  unfolding check_room
  check_room_full gt = ground (arith, end-cases ms h)

-- A message that fits is placed, and the queue then holds it behind the others.
module _ {q : BufferQueue} (ms : List (List ℕ)) (m : List ℕ) (h : Holds q ms) (pos : 0 < length m)
    (le : used ms + (mark_len + length m) + reserve_len ≤ q.buf_size) where
  pub end-lt : q.end < q.buf_size
  end-lt = omega (arith, h.fits, end-cases ms h, h.begin_in)

  pub push_ok : push q m ≡ ok (after_push q m) tt
  unfolding push
  push_ok = rw (
    ne→== (length m) 0 (omega arith),
    check_room_ok ms (length m) h (omega (arith, h.small)) le,
    place_lem q m h.small end-lt h.begin_in (omega arith)
        (λ p. omega (arith, end-cases ms h, h.begin_in)),
  )

  pub after_push-Holds : Holds (after_push q m) (ms ++ m ∷ [])
  after_push-Holds = record {
    small = h.small;
    large = h.large;
    reserve = h.reserve;
    begin_in = h.begin_in;
    end_at =
        ap (λ k. (k + (mark_len + length m)) % q.buf_size) h.end_at
        ∙ mod-step (q.begin + used ms) (mark_len + length m) q.buf_size
        ∙ ap (λ k. k % q.buf_size) (omega (arith, used-snoc ms m));
    fits = omega (arith, used-snoc ms m);
    framed =
        ap₂ (λ e k. window (ring_store q.bytes q.buf_size e (frame m)) q.buf_size q.begin k)
          h.end_at (used-snoc ms m ∙ ap (λ k. used ms + k) (sym (length-frame m)))
        ∙ window-ring_store q.bytes q.buf_size q.begin (used ms) (frame m) h.begin_in
            (omega (arith, length-frame m))
        ∙ ap (λ l. l ++ frame m) h.framed
        ∙ sym (frames-snoc ms m);
    counted =
        omega (arith, h.counted, h.small, count-le-used ms h.nonempty, length-append ms (m ∷ []));
    nonempty = AllNonempty-snoc ms m h.nonempty pos;
  }

pub push_empty : (q : BufferQueue) (m : List ℕ) → (length m == 0) ≡ true → push q m ≡ ok q tt
unfolding push
push_empty q m e = rw e

pub push_full :
    {q : BufferQueue} (ms : List (List ℕ)) (m : List ℕ)
    → Holds q ms
    → length m < 2 ^ 63
    → (length m == 0) ≡ false
    → q.buf_size < used ms + (mark_len + length m) + reserve_len
    → push q m ≡ throws full_queue q
unfolding push
push_full ms m h word ne gt = rw (ne, check_room_full ms (length m) h word gt)

-- The three ways in which a push of a queue that holds messages ends.
pub push-cases :
    {q : BufferQueue} (ms : List (List ℕ)) (m : List ℕ)
    → Holds q ms
    → length m < 2 ^ 63
    → (push q m ≡ ok q tt) ⊎ (push q m ≡ throws full_queue q) ⊎ (push q m ≡ ok (after_push q m) tt)
push-cases {q} ms m h word = elim (Bool-cases (length m == 0)) [
  | inl e ↦ inl (push_empty q m e)
  | inr ne ↦ inr (elim (dec_lt q.buf_size (used ms + (mark_len + length m) + reserve_len)) [
    | yes gt ↦ inl (push_full ms m h word ne gt)
    | no le ↦ inr (push_ok ms m h (ground arith) (omega arith))
  ])
]

-- On a queue that holds messages, `push` of fewer than 2^63 bytes does to the messages what the
-- specification says: it ignores an empty message, refuses one that does not fit and keeps the
-- messages, and puts any other behind the rest. No assertion fails.
pub push_refines :
    {q : BufferQueue} (ms : List (List ℕ)) (m : List ℕ)
    → Holds q ms
    → length m < 2 ^ 63
    → Matches q.buf_size (push q m) (enqueue q.buf_size ms m)
unfolding enqueue
push_refines {q} ms m h word = elim (Bool-cases (length m == 0)) [
  | inl e ↦ rw (push_empty q m e, e) (h, refl, refl)
  | inr ne ↦ elim (dec_lt q.buf_size (used ms + (mark_len + length m) + reserve_len)) [
    | yes gt ↦ rw (push_full ms m h word ne gt, ne, lt→ltb _ _ gt) (h, refl, refl)
    | no le ↦
        let fit : used ms + (mark_len + length m) + reserve_len ≤ q.buf_size = omega arith in
        let pos : 0 < length m = ground arith in
        rw (push_ok ms m h pos fit, ne, le→ltb _ _ fit)
          (after_push-Holds ms m h pos fit, refl, refl)
  ]
]
