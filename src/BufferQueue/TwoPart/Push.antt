-- ===== src/BufferQueue/TwoPart/Push.antt =====
-- The two-buffer `push` is the plain one of the two buffers' bytes in a row.
use lce.Prelude.{
  ℕ, ◌+◌, ◌-◌, ◌%◌, ◌^◌, ◌≤◌, ◌<◌, ◌≡◌, sym, ap, ◌∙◌, List, ◌++◌, length, inl, inr, length-append,
  length-drop, take, drop, take-append_le, drop-append_le, take-append_ge, drop-append_ge, arith,
  ◌==◌, le→ltb, lt→ltb, le→leb, Bool-cases,
}
use native.Mathlib.Decide.{dec_lt}
use lce.Prelude.Memory.{Memory, store, store-append}
use lce.Prelude.Words.{add_size, sub_size}
use lce.BufferQueue.{BufferQueue, ok, mark_len, reserve_len, set_len, push}
use lce.BufferQueue.Frames.{used, Holds, end-cases}
use lce.BufferQueue.Push.{
  store_flat, store_body_split, store_mark_split, end_mark, end_frame, mark_part, body_part,
  mark_over, end_round, end_body, after_push, push_ok, push_full, push_empty, check_room_ok,
  check_room_full, end-lt,
}
use lce.BufferQueue.TwoPart.{sum_len, place2_round, place2, push2}

-- Two stores in a row are one of both buffers.
store_both :
    (m : Memory ℕ) (at : ℕ) (xs ys : List ℕ)
    → at + length (xs ++ ys) < 2 ^ 64
    → store (store m at xs) (add_size at (length xs)) ys ≡ store m at (xs ++ ys)
store_both m at xs ys h =
    ap (λ k. store (store m at xs) k ys) (omega (arith, length-append xs ys))
    ∙ sym (store-append m at xs ys)

module _ (q : BufferQueue) (xs ys : List ℕ) (small : q.buf_size ≤ 2 ^ 32) (lt : q.end < q.buf_size)
    (room : mark_len + length (xs ++ ys) + reserve_len ≤ q.buf_size) where
  open q use {buf_size as s, end as e}

  abbrev n : ℕ
  n = length (xs ++ ys)

  sum_len_lem : sum_len xs ys ≡ n
  sum_len_lem = omega (arith, length-append xs ys)

  -- With the body split, the cut falls in the first part or in the second.
  place2_round_lem :
      e + mark_len ≤ s
      → s < e + (mark_len + n)
      → place2_round q xs ys
        ≡ store
            (store
              (store q.bytes e (set_len n))
              (e + mark_len)
              (take (s - e - mark_len) (xs ++ ys)))
            0
            (drop (s - e - mark_len) (xs ++ ys))
  unfolding place2_round
  place2_round_lem le gt = elim (dec_lt s (e + mark_len + length xs)) [
    | yes first ↦
        rw
          (
            sum_len_lem,
            end_mark s e n small lt room,
            body_part s e n small lt room le,
            at_first,
            lt→ltb s (e + mark_len + length xs) first,
            take-append_le (s - e - mark_len) xs ys (omega arith),
            drop-append_le (s - e - mark_len) xs ys (omega arith),
          )
          (ap (λ j. store (store (store m (e + mark_len) (take k xs)) 0 (drop k xs)) j ys)
              (omega (arith, length-drop k xs, length-append xs ys))
            ∙ sym (store-append (store m (e + mark_len) (take k xs)) 0 (drop k xs) ys))
    | no second ↦
        rw
          (
            sum_len_lem,
            end_mark s e n small lt room,
            body_part s e n small lt room le,
            at_first,
            le→ltb s (e + mark_len + length xs) (omega arith),
            take-append_ge (s - e - mark_len) xs ys (omega arith),
            drop-append_ge (s - e - mark_len) xs ys (omega arith),
          )
          (ap
              (λ j.
                store (store (store m (e + mark_len) xs) (e + mark_len + length xs) (take j ys)) 0
                  (drop j ys))
              (cut (omega arith))
            ∙ ap (λ t. store t 0 (drop (k - length xs) ys))
                (sym (store-append m (e + mark_len) xs (take (k - length xs) ys))))
  ]
    where
      k : ℕ
      k = s - e - mark_len

      m : Memory ℕ
      m = store q.bytes e (set_len n)

      cut : length xs ≤ k → sub_size k (length xs) ≡ k - length xs
      cut le' = omega (arith, length-append xs ys)

      at_first : add_size (e + mark_len) (length xs) ≡ e + mark_len + length xs
      at_first = omega (arith, length-append xs ys)

  module _ (bin : q.begin < s)
      (round : s < e + (mark_len + n) → e + (mark_len + n) + reserve_len ≤ s + q.begin) where
    -- `place2` leaves what `place` leaves.
    place2_lem : place2 q xs ys ≡ ok (after_push q (xs ++ ys)) tt
    unfolding place2
    place2_lem = elim (dec_lt s (e + mark_len)) [
      | yes gt ↦ rw (
        sum_len_lem,
        (end_round s e n small lt room (omega arith)).0,
        mark_over s e n small lt room gt,
        end_mark s e n small lt room,
        mark_part s e n small lt room,
        lt→ltb s (e + mark_len) gt,
        store_both (store (store q.bytes e (take (s - e) (set_len n))) 0 (drop (s - e) (set_len n)))
            (mark_len - (s - e)) xs ys (omega arith),
        store_mark_split q.bytes s e (xs ++ ys) lt (s - e) (omega arith) (omega arith)
            (omega arith),
        le→leb (add_size ((e + (mark_len + n)) % s) reserve_len) q.begin (
            let r = round (omega arith) in
            omega (arith, end_round s e n small lt room (omega arith))),
      )
      | no ng ↦ elim (dec_lt s (e + (mark_len + n))) [
        | yes gt ↦ rw (
          sum_len_lem,
          end_body s e n small lt room (omega arith) (omega arith),
          end_frame s e n small lt room,
          end_mark s e n small lt room,
          le→ltb s (e + mark_len) (omega arith),
          lt→ltb s (e + (mark_len + n)) gt,
          place2_round_lem (omega arith) gt,
          store_body_split q.bytes s e (xs ++ ys) lt (s - e - mark_len) (omega arith) (omega arith)
              (omega arith),
          le→leb (add_size ((e + (mark_len + n)) % s) reserve_len) q.begin
              (let r = round gt in omega (arith, end_round s e n small lt room (omega arith))),
        )
        | no le ↦ rw (
          sum_len_lem,
          end_frame s e n small lt room,
          end_mark s e n small lt room,
          le→ltb s (e + mark_len) (omega arith),
          le→ltb s (e + (mark_len + n)) (omega arith),
          store_both (store q.bytes e (set_len n)) (e + mark_len) xs ys (omega arith),
          store_flat q.bytes s e (xs ++ ys) lt (omega arith),
        )
      ]
    ]

-- On a queue that holds messages, the two-buffer `push` does exactly what the plain one does with
-- the bytes of the first buffer and then of the second, if these are fewer than 2^32.
pub push2_lem :
    {q : BufferQueue} (ms : List (List ℕ)) (xs ys : List ℕ)
    → Holds q ms
    → length xs + length ys < 2 ^ 32
    → push2 q xs ys ≡ push q (xs ++ ys)
unfolding push2
push2_lem {q} ms xs ys h word = elim (Bool-cases (length (xs ++ ys) == 0)) [
  | inl z ↦ rw (sum, z, push_empty q (xs ++ ys) z)
  | inr nz ↦ elim (dec_lt q.buf_size (used ms + (mark_len + length (xs ++ ys)) + reserve_len)) [
    | yes gt ↦ rw (
      sum,
      nz,
      check_room_full ms (length (xs ++ ys)) h (omega (arith, total)) gt,
      push_full ms (xs ++ ys) h (omega (arith, total)) nz gt,
    )
    | no le ↦ rw (
      sum,
      nz,
      check_room_ok ms (length (xs ++ ys)) h (omega (arith, total)) (omega arith),
      push_ok ms (xs ++ ys) h (ground arith) (omega arith),
      place2_lem q xs ys h.small (end-lt ms (xs ++ ys) h (ground arith) (omega arith)) (omega arith)
          h.begin_in (λ p. omega (arith, end-cases ms h, h.begin_in)),
    )
  ]
]
  where
    total : length (xs ++ ys) < 2 ^ 32
    total = omega (arith, length-append xs ys)

    sum : sum_len xs ys ≡ length (xs ++ ys)
    sum = omega (arith, length-append xs ys)
