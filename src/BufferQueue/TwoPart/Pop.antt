-- ===== src/BufferQueue/TwoPart/Pop.antt =====
-- The two-buffer `pop` hands out what the plain one does, cut where the first buffer is full.
use lce.Prelude.{
  ℕ, ◌+◌, ◌-◌, ◌^◌, ◌≤◌, ◌<◌, ◌≡◌, sym, ap, ◌∙◌, List, [], ◌∷◌, ◌++◌, length, Option, none, some,
  inl, inr, length-append, take, drop, take-append_le, drop-append_le, take-append_ge,
  drop-append_ge, take_of_length-le, drop_of_length-le, arith, if◌then◌else◌, ltb, le→ltb, lt→ltb,
  le→leb, ne→==, eq→==, Bool-cases,
}
use native.Mathlib.Decide.{dec_lt}
use lce.Prelude.Memory.{Memory, load, length-load, take-load, drop-load}
use lce.Prelude.Words.{add_size, sub_size}
use lce.BufferQueue.{
  BufferQueue, Outcome, ok, throws, aborted, too_long, mark_len, reserve_len, pop, count_down,
}
use lce.BufferQueue.Frames.{used, Holds, end-cases, count-le-used}
use lce.BufferQueue.Pop.{
  after_pop, from, to, from-lt, to-cases, mark_flat, body_flat, body_split, mark_end, body_end,
  begin_moves, straight_body, locate_lem, locate_asserts_lem, check_flat, check_split, pop_lem,
  pop_nothing,
}
use lce.BufferQueue.TwoPart.{deal, deal_round, pop2_straight, pop2_round, pop2, count_down2}

deal_lem :
    (m : Memory ℕ) (from len n1 : ℕ) (bs : List ℕ)
    → load m from len ≡ bs
    → from + len < 2 ^ 64
    → deal m from len n1 ≡ (take n1 bs, drop n1 bs)
deal_lem m from len n1 bs e small = elim (dec_lt len n1) [
  | yes lt ↦ rw (
    lt→ltb len n1 lt,
    take_of_length-le n1 bs (count (omega arith)),
    drop_of_length-le n1 bs (count (omega arith)),
    e,
  )
  | no ge ↦ rw (
    le→ltb len n1 (omega arith),
    ← e,
    take-load m from len n1 (omega arith),
    drop-load m from len n1 (omega arith),
    at (omega arith),
    rest (omega arith),
  )
]
  where
    count : len ≤ n1 → length bs ≤ n1
    count h = omega (arith, ap length e, length-load m from len)

    at : n1 ≤ len → add_size from n1 ≡ from + n1
    at h = omega arith

    rest : n1 ≤ len → sub_size len n1 ≡ len - n1
    rest h = omega arith

deal_round_lem :
    (m : Memory ℕ) (s from to len n1 : ℕ) (bs : List ℕ)
    → load m from (s - from) ++ load m 0 to ≡ bs
    → len ≡ (s - from) + to
    → from < s
    → s + len < 2 ^ 63
    → deal_round m s from to len n1 ≡ (take n1 bs, drop n1 bs)
deal_round_lem m s from to len n1 bs e sum lt small = elim (dec_lt len n1) [
  | yes p ↦ rw (
    k_lem,
    lt→ltb len n1 p,
    take_of_length-le n1 bs (omega (arith, count)),
    drop_of_length-le n1 bs (omega (arith, count)),
    e,
  )
  | no np ↦ elim (dec_lt (s - from) n1) [
    | yes p ↦
        rw
          (
            k_lem,
            le→ltb len n1 (omega arith),
            lt→ltb (s - from) n1 p,
            ← e,
            take-append_ge n1 (load m from (s - from)) (load m 0 to) (omega (arith, len1)),
            drop-append_ge n1 (load m from (s - from)) (load m 0 to) (omega (arith, len1)),
            len1,
            take-load m 0 to (n1 - (s - from)) (omega arith),
            drop-load m 0 to (n1 - (s - from)) (omega arith),
          )
          (ground arith)
    | no q ↦
        rw
          (
            k_lem,
            le→ltb len n1 (omega arith),
            le→ltb (s - from) n1 (omega arith),
            ← e,
            take-append_le n1 (load m from (s - from)) (load m 0 to) (omega (arith, len1)),
            drop-append_le n1 (load m from (s - from)) (load m 0 to) (omega (arith, len1)),
            take-load m from (s - from) n1 (omega arith),
            drop-load m from (s - from) n1 (omega arith),
          )
          (ground arith)
  ]
]
  where
    k_lem : sub_size s from ≡ s - from
    k_lem = omega arith

    len1 : length (load m from (s - from)) ≡ s - from
    len1 = length-load m from (s - from)

    count : length bs ≡ len
    count =
        ap length (sym e)
        ∙ length-append (load m from (s - from)) (load m 0 to)
        ∙ omega (arith, length-load m 0 to, length-load m from (s - from))

-- The end of a two-buffer pop of the message `m`.
abbrev popped2 : BufferQueue → List ℕ → ℕ → ℕ → Outcome (Option (List ℕ × List ℕ))
popped2 q m n1 n2 =
    if ltb (n1 + n2) (length m)
    then throws too_long (after_pop q m)
    else ok (after_pop q m) (some (take n1 m, drop n1 m))

module _ {q : BufferQueue} (m : List ℕ) (ms : List (List ℕ)) (h : Holds q (m ∷ ms)) (n1 n2 : ℕ)
    (word : n1 + n2 < 2 ^ 64) where
  open q use {buf_size as s, begin as b, end as e, bytes}

  total : add_size n1 n2 ≡ n1 + n2
  total = omega arith

  -- With fewer than 2^32 messages the two countdowns agree.
  same_count : count_down2 q.num ≡ count_down q.num
  same_count = ground (arith, h.counted, h.small, h.fits, count-le-used (m ∷ ms) h.nonempty)

  pop2_straight_lem :
      b + used (m ∷ ms) < s → e ≡ b + used (m ∷ ms) → pop2_straight q n1 n2 ≡ popped2 q m n1 n2
  unfolding pop2_straight
  pop2_straight_lem lt at = rw (
    total,
    mark_end m ms h,
    mark_flat m ms h (omega arith),
    lt→ltb (b + mark_len) e (omega (arith, h.nonempty.0)),
    body_end m ms h,
    le→leb (b + (mark_len + length m)) e (omega arith),
    begin_moves m ms h lt,
    deal_lem bytes (b + mark_len) (length m) n1 m (straight_body m ms h lt)
        (omega (arith, h.small)),
    same_count,
  )

  pop2_round_lem :
      s ≤ b + used (m ∷ ms) → e ≡ b + used (m ∷ ms) - s → pop2_round q n1 n2 ≡ popped2 q m n1 n2
  unfolding pop2_round
  pop2_round_lem ge at =
      rw
        (
          total,
          le→leb (add_size e reserve_len) b (omega (arith, h.fits, h.small, h.begin_in)),
          lt→ltb b s h.begin_in,
          locate_asserts_lem m ms h ge at,
          locate_lem m ms h,
          same_count,
        )
        (elim (to-cases m ms h) [
          | inl (lt, at') ↦ rw (
            lt→ltb (from m ms h) (to m ms h) (omega (arith, h.nonempty.0)),
            check_flat m ms h at',
            deal_lem bytes (from m ms h) (length m) n1 m (body_flat m ms h (omega arith))
                (omega (arith, h.small)),
          )
          | inr (le, at') ↦ rw (
            le→ltb (from m ms h) (to m ms h) (omega (arith, h.fits)),
            check_split m ms h le at',
            deal_round_lem bytes s (from m ms h) (to m ms h) (length m) n1 m
                (ap (λ k. load bytes (from m ms h) (s - from m ms h) ++ load bytes 0 k) at'
                  ∙ body_split m ms h le)
                (omega (arith, from-lt m ms h)) (from-lt m ms h) (omega (arith, h.fits, h.small)),
          )
        ])

  pop2_front : pop2 q n1 n2 ≡ popped2 q m n1 n2
  unfolding pop2
  pop2_front = elim (end-cases (m ∷ ms) h) [
    | inl (zero_used, _, _) ↦ absurd (omega arith)
    | inr (inl (_, at, lt)) ↦
        rw (ne→== b e (omega arith), lt→ltb b e (omega arith), pop2_straight_lem lt at)
    | inr (inr (_, ge, at)) ↦ rw (
      ne→== b e (omega (arith, h.fits)),
      le→ltb b e (omega (arith, h.fits)),
      pop2_round_lem ge at,
    )
  ]

-- An outcome of `pop`, its message cut after `n` bytes.
abbrev pub cut : ℕ → Outcome (Option (List ℕ)) → Outcome (Option (List ℕ × List ℕ))
cut n (ok q none) = ok q none
cut n (ok q (some m)) = ok q (some (take n m, drop n m))
cut n (throws e q) = throws e q
cut n aborted = aborted

pop2_nothing :
    {q : BufferQueue} (n1 n2 : ℕ) → Holds q [] → pop2 q n1 n2 ≡ ok (record q { num = 0 }) none
unfolding pop2
pop2_nothing {q} n1 n2 h = rw (eq→== q.begin q.end (omega (arith, end-cases [] h)))

-- On a queue that holds messages, the two-buffer `pop` does what the plain one does with a buffer
-- of both sizes together, if their sum is below 2^64: the first buffer gets the first bytes of the
-- message and the second the rest.
pub pop2_lem :
    {q : BufferQueue} (ms : List (List ℕ)) (n1 n2 : ℕ)
    → Holds q ms
    → n1 + n2 < 2 ^ 64
    → pop2 q n1 n2 ≡ cut n1 (pop q (n1 + n2))
pop2_lem [] n1 n2 h word = rw (pop2_nothing n1 n2 h, pop_nothing (n1 + n2) h)
pop2_lem (m ∷ ms) n1 n2 h word =
    rw (pop2_front m ms h n1 n2 word, pop_lem m ms h (n1 + n2))
      (elim (Bool-cases (ltb (n1 + n2) (length m))) [ inl t ↦ rw t | inr f ↦ rw f ])
