-- ===== src/BufferQueue/Pop.antt =====
-- `pop` of `CBufferQueue` against the list of messages.
use lce.Prelude.{
  ℕ, ◌+◌, ◌-◌, ◌%◌, ◌≤◌, ◌<◌, ◌≡◌, refl, sym, ap, ap₂, ◌∙◌, List, [], ◌∷◌, ◌++◌, length, true,
  Option, none, some, inl, inr, ◌⊎◌, arith, if◌then◌else◌, ltb, ◌==◌, le→ltb, lt→ltb, le→leb, eq→==,
  ne→==, Bool-cases,
}
use native.Mathlib.Decide.{dec_lt}
use native.Mathlib.Nat.{mod-lt}
use lce.Prelude.Memory.{load}
use lce.Prelude.Cyclic.{mod-cases, mod-step, window, window_flat, window_wrap}
use lce.Prelude.Words.{add_size, sub_size}
use lce.BufferQueue.{
  BufferQueue, Outcome, ok, throws, too_long, mark_len, reserve_len, get_len, count_down, locate,
  locate_asserts, pop_straight, pop_round, pop,
}
use lce.BufferQueue.Spec.{dequeue, Matches}
use lce.BufferQueue.Frames.{
  used, Holds, Front, Holds-Front, get_len-set_len, end-cases, count-le-used,
}

abbrev pub after_pop : BufferQueue → List ℕ → BufferQueue
after_pop q m = record q {
  begin = (q.begin + (mark_len + length m)) % q.buf_size;
  num = count_down q.num;
}

-- The message goes out if the caller's buffer takes it.
abbrev pub popped : BufferQueue → List ℕ → ℕ → Outcome (Option (List ℕ))
popped q m n =
    if ltb n (length m) then throws too_long (after_pop q m) else ok (after_pop q m) (some m)

module _ {q : BufferQueue} (m : List ℕ) (ms : List (List ℕ)) (h : Holds q (m ∷ ms)) where
  open q use {buf_size as s, begin as b, end as e, bytes}

  front : Front q m ms
  front = Holds-Front m ms h

  -- the index of the message's first byte, and the index past its last
  abbrev pub from : ℕ
  from = (b + mark_len) % s

  abbrev pub to : ℕ
  to = (b + (mark_len + length m)) % s

  pub from-lt : from < s
  from-lt = mod-lt _ (omega (arith, h.begin_in))

  -- The bytes go round exactly if `to` does not lie behind `from`.
  pub to-cases :
      ((from + length m < s) × (to ≡ from + length m))
      ⊎ ((s ≤ from + length m) × (to ≡ from + length m - s))
  to-cases =
      let e : (from + length m) % s ≡ to =
        mod-step (b + mark_len) (length m) s ∙ ap (λ k. k % s) (omega arith) in
      omega (arith, mod-cases (from + length m) s (omega (arith, from-lt, h.fits)))

  mark_read : get_len (window bytes s b mark_len) ≡ length m
  mark_read = ap get_len front.mark ∙ get_len-set_len (length m) (omega (arith, h.fits, h.small))

  pub mark_flat : b + mark_len ≤ s → get_len (load bytes b mark_len) ≡ length m
  mark_flat le = ap get_len (sym (window_flat bytes s b mark_len h.begin_in le)) ∙ mark_read

  mark_split :
      s < b + mark_len
      → get_len (load bytes b (s - b) ++ load bytes 0 (mark_len - (s - b))) ≡ length m
  mark_split gt =
      ap get_len (
        sym (
          ap (window bytes s b) {x = mark_len} {y = (s - b) + (mark_len - (s - b))}
            (omega (arith, h.begin_in))
          ∙ window_wrap bytes s b (s - b) (mark_len - (s - b)) h.begin_in
              (omega (arith, h.begin_in)) (omega (arith, h.fits))))
      ∙ mark_read

  pub body_flat : from + length m ≤ s → load bytes from (length m) ≡ m
  body_flat le = sym (window_flat bytes s from (length m) from-lt le) ∙ front.body

  pub body_split :
      s ≤ from + length m → load bytes from (s - from) ++ load bytes 0 (from + length m - s) ≡ m
  body_split le =
      sym (
        ap (window bytes s from) {x = length m} {y = (s - from) + (from + length m - s)}
          (omega (arith, from-lt))
        ∙ window_wrap bytes s from (s - from) (from + length m - s) from-lt (omega (arith, from-lt))
            (omega (arith, from-lt, h.fits)))
      ∙ front.body

  -- the arithmetic of `pop`, which never wraps a word
  pub mark_end : add_size b mark_len ≡ b + mark_len
  mark_end = omega (arith, h.begin_in, h.small)

  pub body_end : add_size (b + mark_len) (length m) ≡ b + (mark_len + length m)
  body_end = omega (arith, h.begin_in, h.small, h.fits)

  pub begin_moves : b + used (m ∷ ms) < s → add_size b (add_size (length m) mark_len) ≡ to
  begin_moves lt = omega (arith, h.small, mod-cases (b + (mark_len + length m)) s (omega arith))

  pub straight_body : b + used (m ∷ ms) < s → load bytes (b + mark_len) (length m) ≡ m
  straight_body lt =
      ap (λ k. load bytes k (length m))
        (omega (arith, mod-cases (b + mark_len) s (omega (arith, h.nonempty.0))))
      ∙ body_flat (omega (arith, h.nonempty.0, mod-cases (b + mark_len) s (omega arith)))

  pop_straight_lem :
      (n : ℕ) → b + used (m ∷ ms) < s → e ≡ b + used (m ∷ ms) → pop_straight q n ≡ popped q m n
  unfolding pop_straight
  pop_straight_lem n lt at = rw (
    mark_end,
    mark_flat (omega arith),
    lt→ltb (b + mark_len) e (omega (arith, h.nonempty.0)),
    body_end,
    le→leb (b + (mark_len + length m)) e (omega arith),
    begin_moves lt,
    straight_body lt,
  )

  pub locate_lem : locate q ≡ (length m, from, to)
  unfolding locate
  locate_lem = elim (dec_lt s (b + mark_len)) [
    | yes gt ↦ rw (mark_end, lt→ltb s (b + mark_len) gt, over gt, part, mark_read' gt, past gt)
    | no le ↦ ground (
      arith,
      mark_end,
      le→ltb s (b + mark_len),
      mark_flat,
      body_end,
      h.begin_in,
      h.small,
      h.fits,
      mod-cases (b + mark_len) s,
      mod-cases (b + (mark_len + length m)) s,
    )
  ]
    where
      part : sub_size s b ≡ s - b
      part = omega (arith, h.begin_in, h.small)

      over : s < b + mark_len → sub_size (b + mark_len) s ≡ from
      over gt = omega (
        arith,
        h.begin_in,
        h.small,
        h.fits,
        mod-cases (b + mark_len) s (omega (arith, h.begin_in, h.fits)),
      )

      mark_read' : s < b + mark_len → get_len (load bytes b (s - b) ++ load bytes 0 from) ≡ length m
      mark_read' gt =
          ap (λ k. get_len (load bytes b (s - b) ++ load bytes 0 k))
            (omega (
              arith,
              h.begin_in,
              h.fits,
              mod-cases (b + mark_len) s (omega (arith, h.begin_in, h.fits)),
            ))
          ∙ mark_split gt

      past : s < b + mark_len → add_size from (length m) ≡ to
      past gt = omega (
        arith,
        to-cases,
        h.begin_in,
        h.small,
        h.fits,
        mod-cases (b + mark_len) s (omega (arith, h.begin_in, h.fits)),
      )

  pub locate_asserts_lem :
      s ≤ b + used (m ∷ ms) → e ≡ b + used (m ∷ ms) - s → locate_asserts q ≡ true
  unfolding locate_asserts
  locate_asserts_lem ge at =
      rw (locate_lem, mark_end, body_end)
        (ground (arith, h.begin_in, h.fits, mod-cases (b + (mark_len + length m)) s))

  -- the assertions on the bytes to copy, and the copies
  pub check_flat : to ≡ from + length m → (sub_size to from == length m) ≡ true
  check_flat at' = eq→== _ _ (omega (arith, from-lt, h.small, h.fits))

  pub check_split :
      s ≤ from + length m
      → to ≡ from + length m - s
      → (sub_size s (sub_size from to) == length m) ≡ true
  check_split le at' = eq→== _ _ (omega (arith, from-lt, h.small, h.fits))

  pub bytes_split :
      s ≤ from + length m
      → to ≡ from + length m - s
      → load bytes from (sub_size s from) ++ load bytes 0 to ≡ m
  bytes_split le at' =
      ap₂ (λ j k. load bytes from j ++ load bytes 0 k) (omega (arith, from-lt, h.small)) at'
      ∙ body_split le

  pop_round_lem :
      (n : ℕ) → s ≤ b + used (m ∷ ms) → e ≡ b + used (m ∷ ms) - s → pop_round q n ≡ popped q m n
  unfolding pop_round
  pop_round_lem n ge at =
      rw
        (
          le→leb (add_size e reserve_len) b (omega (arith, h.fits, h.small, h.begin_in)),
          lt→ltb b s h.begin_in,
          locate_asserts_lem ge at,
          locate_lem,
        )
        (elim to-cases [
          | inl (lt, at') ↦ rw (
            lt→ltb from to (omega (arith, h.nonempty.0)),
            check_flat at',
            body_flat (omega arith),
          )
          | inr (le, at') ↦
              rw (le→ltb from to (omega (arith, h.fits)), check_split le at', bytes_split le at')
        ])

  -- `pop` takes out the oldest message, whatever the layout.
  pub pop_lem : (n : ℕ) → pop q n ≡ popped q m n
  unfolding pop
  pop_lem n = elim (end-cases (m ∷ ms) h) [
    | inl (zero_used, _, _) ↦ absurd (omega arith)
    | inr (inl (_, at, lt)) ↦
        rw (ne→== b e (omega arith), lt→ltb b e (omega arith), pop_straight_lem n lt at)
    | inr (inr (_, ge, at)) ↦ rw (
      ne→== b e (omega (arith, h.fits)),
      le→ltb b e (omega (arith, h.fits)),
      pop_round_lem n ge at,
    )
  ]

  pub after_pop-Holds : Holds (after_pop q m) ms
  after_pop-Holds = record {
    small = h.small;
    large = h.large;
    reserve = h.reserve;
    begin_in = mod-lt _ (omega (arith, h.begin_in));
    end_at =
        h.end_at
        ∙ sym (mod-step (b + (mark_len + length m)) (used ms) s ∙ ap (λ k. k % s) (omega arith));
    fits = omega (arith, h.fits);
    framed = front.rest;
    counted = ground (arith, h.counted, h.small, h.fits, count-le-used (m ∷ ms) h.nonempty);
    nonempty = h.nonempty.1;
  }

pub pop_nothing : {q : BufferQueue} (n : ℕ) → Holds q [] → pop q n ≡ ok (record q { num = 0 }) none
unfolding pop
pop_nothing {q} n h = rw (eq→== q.begin q.end (omega (arith, end-cases [] h)))

-- On a queue that holds messages, `pop` does to them what the specification says: it hands out the
-- oldest message whole, drops it with an error if the caller's buffer is too small, and returns
-- nothing from an empty queue. No assertion fails.
pub pop_refines :
    {q : BufferQueue} (ms : List (List ℕ)) (n : ℕ)
    → Holds q ms
    → Matches q.buf_size (pop q n) (dequeue ms n)
unfolding dequeue
pop_refines {q} [] n h = rw (pop_nothing n h) (
  record {
    small = h.small;
    large = h.large;
    reserve = h.reserve;
    begin_in = h.begin_in;
    end_at = h.end_at;
    fits = h.fits;
    framed = h.framed;
    counted = refl;
    nonempty = h.nonempty;
  },
  refl,
  refl,
)
pop_refines {q} (m ∷ ms) n h = rw (pop_lem m ms h n) (elim (Bool-cases (ltb n (length m))) [
  | inl short ↦ rw short (after_pop-Holds m ms h, refl, refl)
  | inr long ↦ rw long (after_pop-Holds m ms h, refl, refl)
])
