-- ===== src/BufferQueue/Frames.antt =====
-- What the bytes of a `CBufferQueue` stand for: a list of messages, each behind its length mark.
use lce.Prelude.{
  ℕ, ◌+◌, ◌*◌, ◌-◌, ◌%◌, ◌^◌, ◌≤◌, ◌<◌, ◌≡◌, sym, ap, ◌∙◌, ◌⊎◌, List, [], ◌∷◌, ◌++◌, length,
  length-append, append-nil, append_assoc, append_split, arith,
}
use lce.Prelude.Cyclic.{window, length-window, window-append, mod-cases}
use lce.Prelude.Words.{length-le_bytes, le_value-le_bytes}
use lce.BufferQueue.{BufferQueue, mark_len, reserve_len, get_len, set_len}

unfoldable pub frame : List ℕ → List ℕ
frame m = set_len (length m) ++ m

unfoldable pub frames : List (List ℕ) → List ℕ
frames [] = []
frames (m ∷ ms) = frame m ++ frames ms

-- the bytes that the messages take up
abbrev pub used : List (List ℕ) → ℕ
used [] = 0
used (m ∷ ms) = mark_len + length m + used ms

abbrev pub AllNonempty : List (List ℕ) → Type 0
AllNonempty [] = Unit {0}
AllNonempty (m ∷ ms) = (0 < length m) × AllNonempty ms

-- A queue holds exactly these messages, oldest first: the bytes from `begin` on are their frames,
-- `end` is where they stop, and the reserve is free.
pub record Holds (q : BufferQueue) (ms : List (List ℕ)) : Type 0 where
  pub small : q.buf_size ≤ 2 ^ 32
  pub large : mark_len + reserve_len < q.buf_size
  pub reserve : q.reserved ≡ reserve_len
  pub begin_in : q.begin < q.buf_size
  pub end_at : q.end ≡ (q.begin + used ms) % q.buf_size
  pub fits : used ms + reserve_len ≤ q.buf_size
  pub framed : window q.bytes q.buf_size q.begin (used ms) ≡ frames ms
  pub counted : q.num ≡ length ms
  pub nonempty : AllNonempty ms

pub length-set_len : (n : ℕ) → length (set_len n) ≡ mark_len
unfolding set_len
length-set_len n = length-le_bytes mark_len n

pub get_len-set_len : (n : ℕ) → n < 2 ^ 64 → get_len (set_len n) ≡ n
unfolding get_len set_len
get_len-set_len n h = le_value-le_bytes mark_len n h

pub length-frame : (m : List ℕ) → length (frame m) ≡ mark_len + length m
unfolding frame
length-frame m = length-append (set_len (length m)) m ∙ ap (λ k. k + length m) (length-set_len _)

pub frames-snoc : (ms : List (List ℕ)) (m : List ℕ) → frames (ms ++ m ∷ []) ≡ frames ms ++ frame m
unfolding frames
frames-snoc [] m = append-nil (frame m)
frames-snoc (x ∷ ms) m =
    ap (λ l. frame x ++ l) (frames-snoc ms m) ∙ sym (append_assoc (frame x) (frames ms) (frame m))

pub used-snoc :
    (ms : List (List ℕ)) (m : List ℕ) → used (ms ++ m ∷ []) ≡ used ms + (mark_len + length m)
used-snoc [] m = omega arith
used-snoc (x ∷ ms) m = omega (arith, used-snoc ms m)

pub AllNonempty-snoc :
    (ms : List (List ℕ)) (m : List ℕ) → AllNonempty ms → 0 < length m → AllNonempty (ms ++ m ∷ [])
AllNonempty-snoc [] m h p = (p, tt)
AllNonempty-snoc (x ∷ ms) m h p = (h.0, AllNonempty-snoc ms m h.1 p)

-- Every message takes at least nine bytes.
pub count-le-used : (ms : List (List ℕ)) → AllNonempty ms → 9 * length ms ≤ used ms
count-le-used [] h = omega arith
count-le-used (m ∷ ms) h = omega (arith, count-le-used ms h.1)

pub used-cases :
    (ms : List (List ℕ)) → AllNonempty ms → ((used ms ≡ 0) × (length ms ≡ 0)) ⊎ (9 ≤ used ms)
used-cases [] h = omega arith
used-cases (m ∷ ms) h = omega (arith, h.0)

-- Where `end` stands, as the code tells by comparing it with `begin`.
pub end-cases :
    {q : BufferQueue} (ms : List (List ℕ))
    → Holds q ms
    → ((used ms ≡ 0) × (q.end ≡ q.begin) × (q.num ≡ 0))
      ⊎ ((9 ≤ used ms) × (q.end ≡ q.begin + used ms) × (q.begin + used ms < q.buf_size))
      ⊎ ((9 ≤ used ms)
          × (q.buf_size ≤ q.begin + used ms)
          × (q.end ≡ q.begin + used ms - q.buf_size))
end-cases {q} ms h = omega (
  arith,
  used-cases ms h.nonempty,
  mod-cases (q.begin + used ms) q.buf_size (omega (arith, h.begin_in, h.fits)),
)

-- The three parts of the window of a queue whose oldest message is `m`.
pub record Front (q : BufferQueue) (m : List ℕ) (ms : List (List ℕ)) : Type 0 where
  pub mark : window q.bytes q.buf_size q.begin mark_len ≡ set_len (length m)
  pub body : window q.bytes q.buf_size ((q.begin + mark_len) % q.buf_size) (length m) ≡ m
  pub rest :
      window q.bytes q.buf_size ((q.begin + (mark_len + length m)) % q.buf_size) (used ms)
      ≡ frames ms

pub Holds-Front :
    {q : BufferQueue} (m : List ℕ) (ms : List (List ℕ)) → Holds q (m ∷ ms) → Front q m ms
unfolding frames frame
Holds-Front {q} m ms h = record { mark = outer_inner.0; body = outer_inner.1; rest = outer.1 }
  where
    len : ℕ
    len = length m

    outer :
        (window q.bytes q.buf_size q.begin (mark_len + len) ≡ frame m)
        × (window q.bytes q.buf_size ((q.begin + (mark_len + len)) % q.buf_size) (used ms)
            ≡ frames ms)
    outer =
        append_split (mark_len + len) (window q.bytes q.buf_size q.begin (mark_len + len))
          (window q.bytes q.buf_size ((q.begin + (mark_len + len)) % q.buf_size) (used ms))
          (frame m) (frames ms) (length-window q.bytes q.buf_size q.begin (mark_len + len))
          (length-frame m)
          (sym (window-append q.bytes q.buf_size q.begin (mark_len + len) (used ms) h.begin_in)
            ∙ h.framed)

    outer_inner :
        (window q.bytes q.buf_size q.begin mark_len ≡ set_len len)
        × (window q.bytes q.buf_size ((q.begin + mark_len) % q.buf_size) len ≡ m)
    outer_inner =
        append_split mark_len (window q.bytes q.buf_size q.begin mark_len)
          (window q.bytes q.buf_size ((q.begin + mark_len) % q.buf_size) len) (set_len len) m
          (length-window q.bytes q.buf_size q.begin mark_len) (length-set_len len)
          (sym (window-append q.bytes q.buf_size q.begin mark_len len h.begin_in) ∙ outer.0)
