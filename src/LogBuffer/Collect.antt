-- ===== src/LogBuffer/Collect.antt =====
-- A `CLogBuffer` collects what was written since the last `reset`.
use lce.Prelude.{
  ℕ, ◌+◌, ◌^◌, ◌≤◌, ◌<◌, ◌≡◌, refl, sym, ap, ap₂, ◌∙◌, inl, List, [], ◌++◌, length, length-append,
  Bool, true, false, some, ltb, le→ltb, lt→ltb, if◌then◌else◌, arith,
}
use native.Mathlib.Decide.{dec_lt}
use lce.Prelude.Memory.{Memory, load, store, load-append, load-store, load-store_outside}
use lce.Prelude.Words.{add_size}
use lce.LogBuffer.{LogBuffer, blank, allocate, write, rewind}

-- The buffer has memory and holds these bytes.
pub record Collected (b : LogBuffer) (d : List ℕ) : Type 0 where
  pub memory : Memory ℕ
  pub has : b.stored ≡ some memory
  pub small : b.max_size < 2 ^ 63
  pub count : b.size ≡ length d
  pub fits : length d ≤ b.max_size
  pub contents : load memory 0 (length d) ≡ d

-- The specification: what is collected, and whether a write was refused since the last reset.
abbrev pub collect : ℕ → List ℕ × Bool → List ℕ → List ℕ × Bool
collect limit (d, refused) bs =
    if ltb limit (length d + length bs) then (d, true) else (d ++ bs, refused)

-- `init` of a buffer without memory, for fewer than 2^63 bytes, makes it an empty buffer with
-- memory.
pub allocate-Collected :
    (fresh : Memory ℕ) (n : ℕ) → n < 2 ^ 63 → Collected (allocate fresh blank n) []
unfolding allocate blank load
allocate-Collected fresh n lt = record {
  memory = fresh;
  has = refl;
  small = lt;
  count = refl;
  fits = omega arith;
  contents = refl;
}

-- On a buffer that has memory, `write` of fewer than 2^63 bytes puts them behind the others if
-- there is room for all of them. Otherwise it keeps what is there, sets the full flag, and says
-- so.
pub write_lem :
    {b : LogBuffer} (d bs : List ℕ)
    → Collected b d
    → length bs < 2 ^ 63
    → Collected (write b bs).0 (collect b.max_size (d, b.is_full) bs).0
      × ((write b bs).0.is_full ≡ (collect b.max_size (d, b.is_full) bs).1)
      × ((write b bs).0.max_size ≡ b.max_size)
      × ((write b bs).1 ≡ (if ltb b.max_size (length d + length bs) then false else true))
unfolding write
write_lem {b} d bs h word = elim (dec_lt b.max_size (length d + length bs)) [
  | yes gt ↦
      rw (h.has, sum, lt→ltb b.max_size (length d + length bs) gt)
        (
          record {
            memory = h.memory;
            has = refl;
            small = h.small;
            count = h.count;
            fits = h.fits;
            contents = h.contents;
          },
          refl,
          refl,
          refl,
        )
  | no le ↦
      rw (h.has, sum, le→ltb b.max_size (length d + length bs) (omega arith))
        (
          record {
            memory = store h.memory b.size bs;
            has = refl;
            small = h.small;
            count = sym total;
            fits = omega (arith, total);
            contents = ap (load (store h.memory b.size bs) 0) total ∙ kept;
          },
          refl,
          refl,
          refl,
        )
]
  where
    total : length (d ++ bs) ≡ length d + length bs
    total = length-append d bs

    sum : add_size b.size (length bs) ≡ length d + length bs
    sum = omega (arith, h.count, h.small, h.fits)

    kept : load (store h.memory b.size bs) 0 (length d + length bs) ≡ d ++ bs
    kept =
        load-append (store h.memory b.size bs) 0 (length d) (length bs)
        ∙ ap₂ ◌++◌
            (load-store_outside h.memory b.size bs 0 (length d) (inl (omega (arith, h.count)))
              ∙ h.contents)
            (ap (λ k. load (store h.memory b.size bs) k (length bs)) {x = 0 + length d}
                (omega (arith, h.count))
              ∙ load-store h.memory b.size bs)

load_none : (m : Memory ℕ) (i : ℕ) → load m i 0 ≡ []
unfolding load
load_none m i = refl

-- `reset` of a buffer that has memory empties it, clears the flag and keeps the limit.
pub rewind-Collected :
    {b : LogBuffer} (d : List ℕ)
    → Collected b d
    → Collected (rewind b) [] × ((rewind b).is_full ≡ false) × ((rewind b).max_size ≡ b.max_size)
unfolding rewind
rewind-Collected {b} d h = (
  record {
    memory = h.memory;
    has = h.has;
    small = h.small;
    count = refl;
    fits = omega arith;
    contents = load_none h.memory 0;
  },
  refl,
  refl,
)
