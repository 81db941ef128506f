-- ===== src/SocketBuf/Append.antt =====
-- Growing a `CSocketBuf`, and adding data at its end.
use lce.Prelude.{
  ℕ, zero, suc, ◌+◌, ◌-◌, ◌*◌, ◌≤◌, ◌<◌, ◌≡◌, refl, ap, ap₂, ◌∙◌, List, ◌++◌, length, Bool, true,
  false, inl, inr, arith, if◌then◌else◌, ltb, ◌==◌, le→ltb, lt→ltb, le→leb, lt→leb, eq→==, ne→==,
  Bool-cases,
}
use native.Mathlib.Decide.{dec_lt, ℕ_discrete}
use lce.Prelude.Memory.{Memory, store, load, load-store, load-append, load-store_outside}
use lce.SocketBuf.{
  SocketBuf, Outcome, ok, ◌>>=◌, inc_buf, add_free_buf, make_room, add_data, add_filled, resize,
  resize_moved, get_free_size,
}
use lce.SocketBuf.Contents.{
  Holds, length-Holds, moved, move_data_lem, moved-Holds, resized, resize_lem, resized-Holds,
}

-- Bytes put behind the data, where there is room.
abbrev pub appended : SocketBuf → List ℕ → SocketBuf
appended s bs = record s { bytes = store s.bytes s.end_pos bs; end_pos = s.end_pos + length bs }

pub appended-Holds :
    {s : SocketBuf} (d bs : List ℕ)
    → Holds s d
    → s.end_pos + length bs ≤ s.buf_size
    → Holds (appended s bs) (d ++ bs)
appended-Holds {s} d bs h le = record {
  init_pos = h.init_pos;
  init_le = h.init_le;
  size_pos = h.size_pos;
  size_le = h.size_le;
  ordered = omega (arith, h.ordered);
  inside = le;
  front = λ e. h.front (omega (arith, h.ordered));
  contents =
      ap (load (store s.bytes s.end_pos bs) s.begin_pos) (omega (arith, h.ordered))
      ∙ load-append (store s.bytes s.end_pos bs) s.begin_pos (s.end_pos - s.begin_pos) (length bs)
      ∙ ap₂ ◌++◌
          (load-store_outside s.bytes s.end_pos bs s.begin_pos (s.end_pos - s.begin_pos)
              (inl (omega (arith, h.ordered)))
            ∙ h.contents)
          (ap (λ k. load (store s.bytes s.end_pos bs) k (length bs)) (omega (arith, h.ordered))
            ∙ load-store s.bytes s.end_pos bs);
}

module _ (fresh : ℕ → Memory ℕ) where
  -- the size that `incBuf` asks for
  abbrev pub target : SocketBuf → ℕ
  target s = if ltb (s.buf_size * 2) s.allow_max then s.buf_size * 2 else s.allow_max

  -- what `addFreeBuf` leaves
  abbrev pub grown : SocketBuf → SocketBuf
  grown s =
      if s.begin_pos == 0
      then (if target s == s.buf_size then s else resized fresh s (target s))
      else moved s

  target_bounds :
      {s : SocketBuf} (d : List ℕ)
      → Holds s d
      → (s.buf_size ≤ target s)
        × (target s ≤ s.allow_max)
        × (target s ≡ s.buf_size → s.buf_size ≡ s.allow_max)
  target_bounds d h = ground (arith, h.size_pos, h.size_le)

  inc_buf_lem : (s : SocketBuf) → inc_buf fresh s ≡ (resize fresh s (target s) >>= λ s' _. ok s' tt)
  unfolding inc_buf
  inc_buf_lem s = elim (Bool-cases (ltb (s.buf_size * 2) s.allow_max)) [
    | inl e ↦ rw e
    | inr e ↦ rw e
  ]

  resize_same :
      (s : SocketBuf) (n : ℕ) → s.begin_pos ≡ 0 → n ≡ s.buf_size → resize fresh s n ≡ ok s true
  unfolding resize resize_moved
  resize_same s n z e = rw (eq→== s.begin_pos 0 z, eq→== n s.buf_size e)

  -- On a buffer in use `addFreeBuf` never fails and keeps the data: it moves them to the front, or
  -- else grows the buffer.
  pub add_free_buf_lem :
      {s : SocketBuf} (d : List ℕ)
      → Holds s d
      → (add_free_buf fresh s ≡ ok (grown s) tt) × Holds (grown s) d
  unfolding add_free_buf
  add_free_buf_lem {s} d h = elim (ℕ_discrete s.begin_pos 0) [
    | no nz ↦ rw (ne→== s.begin_pos 0 nz) (move_data_lem d h nz, moved-Holds d h nz)
    | yes z ↦ elim (ℕ_discrete (target s) s.buf_size) [
      | yes e ↦
          rw
            (
              eq→== s.begin_pos 0 z,
              eq→== (target s) s.buf_size e,
              inc_buf_lem s,
              resize_same s (target s) z e,
            )
            (refl, h)
      | no ne ↦
          let lt : s.end_pos < target s = omega (arith, h.inside, target_bounds d h) in
          rw
            (
              eq→== s.begin_pos 0 z,
              ne→== (target s) s.buf_size ne,
              inc_buf_lem s,
              resize_lem fresh s (target s) z ne lt,
            )
            (refl, resized-Holds fresh d (target s) h z lt (target_bounds d h).1)
    ]
  ]

  -- what bounds the rounds of the loop that are left
  abbrev measure : SocketBuf → ℕ
  measure s = s.allow_max - s.buf_size + (if s.begin_pos == 0 then 0 else 1)

  grown-measure :
      {s : SocketBuf} (d : List ℕ) (n : ℕ)
      → Holds s d
      → length d + n ≤ s.allow_max
      → s.buf_size < s.end_pos + n
      → (measure (grown s) < measure s)
        × ((grown s).allow_max ≡ s.allow_max)
        × ((grown s).init_size ≡ s.init_size)
  grown-measure {s} d n h fits lt =
      ground (arith, h.size_pos, h.size_le, h.ordered, length-Holds d h, target_bounds d h)

  -- The loop ends, with the data kept and room for `n` bytes behind them.
  record Roomy (s : SocketBuf) (d : List ℕ) (n : ℕ) (o : Outcome (Unit {0})) : Type 0 where
    after : SocketBuf
    returns : o ≡ ok after tt
    holds : Holds after d
    room : after.end_pos + n ≤ after.buf_size
    same_max : after.allow_max ≡ s.allow_max

  make_room_step :
      (fuel : ℕ) (s : SocketBuf) (n : ℕ)
      → s.buf_size < s.end_pos + n
      → make_room fresh (suc fuel) s n
        ≡ (add_free_buf fresh s >>= λ s' _. make_room fresh fuel s' n)
  unfolding make_room
  make_room_step fuel s n lt = rw (lt→ltb s.buf_size (s.end_pos + n) lt, make_room)

  make_room-Roomy :
      (fuel : ℕ) {s : SocketBuf} (d : List ℕ) (n : ℕ)
      → Holds s d
      → length d + n ≤ s.allow_max
      → measure s < fuel
      → Roomy s d n (make_room fresh fuel s n)
  unfolding make_room
  make_room-Roomy zero d n h fits lt = absurd (omega arith)
  make_room-Roomy (suc fuel) {s} d n h fits lt = elim (dec_lt s.buf_size (s.end_pos + n)) [
    | no ge ↦ record {
      after = s;
      returns = rw (le→ltb s.buf_size (s.end_pos + n) (omega arith), make_room);
      holds = h;
      room = omega arith;
      same_max = refl;
    }
    | yes more ↦
        let (step, kept) = add_free_buf_lem d h in
        let (less, max_kept, _) = grown-measure d n h fits more in
        let rest = make_room-Roomy fuel {s = grown s} d n kept (rw max_kept fits) (omega arith) in
        record {
          after = rest.after;
          returns = rw (make_room_step fuel s n more, step) rest.returns;
          holds = rest.holds;
          room = rest.room;
          same_max = rest.same_max ∙ max_kept;
        }
  ]

  -- What a call of `addData` may do: add the bytes behind the data, or refuse them and change
  -- nothing.
  abbrev pub Adds : SocketBuf → List ℕ → List ℕ → Outcome Bool → Type 0
  Adds s d bs (ok s' true) = (length d + length bs ≤ s.allow_max) × Holds s' (d ++ bs)
  Adds s d bs (ok s' false) = (s.allow_max < length d + length bs) × (s' ≡ s)
  Adds s d bs _ = ⊥

  -- On a buffer in use `addData` always returns. It accepts the bytes exactly if data and bytes
  -- together are at most the allowed maximum, and then holds them behind the data; otherwise it
  -- changes nothing.
  pub add_data_lem : {s : SocketBuf} (d bs : List ℕ) → Holds s d → Adds s d bs (add_data fresh s bs)
  unfolding add_data
  add_data_lem {s} d bs h = elim (dec_lt s.allow_max (length d + length bs)) [
    | yes gt ↦
        rw
          (lt→leb (s.end_pos + length bs) (s.allow_max + s.begin_pos)
            (omega (arith, length-Holds d h, h.ordered)))
          (gt, refl)
    | no le ↦
        let r =
          make_room-Roomy (s.allow_max + 2) d (length bs) h (omega arith)
            (ground (arith, h.size_pos)) in
        rw
          (
            le→leb (s.end_pos + length bs) (s.allow_max + s.begin_pos)
                (omega (arith, length-Holds d h, h.ordered)),
            r.returns,
            le→leb (r.after.end_pos + length bs) r.after.buf_size r.room,
          )
          (omega arith, appended-Holds d bs r.holds r.room)
  ]

-- A caller that writes bytes into the free part of a buffer in use and then calls `addData(iSize)`
-- has added them, if the free part has room for them.
pub add_filled_lem :
    {s : SocketBuf} (d bs : List ℕ)
    → Holds s d
    → length bs ≤ get_free_size s
    → (s' : SocketBuf) × (add_filled (record s { bytes = store s.bytes s.end_pos bs }) (length bs)
        ≡ ok s' true)
      × Holds s' (d ++ bs)
unfolding add_filled get_free_size
add_filled_lem {s} d bs h le = (
  appended s bs,
  rw (le→ltb s.buf_size (s.end_pos + length bs) (omega (arith, h.inside))),
  appended-Holds d bs h (omega (arith, h.inside)),
)
