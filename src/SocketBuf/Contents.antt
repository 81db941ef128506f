-- ===== src/SocketBuf/Contents.antt =====
-- The data that a `CSocketBuf` holds, and what moving and resizing do to them.
use lce.Prelude.{
  ℕ, ◌+◌, ◌-◌, ◌≤◌, ◌<◌, ◌≡◌, refl, sym, ap, ◌∙◌, List, length, true, arith, ◌≢◌, lt→ltb, le→leb,
  eq→==, ne→==,
}
use lce.Prelude.Memory.{Memory, store, load, length-load, load-store}
use lce.SocketBuf.{SocketBuf, ok, move_data, resize_moved, resize}

-- A buffer in use: it can grow, the data lie inside it, and an empty one starts at the front.
pub record Holds (s : SocketBuf) (d : List ℕ) : Type 0 where
  pub init_pos : 0 < s.init_size
  pub init_le : s.init_size ≤ s.allow_max
  pub size_pos : 0 < s.buf_size
  pub size_le : s.buf_size ≤ s.allow_max
  pub ordered : s.begin_pos ≤ s.end_pos
  pub inside : s.end_pos ≤ s.buf_size
  pub front : s.begin_pos ≡ s.end_pos → s.begin_pos ≡ 0
  pub contents : load s.bytes s.begin_pos (s.end_pos - s.begin_pos) ≡ d

pub length-Holds : {s : SocketBuf} (d : List ℕ) → Holds s d → length d ≡ s.end_pos - s.begin_pos
length-Holds {s} d h = sym (ap length h.contents) ∙ length-load s.bytes s.begin_pos _

-- Data stored at the front are read back there.
load-store_front : (m m' : Memory ℕ) (b n : ℕ) → load (store m' 0 (load m b n)) 0 n ≡ load m b n
load-store_front m m' b n =
    ap (load (store m' 0 (load m b n)) 0) (sym (length-load m b n)) ∙ load-store m' 0 (load m b n)

abbrev pub moved : SocketBuf → SocketBuf
moved s = record s {
  bytes = store s.bytes 0 (load s.bytes s.begin_pos (s.end_pos - s.begin_pos));
  end_pos = s.end_pos - s.begin_pos;
  begin_pos = 0;
}

pub move_data_lem :
    {s : SocketBuf} (d : List ℕ) → Holds s d → s.begin_pos ≢ 0 → move_data s ≡ ok (moved s) tt
unfolding move_data
move_data_lem {s} d h ne = rw (
  le→leb s.begin_pos s.end_pos h.ordered,
  ne→== s.end_pos s.begin_pos (λ e. ne (h.front (sym e))),
)

pub moved-Holds : {s : SocketBuf} (d : List ℕ) → Holds s d → s.begin_pos ≢ 0 → Holds (moved s) d
moved-Holds {s} d h ne = record {
  init_pos = h.init_pos;
  init_le = h.init_le;
  size_pos = h.size_pos;
  size_le = h.size_le;
  ordered = omega arith;
  inside = omega (arith, h.inside);
  front = λ e. refl;
  contents =
      ap (load (moved s).bytes 0) (omega arith)
      ∙ load-store_front s.bytes s.bytes s.begin_pos (s.end_pos - s.begin_pos)
      ∙ h.contents;
}

module _ (fresh : ℕ → Memory ℕ) where
  abbrev pub resized : SocketBuf → ℕ → SocketBuf
  resized s n = record s {
    bytes = store (fresh n) 0 (load s.bytes s.begin_pos (s.end_pos - s.begin_pos));
    buf_size = n;
  }

  -- A resize of data at the front to another size that they fit.
  pub resize_lem :
      (s : SocketBuf) (n : ℕ)
      → s.begin_pos ≡ 0
      → n ≢ s.buf_size
      → s.end_pos < n
      → resize fresh s n ≡ ok (resized s n) true
  unfolding resize resize_moved
  resize_lem s n z ne lt = rw (
    eq→== s.begin_pos 0 z,
    ne→== n s.buf_size ne,
    lt→ltb s.end_pos (n + s.begin_pos) (omega arith),
  )

  pub resized-Holds :
      {s : SocketBuf} (d : List ℕ) (n : ℕ)
      → Holds s d
      → s.begin_pos ≡ 0
      → s.end_pos < n
      → n ≤ s.allow_max
      → Holds (resized s n) d
  resized-Holds {s} d n h z lt le = record {
    init_pos = h.init_pos;
    init_le = h.init_le;
    size_pos = omega arith;
    size_le = le;
    ordered = h.ordered;
    inside = omega arith;
    front = h.front;
    contents =
        ap
          (λ b.
            load (store (fresh n) 0 (load s.bytes s.begin_pos (s.end_pos - s.begin_pos))) b
              (s.end_pos - s.begin_pos))
          z
        ∙ load-store_front s.bytes (fresh n) s.begin_pos (s.end_pos - s.begin_pos)
        ∙ h.contents;
  }
