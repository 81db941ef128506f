-- ===== src/SocketBuf/Consume.antt =====
-- Taking data out of a `CSocketBuf`, emptying it and copying it.
use lce.Prelude.{
  ℕ, ◌+◌, ◌-◌, ◌≤◌, ◌<◌, ◌≡◌, ◌≢◌, ◌⊎◌, refl, sym, ap, ◌∙◌, List, [], length, drop,
  drop_of_length-le, true, inl, inr, arith, eq→==, ne→==,
}
use native.Mathlib.Decide.{ℕ_discrete}
use lce.Prelude.Memory.{Memory, store, load, drop-load, load-ext, store-load}
use lce.SocketBuf.{SocketBuf, ok, init, remove_data, reset, assign, resize, resize_moved, move_data}
use lce.SocketBuf.Contents.{Holds, length-Holds}

load_none : (m : Memory ℕ) (i : ℕ) → load m i 0 ≡ []
unfolding load
load_none m i = refl

module _ (fresh : ℕ → Memory ℕ) where
  -- A new buffer is empty.
  pub init-Holds :
      (init_size allow_max : ℕ)
      → 0 < init_size
      → init_size ≤ allow_max
      → Holds (init fresh init_size allow_max) []
  unfolding init
  init-Holds n max pos le = record {
    init_pos = pos;
    init_le = le;
    size_pos = pos;
    size_le = le;
    ordered = omega arith;
    inside = omega arith;
    front = λ e. refl;
    contents = load_none (fresh n) 0;
  }

  -- A resize of a buffer with no data.
  resize_empty :
      (s : SocketBuf)
      → s.begin_pos ≡ s.end_pos
      → 0 < s.init_size
      → (s' : SocketBuf) × (resize fresh s s.init_size ≡ ok s' true)
        × (s'.buf_size ≡ s.init_size)
        × (s'.allow_max ≡ s.allow_max)
        × (s'.init_size ≡ s.init_size)
  unfolding resize resize_moved move_data
  resize_empty s e pos = elim (ℕ_discrete s.init_size s.buf_size) [
    | yes same ↦ (s, ground arith, sym same, refl, refl)
    | no other ↦ (
      record s {
        bytes = store (fresh s.init_size) 0 (load s.bytes s.begin_pos (s.end_pos - s.begin_pos));
        buf_size = s.init_size;
      },
      ground arith,
      refl,
      refl,
      refl,
    )
  ]

  -- The same where it starts at the front.
  resize_front :
      (s : SocketBuf)
      → s.begin_pos ≡ 0
      → s.end_pos ≡ 0
      → 0 < s.init_size
      → (s' : SocketBuf) × (resize fresh s s.init_size ≡ ok s' true)
        × (s'.buf_size ≡ s.init_size)
        × (s'.allow_max ≡ s.allow_max)
        × (s'.init_size ≡ s.init_size)
        × (s'.begin_pos ≡ 0)
        × (s'.end_pos ≡ 0)
  unfolding resize resize_moved
  resize_front s b e pos = elim (ℕ_discrete s.init_size s.buf_size) [
    | yes same ↦ (s, ground arith, sym same, refl, refl, b, e)
    | no other ↦ (
      record s {
        bytes = store (fresh s.init_size) 0 (load s.bytes s.begin_pos (s.end_pos - s.begin_pos));
        buf_size = s.init_size;
      },
      ground arith,
      refl,
      refl,
      refl,
      b,
      e,
    )
  ]

  emptied-Holds :
      (s : SocketBuf)
      → 0 < s.init_size
      → s.init_size ≤ s.allow_max
      → s.buf_size ≡ s.init_size
      → s.begin_pos ≡ 0
      → s.end_pos ≡ 0
      → Holds s []
  emptied-Holds s pos le e b f = record {
    init_pos = pos;
    init_le = le;
    size_pos = omega arith;
    size_le = omega arith;
    ordered = omega arith;
    inside = omega arith;
    front = λ p. b;
    contents = ap (load s.bytes s.begin_pos) (omega arith) ∙ load_none s.bytes s.begin_pos;
  }

  -- On a buffer in use, `removeData` of at most what is there takes it off the front of the data.
  -- A buffer that becomes empty has its initial size afterwards, any other the size it had.
  pub remove_data_lem :
      {s : SocketBuf} (d : List ℕ) (n : ℕ)
      → Holds s d
      → n ≤ length d
      → (s' : SocketBuf) × (remove_data fresh s n ≡ ok s' tt)
        × Holds s' (drop n d)
        × ((n ≡ length d) × (s'.buf_size ≡ s.init_size)
            ⊎ (n < length d) × (s'.buf_size ≡ s.buf_size))
  unfolding remove_data
  remove_data_lem {s} d n h le = elim (ℕ_discrete (s.begin_pos + n) s.end_pos) [
    | yes e ↦
        let (s', eq, b, m, i) =
          resize_empty (record s { begin_pos = s.begin_pos + n }) e h.init_pos in
        (
          record s' { begin_pos = 0; end_pos = 0 },
          rw (eq→== (s.begin_pos + n) s.end_pos e, eq),
          rw (drop_of_length-le n d (omega (arith, length-Holds d h))) (
              emptied-Holds (record s' { begin_pos = 0; end_pos = 0 })
                (omega (arith, i, h.init_pos)) (omega (arith, i, m, h.init_le))
                (omega (arith, b, i)) refl refl),
          inl (omega (arith, length-Holds d h), b),
        )
    | no ne ↦ (
      record s { begin_pos = s.begin_pos + n },
      rw (ne→== (s.begin_pos + n) s.end_pos ne),
      taken ne,
      inr (omega (arith, length-Holds d h, h.ordered), refl),
    )
  ]
    where
      taken :
          s.begin_pos + n ≢ s.end_pos → Holds (record s { begin_pos = s.begin_pos + n }) (drop n d)
      taken ne = record {
        init_pos = h.init_pos;
        init_le = h.init_le;
        size_pos = h.size_pos;
        size_le = h.size_le;
        ordered = omega (arith, length-Holds d h);
        inside = h.inside;
        front = λ p. absurd (ne p);
        contents =
            ap (load s.bytes (s.begin_pos + n)) (omega arith)
            ∙ sym (
                drop-load s.bytes s.begin_pos (s.end_pos - s.begin_pos) n
                  (omega (arith, length-Holds d h)))
            ∙ ap (drop n) h.contents;
      }

  -- `reset` of a buffer in use empties it and gives it its initial size.
  pub reset_lem :
      {s : SocketBuf} (d : List ℕ)
      → Holds s d
      → (s' : SocketBuf) × (reset fresh s ≡ ok s' true) × Holds s' [] × (s'.buf_size ≡ s.init_size)
  unfolding reset
  reset_lem {s} d h =
      let (s', eq, b, m, i, p, q) =
        resize_front (record s { begin_pos = 0; end_pos = 0 }) refl refl h.init_pos in
      (
        s',
        eq,
        emptied-Holds s' (omega (arith, i, h.init_pos)) (omega (arith, i, m, h.init_le))
            (omega (arith, b, i)) p q,
        b,
      )

  -- A copy of a buffer in use holds the same data.
  pub assign-Holds : {s : SocketBuf} (d : List ℕ) → Holds s d → Holds (assign fresh s) d
  unfolding assign
  assign-Holds {s} d h = record {
    init_pos = h.init_pos;
    init_le = h.init_le;
    size_pos = h.size_pos;
    size_le = h.size_le;
    ordered = h.ordered;
    inside = h.inside;
    front = h.front;
    contents =
        load-ext (store (fresh s.buf_size) 0 (load s.bytes 0 s.buf_size)) s.bytes s.begin_pos
          (s.end_pos - s.begin_pos)
          (λ j p q.
            store-load (fresh s.buf_size) s.bytes s.buf_size j (omega (arith, h.inside, h.ordered)))
        ∙ h.contents;
  }
