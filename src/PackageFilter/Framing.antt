-- ===== src/PackageFilter/Framing.antt =====
-- The marked filters recognise exactly the framed payloads.
use lce.Prelude.{
  ℕ, ◌+◌, ◌-◌, ◌^◌, ◌≤◌, ◌<◌, ◌≡◌, refl, sym, ap, ◌∙◌, List, [], ◌∷◌, ◌++◌, length, length-append,
  append_split, take, some, arith,
}
use native.Mathlib.Decide.{dec_lt}
use lce.Prelude.Memory.{
  Memory, load, store, load-store, take-load, load-agrees, load-append, load-ext, length-load,
}
use lce.Prelude.Words.{be_bytes, be_value, length-be_bytes, be_value-be_bytes}
use lce.PackageFilter.{whole, incomplete, head_mark, tail_mark, is_whole_marked, real_data}

-- A payload behind the head mark and the length of the whole, before the tail mark.
abbrev pub frame : ℕ → List ℕ → List ℕ
frame width p = head_mark ∷ (be_bytes width (length p + (width + 2)) ++ (p ++ tail_mark ∷ []))

pub length-frame : (width : ℕ) (p : List ℕ) → length (frame width p) ≡ length p + (width + 2)
length-frame width p = omega (
  arith,
  length-append (be_bytes width (length p + (width + 2))) (p ++ tail_mark ∷ []),
  length-append p (tail_mark ∷ []),
  length-be_bytes width (length p + (width + 2)),
)

-- What stands in memory where a frame was received.
record Framed (width : ℕ) (m : Memory ℕ) (p : List ℕ) : Type 0 where
  first : m 0 ≡ head_mark
  count : be_value (load m 1 width) ≡ length p + (width + 2)
  payload : load m (real_data width) (length p) ≡ p
  last : m (length p + width + 1) ≡ tail_mark

received-Framed :
    (width : ℕ) (m : Memory ℕ) (p : List ℕ)
    → length p + (width + 2) < 256 ^ width
    → load m 0 (length (frame width p)) ≡ frame width p
    → Framed width m p
received-Framed width m p fits e = record {
  first = head_of head.0;
  count = ap be_value counted.0 ∙ be_value-be_bytes width n fits;
  payload = ap (λ i. load m i (length p)) {x = width + 1} (omega arith) ∙ ending.0;
  last = ap m {x = length p + width + 1} (omega arith) ∙ head_of ending.1;
}
  where
    n : ℕ
    n = length p + (width + 2)

    one : (i : ℕ) → load m i 1 ≡ m i ∷ []
    one i = unfold load in refl

    head_of : {i b : ℕ} → load m i 1 ≡ b ∷ [] → m i ≡ b
    head_of {i} q = unfold load in cc q

    whole_load :
        load m 0 1 ++ load m (0 + 1) (width + (length p + 1))
        ≡ (head_mark ∷ []) ++ (be_bytes width n ++ (p ++ tail_mark ∷ []))
    whole_load =
        sym (load-append m 0 1 (width + (length p + 1)))
        ∙ ap (load m 0) (omega (arith, length-frame width p))
        ∙ e

    head :
        (load m 0 1 ≡ head_mark ∷ [])
        × (load m (0 + 1) (width + (length p + 1)) ≡ be_bytes width n ++ (p ++ tail_mark ∷ []))
    head =
        append_split 1 (load m 0 1) (load m (0 + 1) (width + (length p + 1))) (head_mark ∷ [])
          (be_bytes width n ++ (p ++ tail_mark ∷ [])) (length-load m 0 1) refl whole_load

    counted :
        (load m 1 width ≡ be_bytes width n)
        × (load m (1 + width) (length p + 1) ≡ p ++ tail_mark ∷ [])
    counted =
        append_split width (load m 1 width) (load m (1 + width) (length p + 1)) (be_bytes width n)
          (p ++ tail_mark ∷ []) (length-load m 1 width) (length-be_bytes width n)
          (sym (load-append m 1 width (length p + 1)) ∙ head.1)

    ending :
        (load m (1 + width) (length p) ≡ p) × (load m (1 + width + length p) 1 ≡ tail_mark ∷ [])
    ending =
        append_split (length p) (load m (1 + width) (length p)) (load m (1 + width + length p) 1) p
          (tail_mark ∷ []) (length-load m (1 + width) (length p)) refl
          (sym (load-append m (1 + width) (length p) 1) ∙ counted.1)

-- Once a frame has arrived whose length fits its field and an `int`, whatever follows it, the
-- filter finds it whole, gives the lengths of the payload and of the frame, and points at the
-- payload.
pub whole_of_frame :
    (width : ℕ) (m : Memory ℕ) (p : List ℕ) (size : ℕ)
    → length p + (width + 2) < 256 ^ width
    → length p + (width + 2) < 2 ^ 31
    → load m 0 (length (frame width p)) ≡ frame width p
    → length (frame width p) ≤ size
    → (is_whole_marked width m size ≡ record {
      code = whole;
      real_pkg_len = some (length p);
      pkg_len = some (length (frame width p));
    })
      × (load m (real_data width) (length p) ≡ p)
unfolding is_whole_marked
whole_of_frame width m p size fits int e arrived =
    (ground (arith, f.first, f.count, f.last, length-frame width p), f.payload)
  where
    f : Framed width m p
    f = received-Framed width m p fits e

incomplete_of_whole :
    (width : ℕ) (m : Memory ℕ) (p : List ℕ) (size : ℕ)
    → length p + (width + 2) < 256 ^ width
    → length p + (width + 2) < 2 ^ 31
    → load m 0 (length (frame width p)) ≡ frame width p
    → size < length (frame width p)
    → (is_whole_marked width m size).code ≡ incomplete
unfolding is_whole_marked
incomplete_of_whole width m p size fits int e part =
    ground (arith, f.first, f.count, length-frame width p)
  where
    f : Framed width m p
    f = received-Framed width m p fits e

-- What the filter finds whole lies within the received data, between the two marks, and has the
-- length that stands in it.
pub whole_sound :
    (width : ℕ) (m : Memory ℕ) (size real len : ℕ)
    → is_whole_marked width m size
      ≡ record { code = whole; real_pkg_len = some real; pkg_len = some len }
    → (len ≤ size)
      × (real + (width + 2) ≡ len)
      × (be_value (load m 1 width) ≡ len)
      × (m 0 ≡ head_mark)
      × (m (len - 1) ≡ tail_mark)
unfolding is_whole_marked
whole_sound width m size real len e = ground arith

-- The verdict of the filter is the same in two memories that agree on the received bytes.
pub reads_received :
    (width : ℕ) (m m' : Memory ℕ) (size : ℕ)
    → ((j : ℕ) → j < size → m j ≡ m' j)
    → is_whole_marked width m size ≡ is_whole_marked width m' size
unfolding is_whole_marked
reads_received width m m' size same = elim (dec_lt (width + 1) size) [
  | yes long ↦ ground (
    arith,
    same 0 (omega arith),
    load-ext m m' 1 width (λ j p q. same j (omega arith)),
    same (be_value (load m 1 width) - 1),
  )
  | no short ↦ ground (arith, same 0)
]

-- While only a part of a frame has arrived, whose length fits its field and an `int`, the filter asks
-- for more, whatever stands behind that part.
pub incomplete_of_prefix :
    (width : ℕ) (m : Memory ℕ) (p : List ℕ) (size : ℕ)
    → length p + (width + 2) < 256 ^ width
    → length p + (width + 2) < 2 ^ 31
    → size < length (frame width p)
    → load m 0 size ≡ take size (frame width p)
    → (is_whole_marked width m size).code ≡ incomplete
incomplete_of_prefix width m p size fits int part e =
    ap (λ v. v.code) (reads_received width m full size same)
    ∙ incomplete_of_whole width full p size fits int complete part
  where
    full : Memory ℕ
    full = store m 0 (frame width p)

    complete : load full 0 (length (frame width p)) ≡ frame width p
    complete = load-store m 0 (frame width p)

    agree : load m 0 size ≡ load full 0 size
    agree =
        e
        ∙ ap (take size) (sym complete)
        ∙ take-load full 0 (length (frame width p)) size (omega arith)

    same : (j : ℕ) → j < size → m j ≡ full j
    same j lt =
        ap m {x = j} {y = 0 + j} (omega arith)
        ∙ load-agrees m full 0 size j agree lt
        ∙ ap full (omega arith)
