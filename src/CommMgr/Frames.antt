-- ===== src/CommMgr/Frames.antt =====
-- The marked filters cut a stream of frames into its frames.
use lce.Prelude.{
  ℕ, ◌+◌, ◌^◌, ◌≤◌, ◌<◌, ◌≡◌, ◌≢◌, refl, sym, ap, ap₂, ◌∙◌, List, [], ◌∷◌, ◌++◌, append_assoc, some,
  length, length-append, length-take, take, drop, take-append-drop, append_split, map, arith,
}
use native.Mathlib.Decide.{dec_lt}
use lce.Prelude.Memory.{load, take-load}
use lce.PackageFilter.{whole, incomplete, Code, is_whole_marked, is_whole_raw}
use lce.PackageFilter.Framing.{frame, whole_of_frame, incomplete_of_prefix}
use lce.Prelude.Words.{be_value}
use lce.CommMgr.Reading.{or_before}
use lce.CommMgr.Cuts.{Says, Cuts, done, cut, Honest}

-- a payload whose length fits the length field and an `int`
abbrev pub Fits : ℕ → List ℕ → Type 0
Fits width p = (length p + (width + 2) < 256 ^ width) × (length p + (width + 2) < 2 ^ 31)

abbrev pub AllFit : ℕ → List (List ℕ) → Type 0
AllFit width [] = Unit {0}
AllFit width (p ∷ ps) = Fits width p × AllFit width ps

-- the stream that carries payloads
abbrev pub frames : ℕ → List (List ℕ) → List ℕ
frames width [] = []
frames width (p ∷ ps) = frame width p ++ frames width ps

not_whole : (c : Code) → c ≡ whole → c ≡ incomplete → ⊥
not_whole c e q = absurd (ground arith)

-- the verdict on the front of a stream that starts with a frame
module _ (width : ℕ) (p : List ℕ) (fits : Fits width p) where
  front_whole :
      {d : List ℕ} (s : Says (is_whole_marked width) d)
      → length (frame width p) ≤ length d
      → take (length (frame width p)) d ≡ frame width p
      → (s.verdict.code ≡ whole) × (s.verdict.pkg_len ≡ some (length (frame width p)))
  front_whole {d} s le e =
      let v =
        (whole_of_frame width s.mem p (length d) fits.0 fits.1
          (sym (take-load s.mem 0 (length d) (length (frame width p)) le)
            ∙ ap (take (length (frame width p))) s.stands
            ∙ e)
          le).0 in
      (ap (λ v. v.code) (sym s.says ∙ v), ap (λ v. v.pkg_len) (sym s.says ∙ v))

  front_part :
      {d : List ℕ} (s : Says (is_whole_marked width) d)
      → length d < length (frame width p)
      → d ≡ take (length d) (frame width p)
      → s.verdict.code ≡ incomplete
  front_part {d} s lt e =
      ap (λ v. v.code) (sym s.says)
      ∙ incomplete_of_prefix width s.mem p (length d) fits.0 fits.1 lt (s.stands ∙ e)

-- A list that starts another's front.
split_front :
    (d tail a b : List ℕ)
    → d ++ tail ≡ a ++ b
    → length a ≤ length d
    → (take (length a) d ≡ a) × (drop (length a) d ++ tail ≡ b)
split_front d tail a b e le =
    let r =
      append_split (length a) (take (length a) d) (drop (length a) d ++ tail) a b
        (omega (arith, length-take (length a) d)) refl
        (sym (append_assoc (take (length a) d) (drop (length a) d) tail)
          ∙ ap (λ k. k ++ tail) (take-append-drop (length a) d)
          ∙ e) in
    r

inside_front :
    (d tail a b : List ℕ) → d ++ tail ≡ a ++ b → length d ≤ length a → d ≡ take (length d) a
inside_front d tail a b e le = sym (split_front a b d tail (sym e) le).0

empty_front :
    (width : ℕ) {d : List ℕ} (s : Says (is_whole_marked width) d)
    → length d ≡ 0
    → s.verdict.code ≡ incomplete
unfolding is_whole_marked
empty_front width {d} s e = ap (λ v. v.code) (sym s.says) ∙ rw e refl

-- How packages that are cut from a stream part its payloads.
pub record Parted (width : ℕ) (ps new : List (List ℕ)) (rest tail : List ℕ) : Type 0 where
  pub qs : List (List ℕ)
  pub rs : List (List ℕ)
  pub parts : ps ≡ qs ++ rs
  pub given : new ≡ map (frame width) qs
  pub left : rest ++ tail ≡ frames width rs
  pub fit : AllFit width rs

-- What the filter cuts from the front of a stream of frames are frames, in their order.
pub cut_frames :
    (width : ℕ) (ps : List (List ℕ)) {d : List ℕ} {new : List (List ℕ)} {rest : List ℕ}
    (tail : List ℕ)
    → Cuts (is_whole_marked width) d new rest
    → d ++ tail ≡ frames width ps
    → AllFit width ps
    → Parted width ps new rest tail
cut_frames width ps tail (done d) e fit = record {
  qs = [];
  rs = ps;
  parts = refl;
  given = refl;
  left = e;
  fit = fit;
}
cut_frames width [] tail (cut d n new rest s w l c) e fit = absurd (
    not_whole s.verdict.code w
      (empty_front width s (omega (arith, ap length e, length-append d tail))))
cut_frames width (p ∷ ps) tail (cut d n new rest s w l c) e (fits, fit) =
    elim (dec_lt (length d) (length (frame width p))) [
      | yes lt ↦ absurd (
          not_whole s.verdict.code w (
            front_part width p fits s lt
              (inside_front d tail (frame width p) (frames width ps) e (omega arith))))
      | no ge ↦
          let (front, behind) =
            split_front d tail (frame width p) (frames width ps) e (omega arith) in
          let found = (front_whole width p fits s (omega arith) front).1 in
          let at : n ≡ length (frame width p) = ap (λ o. or_before o 0) (sym l ∙ found) in
          let r = cut_frames width ps tail c (ap (λ k. drop k d ++ tail) at ∙ behind) fit in
          record {
            qs = p ∷ r.qs;
            rs = r.rs;
            parts = ap (◌∷◌ p) r.parts;
            given = ap₂ ◌∷◌ (ap (λ k. take k d) at ∙ front) r.given;
            left = r.left;
            fit = r.fit;
          }
    ]

-- less than a frame is there
abbrev pub Waits : ℕ → List ℕ → List (List ℕ) → Type 0
Waits width rest [] = Unit {0}
Waits width rest (p ∷ ps) = length rest < length (frame width p)

-- Where the filter cuts nothing, less than a frame is there.
pub stuck_frames :
    (width : ℕ) (rs : List (List ℕ)) {rest : List ℕ} (tail : List ℕ)
    (s : Says (is_whole_marked width) rest)
    → s.verdict.code ≢ whole
    → rest ++ tail ≡ frames width rs
    → AllFit width rs
    → Waits width rest rs
stuck_frames width [] tail s ne e fit = tt
stuck_frames width (p ∷ rs) {rest} tail s ne e (fits, fit) =
    elim (dec_lt (length rest) (length (frame width p))) [
      | yes lt ↦ lt
      | no ge ↦ absurd (
          ne
            (front_whole width p fits s (omega arith)
              (split_front rest tail (frame width p) (frames width rs) e (omega arith)).0).0)
    ]

-- The marked filters are honest.
pub marked-Honest : (width : ℕ) → Honest (is_whole_marked width)
unfolding is_whole_marked
marked-Honest width = record {
  finds = λ mem size e. (be_value (load mem 1 width), ground arith, ground arith, ground arith);
}

pub raw-Honest : Honest is_whole_raw
unfolding is_whole_raw
raw-Honest = record { finds = λ mem size e. (size, ground arith, ground arith, omega arith) }
