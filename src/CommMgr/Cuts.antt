-- ===== src/CommMgr/Cuts.antt =====
-- The packages that a filter finds in a stream of bytes.
use lce.Prelude.{
  ℕ, ◌≤◌, ◌<◌, ◌≡◌, refl, sym, ap, ◌∙◌, List, [], ◌∷◌, ◌++◌, append_assoc, some, length, take, drop,
  take-append-drop,
}
use lce.Prelude.Memory.{Memory, load}
use lce.PackageFilter.{whole, Verdict}
use lce.CommMgr.{Filter}

-- what the filter says of bytes, wherever they stand
pub record Says (f : Filter) (d : List ℕ) : Type 0 where
  pub mem : Memory ℕ
  pub stands : load mem 0 (length d) ≡ d
  pub verdict : Verdict
  pub says : f mem (length d) ≡ verdict

-- `Cuts f d new rest`: the filter finds the packages `new` at the front of `d`, one after the other,
-- and `rest` is left.
pub data Cuts (f : Filter) : List ℕ → List (List ℕ) → List ℕ → Type 0 where
  done : (d : List ℕ) → Cuts f d [] d
  cut :
      (d : List ℕ) (n : ℕ) (new : List (List ℕ)) (rest : List ℕ) (s : Says f d)
      → s.verdict.code ≡ whole
      → s.verdict.pkg_len ≡ some n
      → Cuts f (drop n d) new rest
      → Cuts f d (take n d ∷ new) rest

abbrev pub concat : List (List ℕ) → List ℕ
concat [] = []
concat (bs ∷ bss) = bs ++ concat bss

-- Nothing is lost or added, whatever the filter says.
pub Cuts-concat :
    {f : Filter} {d : List ℕ} {new : List (List ℕ)} {rest : List ℕ}
    → Cuts f d new rest
    → d ≡ concat new ++ rest
Cuts-concat (done d) = refl
Cuts-concat (cut d n new rest s w l c) =
    sym (take-append-drop n d)
    ∙ ap (λ k. take n d ++ k) (Cuts-concat c)
    ∙ sym (append_assoc (take n d) (concat new) rest)

-- A filter that only finds packages that have been received, and that are not empty.
pub record Honest (f : Filter) : Type 0 where
  pub finds :
      (mem : Memory ℕ) (size : ℕ)
      → (f mem size).code ≡ whole
      → (n : ℕ) × ((f mem size).pkg_len ≡ some n) × (0 < n) × (n ≤ size)
