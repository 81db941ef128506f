-- ===== src/BlockQueue/Schedule.antt =====
-- Threads that take turns at a `CBlockQueue`: each turn is one critical section, in
-- any order, up to the first `pop` that has to wait.
use lce.Prelude.{ℕ, ◌≡◌, refl, sym, List, [], ◌∷◌, Bool, Option, none, some}
use mathlib.Core.Option
use lce.BlockQueue.{BlockQueue, Section, returns, waits, outside, push_section, pop_section}
use lce.BlockQueue.Steps.{Waiting, Follows, offer, poll, push_section_lem, pop_section_lem}

pub data Turn (A : Type 0) : Type 0 where
  push_turn : A → Turn A
  pop_turn : Turn A

-- What a turn shows: the result of the call, or that its thread waits on.
pub data Shown (A : Type 0) : Type 0 where
  put_in : Bool → Shown A
  took : Option A → Shown A
  blocked : Shown A

module _ {A : Type 0} where
  -- A section and then the turns after it, or what comes after its wait; `none` if memory out of
  -- range is read.
  abbrev pub advance :
      {B : Type 0}
      → (B → Shown A)
      → Option (List (Shown A))
      → Section A B
      → (BlockQueue A → Option (List (Shown A)))
      → Option (List (Shown A))
  advance tag wait (returns q b) k = Option.map (λ l. tag b ∷ l) (k q)
  advance tag wait waits k = Option.map (λ l. blocked ∷ l) wait
  advance tag wait outside k = none

  -- The turns up to the first `pop` that has to wait. The thread of a `push` that waits may take another
  -- turn, with the lock.
  unfoldable pub schedule : BlockQueue A → List (Turn A) → Option (List (Shown A))
  schedule q [] = some []
  schedule q (push_turn x ∷ ts) =
      advance put_in (schedule q ts) (push_section q x) (λ q'. schedule q' ts)
  schedule q (pop_turn ∷ ts) = advance took (some []) (pop_section q) (λ q'. schedule q' ts)

  -- the same for the FIFO
  abbrev pub proceed :
      {B : Type 0}
      → (B → Shown A)
      → List (Shown A)
      → Option (List A × B)
      → (List A → List (Shown A))
      → List (Shown A)
  proceed tag wait (some (xs, b)) k = tag b ∷ k xs
  proceed tag wait none k = blocked ∷ wait

  unfoldable pub schedule_spec : ℕ → List A → List (Turn A) → List (Shown A)
  schedule_spec limit xs [] = []
  schedule_spec limit xs (push_turn x ∷ ts) =
      proceed put_in (schedule_spec limit xs ts) (offer limit xs x)
        (λ ys. schedule_spec limit ys ts)
  schedule_spec limit xs (pop_turn ∷ ts) =
      proceed took [] (poll xs) (λ ys. schedule_spec limit ys ts)

  advance-proceed :
      {B : Type 0} (tag : B → Shown A) (limit : ℕ) (s : Section A B) (r : Option (List A × B))
      {wait : Option (List (Shown A))} {wait' : List (Shown A)}
      (k : BlockQueue A → Option (List (Shown A))) (k' : List A → List (Shown A))
      → wait ≡ some wait'
      → Follows limit s r
      → ((q' : BlockQueue A) (ys : List A)
          → Waiting q' ys
          → q'.max_size ≡ limit
          → k q' ≡ some (k' ys))
      → advance tag wait s k ≡ some (proceed tag wait' r k')
  advance-proceed tag limit (returns q' b) (some (ys, c)) k k' w f rest =
      rw (rest q' ys f.0 f.1, f.2)
  advance-proceed tag limit (returns q' b) none k k' w f rest = elim f [ ]
  advance-proceed tag limit waits none k k' w f rest = rw w refl
  advance-proceed tag limit waits (some r) k k' w f rest = elim f [ ]
  advance-proceed tag limit outside none k k' w f rest = elim f [ ]
  advance-proceed tag limit outside (some r) k k' w f rest = elim f [ ]

  -- In whatever order threads take turns with the lock at a queue that holds elements, the turns show exactly
  -- what they show at a FIFO of those elements and that limit, and nothing out of range is read, up to the
  -- first `pop` that has to wait, with which the turns end. A `push` that has to wait changes nothing.
  pub schedule_refines :
      (ts : List (Turn A)) {q : BlockQueue A} (xs : List A) (limit : ℕ)
      → Waiting q xs
      → q.max_size ≡ limit
      → schedule q ts ≡ some (schedule_spec limit xs ts)
  unfolding schedule schedule_spec
  schedule_refines [] xs limit h same = refl
  schedule_refines (push_turn x ∷ ts) {q} xs limit h same =
      advance-proceed put_in limit (push_section q x) (offer limit xs x) (λ q'. schedule q' ts)
        (λ ys. schedule_spec limit ys ts) (schedule_refines ts xs limit h same)
        (rw (sym same) (push_section_lem xs x h))
        (λ q' ys h' same'. schedule_refines ts ys limit h' same')
  schedule_refines (pop_turn ∷ ts) {q} xs limit h same =
      advance-proceed took limit (pop_section q) (poll xs) (λ q'. schedule q' ts)
        (λ ys. schedule_spec limit ys ts) refl (rw (sym same) (pop_section_lem xs h))
        (λ q' ys h' same'. schedule_refines ts ys limit h' same')
