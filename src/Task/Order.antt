-- ===== src/Task/Order.antt =====
-- However the threads take turns, every accepted task is worked on once, in the order of acceptance.
use lce.Prelude.{
  ℕ, ◌+◌, ◌≤◌, ◌≡◌, sym, ap, ◌∙◌, inl, inr, List, [], ◌∷◌, ◌++◌, append_assoc, append-nil, length,
  length-append, ltb, if◌then◌else◌, arith, Bool-cases,
}
use lce.Task.{TaskInfo, Task, Found, works_on, waits, dispatch_task, take_task}

-- A turn of a thread that dispatches, or of one that works.
pub data Turn (D : Type 0) : Type 0 where
  dispatches : TaskInfo D → Turn D
  turns_up : Turn D

-- The tasks that were accepted and the tasks that were given to workers, each in the order of the turns.
pub record Log (D : Type 0) : Type 0 where
  pub queue : Task D
  pub accepted : List (TaskInfo D)
  pub worked : List (TaskInfo D)

module _ {D : Type 0} where
  abbrev pub taken : Found D → List (TaskInfo D)
  taken (works_on x) = x ∷ []
  taken waits = []

  unfoldable pub run_turns : Task D → List (Turn D) → Log D
  run_turns q [] = record { queue = q; accepted = []; worked = [] }
  run_turns q (dispatches x ∷ ts) =
      let l = run_turns (dispatch_task q x).0 ts in
      record l { accepted = if (dispatch_task q x).1 then x ∷ l.accepted else l.accepted }
  run_turns q (turns_up ∷ ts) =
      let l = run_turns (take_task q).0 ts in
      record l { worked = taken (take_task q).1 ++ l.worked }

  turns_lem :
      (xs : List (TaskInfo D)) (max : ℕ) (ts : List (Turn D))
      → length xs ≤ max + 1
      → ((run_turns (record { tasks = xs; max_size = max }) ts).worked
            ++ (run_turns (record { tasks = xs; max_size = max }) ts).queue.tasks
          ≡ xs ++ (run_turns (record { tasks = xs; max_size = max }) ts).accepted)
        × (length (run_turns (record { tasks = xs; max_size = max }) ts).queue.tasks ≤ max + 1)
  unfolding run_turns dispatch_task take_task
  turns_lem xs max [] le = (sym (append-nil xs), le)
  turns_lem xs max (dispatches x ∷ ts) le = elim (Bool-cases (ltb max (length xs))) [
    | inl t ↦ rw (t, dispatch_task) (turns_lem xs max ts le)
    | inr f ↦
        let r = turns_lem (xs ++ (x ∷ [])) max ts (ground (arith, f, length-append xs (x ∷ []))) in
        rw (f, dispatch_task) (r.0 ∙ append_assoc xs (x ∷ []) _, r.1)
  ]
  turns_lem [] max (turns_up ∷ ts) le = turns_lem [] max ts le
  turns_lem (x ∷ xs) max (turns_up ∷ ts) le =
      let r = turns_lem xs max ts (omega arith) in (ap (λ l. x ∷ l) r.0, r.1)

  -- Whatever the order of the turns, the tasks given to workers and after them those still in the queue are
  -- the tasks of the queue given and after them those accepted, in this order: none is lost,
  -- given out twice or overtaken. The queue, if it begins with at most one task more than the maximum,
  -- has no more than that after the turns.
  pub run_turns_lem :
      (q : Task D) (ts : List (Turn D))
      → length q.tasks ≤ q.max_size + 1
      → ((run_turns q ts).worked ++ (run_turns q ts).queue.tasks
          ≡ q.tasks ++ (run_turns q ts).accepted)
        × (length (run_turns q ts).queue.tasks ≤ q.max_size + 1)
  run_turns_lem q ts le = turns_lem q.tasks q.max_size ts le
