-- ===== src/Task.antt =====
-- `CTask` of include/CTask.h and src/CTask.cpp: a queue of tasks between the threads that dispatch_task them
-- and the threads that work on them. A critical section, from the lock to the unlock, is a step. What a
-- thread does between its sections is not part of the queue: `onWork` runs after the unlock.
pub mod Order
use lce.Prelude.{
  ℕ, ◌+◌, ◌%◌, ◌^◌, Bool, true, false, List, [], ◌∷◌, ◌++◌, length, ltb, if◌then◌else◌,
}

-- `STaskInfo`; the data of a task is a pointer, which the queue passes on.
pub record TaskInfo (D : Type 0) : Type 0 where
  pub task_type : ℕ
  pub data_of : D

-- `max_size` is `(size_t)m_iMaxSize`.
pub record Task (D : Type 0) : Type 0 where
  pub tasks : List (TaskInfo D)
  pub max_size : ℕ

-- What a section of a worker finds: a task, or none, so that it waits for the condition.
pub data Found (D : Type 0) : Type 0 where
  works_on : TaskInfo D → Found D
  waits : Found D

module _ {D : Type 0} where
  -- `init(iThreadNum, iMaxSize)`, the queue
  unfoldable pub start : ℕ → Task D
  start max = record { tasks = []; max_size = max }

  -- `dispatch(iTaskType, pData)`; `false` is -1.
  unfoldable pub dispatch_task : Task D → TaskInfo D → Task D × Bool
  dispatch_task q x =
      if ltb q.max_size (length q.tasks)
      then (q, false)
      else (record q { tasks = q.tasks ++ (x ∷ []) }, true)

  -- the section of a round of `CTaskThread::run`
  unfoldable pub take_task : Task D → Task D × Found D
  take_task q = elim q.tasks [
    | [] ↦ (q, waits)
    | x ∷ rest ↦ (record q { tasks = rest }, works_on x)
  ]
