-- ===== src/CircleQueue.antt =====
-- `CCircleQueue` of include/CCircleQueue.h: a ring of slots, one of which stays free. The indices are
-- `uint32_t`s. `slots` is `pData`; a slot out of range is never written.
pub mod Refine
use lce.Prelude.{ℕ, ◌+◌, ◌%◌, ◌^◌, Bool, true, false, Option, none, some, ltb, ◌==◌, if◌then◌else◌}
use lce.Prelude.Memory.{Memory, put}

pub record CircleQueue {ℓ} (A : Type ℓ) : Type ℓ where
  pub front : ℕ
  pub rear : ℕ
  pub size : ℕ
  pub slots : Memory A

module _ {ℓ} {A : Type ℓ} where
  -- `init(dwSize)`; `fresh` is what the new slots hold.
  unfoldable pub start : Memory A → ℕ → CircleQueue A
  start fresh n = record {
    front = 0;
    rear = 0;
    size = ((if ltb n 1 then 1000 else n) + 1) % 2 ^ 32;
    slots = fresh;
  }

  unfoldable pub is_empty : CircleQueue A → Bool
  is_empty q = q.front == q.rear

  -- `(m_dwRear + 1) % m_dwSize`, and the same of `m_dwFront`
  abbrev pub next : CircleQueue A → ℕ → ℕ
  next q i = (i + 1) % 2 ^ 32 % q.size

  unfoldable pub is_full : CircleQueue A → Bool
  is_full q = next q q.rear == q.front

  unfoldable pub enque : CircleQueue A → A → CircleQueue A × Bool
  enque q e =
      if is_full q
      then (q, false)
      else (record q { slots = put q.slots q.rear e; rear = next q q.rear }, true)

  unfoldable pub deque : CircleQueue A → CircleQueue A × Option A
  deque q =
      if is_empty q
      then (q, none)
      else (record q { front = next q q.front }, some (q.slots q.front))
