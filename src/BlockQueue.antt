-- ===== src/BlockQueue.antt =====
-- `CBlockQueue` of include/CBlockQueue.h: a ring of slots between threads. A definition is what one
-- critical section does, from where it takes the lock to where it gives the lock up; a section that
-- has to wait for the condition is `waits`. A `push` that waited takes the lock again, with a new
-- section; a `pop` that waited does not, and is modelled up to its wait. The indices are `none` for -1.
-- `slots` is `m_pData`. `front()` reads the slot `m_dwFront`, which is that of the element popped
-- last; before the first pop it reads out of range, `outside`.
pub mod Steps
pub mod Schedule
use lce.Prelude.{
  ℕ, ◌+◌, ◌-◌, ◌%◌, ◌^◌, Bool, not, ◌||◌, true, false, Option, none, some, ltb, leb, ◌==◌,
  if◌then◌else◌,
}
use lce.Prelude.Memory.{Memory, put}

pub record BlockQueue {ℓ} (A : Type ℓ) : Type ℓ where
  pub max_size : ℕ
  pub size : ℕ
  pub front : Option ℕ
  pub back : Option ℕ
  pub slots : Memory A

pub data Section {ℓ κ} (A : Type ℓ) (B : Type κ) : Type (ℓ ⊔ κ) where
  returns : BlockQueue A → B → Section A B
  waits : Section A B
  outside : Section A B

-- `(i + 1) % m_dwMaxSize`
abbrev pub after : ℕ → Option ℕ → ℕ
after limit none = 0 % limit
after limit (some i) = (i + 1) % limit

module _ {ℓ} {A : Type ℓ} where
  -- the constructor; `n` is the pattern of 32 bits of the `int` `dwMaxSize`
  unfoldable pub build : Memory A → ℕ → BlockQueue A
  build fresh n = record {
    max_size = if n == 0 || leb (2 ^ 31) n then 1000 else n;
    size = 0;
    front = none;
    back = none;
    slots = fresh;
  }

  unfoldable pub clear : BlockQueue A → BlockQueue A
  clear q = record q { size = 0; front = none; back = none }

  unfoldable pub has_no_room : BlockQueue A → Bool
  has_no_room q = leb q.max_size q.size

  unfoldable pub has_nothing : BlockQueue A → Bool
  has_nothing q = 0 == q.size

  -- `value = m_pData[i]`
  abbrev pub peek : BlockQueue A → Option ℕ → Section A (Option A)
  peek q none = outside
  peek q (some i) = returns q (some (q.slots i))

  -- `front(value)` and `back(value)`; `none` is `false`.
  unfoldable pub peek_front : BlockQueue A → Section A (Option A)
  peek_front q = if has_nothing q then returns q none else peek q q.front

  unfoldable pub peek_back : BlockQueue A → Section A (Option A)
  peek_back q = if has_nothing q then returns q none else peek q q.back

  unfoldable pub push_section : BlockQueue A → A → Section A Bool
  push_section q item =
      if leb q.max_size q.size
      then waits
      else (let at = after q.max_size q.back in
          returns (record q { back = some at; slots = put q.slots at item; size = q.size + 1 })
            true)

  -- what both `pop`s do once there is an element
  unfoldable pub take_item : BlockQueue A → Section A (Option A)
  take_item q =
      let at = after q.max_size q.front in
      returns (record q { front = some at; size = q.size - 1 }) (some (q.slots at))

  -- `pop(item)` up to where it returns or first waits. After the wait the loop goes on without the
  -- lock; what it does then is not modelled.
  unfoldable pub pop_section : BlockQueue A → Section A (Option A)
  pop_section q = if leb q.size 0 then waits else take_item q

  -- `pop(item, timeout)`. `found` is the queue that the thread finds after `pthread_cond_timedwait`,
  -- and `woken` whether that succeeded. A `none` result is `false`.
  unfoldable pub pop_timed : BlockQueue A → BlockQueue A → Bool → Section A (Option A)
  pop_timed q found woken =
      if leb q.size 0
      then (if not woken
          then returns found none
          else (if leb found.size 0 then returns found none else take_item found))
      else take_item q
