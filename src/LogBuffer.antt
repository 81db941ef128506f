-- ===== src/LogBuffer.antt =====
-- `CLogBuffer` of include/CLogBuffer.h: the buffer in which the asynchronous log collects lines.
-- `stored` is `m_pData`, `none` for NULL. The text of `m_szErrMsg` is left
-- out, and so are the results of `init` and `reset`, which are always true.
pub mod Collect
use lce.Prelude.{ℕ, Bool, true, false, List, length, Option, none, some, ltb, ◌==◌, if◌then◌else◌}
use lce.Prelude.Memory.{Memory, store}
use lce.Prelude.Words.{add_size}

pub record LogBuffer : Type 0 where
  pub max_size : ℕ
  pub size : ℕ
  pub stored : Option (Memory ℕ)
  pub is_full : Bool

-- the constructor
unfoldable pub blank : LogBuffer
blank = record { max_size = 0; size = 0; stored = none; is_full = false }

-- `init(dwSize)`; `fresh` is what the new memory holds.
unfoldable pub allocate : Memory ℕ → LogBuffer → ℕ → LogBuffer
allocate fresh b n = elim b.stored [
  | none ↦ record { max_size = n; size = 0; stored = some fresh; is_full = false }
  | some m ↦ b
]

unfoldable pub is_blank : LogBuffer → Bool
is_blank b = b.size == 0

-- `write(data, dwLen)`
unfoldable pub write : LogBuffer → List ℕ → LogBuffer × Bool
write b bs = elim b.stored [
  | none ↦ (b, false)
  | some m ↦
      if ltb b.max_size (add_size b.size (length bs))
      then (record b { is_full = true }, false)
      else (
        record b { stored = some (store m b.size bs); size = add_size b.size (length bs) },
        true,
      )
]

unfoldable pub rewind : LogBuffer → LogBuffer
rewind b = record b { is_full = false; size = 0 }
