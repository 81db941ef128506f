-- ===== src/SocketBuf.antt =====
-- `CSocketBuf` of include/CSocketBuf.h: the growing receive and send buffer of a connection. The
-- data stand between `begin_pos` and `end_pos`. The `int`s are natural numbers, and the code's
-- differences are compared with the subtracted term on the other side. A failed `assert` is
-- `aborted`; `endless` is a loop that outlives its fuel.
pub mod Contents
pub mod Append
pub mod Consume
use lce.Prelude.{
  ℕ, zero, suc, ◌+◌, ◌-◌, ◌*◌, ◌/◌, Bool, true, false, not, List, length, ltb, leb, ◌==◌,
  if◌then◌else◌,
}
use lce.Prelude.Memory.{Memory, store, load}

pub record SocketBuf : Type 0 where
  pub buf_size : ℕ
  pub begin_pos : ℕ
  pub end_pos : ℕ
  pub allow_max : ℕ
  pub init_size : ℕ
  pub bytes : Memory ℕ

pub data Outcome {ℓ} (A : Type ℓ) : Type ℓ where
  ok : SocketBuf → A → Outcome A
  aborted : Outcome A
  endless : Outcome A

infixl 5 ◌>>=◌
abbrev pub ◌>>=◌ {ℓ κ} :
    {A : Type ℓ} {B : Type κ} → Outcome A → (SocketBuf → A → Outcome B) → Outcome B
ok s a >>= f = f s a
aborted >>= f = aborted
endless >>= f = endless

-- `fresh n` is what `new char[n]` holds.
unfoldable pub init : (ℕ → Memory ℕ) → ℕ → ℕ → SocketBuf
init fresh init_size allow_max = record {
  buf_size = init_size;
  begin_pos = 0;
  end_pos = 0;
  allow_max = allow_max;
  init_size = init_size;
  bytes = fresh init_size;
}

-- `getSize`, `getFreeSize` and the bytes from `getData()` on
unfoldable pub get_size : SocketBuf → ℕ
get_size s = s.end_pos - s.begin_pos

unfoldable pub get_free_size : SocketBuf → ℕ
get_free_size s = s.buf_size - s.end_pos

unfoldable pub get_data : SocketBuf → List ℕ
get_data s = load s.bytes s.begin_pos (s.end_pos - s.begin_pos)

unfoldable pub move_data : SocketBuf → Outcome (Unit {0})
move_data s =
    if leb s.begin_pos s.end_pos
    then ok
        (if s.end_pos == s.begin_pos then s else record s {
          bytes = store s.bytes 0 (load s.bytes s.begin_pos (s.end_pos - s.begin_pos));
          end_pos = s.end_pos - s.begin_pos;
          begin_pos = 0;
        })
        tt
    else aborted

module _ (fresh : ℕ → Memory ℕ) where
  -- `reSize` once the data are at the front; `size` is `iSize`.
  unfoldable pub resize_moved : SocketBuf → ℕ → Outcome Bool
  resize_moved s size =
      if size == s.buf_size
      then ok s true
      else (if ltb s.end_pos (size + s.begin_pos)
          then ok
              (record s {
                bytes = store (fresh size) 0 (load s.bytes s.begin_pos (s.end_pos - s.begin_pos));
                buf_size = size;
              })
              true
          else aborted)

  unfoldable pub resize : SocketBuf → ℕ → Outcome Bool
  resize s size =
      if not (s.begin_pos == 0)
      then (move_data s >>= λ s' _. resize_moved s' size)
      else resize_moved s size

  unfoldable pub inc_buf : SocketBuf → Outcome (Unit {0})
  inc_buf s =
      if ltb (s.buf_size * 2) s.allow_max
      then (resize s (s.buf_size * 2) >>= λ s' _. ok s' tt)
      else (resize s s.allow_max >>= λ s' _. ok s' tt)

  unfoldable pub dec_buf : SocketBuf → Outcome Bool
  dec_buf s =
      if ltb s.end_pos (s.buf_size / 2 + s.begin_pos)
      then (if ltb (s.buf_size / 2) s.init_size
          then resize s s.init_size
          else resize s (s.buf_size / 2))
      else ok s false

  -- `addFreeBuf`, and the body of the loop in `addData`
  unfoldable pub add_free_buf : SocketBuf → Outcome (Unit {0})
  add_free_buf s = if not (s.begin_pos == 0) then move_data s else inc_buf s

  -- `while (getFreeSize() < iSize)`, on fuel
  unfoldable pub make_room : ℕ → SocketBuf → ℕ → Outcome (Unit {0})
  make_room zero s n = endless
  make_room (suc fuel) s n = elim (ltb s.buf_size (s.end_pos + n)) [
    | true ↦ add_free_buf s >>= λ s' _. make_room fuel s' n
    | false ↦ ok s tt
  ]

  -- `addData(pszData, iSize)`; the loop runs at most `allow_max + 1` times.
  unfoldable pub add_data : SocketBuf → List ℕ → Outcome Bool
  add_data s bs =
      let n = length bs in
      if leb (s.end_pos + n) (s.allow_max + s.begin_pos)
      then (make_room (s.allow_max + 2) s n >>= λ s' _.
          if leb (s'.end_pos + n) s'.buf_size
          then ok (record s' { bytes = store s'.bytes s'.end_pos bs; end_pos = s'.end_pos + n })
              true
          else ok s' false)
      else ok s false

  unfoldable pub remove_data : SocketBuf → ℕ → Outcome (Unit {0})
  remove_data s n =
      let s1 = record s { begin_pos = s.begin_pos + n } in
      if s1.begin_pos == s1.end_pos
      then (resize s1 s1.init_size >>= λ s2 _. ok (record s2 { begin_pos = 0; end_pos = 0 }) tt)
      else ok s1 tt

  unfoldable pub reset : SocketBuf → Outcome Bool
  reset s = resize (record s { begin_pos = 0; end_pos = 0 }) s.init_size

  -- The copy: `assign(rhs)`.
  unfoldable pub assign : SocketBuf → SocketBuf
  assign rhs = record rhs { bytes = store (fresh rhs.buf_size) 0 (load rhs.bytes 0 rhs.buf_size) }

-- `addData(iSize)`, after the caller has filled the free part himself
unfoldable pub add_filled : SocketBuf → ℕ → Outcome Bool
add_filled s n =
    if ltb s.buf_size (s.end_pos + n)
    then aborted
    else ok (record s { end_pos = s.end_pos + n }) true
