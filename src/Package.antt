-- ===== src/Package.antt =====
-- `CPackage` of include/CPackage.h: a package of `head` bytes, which a `PKG_HEAD` takes up, and a body
-- that is written at its end and read at a position. An `int` is the 64-bit pattern of its value,
-- as it is when the code adds it to a `size_t`; `int_of` is the cast back. The overloads for signed
-- and unsigned words of the same size have the same code, and are one definition here. A value of
-- `n` bytes is its pattern. `fault` is a read or write outside the bytes of the string.
pub mod Left
pub mod Reads
pub mod Items
pub mod Safe
pub mod Seek
use lce.Prelude.{
  ℕ, ◌+◌, ◌^◌, Bool, true, false, not, ◌&&◌, List, [], ◌∷◌, ◌++◌, Option, none, some, length, take,
  drop, replicate, ltb, leb, ◌==◌, if◌then◌else◌,
}
use lce.Prelude.Words.{add_size, sub_size, int_of, le_signed, be_bytes, be_value}

pub record Package : Type 0 where
  pub pos : ℕ
  pub bytes : List ℕ

-- `null_data` and the two after it are the class's `Error`; the others are `std::out_of_range` and
-- `std::length_error` of `std::string`.
pub data Error : Type 0 where
  null_data short_data no_enough_buf out_of_range too_long : Error

pub data Outcome {ℓ} (A : Type ℓ) : Type ℓ where
  ok : Package → A → Outcome A
  throws : Error → Package → Outcome A
  fault : Outcome A

infixl 5 ◌>>=◌
abbrev pub ◌>>=◌ {ℓ κ} :
    {A : Type ℓ} {B : Type κ} → Outcome A → (Package → A → Outcome B) → Outcome B
ok p a >>= f = f p a
throws e p >>= f = throws e p
fault >>= f = fault

-- `write(pszData, dwLen)`, and `<<` of a string
unfoldable pub write_bytes : Package → List ℕ → Package
write_bytes p bs = record p { bytes = p.bytes ++ bs }

-- `write(val)` of `n` bytes, in network order: the package, and the position of the value
unfoldable pub write_word : ℕ → Package → ℕ → Package × ℕ
write_word n p v = (record p { bytes = p.bytes ++ be_bytes n v }, length p.bytes)

-- `std::string::replace(at, n, new)`
unfoldable pub replace : List ℕ → ℕ → ℕ → List ℕ → Option (List ℕ)
replace bs at n new =
    if ltb (length bs) at then none else some (take at bs ++ (new ++ drop n (drop at bs)))

abbrev replaced : Package → Option (List ℕ) → Outcome (Unit {0})
replaced p none = throws out_of_range p
replaced p (some bs) = ok (record p { bytes = bs }) tt

-- `writePos(val, dwPos)` of `n` bytes
unfoldable pub write_pos : ℕ → Package → ℕ → ℕ → Outcome (Unit {0})
write_pos n p v at = replaced p (replace p.bytes at n (be_bytes n v))

-- `<<` of a word of `n` bytes
unfoldable pub put_word : ℕ → Package → ℕ → Package
put_word n p v = record p { bytes = p.bytes ++ be_bytes n v }

-- The `n` bytes from index `i` on, if the string has them.
unfoldable pub bytes_at : List ℕ → ℕ → ℕ → Option (List ℕ)
bytes_at bs i n = if ltb (length bs) (i + n) then none else some (take n (drop i bs))

-- `strlen`, and what comes before the NUL; the string's own NUL ends the last one.
unfoldable pub until_nul : List ℕ → List ℕ
until_nul [] = []
until_nul (b ∷ bs) = let rest = until_nul bs in if b == 0 then [] else b ∷ rest

module _ (head : ℕ) where
  -- `CPackage()`, and `clear()`
  unfoldable pub blank : Package
  blank = record { pos = 0; bytes = replicate head 0 }

  -- `CPackage(pszPkgData, iLen)`; `none` is NULL.
  unfoldable pub build : Option (List ℕ) → Option Package
  build none = none
  build (some bs) = some (record { pos = 0; bytes = bs })

  -- `setPkgData(pszPkgData, iLen)`
  unfoldable pub set_pkg_data : Package → Option (List ℕ) → Outcome (Unit {0})
  set_pkg_data p none = throws null_data p
  set_pkg_data p (some bs) =
      if ltb (length bs) head then throws short_data p else ok (record { pos = 0; bytes = bs }) tt

  -- `setPkgData(sData)`
  unfoldable pub set_pkg_string : List ℕ → Package
  set_pkg_string bs = record { pos = 0; bytes = bs }

  -- `m_pkgData.size() - sizeof(PKG_HEAD) - m_iPos`, and the index that it counts from
  abbrev pub room : Package → ℕ
  room p = sub_size (sub_size (length p.bytes) head) p.pos

  abbrev pub cursor : Package → ℕ
  cursor p = add_size head p.pos

  abbrev pub advance : Package → ℕ → Package
  advance p n = record p { pos = add_size p.pos n }

  -- a read that has passed its check
  abbrev pub fetch : {A : Type 0} → Package → ℕ → (List ℕ → A) → Outcome A
  fetch p n f = elim (bytes_at p.bytes (cursor p) n) [
    | none ↦ fault
    | some bs ↦ ok (advance p n) (f bs)
  ]

  -- `>>` of a word of `n` bytes
  unfoldable pub get_word : ℕ → Package → Outcome ℕ
  get_word n p = if leb n (room p) then fetch p n be_value else throws no_enough_buf p

  -- `read(sBuf, iReadLen)`; a negative length passes the check, and the string refuses it.
  unfoldable pub read : Package → ℕ → Outcome (List ℕ)
  read p n =
      if le_signed n (int_of (room p))
      then (if ltb n (2 ^ 63) then fetch p n (λ bs. bs) else throws too_long p)
      else throws no_enough_buf p

  -- `read(pszBuf, iReadLen)`: after the same check, `memcpy` of so many bytes, of which a negative length is
  -- no less than 2^63. The buffer of the caller has room for them.
  unfoldable pub read_into : Package → ℕ → Outcome (List ℕ)
  read_into p n =
      if le_signed n (int_of (room p)) then fetch p n (λ bs. bs) else throws no_enough_buf p

  -- `readString(sData)`; it makes no check.
  unfoldable pub read_string : Package → Outcome (List ℕ)
  read_string p =
      let found = until_nul (drop (cursor p) p.bytes) in
      if ltb (length p.bytes) (cursor p) then fault else ok (advance p (length found + 1)) found

  -- `readString1`, `readString2` and `readString4`: a length of `n` bytes before the bytes
  unfoldable pub read_sized : ℕ → Package → Outcome (List ℕ)
  read_sized n p =
      if le_signed n (int_of (room p))
      then (fetch p n be_value >>= λ p' len. read p' (int_of len))
      else throws no_enough_buf p

  -- `isEnd(iReadNum)`
  unfoldable pub is_end : Package → ℕ → Bool
  is_end p n = not (leb (add_size (add_size p.pos head) n) (length p.bytes))

  -- `seek(iOffPos, pos)`
  unfoldable pub seek_beg : Package → ℕ → Package × Bool
  seek_beg p off =
      if le_signed 0 off && not (le_signed (int_of (sub_size (length p.bytes) head)) off)
      then (record p { pos = off }, true)
      else (p, false)

  unfoldable pub seek_cur : Package → ℕ → Package × Bool
  seek_cur p off =
      if not (le_signed (int_of (sub_size (length p.bytes) head)) off)
        && le_signed 0 (int_of (add_size p.pos off))
      then (record p { pos = int_of (add_size p.pos off) }, true)
      else (p, false)

  unfoldable pub seek_end : Package → ℕ → Package × Bool
  seek_end p off =
      if le_signed off 0 && not (le_signed (int_of (length p.bytes)) (sub_size 0 off))
      then (
        record p { pos = int_of (add_size (sub_size (int_of (length p.bytes)) head) off) },
        true,
      )
      else (p, false)

  -- `clearBody()`
  unfoldable pub clear_body : Package → Outcome (Unit {0})
  clear_body p =
      if ltb (length p.bytes) head
      then throws out_of_range (record p { pos = 0 })
      else ok (record { pos = 0; bytes = take head p.bytes }) tt

  -- `setPkgBody(pszBody, iBodyLen)`
  unfoldable pub set_pkg_body : Package → List ℕ → Outcome (Unit {0})
  set_pkg_body p body =
      if ltb (length p.bytes) head
      then throws out_of_range p
      else ok (record p { bytes = take head p.bytes ++ body }) tt

  -- `setPkgHead(pkgHead)` with the `head` bytes of `pkgHead`
  unfoldable pub set_pkg_head : Package → List ℕ → Outcome (Unit {0})
  set_pkg_head p new =
      if ltb (length p.bytes) head
      then fault
      else ok (record p { bytes = new ++ drop head p.bytes }) tt

  -- `getPkgBody()` with `getPkgBodyLen()`
  unfoldable pub body_len : Package → ℕ
  body_len p = int_of (sub_size (length p.bytes) head)
