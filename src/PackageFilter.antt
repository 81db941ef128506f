-- ===== src/PackageFilter.antt =====
-- The package filters of include/CPackageFilter.h: does the received data begin with a whole package?
-- `CH2T3PackageFilter` and `CH2ShortT3PackageFilter` have the same code for a length of four and of
-- two bytes; `CRawPackageFilter` takes what there is. The bytes stand from `pszData` on; `size` is
-- `iDataSize`.
pub mod Framing
use lce.Prelude.{
  ℕ, ◌+◌, ◌-◌, ◌^◌, Bool, not, ◌&&◌, ◌||◌, List, Option, none, some, ltb, leb, ◌==◌, if◌then◌else◌,
}
use lce.Prelude.Memory.{Memory, load}
use lce.Prelude.Words.{be_value}

abbrev pub head_mark : ℕ
head_mark = 0x02

abbrev pub tail_mark : ℕ
tail_mark = 0x03

-- the results 0, -1 and -2
pub data Code : Type 0 where
  whole incomplete invalid : Code

-- The result, and what is written to `iRealPkgLen` and `iPkgLen`, if anything is. `pkg_len` is the
-- pattern of an `int`.
pub record Verdict : Type 0 where
  pub code : Code
  pub real_pkg_len : Option ℕ
  pub pkg_len : Option ℕ

abbrev untouched : Code → Verdict
untouched c = record { code = c; real_pkg_len = none; pkg_len = none }

-- the comparisons of a pattern of 32 bits, as an `int`, with a natural number
abbrev pub at_most : ℕ → ℕ → Bool
at_most w n = leb (2 ^ 31) w || leb w n

abbrev pub at_least : ℕ → ℕ → Bool
at_least w n = ltb w (2 ^ 31) && leb n w

-- `isWholePkg` for a length of `width` bytes, after the head mark. The marks and the length make
-- up `width + 2` bytes.
unfoldable pub is_whole_marked : ℕ → Memory ℕ → ℕ → Verdict
is_whole_marked width m size =
    if size == 0
    then untouched incomplete
    else (if leb size (width + 1)
        then (if not (m 0 == head_mark) then untouched invalid else untouched incomplete)
        else (if not (m 0 == head_mark)
            then untouched invalid
            else (let len = be_value (load m 1 width) in
                if at_most len size && at_least len (width + 2)
                then (if m (len - 1) == tail_mark
                    then record {
                      code = whole;
                      real_pkg_len = some (len - (width + 2));
                      pkg_len = some len;
                    }
                    else record { code = invalid; real_pkg_len = none; pkg_len = some len })
                else record {
                  code =
                      if not (m 0 == head_mark) || not (at_least len (width + 2))
                      then invalid
                      else incomplete;
                  real_pkg_len = none;
                  pkg_len = some len;
                })))

abbrev pub is_whole_h2_t3 : Memory ℕ → ℕ → Verdict
is_whole_h2_t3 = is_whole_marked 4

abbrev pub is_whole_h2_short_t3 : Memory ℕ → ℕ → Verdict
is_whole_h2_short_t3 = is_whole_marked 2

unfoldable pub is_whole_raw : Memory ℕ → ℕ → Verdict
is_whole_raw m size =
    if size == 0
    then untouched incomplete
    else record { code = whole; real_pkg_len = some size; pkg_len = some size }

-- `getRealPkgData`: the index of the payload
abbrev pub real_data : ℕ → ℕ
real_data width = width + 1
