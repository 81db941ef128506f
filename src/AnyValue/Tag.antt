-- ===== src/AnyValue/Tag.antt =====
-- `DType::ValueType` of include/CAnyValue.h: the byte in front of every encoded value.
use lce.Prelude.{ℕ}

abbrev pub integer1 : ℕ
integer1 = 0

abbrev pub integer2 : ℕ
integer2 = 1

abbrev pub integer4 : ℕ
integer4 = 2

abbrev pub integer8 : ℕ
integer8 = 3

abbrev pub string1 : ℕ
string1 = 4

abbrev pub string2 : ℕ
string2 = 5

abbrev pub string4 : ℕ
string4 = 6

abbrev pub vector : ℕ
vector = 7

abbrev pub map : ℕ
map = 8

abbrev pub ext : ℕ
ext = 9

abbrev pub float : ℕ
float = 10

abbrev pub boolean : ℕ
boolean = 11

abbrev pub null : ℕ
null = 12

abbrev pub sinteger1 : ℕ
sinteger1 = 13

abbrev pub sinteger2 : ℕ
sinteger2 = 14

abbrev pub sinteger4 : ℕ
sinteger4 = 15

abbrev pub sinteger8 : ℕ
sinteger8 = 16
