-- ===== src/Examples/Packages.antt =====
-- A package of a 4-byte head at work, and the theorems of `CPackage` at concrete inputs.
use lce.Prelude.{◌-◌, ◌^◌, ◌≡◌, refl, inr, List, [], ◌∷◌, true, arith}
use lce.Package.{
  Package, ok, fault, blank, write_bytes, write_word, write_pos, put_word, get_word, seek_cur,
}
use lce.Prelude.Words.{be_bytes}
use lce.Package.Left.{Left}
use lce.Package.Items.{
  Item, word, text, Fits, shapes, put_items, get_items, write_pos-write_word, get_items-put_items,
}
use lce.Package.Safe.{
  Request, want_word, want_bytes, want_into, want_text, perform_all, Within, perform_all-Within,
}
use lce.Package.Seek.{get_word-seek_cur}

-- a new package
abbrev empty_package : Package
empty_package = record { pos = 0; bytes = 0 ∷ 0 ∷ 0 ∷ 0 ∷ [] }

blank_is : blank 4 ≡ empty_package
unfolding blank
blank_is = refl

empty_package-Left : Left 4 empty_package []
empty_package-Left = record { small = omega arith; inside = omega arith; behind = refl }

-- a word of 2 bytes, and three bytes behind their length
abbrev some_items : List Item
some_items = word 2 258 ∷ text 1 (7 ∷ 0 ∷ 9 ∷ []) ∷ []

some_items-Fits : Fits some_items
some_items-Fits = (omega arith, (omega arith, omega arith, tt))

some_bytes : (put_items empty_package some_items).bytes ≡ 0 ∷ 0 ∷ 0 ∷ 0 ∷ 1 ∷ 2 ∷ 3 ∷ 7 ∷ 0 ∷ 9 ∷ []
unfolding put_items put_word write_bytes be_bytes
some_bytes = refl

get_items-put_items_example :
    (q : Package) × (get_items 4 (put_items empty_package some_items) (shapes some_items)
      ≡ ok q some_items)
    × Left 4 q []
unfolding put_items put_word write_bytes be_bytes
get_items-put_items_example =
    get_items-put_items 4 {p = empty_package} some_items empty_package-Left some_items-Fits
      (omega arith)

write_pos-write_word_example :
    write_pos 4
      (write_bytes (write_word 4 empty_package 0).0 (5 ∷ 6 ∷ []))
      77
      (write_word 4 empty_package 0).1
    ≡ ok (write_bytes (write_word 4 empty_package 77).0 (5 ∷ 6 ∷ [])) tt
write_pos-write_word_example = write_pos-write_word 4 empty_package 0 77 (5 ∷ 6 ∷ [])

-- a body of a length and two bytes
abbrev filled_package : Package
filled_package = record { pos = 0; bytes = 0 ∷ 0 ∷ 0 ∷ 0 ∷ 2 ∷ 8 ∷ 9 ∷ [] }

filled_package-Left : Left 4 filled_package (2 ∷ 8 ∷ 9 ∷ [])
filled_package-Left = record { small = omega arith; inside = omega arith; behind = refl }

abbrev some_requests : List Request
some_requests = want_text 1 ∷ want_word 4 ∷ want_bytes (2 ^ 64 - 1) ∷ want_into 3 ∷ []

perform_all-Within_example : Within 4 filled_package (perform_all 4 filled_package some_requests)
perform_all-Within_example =
    perform_all-Within {head = 4} {p = filled_package} some_requests (2 ∷ 8 ∷ 9 ∷ [])
      filled_package-Left (omega arith, (inr (omega arith, omega arith), (omega arith, tt)))

abbrev read_package : Package
read_package = record { pos = 3; bytes = 0 ∷ 0 ∷ 0 ∷ 0 ∷ 2 ∷ 8 ∷ 9 ∷ [] }

get_word-seek_cur_example :
    ((seek_cur 4 read_package 2).1 ≡ true) × (get_word 4 2 (seek_cur 4 read_package 2).0 ≡ fault)
get_word-seek_cur_example =
    get_word-seek_cur 4 read_package 2 2 (omega arith) (omega arith) (omega arith) (omega arith)
      (omega arith) (omega arith) (omega arith)
