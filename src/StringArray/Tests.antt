-- ===== src/StringArray/Tests.antt =====
-- src/string_array.c: small arrays.
use mirror_psrdada_code.Prelude.{◌≡◌, refl, some, arith}
use mirror_psrdada_code.AsciiHeader.{codes, strstr}
use mirror_psrdada_code.StringArray.{
  StringArray, empty_array, appended, move_up, move_down, insert_string, remove_string, entry,
  search_from, search_for, filter_from, filter_words,
}
use mirror_psrdada_code.StringArray.Places.{spliced, remove_string-insert_string}

abbrev letters : StringArray
letters = appended (appended (appended empty_array (codes "a")) (codes "b")) (codes "c")

remove_string-insert_string_example :
    (b : StringArray) × (c : StringArray) × (insert_string letters (codes "x") 1 ≡ some b)
    × (entry b 2 ≡ spliced letters (codes "x") 1 2)
    × (remove_string b 1 ≡ some c)
    × (entry c 2 ≡ entry letters 2)
remove_string-insert_string_example =
    remove_string-insert_string letters (codes "x") 1 2 (omega arith) (omega arith)

finds : search_for letters (codes "b") ≡ some (codes "b")
unfolding search_for search_from move_up
finds = refl

-- neither "b" nor "c" is in the filter, but the string behind one that is removed is not looked at
filter_skips :
    (entry (filter_words letters (codes "a")) 1 ≡ some (codes "c"))
    × ((filter_words letters (codes "a")).size ≡ 2)
unfolding filter_words filter_from move_up move_down remove_string strstr
filter_skips = (refl, refl)
