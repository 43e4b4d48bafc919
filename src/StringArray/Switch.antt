-- ===== src/StringArray/Switch.antt =====
-- src/string_array.c: `string_array_switch`.
use mirror_psrdada_code.Prelude.{ℕ, arith, ◌≡◌}
use mirror_psrdada_code.StringArray.{StringArray, switch}

-- `string_array_switch` does not exchange two strings: the first stays, the second is lost, and both
-- places have the first.
switch-first :
    (a : StringArray) (pos1 pos2 : ℕ)
    → ((switch a pos1 pos2).strs pos1 ≡ a.strs pos1)
      × ((switch a pos1 pos2).strs pos2 ≡ a.strs pos1)
unfolding switch
switch-first a pos1 pos2 = (ground arith, ground arith)
