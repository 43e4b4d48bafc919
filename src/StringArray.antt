-- ===== src/StringArray.antt =====
-- src/string_array.h, src/string_array.c: an array of strings that grows and shrinks. `strs` is the
-- array, of which the first `size` places are in use, a 32-bit number; each holds a copy of a string. A
-- failing malloc is not modelled, nor are the places that hold the same pointer after
-- `string_array_switch`.
pub mod Places
mod Switch
mod Tests
use mirror_psrdada_code.Prelude.{
  ℕ, zero, suc, ◌+◌, ◌-◌, ◌%◌, ◌^◌, Bool, true, false, not, ◌&&◌, ◌||◌, ltb, leb, ◌==◌,
  if◌then◌else◌, List, [], ◌∷◌, update, Option, none, some,
}
use mirror_psrdada_code.AsciiHeader.{Bytes, codes, among, strstr}

pub record StringArray : Type 0 where
  pub strs : ℕ → Bytes
  pub size : ℕ

-- `string_array_create`
abbrev pub empty_array : StringArray
empty_array = record { strs = λ i. []; size = 0 }

-- `string_array_get`
abbrev pub entry : StringArray → (pos : ℕ) → Option Bytes
entry a pos = if ltb pos a.size then some (a.strs pos) else none

-- `for (val = n; val > pos; val--) strs[val] = strs[val-1];`
unfoldable pub move_up : (n pos : ℕ) → (ℕ → Bytes) → ℕ → Bytes
move_up zero pos strs = strs
move_up (suc val) pos strs =
    let moved = move_up val pos (update strs (suc val) (strs val)) in
    if ltb pos (suc val) then moved else strs

-- `string_array_insert`, none where it returns -1
unfoldable pub insert_string : StringArray → Bytes → (pos : ℕ) → Option StringArray
unfolding move_up
insert_string a text pos =
    if ltb a.size pos
    then none
    else some (record {
      strs = update (move_up a.size pos a.strs) pos text;
      size = (a.size + 1) % 2 ^ 32;
    })

-- `string_array_append`
abbrev pub appended : StringArray → Bytes → StringArray
appended a text = record {
  strs = update (move_up a.size a.size a.strs) a.size text;
  size = (a.size + 1) % 2 ^ 32;
}

-- `for (val = pos; val < size; val++) strs[val] = strs[val+1];`, in `n` rounds
unfoldable pub move_down : (n pos : ℕ) → (ℕ → Bytes) → ℕ → Bytes
move_down zero val strs = strs
move_down (suc n) val strs = move_down n (suc val) (update strs val (strs (suc val)))

-- `string_array_remove`, none where it returns -1
unfoldable pub remove_string : StringArray → (pos : ℕ) → Option StringArray
unfolding move_down
remove_string a pos =
    if a.size == 0
    then none
    else if leb a.size pos
    then none
    else some (record { strs = move_down (a.size - 1 - pos) pos a.strs; size = a.size - 1 })

-- `string_array_switch`
unfoldable pub switch : StringArray → (pos1 pos2 : ℕ) → StringArray
switch a pos1 pos2 =
    let temp = a.strs pos1 in
    record a { strs = update (update a.strs pos2 (a.strs pos1)) pos1 temp }

-- strcmp
abbrev pub same : Bytes → Bytes → Bool
same [] [] = true
same (c ∷ s) (d ∷ t) = c == d && same s t
same _ _ = false

-- the loop of `string_array_search`, in `n` rounds from place `i` on
unfoldable pub search_from : (n i : ℕ) → StringArray → Bytes → Option Bytes
search_from zero i a match = none
search_from (suc n) i a match =
    let rest = search_from n (suc i) a match in
    if same (a.strs i) match then some (a.strs i) else rest

unfoldable pub search_for : StringArray → Bytes → Option Bytes
unfolding search_from
search_for a match = search_from a.size 0 a match

abbrev pub or_same : StringArray → Option StringArray → StringArray
or_same a none = a
or_same a (some b) = b

abbrev pub found : {A : Type 0} → Option A → Bool
found none = false
found (some x) = true

-- the loop of `string_array_filter`; one round for each string at first is enough, since the size only
-- goes down
unfoldable pub filter_from : (fuel istr : ℕ) → (filter : Bytes) → StringArray → StringArray
unfolding remove_string strstr
filter_from zero istr filter a = a
filter_from (suc fuel) istr filter a =
    let b =
      (if found (strstr filter 0 (a.strs istr)) then a else or_same a (remove_string a istr)) in
    let rest = filter_from fuel (suc istr) filter b in if ltb istr a.size then rest else a

unfoldable pub filter_words : StringArray → (filter : Bytes) → StringArray
unfolding filter_from
filter_words a filter = filter_from a.size 0 filter a
