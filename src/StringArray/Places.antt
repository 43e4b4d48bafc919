-- ===== src/StringArray/Places.antt =====
-- src/string_array.c: where the strings are after one is put in or taken out.
use mirror_psrdada_code.Prelude.{
  ℕ, zero, suc, ◌+◌, ◌-◌, ◌%◌, ◌^◌, ◌<◌, ◌≤◌, ◌≡◌, refl, ap, ◌∙◌, true, false, ltb, leb, ◌==◌,
  if◌then◌else◌, update, update_self, update_ne, Option, some, Bool-cases, inl, inr, arith,
}
use mirror_psrdada_code.AsciiHeader.{Bytes}
use mirror_psrdada_code.StringArray.{
  StringArray, move_up, move_down, insert_string, remove_string, entry,
}

move_up-above : (n pos : ℕ) (f : ℕ → Bytes) (i : ℕ) → n < i → move_up n pos f i ≡ f i
unfolding move_up
move_up-above zero pos f i lt = refl
move_up-above (suc v) pos f i lt = elim (Bool-cases (ltb pos (suc v))) [
  | inl on ↦ rw on (
      move_up-above v pos (update f (suc v) (f v)) i (omega (arith, lt))
      ∙ update_ne f (suc v) i (f v) (omega (arith, lt)))
  | inr off ↦ rw off refl
]

move_up-below : (n pos : ℕ) (f : ℕ → Bytes) (i : ℕ) → i ≤ pos → move_up n pos f i ≡ f i
unfolding move_up
move_up-below zero pos f i le = refl
move_up-below (suc v) pos f i le = elim (Bool-cases (ltb pos (suc v))) [
  | inl on ↦
      let further : (pos < suc v) = ground arith in
      rw on (
        move_up-below v pos (update f (suc v) (f v)) i le
        ∙ update_ne f (suc v) i (f v) (omega (arith, le, further)))
  | inr off ↦ rw off refl
]

move_up-between :
    (n pos : ℕ) (f : ℕ → Bytes) (i : ℕ) → pos ≤ i → i < n → move_up n pos f (suc i) ≡ f i
unfolding move_up
move_up-between zero pos f i le lt = absurd (omega (arith, lt))
move_up-between (suc v) pos f i le lt =
    let on : (ltb pos (suc v) ≡ true) = ground arith in
    let g = update f (suc v) (f v) in
    elim (Bool-cases (i == v)) [
      | inl last ↦
          let here : (i ≡ v) = ground arith in
          rw (on, here) (move_up-above v pos g (suc v) (omega arith) ∙ update_self f (suc v) (f v))
      | inr before ↦
          let less : (i < v) = ground arith in
          rw on
            (move_up-between v pos g i le less ∙ update_ne f (suc v) i (f v) (omega (arith, less)))
    ]

move_down-below : (n pos : ℕ) (f : ℕ → Bytes) (i : ℕ) → i < pos → move_down n pos f i ≡ f i
unfolding move_down
move_down-below zero pos f i lt = refl
move_down-below (suc n) pos f i lt =
    move_down-below n (suc pos) (update f pos (f (suc pos))) i (omega (arith, lt))
    ∙ update_ne f pos i (f (suc pos)) (omega (arith, lt))

move_down-between :
    (n pos : ℕ) (f : ℕ → Bytes) (i : ℕ) → pos ≤ i → i < pos + n → move_down n pos f i ≡ f (suc i)
unfolding move_down
move_down-between zero pos f i le lt = absurd (omega (arith, lt, le))
move_down-between (suc n) pos f i le lt =
    let g = update f pos (f (suc pos)) in
    elim (Bool-cases (i == pos)) [
      | inl first ↦
          let here : (i ≡ pos) = ground arith in
          rw here
            (move_down-below n (suc pos) g pos (omega arith) ∙ update_self f pos (f (suc pos)))
      | inr later ↦
          let more : (pos < i) = ground arith in
          move_down-between n (suc pos) g i (omega (arith, more)) (omega (arith, lt))
          ∙ update_ne f pos (suc i) (f (suc pos)) (omega (arith, more))
    ]

-- The array after `string_array_insert` at a place that is not behind its end: the strings before that
-- place stay, the string is there, and the others are one place further on.
pub record Inserted (a : StringArray) (text : Bytes) (pos : ℕ) (b : StringArray) : Type 0 where
  pub grown : b.size ≡ suc a.size
  pub kept : (i : ℕ) → i < pos → b.strs i ≡ a.strs i
  pub placed : b.strs pos ≡ text
  pub moved : (i : ℕ) → pos ≤ i → i < a.size → b.strs (suc i) ≡ a.strs i

insert_string-Inserted :
    (a : StringArray) (text : Bytes) (pos : ℕ)
    → pos ≤ a.size
    → a.size + 1 < 2 ^ 32
    → (b : StringArray) × (insert_string a text pos ≡ some b) × Inserted a text pos b
unfolding insert_string
insert_string-Inserted a text pos le word =
    let inside : (ltb a.size pos ≡ false) = ground arith in
    let strs = move_up a.size pos a.strs in
    (
      record { strs = update strs pos text; size = (a.size + 1) % 2 ^ 32 },
      rw inside refl,
      record {
        grown = omega arith;
        kept = λ i lt.
            update_ne strs pos i text (omega (arith, lt))
            ∙ move_up-below a.size pos a.strs i (omega (arith, lt));
        placed = update_self strs pos text;
        moved = λ i from to.
            update_ne strs pos (suc i) text (omega (arith, from))
            ∙ move_up-between a.size pos a.strs i from to;
      },
    )

-- the array after the string at a place in use was taken out
remove_string-strs :
    (b : StringArray) (pos : ℕ)
    → pos < b.size
    → remove_string b pos
      ≡ some (record { strs = move_down (b.size - 1 - pos) pos b.strs; size = b.size - 1 })
unfolding remove_string
remove_string-strs b pos lt =
    let used : ((b.size == 0) ≡ false) = ground arith in
    let inside : (leb b.size pos ≡ false) = ground arith in rw (used, inside) refl

-- the strings of an array after one is put in at a place
abbrev pub spliced : StringArray → Bytes → (pos i : ℕ) → Option Bytes
spliced a text pos i =
    if ltb i pos then entry a i else if i == pos then some text else entry a (i - 1)

entry-Inserted :
    {a b : StringArray} {text : Bytes} {pos : ℕ}
    → Inserted a text pos b
    → pos ≤ a.size
    → (i : ℕ) → entry b i ≡ spliced a text pos i
entry-Inserted {a} {b} {text} {pos} at le i =
    let grown = at.grown in
    elim (Bool-cases (ltb i pos)) [
      | inl front ↦
          let less : (i < pos) = ground arith in
          let old : (ltb i a.size ≡ true) = ground arith in
          let new : (ltb i b.size ≡ true) = ground arith in
          rw (new, front, old, at.kept i less) refl
      | inr back ↦ elim (Bool-cases (i == pos)) [
        | inl at_pos ↦
            let here : (i ≡ pos) = ground arith in
            let new : (ltb i b.size ≡ true) = ground arith in
            rw (back, at_pos, new, ap b.strs here ∙ at.placed) refl
        | inr other ↦
            let from : (pos ≤ i - 1) = ground arith in
            let next : (i ≡ suc (i - 1)) = ground arith in
            elim (Bool-cases (ltb (i - 1) a.size)) [
              | inl used ↦
                  let new : (ltb i b.size ≡ true) = ground arith in
                  let lt : (i - 1 < a.size) = ground arith in
                  rw (back, other, new, used, ap b.strs next ∙ at.moved (i - 1) from lt) refl
              | inr unused ↦
                  let new : (ltb i b.size ≡ false) = ground arith in
                  rw (back, other, new, unused) refl
            ]
      ]
    ]

entry-removed :
    {a b : StringArray} {text : Bytes} {pos : ℕ}
    → Inserted a text pos b
    → pos ≤ a.size
    → (i : ℕ)
    → entry (record { strs = move_down (b.size - 1 - pos) pos b.strs; size = b.size - 1 }) i
      ≡ entry a i
entry-removed {a} {b} {text} {pos} at le i =
    let n = b.size - 1 - pos in
    let same : (b.size - 1 ≡ a.size) = omega (arith, at.grown) in
    elim (Bool-cases (ltb i a.size)) [
      | inr behind ↦ rw (same, behind) refl
      | inl used ↦
          let lt : (i < a.size) = ground arith in
          let there : (move_down n pos b.strs i ≡ a.strs i) = elim (Bool-cases (ltb i pos)) [
            | inl front ↦
                let less : (i < pos) = ground arith in
                move_down-below n pos b.strs i less ∙ at.kept i less
            | inr back ↦
                let from : (pos ≤ i) = ground arith in
                move_down-between n pos b.strs i from (omega (arith, from, lt, at.grown))
                ∙ at.moved i from lt
          ] in
          let within : (ltb i (b.size - 1) ≡ true) = rw same used in rw (within, used, there) refl
    ]

-- While the number of strings fits in 32 bits: a string that `string_array_insert` puts at a place up to
-- the end is there, those before it stay and
-- those behind it move on; `string_array_remove` at that place then gives the array back.
pub remove_string-insert_string :
    (a : StringArray) (text : Bytes) (pos i : ℕ)
    → pos ≤ a.size
    → a.size + 1 < 2 ^ 32
    → (b : StringArray) × (c : StringArray) × (insert_string a text pos ≡ some b)
      × (entry b i ≡ spliced a text pos i)
      × (remove_string b pos ≡ some c)
      × (entry c i ≡ entry a i)
remove_string-insert_string a text pos i le word =
    let (b, done, at) = insert_string-Inserted a text pos le word in
    (
      b,
      record { strs = move_down (b.size - 1 - pos) pos b.strs; size = b.size - 1 },
      done,
      entry-Inserted at le i,
      remove_string-strs b pos (omega (arith, le, at.grown)),
      entry-removed at le i,
    )
