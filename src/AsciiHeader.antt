-- ===== src/AsciiHeader.antt =====
-- src/ascii_header.c: the lines of "KEYWORD value" in which a header is kept. A C string is the list of
-- its bytes, less the null at its end. The string functions of the C library are written out here. What
-- `vsnprintf` makes of the caller's values is an argument of `set`, and `get` returns the text that
-- `vsscanf` is given. The size of the memory behind a header is not known to these functions.
pub mod Text
pub mod Find
pub mod RoundTrip
pub mod Number
pub mod Proper
mod Tests
use Prim.Native.Char.{code}
use Prim.Native.String.{String}
use mirror_psrdada_code.Prelude.{
  ℕ, zero, suc, ◌+◌, ◌-◌, ◌*◌, ◌/◌, ◌%◌, ◌^◌, Bool, true, false, not, ◌&&◌, ◌||◌, ltb, leb, ◌==◌,
  if◌then◌else◌, List, [], ◌∷◌, ◌++◌, Option, none, some,
}

abbrev pub Bytes : Type 0
Bytes = List ℕ

-- the bytes of a literal, which is ASCII
abbrev pub codes : String → Bytes
codes String.[] = []
codes (String.◌∷◌ c s) = code c ∷ codes s

unfoldable pub length : Bytes → ℕ
length [] = 0
length (c ∷ s) = suc (length s)

abbrev pub drop : ℕ → Bytes → Bytes
drop zero s = s
drop (suc n) [] = []
drop (suc n) (c ∷ s) = drop n s

abbrev pub take : ℕ → Bytes → Bytes
take zero s = []
take (suc n) [] = []
take (suc n) (c ∷ s) = c ∷ take n s

-- `s[i]`, with the null at the end
abbrev pub byte : Bytes → ℕ → ℕ
byte [] i = 0
byte (c ∷ s) zero = c
byte (c ∷ s) (suc i) = byte s i

-- does `s` start with `k`?
abbrev pub starts : Bytes → Bytes → Bool
starts s [] = true
starts [] (x ∷ k) = false
starts (c ∷ s) (x ∷ k) = c == x && starts s k

-- strstr on the string `s` that is found at `at`: where `k` first occurs
unfoldable pub strstr : Bytes → ℕ → Bytes → Option ℕ
strstr [] at k = if starts [] k then some at else none
strstr (c ∷ s) at k = let rest = strstr s (suc at) k in if starts (c ∷ s) k then some at else rest

abbrev pub among : ℕ → Bytes → Bool
among c [] = false
among c (x ∷ set) = c == x || among c set

-- strcspn
unfoldable pub strcspn : Bytes → Bytes → ℕ
strcspn [] stops = 0
strcspn (c ∷ s) stops = let n = strcspn s stops in if among c stops then 0 else suc n

-- the condition under which the loop of `ascii_header_find` stops at `p`
abbrev pub at_line_start : Bytes → Bytes → ℕ → Bool
at_line_start header keyword p =
    (byte header (p - 1) == b'\n' || byte header (p - 1) == b'\\')
    && (byte header (p + length keyword) == b'\t' || byte header (p + length keyword) == b' ')

-- the loop of `ascii_header_find`, from an occurrence of the keyword
unfoldable pub find_loop : (fuel : ℕ) → Bytes → Bytes → Option ℕ → Option ℕ
unfolding strstr
find_loop fuel header keyword none = none
find_loop zero header keyword (some p) = none
find_loop (suc fuel) header keyword (some p) =
    let rest = find_loop fuel header keyword (strstr (drop (suc p) header) (suc p) keyword) in
    if p == 0 then some p else if at_line_start header keyword p then some p else rest

-- `ascii_header_find`, as the distance from `header`
unfoldable pub find : Bytes → Bytes → Option ℕ
unfolding find_loop strstr
find header keyword = find_loop (suc (length header)) header keyword (strstr header 0 keyword)

-- "%-Ns" of printf
abbrev pub spaces : ℕ → Bytes
spaces zero = []
spaces (suc n) = b' ' ∷ spaces n

abbrev pub pad : ℕ → Bytes → Bytes
pad width s = s ++ spaces (width - length s)

-- "%-12s %-20s   "
abbrev pub line : Bytes → Bytes → Bytes
line keyword value = pad 12 keyword ++ (b' ' ∷ (pad 20 value ++ spaces 3))

-- `ascii_header_set`, where the keyword is present
abbrev pub replace : Bytes → Bytes → Bytes → ℕ → Bytes
replace header keyword value p =
    take p header
    ++ (line keyword value ++ drop (strcspn (drop p header) (codes "#\n")) (drop p header))

-- where it is not
abbrev pub append : Bytes → Bytes → Bytes → Option ℕ → Bytes
append header keyword value (some p) = take p header ++ (line keyword value ++ drop p header)
append header keyword value none = header ++ (line keyword value ++ codes "\n")

abbrev pub set_at : Bytes → Bytes → Bytes → Option ℕ → Bytes
set_at header keyword value (some p) = replace header keyword value p
set_at header keyword value none = append header keyword value (strstr header 0 (codes "DATA\n"))

-- `ascii_header_set`
unfoldable pub set : Bytes → Bytes → Bytes → Bytes
unfolding find strstr strcspn
set header keyword value = set_at header keyword value (find header keyword)

abbrev pub value_at : Bytes → Option ℕ → Option Bytes
value_at header none = none
value_at header (some p) = some (drop (strcspn (drop p header) (codes " \t\n")) (drop p header))

-- `ascii_header_get`, up to the call of `vsscanf`; none where it returns -1
unfoldable pub get : Bytes → Bytes → Option Bytes
unfolding find strcspn
get header keyword = value_at header (find header keyword)

abbrev pub remove_at : Bytes → Option ℕ → Option Bytes
remove_at header none = none
remove_at header (some p) =
    some (take p header ++ drop (suc (strcspn (drop p header) (codes "\n"))) (drop p header))

-- `ascii_header_del`. On a last line without a newline the C code looks one byte behind the null.
unfoldable pub del : Bytes → Bytes → Option Bytes
unfolding find strcspn
del header keyword = remove_at header (find header keyword)

-- the first word of a text, as "%s" of scanf reads it
unfoldable pub word_from : Bytes → Bytes
word_from [] = []
word_from (c ∷ s) = let w = word_from s in if among c (codes " \t\n") then [] else c ∷ w

unfoldable pub scan_word : Bytes → Bytes
unfolding word_from
scan_word [] = []
scan_word (c ∷ s) = let w = scan_word s in if among c (codes " \t\n") then w else word_from (c ∷ s)

-- what a conversion of scanf comes to: the text ends before it, it does not match, or a value
pub data Scanned {ℓ} (A : Type ℓ) : Type ℓ where
  input_failure : Scanned A
  no_match : Scanned A
  value : A → Scanned A

abbrev pub is_digit : ℕ → Bool
is_digit c = leb b'0' c && leb c b'9'

-- the number that `s` starts with, on top of what was read before
unfoldable pub scan_digits : Bytes → ℕ → ℕ
scan_digits [] n = n
scan_digits (c ∷ s) n =
    let rest = scan_digits s (n * 10 + (c - b'0')) in if is_digit c then rest else n

abbrev pub signed : ℕ → Bytes → Bytes × Bool
signed c s = if c == b'-' then (s, true) else if c == b'+' then (s, false) else (c ∷ s, false)

abbrev pub number : (bits : ℕ) → Bytes → Bool → Scanned ℕ
number bits [] negative = no_match
number bits (c ∷ s) negative =
    let n = scan_digits (c ∷ s) 0 in
    if not (is_digit c)
    then no_match
    else value (if negative then (2 ^ bits - n % 2 ^ bits) % 2 ^ bits else n % 2 ^ bits)

-- "%d" and "%lu" of scanf into a variable of `bits` bits, by its bit pattern. On a number that does not
-- fit, C leaves the result open; here it wraps.
unfoldable pub scan_number : (bits : ℕ) → Bytes → Scanned ℕ
unfolding scan_digits
scan_number bits [] = input_failure
scan_number bits (c ∷ s) =
    let rest = scan_number bits s in
    if among c (codes " \t\n") then rest else number bits (signed c s).0 (signed c s).1

-- "%lu" of printf, for a number of at most `fuel` digits
unfoldable pub digits : (fuel : ℕ) → ℕ → Bytes → Bytes
digits zero n out = out
digits (suc fuel) n out =
    let c = b'0' + n % 10 in
    let more = digits fuel (n / 10) (c ∷ out) in if ltb n 10 then c ∷ out else more

unfoldable pub print_u64 : ℕ → Bytes
unfolding digits
print_u64 n = digits 20 n []
