-- ===== src/AsciiHeader/Tests.antt =====
-- src/ascii_header.c on small headers.
use mirror_psrdada_code.Prelude.{◌≡◌, refl, [], ◌∷◌, some}
use mirror_psrdada_code.AsciiHeader.{
  Bytes, codes, length, find, find_loop, strstr, strcspn, set, get, del, scan_word,
}
use mirror_psrdada_code.AsciiHeader.Find.{First, find-First}
use mirror_psrdada_code.AsciiHeader.RoundTrip.{get-set}

-- two lines, of which the first mentions the keyword of the second
abbrev small : Bytes
small = codes "SIZE 1\nXRA 3\nRA 05:00\n"

find-small : find small (codes "RA") ≡ some 13
unfolding find find_loop strstr length
find-small = refl

set-small :
    set small (codes "RA") (codes "7")
    ≡ codes "SIZE 1\nXRA 3\nRA           7                      \n"
unfolding set find find_loop strstr strcspn length
set-small = refl

del-small : del small (codes "XRA") ≡ some (codes "SIZE 1\nRA 05:00\n")
unfolding del find find_loop strstr strcspn length
del-small = refl

-- A line that is put in front of DATA has no newline of its own.
set-before_data :
    set (codes "RA 1\nDATA\n") (codes "NBIT") (codes "8")
    ≡ codes "RA 1\nNBIT         8                      DATA\n"
unfolding set find find_loop strstr strcspn length
set-before_data = refl

find-First_example : First small (codes "RA") (find small (codes "RA"))
find-First_example = find-First small b'R' (b'A' ∷ [])

get-set_example :
    (t : Bytes) × (get (set small (codes "RA") (codes "7")) (codes "RA") ≡ some t)
    × (scan_word t ≡ codes "7")
get-set_example = get-set small b'R' (b'A' ∷ []) b'7' [] 13 find-small refl refl
