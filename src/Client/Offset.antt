-- ===== src/Client/Offset.antt =====
-- src/dada_client.c: the place of a transfer in the observation, which `dada_client_read` puts into the
-- header of each.
use mirror_psrdada_code.Prelude.{ℕ, ◌^◌, ◌<◌, ◌≡◌, refl, some, true, []}
use mirror_psrdada_code.AsciiHeader.{
  Bytes, codes, length, find, set, get, print_u64, value, scan_number, digits,
}
use mirror_psrdada_code.AsciiHeader.Number.{digits-all_digits, get-set_u64}
use mirror_psrdada_code.AsciiHeader.Proper.{proper, proper-set, all_digits-proper}
use mirror_psrdada_code.Client.{Memory, Client, own}
use mirror_psrdada_code.Client.Read.{header_text, offset_of, with_offset}
use mirror_psrdada_code.Hdu.{text_of}
use mirror_psrdada_code.Hdu.Text.{proper-text_of, text_of-with_text}

abbrev pub key : Bytes
key = codes "OBS_OFFSET"

proper-print_u64 : (n : ℕ) → proper (print_u64 n) ≡ true
unfolding print_u64
proper-print_u64 n = all_digits-proper (digits 20 n []) (digits-all_digits 20 n [] refl)

pub header_text-with_offset :
    {C : Type 0} (o p : ℕ) (m : Memory) (c : Client C)
    → c.header ≡ own m
    → find (header_text c) key ≡ some p
    → length (set (header_text c) key (print_u64 o)) < c.header_size
    → header_text (with_offset o c) ≡ set (header_text c) key (print_u64 o)
unfolding with_offset
header_text-with_offset o p m c at found room =
    let text = text_of c.header_size m 0 in
    let here : (find text key ≡ some p) = rw at at found in
    let fits : (length (set text key (print_u64 o)) < c.header_size) = rw at at room in
    rw at (
      text_of-with_text (set text key (print_u64 o)) c.header_size m
        (proper-set text key (print_u64 o) here (proper-text_of c.header_size m 0) refl
          (proper-print_u64 o))
        fits)

offset_of-value : (t : Bytes) (n : ℕ) → scan_number 64 t ≡ value n → offset_of (some t) ≡ n
offset_of-value t n e = rw (offset_of, e) refl

-- The header of a client that has a line with OBS_OFFSET, and room for the new value: the offset that
-- `dada_client_read` writes there before a transfer is the offset that is read from it.
pub offset_of-with_offset :
    {C : Type 0} (o p : ℕ) (m : Memory) (c : Client C)
    → c.header ≡ own m
    → find (header_text c) key ≡ some p
    → length (set (header_text c) key (print_u64 o)) < c.header_size
    → o < 2 ^ 64
    → offset_of (get (header_text (with_offset o c)) key) ≡ o
offset_of-with_offset o p m c at found room lt =
    let (t, got, read) = get-set_u64 (header_text c) b'O' (codes "BS_OFFSET") o p found refl lt in
    rw (header_text-with_offset o p m c at found room, got) (offset_of-value t o read)
