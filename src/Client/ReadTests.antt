-- ===== src/Client/ReadTests.antt =====
-- src/dada_client.c: a client that reads headers from a small ring.
use mirror_psrdada_code.Prelude.{ℕ, ◌≡◌, refl, true, arith}
use mirror_psrdada_code.AsciiHeader.{
  codes, length, find, find_loop, strstr, strcspn, get, set, digits, print_u64,
}
use mirror_psrdada_code.Client.{Client, Functions, own}
use mirror_psrdada_code.Client.Ending.{Quitting, deliver-Quitting}
use mirror_psrdada_code.Client.Offset.{key, offset_of-with_offset}
use mirror_psrdada_code.Client.Read.{header_text, offset_of, with_offset, deliver}
use mirror_psrdada_code.Client.Tests.{file, reading_client}
use mirror_psrdada_code.Hdu.{text_of, with_text}
use mirror_psrdada_code.Machine.{test_kernel}
use mirror_psrdada_code.Process.{asleep}

-- a client whose open function quits
abbrev quitter : Functions ℕ
quitter = record file { open_function = λ c. (true, record c { quit = true }) }

quitter-Quitting : Quitting quitter
quitter-Quitting = record { opens = λ c. refl; quits = λ c. refl; leaves = λ c. refl }

deliver-Quitting_example : (deliver quitter 4 1 1 9 5 reading_client).0 ≡ asleep
deliver-Quitting_example = deliver-Quitting quitter 4 1 1 9 5 reading_client quitter-Quitting refl

-- a client with a header of its own
abbrev with_header : Client ℕ
with_header = record reading_client {
  header = own (with_text (codes "OBS_OFFSET 5\n") 0 (λ o. 0));
  header_size = 64;
}

offset_of-with_offset_example : offset_of (get (header_text (with_offset 72 with_header)) key) ≡ 72
unfolding find find_loop strstr strcspn length set text_of print_u64 digits
offset_of-with_offset_example =
    offset_of-with_offset 72 0 (with_text (codes "OBS_OFFSET 5\n") 0 (λ o. 0)) with_header refl refl
      (omega arith) (omega arith)
