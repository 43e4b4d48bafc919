-- ===== src/Client/Ending.antt =====
-- src/dada_client.c: how the loop of `dada_client_read` ends.
use mirror_psrdada_code.Prelude.{
  ℕ, zero, suc, ◌≡◌, refl, ◌∙◌, inl, inr, Bool, true, false, Bool-cases, ℤ, pos, negsuc, add64,
}
use mirror_psrdada_code.AsciiHeader.{codes, set, print_u64}
use mirror_psrdada_code.Client.{Memory, Client, Functions, Header, own, in_block}
use mirror_psrdada_code.Client.Read.{
  header_memory, with_memory, header_text, with_offset, moved_on, deliver,
}
use mirror_psrdada_code.Hdu.{with_text}
use mirror_psrdada_code.Client.Transfer.{transfer}
use mirror_psrdada_code.Kernel.{Kernel}
use mirror_psrdada_code.Process.{Outcome, ok, fail, asleep, Call, continue}
use mirror_psrdada_code.Shared.{is_eod}

abbrev pub at_end : {C : Type 0} → Client C → Bool
at_end c = is_eod c.data_block.world.handle

-- an open function that sets the flag on which the client quits, and leaves the data alone
pub record Quitting {C : Type 0} (f : Functions C) : Type 0 where
  pub opens : (c : Client C) → (f.open_function c).0 ≡ true
  pub quits : (c : Client C) → (f.open_function c).1.quit ≡ true
  pub leaves : (c : Client C) → at_end (f.open_function c).1 ≡ at_end c

at_end-with_memory :
    {C : Type 0} (m : Memory) (h : Header) (c : Client C) → at_end (with_memory m h c) ≡ at_end c
at_end-with_memory m (own old) c = refl
at_end-with_memory m (in_block b) c = refl

-- what a loop does after a transfer
moved_on-at_end :
    {C : Type 0} (r : Outcome ℤ) (d : Client C) (again : ℕ → Call (Client C) (Unit {0}))
    → ((m : ℕ) → (c : Client C) → (again m c).0 ≡ ok tt → at_end (again m c).1 ≡ true)
    → (continue r d (moved_on again)).0 ≡ ok tt
    → at_end (continue r d (moved_on again)).1 ≡ true
moved_on-at_end (ok (pos n)) d again ih e = ih n d e
moved_on-at_end (ok (negsuc n)) d again ih e = absurd cc
moved_on-at_end fail d again ih e = absurd cc
moved_on-at_end asleep d again ih e = absurd cc

module _ {C : Type 0} ⦃k : Kernel⦄ (f : Functions C) (default_size loops rounds : ℕ) where
  at_end-with_offset : (o : ℕ) (c : Client C) → at_end (with_offset o c) ≡ at_end c
  unfolding with_offset
  at_end-with_offset o c =
      at_end-with_memory
        (with_text (set (header_text c) (codes "OBS_OFFSET") (print_u64 o)) 0
          (header_memory c c.header))
        c.header c

  transfer-Quitting :
      Quitting f
      → (c : Client C)
      → transfer f default_size loops rounds c ≡ (ok (pos 0), (f.open_function c).1)
  unfolding transfer
  transfer-Quitting q c = rw (q.opens c, q.quits c) refl

  -- A client that reads and quits when a transfer is opened, before the end of the data, never returns:
  -- the loop tests for the end of the data only, which does not come as no data are read.
  pub deliver-Quitting :
      (fuel o : ℕ) (c : Client C)
      → Quitting f
      → at_end c ≡ false
      → (deliver f default_size loops rounds fuel o c).0 ≡ asleep
  unfolding deliver
  deliver-Quitting zero o c q going = refl
  deliver-Quitting (suc fuel) o c q going =
      let d = with_offset o c in
      let same : (at_end (f.open_function d).1 ≡ false) =
        q.leaves d ∙ at_end-with_offset o c ∙ going in
      rw (going, transfer-Quitting q d)
        (deliver-Quitting fuel (add64 o 0) (f.open_function d).1 q same)

  -- The transfers of `dada_client_read` succeed only where the end of the data has been reached.
  pub deliver-at_end :
      (fuel o : ℕ) (c : Client C)
      → (deliver f default_size loops rounds fuel o c).0 ≡ ok tt
      → at_end (deliver f default_size loops rounds fuel o c).1 ≡ true
  unfolding deliver
  deliver-at_end zero o c e = absurd cc
  deliver-at_end (suc fuel) o c e = elim (Bool-cases (at_end c)) [
    | inl done ↦ rw done done
    | inr going ↦
        let r = transfer f default_size loops rounds (with_offset o c) in
        let again : (ℕ → Call (Client C) (Unit {0})) =
          λ m. deliver f default_size loops rounds fuel (add64 o m) in
        let rest : ((continue r.0 r.1 (moved_on again)).0 ≡ ok tt) = rw going at e in
        rw going (moved_on-at_end r.0 r.1 again (λ m d. deliver-at_end fuel (add64 o m) d) rest)
  ]
