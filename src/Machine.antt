-- ===== src/Machine.antt =====
-- A concrete kernel and concrete worlds for the tests.
use mirror_psrdada_code.Prelude.{
  ℕ, zero, suc, ◌+◌, ◌-◌, true, leb, ◌==◌, if◌then◌else◌, ℤ, pos, negsuc, arith, none, some,
}
use mirror_psrdada_code.Shared.{
  Sem, Sems, Sync, Handle, World, State, wchange, reader, of_connect, of_reader,
}
use mirror_psrdada_code.Kernel.{
  Kernel, Lawful, Reply, done, again, error, waits, Flags, semvmx, assign,
}

-- one semaphore operation on a value
abbrev blocked : Flags → Sems → Reply × Sems
blocked f v = if f.nowait then (again, v) else (waits, v)

abbrev pub test_semop : Sem → ℤ → Flags → Sems → Reply × Sems
test_semop s (pos zero) f v = if v s == 0 then (done, assign v s 0) else blocked f v
test_semop s (pos (suc n)) f v =
    if leb (v s + suc n) semvmx then (done, assign v s (v s + suc n)) else (error, v)
test_semop s (negsuc n) f v =
    if leb (suc n) (v s) then (done, assign v s (v s - suc n)) else blocked f v

abbrev pub test_setval : Sem → ℕ → Sems → Reply × Sems
test_setval s n v = if leb n semvmx then (done, assign v s n) else (error, v)

instance abbrev pub test_kernel : Kernel
test_kernel = record { semop = test_semop; setval = test_setval }

pub test_kernel-Lawful : Lawful test_kernel
test_kernel-Lawful = record {
  raise = λ s n f v h. ground arith;
  raise_over = λ s n f v h. ground arith;
  lower = λ s n f v h. ground arith;
  lower_wait = λ s n f v h b. ground arith;
  lower_nowait = λ s n f v h b. ground arith;
  zero_done = λ s f v h. ground arith;
  zero_wait = λ s f v h b. ground arith;
  zero_nowait = λ s f v h b. ground arith;
  set_value = λ s n v h. ground arith;
}

-- the semaphores of a ring with two readers that wait, as `ipcbuf_create` leaves them, less the
-- locks that the writer and the readers took
abbrev pub fresh_sems : Sems
fresh_sems (of_connect num) = 0
fresh_sems (of_reader i zero) = 8
fresh_sems (of_reader i (suc zero)) = 8
fresh_sems (of_reader i (suc (suc n))) = 0

-- three blocks of four bytes, two readers
abbrev pub fresh_sync : Sync
fresh_sync = record {
  nbufs = 3;
  bufsz = 4;
  w_buf_next = 0;
  w_buf_curr = 0;
  w_state = wchange;
  w_xfer = 0;
  r_bufs = λ i. 0;
  r_states = λ i. reader;
  r_xfers = λ i. 0;
  n_readers = 2;
  s_buf = λ x. 0;
  s_byte = λ x. 0;
  eod = λ x. true;
  e_buf = λ x. 0;
  e_byte = λ x. 0;
  count = λ b. 0;
}

abbrev pub writer_handle : State → Handle
writer_handle st = record { state = st; viewbuf = 0; xfer = 0; soclock_buf = 0; iread = none }

abbrev pub reader_handle : State → ℕ → Handle
reader_handle st i = record { state = st; viewbuf = 0; xfer = 0; soclock_buf = 0; iread = some i }

abbrev pub writer_world : State → Sync → Sems → World
writer_world st s v = record { handle = writer_handle st; sync = s; sems = v; mem = λ b o. 0 }

abbrev pub reader_world : State → ℕ → Sync → Sems → World
reader_world st i s v = record { handle = reader_handle st i; sync = s; sems = v; mem = λ b o. 0 }
