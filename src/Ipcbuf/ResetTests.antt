-- ===== src/Ipcbuf/ResetTests.antt =====
-- The theorems about `ipcbuf_create_work` and `ipcbuf_reset` of src/ipcbuf.c for a ring of three blocks
-- of four bytes with two readers.
use mirror_psrdada_code.Prelude.{◌≡◌, refl, true, arith}
use mirror_psrdada_code.Shared.{World, discon, writer, viewer, write_sem, read_sem, of_reader}
use mirror_psrdada_code.Process.{ok}
use mirror_psrdada_code.Machine.{
  test_kernel, test_kernel-Lawful, fresh_sync, fresh_sems, writer_world,
}
use mirror_psrdada_code.Ipcbuf.Create.{create_work}
use mirror_psrdada_code.Ipcbuf.Create.Fresh.{create_work-fresh}
use mirror_psrdada_code.Ipcbuf.Reset.{reset}
use mirror_psrdada_code.Ipcbuf.Reset.Soft.{AllAcknowledged, reset-zero}

abbrev blank : World
blank = writer_world discon (record fresh_sync { w_buf_curr = 9; eod = λ x. true }) (λ s. 0)

create_work-fresh_example :
    let r = create_work true true 3 4 2 blank in
    let v = r.1.sems in
    ((r.0 ≡ ok tt) × (r.1.handle.state ≡ viewer))
    × ((v write_sem ≡ 1) × (v read_sem ≡ 2))
    × ((v (of_reader 1 0) ≡ 8) × (v (of_reader 1 1) ≡ 8))
    × (v (of_reader 1 4) ≡ 1)
    × ((v (of_reader 1 2) ≡ 0) × (v (of_reader 1 3) ≡ 0))
    × ((r.1.sync.w_buf_next ≡ 0) × (r.1.sync.w_buf_curr ≡ 0) × (r.1.sync.count 2 ≡ 0))
    × (r.1.sync.eod 7 ≡ true)
create_work-fresh_example =
    create_work-fresh test_kernel-Lawful 3 4 2 blank 1 2 7 (λ s. refl) (omega arith) (omega arith)
      (omega arith) (omega arith)

-- the writer after a transfer of two blocks that were taken back
abbrev over : World
over =
    writer_world writer (record fresh_sync { w_buf_curr = 2; w_buf_next = 2; w_xfer = 1 })
      fresh_sems

over-AllAcknowledged : AllAcknowledged 2 0 fresh_sems
over-AllAcknowledged j lo hi = ((omega arith, omega arith), (omega arith, omega arith))

reset-zero_example :
    let r = reset over in
    (r.0 ≡ ok tt)
    × ((r.1.sync.w_buf_curr ≡ 0) × (r.1.sync.w_buf_next ≡ 0) × (r.1.sync.w_xfer ≡ 0))
    × ((r.1.sync.r_bufs 1 ≡ 0) × (r.1.sync.r_xfers 1 ≡ 0))
    × (r.1.sync.eod 3 ≡ true)
    × (r.1.handle ≡ over.handle)
    × (r.1.sems (of_reader 1 0) ≡ fresh_sems (of_reader 1 0))
reset-zero_example =
    reset-zero test_kernel-Lawful over 1 3 (of_reader 1 0) refl (omega arith) (λ b below. refl)
      over-AllAcknowledged (omega arith) (omega arith)
