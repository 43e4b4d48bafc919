-- ===== src/Ipcbuf/Lock/Exclusive.antt =====
-- src/ipcbuf.c: the writer's lock.
use mirror_psrdada_code.Prelude.{◌%◌, ◌≡◌, refl, true, pos, negsuc, arith}
use mirror_psrdada_code.Shared.{
  Sem, of_connect, of_reader, Handle, World, viewer, discon, write_sem, ipcbuf_xfers, is_writer,
}
use mirror_psrdada_code.Process.{ok, asleep}
use mirror_psrdada_code.Kernel.{Kernel, Lawful, sem_undo, assign}
use mirror_psrdada_code.Ipcbuf.EachReader.{semop_or_fail-fits, semop_or_fail-waits}
use mirror_psrdada_code.Ipcbuf.Lock.{write_state, lock_write, unlock_write}

-- the world after the writer's lock was taken
abbrev locked : World → World
locked w = record w {
  handle = record w.handle {
    state = write_state w.sync.w_state;
    xfer = w.sync.w_xfer % ipcbuf_xfers;
  };
  sync = record w.sync { w_state = write_state w.sync.w_state };
  sems = assign w.sems write_sem 0;
}

module _ ⦃k : Kernel⦄ (law : Lawful k) (w : World) where
  lock_write-locked :
      w.handle.state ≡ viewer → w.sems write_sem ≡ 1 → lock_write w ≡ (ok tt, locked w)
  unfolding lock_write
  lock_write-locked st one = ground (arith, semop_or_fail-fits law write_sem (negsuc 0) sem_undo w)

  lock_write-asleep : w.handle.state ≡ viewer → w.sems write_sem ≡ 0 → (lock_write w).0 ≡ asleep
  unfolding lock_write
  lock_write-asleep st none_left = ground (arith, semop_or_fail-waits law write_sem 0 sem_undo w)

  unlock_write-frees :
      is_writer w.handle ≡ true
      → w.sems write_sem ≡ 0
      → unlock_write w ≡ (
        ok tt,
        record w {
          handle = record w.handle { state = viewer };
          sync = record w.sync { w_state = discon };
          sems = assign w.sems write_sem 1;
        },
      )
  unfolding unlock_write
  unlock_write-frees st none_left =
      ground (arith, semop_or_fail-fits law write_sem (pos 1) sem_undo w)

-- A ring has one writer: on a ring whose WRITE semaphore is 1, the process that locks it becomes
-- the writer, and any other connected process that then asks for the lock sleeps.
pub lock_write-exclusive :
    ⦃k : Kernel⦄ (law : Lawful k) (w : World) (other : Handle)
    → w.handle.state ≡ viewer
    → other.state ≡ viewer
    → w.sems write_sem ≡ 1
    → ((lock_write w).0 ≡ ok tt)
      × (is_writer (lock_write w).1.handle ≡ true)
      × ((lock_write (record (lock_write w).1 { handle = other })).0 ≡ asleep)
lock_write-exclusive law w other st st' one =
    rw (lock_write-locked law w st one)
      (refl, ground arith, lock_write-asleep law (record (locked w) { handle = other }) st' refl)

-- The writer that unlocks gives the lock back: every semaphore has the value it had before the lock
-- was taken, the process is a viewer again, and the ring has no writer.
unlock_write-lock_write :
    ⦃k : Kernel⦄ (law : Lawful k) (w : World) (t : Sem)
    → w.handle.state ≡ viewer
    → w.sems write_sem ≡ 1
    → let w' = (unlock_write (lock_write w).1) in
      (w'.0 ≡ ok tt)
      × (w'.1.sems t ≡ w.sems t)
      × (w'.1.handle.state ≡ viewer)
      × (w'.1.sync.w_state ≡ discon)
unlock_write-lock_write law w t st one =
    rw (lock_write-locked law w st one, unlock_write-frees law (locked w) (ground arith) refl)
      (refl, same t, refl, refl)
  where
    same : (t : Sem) → assign (locked w).sems write_sem 1 t ≡ w.sems t
    same (of_connect num) = ground arith
    same (of_reader i num) = refl
