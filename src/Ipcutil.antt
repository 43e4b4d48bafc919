-- ===== src/Ipcutil.antt =====
-- src/ipcutil.c: `ipc_semop`.
use mirror_psrdada_code.Prelude.{ℤ}
use mirror_psrdada_code.Shared.{Sem, World}
use mirror_psrdada_code.Process.{Outcome, ok, fail, asleep, M}
use mirror_psrdada_code.Kernel.{Kernel, Reply, done, again, error, waits, Flags}

-- the return values of `ipc_semop`, the -1 with what `errno` holds
pub data Status : Type 0 where
  success eagain minus_one : Status

abbrev pub status_of : Reply → World → Outcome Status × World
status_of done w = (ok success, w)
status_of again w = (ok eagain, w)
status_of error w = (ok minus_one, w)
status_of waits w = (asleep, w)

-- `if (status < 0) return -1;`
abbrev pub checked : Reply → World → Outcome (Unit {0}) × World
checked done w = (ok tt, w)
checked again w = (fail, w)
checked error w = (fail, w)
checked waits w = (asleep, w)

module _ ⦃k : Kernel⦄ where
  abbrev pub ipc_semop : Sem → ℤ → Flags → M Status
  ipc_semop s op f w = let (r, v) = k.semop s op f w.sems in status_of r (record w { sems = v })

  -- `if (ipc_semop (…) < 0) return -1;`
  abbrev pub semop_or_fail : Sem → ℤ → Flags → M (Unit {0})
  semop_or_fail s op f w = let (r, v) = k.semop s op f w.sems in checked r (record w { sems = v })
