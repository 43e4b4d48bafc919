-- ===== src/Kernel.antt =====
-- The System V semaphores that src/ipcutil.c calls. The operating system is not part of the
-- repository: its semop(2) is the parameter `Kernel`, and `Lawful` is what its manual page
-- promises for semaphore sets that exist and that no other process changes during the call.
use mirror_psrdada_code.Prelude.{
  ℕ, suc, ◌+◌, ◌-◌, ◌≤◌, ◌<◌, ◌≡◌, Bool, true, false, if◌then◌else◌, ℤ, pos, negsuc,
}
use mirror_psrdada_code.Shared.{Sem, sem_eq, Sems}

-- what semop returns: 0, -1 with EAGAIN, -1 with another error, or nothing yet
pub data Reply : Type 0 where
  done again error waits : Reply

-- `sem_flg`: IPC_NOWAIT and SEM_UNDO
pub record Flags : Type 0 where
  pub nowait : Bool
  pub undo : Bool

abbrev pub no_flags : Flags
no_flags = record { nowait = false; undo = false }

abbrev pub sem_undo : Flags
sem_undo = record { nowait = false; undo = true }

abbrev pub nowait_undo : Flags
nowait_undo = record { nowait = true; undo = true }

pub record Kernel : Type 0 where
  pub semop : Sem → ℤ → Flags → Sems → Reply × Sems
  -- semctl (SETVAL)
  pub setval : Sem → ℕ → Sems → Reply × Sems

-- the largest value of a semaphore
abbrev pub semvmx : ℕ
semvmx = 32767

-- the values after one semaphore is set
abbrev pub assign : Sems → Sem → ℕ → Sems
assign v s n t = if sem_eq s t then n else v t

pub record Lawful (k : Kernel) : Type 0 where
  pub raise :
      (s : Sem) (n : ℕ) (f : Flags) (v : Sems)
      → v s + suc n ≤ semvmx
      → k.semop s (pos (suc n)) f v ≡ (done, assign v s (v s + suc n))
  pub raise_over :
      (s : Sem) (n : ℕ) (f : Flags) (v : Sems)
      → semvmx < v s + suc n
      → k.semop s (pos (suc n)) f v ≡ (error, v)
  pub lower :
      (s : Sem) (n : ℕ) (f : Flags) (v : Sems)
      → suc n ≤ v s
      → k.semop s (negsuc n) f v ≡ (done, assign v s (v s - suc n))
  pub lower_wait :
      (s : Sem) (n : ℕ) (f : Flags) (v : Sems)
      → v s < suc n
      → f.nowait ≡ false
      → k.semop s (negsuc n) f v ≡ (waits, v)
  pub lower_nowait :
      (s : Sem) (n : ℕ) (f : Flags) (v : Sems)
      → v s < suc n
      → f.nowait ≡ true
      → k.semop s (negsuc n) f v ≡ (again, v)
  -- a `sem_op` of 0 waits for the value 0
  pub zero_done :
      (s : Sem) (f : Flags) (v : Sems) → v s ≡ 0 → k.semop s (pos 0) f v ≡ (done, assign v s 0)
  pub zero_wait :
      (s : Sem) (f : Flags) (v : Sems)
      → 0 < v s
      → f.nowait ≡ false
      → k.semop s (pos 0) f v ≡ (waits, v)
  pub zero_nowait :
      (s : Sem) (f : Flags) (v : Sems)
      → 0 < v s
      → f.nowait ≡ true
      → k.semop s (pos 0) f v ≡ (again, v)
  pub set_value : (s : Sem) (n : ℕ) (v : Sems) → n ≤ semvmx → k.setval s n v ≡ (done, assign v s n)
