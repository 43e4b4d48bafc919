-- ===== src/Shared.antt =====
-- src/ipcbuf.h and the state constants of src/ipcbuf.c: the data that ipcbuf keeps in shared
-- memory (`ipcsync_t` with the `count` array behind it), the handle of one process (`ipcbuf_t`),
-- and what a process sees of the machine.
use mirror_psrdada_code.Prelude.{ℕ, ◌==◌, ◌&&◌, ◌||◌, Bool, false, Option}

-- the process states IPCBUF_DISCON to IPCBUF_VSTOP
pub data State : Type 0 where
  discon viewer writer writing wchange reader reading rstop viewing vstop : State

-- the numbers that the macros stand for
abbrev pub code : State → ℕ
code discon = 0
code viewer = 1
code writer = 2
code writing = 3
code wchange = 4
code reader = 5
code reading = 6
code rstop = 7
code viewing = 8
code vstop = 9

infix 50 ◌is◌
abbrev pub ◌is◌ : State → State → Bool
a is b = code a == code b

-- IPCBUF_XFERS and IPCBUF_READERS
abbrev pub ipcbuf_xfers : ℕ
ipcbuf_xfers = 8

abbrev pub ipcbuf_readers : ℕ
ipcbuf_readers = 8

-- A semaphore: number `num` of the set `semid_connect`, or of the set `semid_data[iread]`.
pub data Sem : Type 0 where
  of_connect : (num : ℕ) → Sem
  of_reader : (iread num : ℕ) → Sem

abbrev pub sem_eq : Sem → Sem → Bool
sem_eq (of_connect a) (of_connect b) = a == b
sem_eq (of_reader i a) (of_reader j b) = i == j && a == b
sem_eq (of_connect a) (of_reader j b) = false
sem_eq (of_reader i a) (of_connect b) = false

-- IPCBUF_WRITE and IPCBUF_READ
abbrev pub write_sem : Sem
write_sem = of_connect 0

abbrev pub read_sem : Sem
read_sem = of_connect 1

-- IPCBUF_SODACK, IPCBUF_EODACK, IPCBUF_FULL, IPCBUF_CLEAR and IPCBUF_READER_CONN
abbrev pub ipcbuf_sodack : ℕ
ipcbuf_sodack = 0

abbrev pub ipcbuf_eodack : ℕ
ipcbuf_eodack = 1

abbrev pub ipcbuf_full : ℕ
ipcbuf_full = 2

abbrev pub ipcbuf_clear : ℕ
ipcbuf_clear = 3

abbrev pub ipcbuf_reader_conn : ℕ
ipcbuf_reader_conn = 4

-- the values of all semaphores
abbrev pub Sems : Type 0
Sems = Sem → ℕ

-- `ipcsync_t`, less the semaphore keys and the device. `count` is the array of `char` that
-- `ipcsync_get` places behind it.
pub record Sync : Type 0 where
  pub nbufs : ℕ
  pub bufsz : ℕ
  pub w_buf_next : ℕ
  pub w_buf_curr : ℕ
  pub w_state : State
  pub w_xfer : ℕ
  pub r_bufs : ℕ → ℕ
  pub r_states : ℕ → State
  pub r_xfers : ℕ → ℕ
  pub n_readers : ℕ
  pub s_buf : ℕ → ℕ
  pub s_byte : ℕ → ℕ
  pub eod : ℕ → Bool
  pub e_buf : ℕ → ℕ
  pub e_byte : ℕ → ℕ
  pub count : ℕ → ℕ

-- `ipcbuf_t`, less the identifiers and addresses of the attached segments. The `iread` of a process
-- that is no reader is -1, here `none`.
pub record Handle : Type 0 where
  pub state : State
  pub viewbuf : ℕ
  pub xfer : ℕ
  pub soclock_buf : ℕ
  pub iread : Option ℕ

-- What one process acts on: its handle, the shared memory, the semaphores, and the bytes of the
-- ring's blocks (`mem b o` is byte `o` of `buffer[b]`).
pub record World : Type 0 where
  pub handle : Handle
  pub sync : Sync
  pub sems : Sems
  pub mem : ℕ → ℕ → ℕ

-- `ipcbuf_is_writer`, `ipcbuf_is_reader`, `ipcbuf_is_writing`, `ipcbuf_is_wchange`, `ipcbuf_eod`,
-- `ipcbuf_sod`
abbrev pub is_writer : Handle → Bool
is_writer h = h.state is writer || (h.state is wchange || h.state is writing)

abbrev pub is_reader : Handle → Bool
is_reader h = h.state is reader || (h.state is reading || h.state is rstop)

abbrev pub is_writing : Handle → Bool
is_writing h = h.state is writing

abbrev pub is_wchange : Handle → Bool
is_wchange h = h.state is wchange

abbrev pub is_eod : Handle → Bool
is_eod h = h.state is rstop || h.state is vstop

abbrev pub is_sod : Handle → Bool
is_sod h = h.state is reading || h.state is writing
