-- ===== src/Lib.antt =====
-- PSRDADA hands blocks of telescope data from one process to others through a ring of blocks in
-- System V shared memory. This library models that ring and the streams on top of it.
--
-- The parts of the program and the files that model them:
--
--   src/ipcbuf.h, src/ipcbuf.c   The ring. `Sync` is `ipcsync_t` with the array `count`, `Handle` is
--                                `ipcbuf_t`, `World` is what one process acts on (Shared). The calls
--                                keep their names without the prefix `ipcbuf_`: the writer's in
--                                Ipcbuf/Writer, the readers' and viewers' in Ipcbuf/Reader, the calls
--                                that take and give up a role in Ipcbuf/Lock, creation in
--                                Ipcbuf/Create, both resets in Ipcbuf/Reset, what only reads the
--                                state in Ipcbuf/Query.
--   src/ipcutil.c                `ipc_semop` (Ipcutil), over semop(2). The operating system is the
--                                parameter `Kernel`, and `Lawful` lists what the manual page of
--                                semop(2) and semctl(2) says (Kernel). Machine has a kernel for
--                                which the laws are proved, with which the examples compute.
--   src/ipcio.h, src/ipcio.c     Streams. `Io` is `ipcio_t` (Ipcio). Block access is in Ipcio/Block,
--                                opening, starting, stopping and closing in Ipcio/Open, `ipcio_write`
--                                in Ipcio/Stream, `ipcio_read`, `ipcio_tell` and `ipcio_seek` in
--                                Ipcio/Input.
--
--   src/ascii_header.c           The text headers. AsciiHeader has find, set, get and del on lists of
--                                bytes, and the string functions of the C library that they use.
--   src/string_array.h, src/string_array.c
--                                Arrays of strings (StringArray).
--   src/dada_hdu.h, src/dada_hdu.c
--                                A ring of headers with a ring of data (Hdu). The calls are `hdu_lock_read`
--                                for `dada_hdu_lock_read` and so on.
--   src/dada_client.h, src/dada_client.c
--                                The loops between a ring and the functions of a client: `io_loop` in
--                                Client/Loop, `io_loop_block` in Client/BlockLoop, `transfer` in
--                                Client/Transfer, `client_read` (`dada_client_read`) in Client/Read and
--                                `client_write` in Client/Write. The client's functions are the parameter
--                                `Functions`.
--   src/dada_pwc.h, src/dada_pwc.c
--                                The primary write client as its two threads share it: states, commands
--                                and `set_state` in Pwc, the commands of the control port in Pwc/Request
--                                and Pwc/Header, the names in Pwc/Names. Pwc/Session runs any sequence of
--                                the calls of both threads.
--   src/dada_pwc_main.h, src/dada_pwc_main.c
--                                The main loop of that client. The client, the functions of its program,
--                                preparing, starting and stopping a transfer and what becomes of an error
--                                are in PwcMain; `record_start` in PwcMain/Recording, `process_xfer` in
--                                PwcMain/Xfer, `transfer_data` in PwcMain/Copy, `transfer_data_block` in
--                                PwcMain/Block, what both say in the same words in PwcMain/Course, and
--                                `dada_pwc_main` in PwcMain/Loop. PwcMain/Flow has the early returns. The
--                                functions of the client's program are parameters, which act on a state of
--                                their own. Both blocks are there, and a program has both functions of a
--                                transfer (`xfer_pending_function`, `new_xfer_function`) or neither.
--
-- A call takes the world of its process and returns an outcome with the new world (Process): `ok` with
-- a value, `fail` where the C function returns -1 or NULL, or `asleep` where it waits for another
-- process, in semop or in a polling loop. What ran before an error or a wait stays done. A call that
-- sleeps is not resumed in the model.
--
-- Ring puts the processes together. Its state has the shared data, the handle of the writer and one
-- handle for each reader. A step is one call that returns, by the writer or by a reader, in any order,
-- or a byte that the writer stores in a block it has open. `Reach` starts where the writer raises
-- start of data on an idle ring, and runs within one transfer: ending it and starting the next is
-- modelled for each process alone, not in the step relation. Each of the files under Ring keeps the
-- invariant `Running` over one kind of step, and Ring/Safety draws the conclusions.
--
-- Numbers are natural numbers with the wrap-around of the C type written out: 64 bits for the counts
-- and byte numbers, 8 bits for `count`, 32 bits for `bufs_opened` and the size of an array of strings,
-- and the conversion to `short` of an operand of semop. A process index of -1 is `none`. Arrays are
-- functions of the index.
--
-- Loops are structural recursion on the number of rounds. `reclaim`, the loop on a `char` counter, has
-- 256 rounds, since the counter is below 256 and goes down by one a round. `close_all` has one round
-- more than there are open blocks. `write_loop` has as many rounds as bytes, since every round writes a
-- byte. `read` takes the number of rounds as an argument: a block without bytes makes a round that
-- reads none, so that no number is enough for every ring.
--
-- The loops of a client and of `dada_hdu_open` take their number of rounds as an argument, and sleep when
-- it is used up. For a writing client one round more than there are bytes is enough; a client that reads, or
-- that has no number of bytes to transfer, may run for ever.
--
-- The loops of the primary write client run as long as the client does. They take a list with an element
-- for each round, the requests that reach the control port before it, and are still running, with the
-- variables that are returned, when the list is used up. A null pointer that is followed and an assertion
-- that fails end such a loop as a crash.
--
-- A mutex is not modelled by itself: what the code does while it holds one is one step. Times are `time_t`,
-- with their sign. `str2utctime` (src/tmutil.c) and the arithmetic in `double` are parameters of the
-- commands (`Environment`), for which every function is allowed.
--
-- Not modelled: allocating, attaching and removing segments, locking memory and clearing pages, device
-- memory, logging, and the order of single memory accesses within a call; the texts that report an error;
-- a failing malloc, creating and destroying the primary write client, the loop for several clients
-- (src/dada_pwc_main_multi.c), the server of the control port, the nexus, and the programs under apps.
pub mod Prelude
pub mod Shared
pub mod StringArray
pub mod Process
pub mod Kernel
pub mod Ipcutil
pub mod Machine
pub mod Ipcbuf
pub mod Ring
pub mod Ipcio
pub mod AsciiHeader
pub mod Pwc
pub mod Client
pub mod Hdu
pub mod PwcMain
