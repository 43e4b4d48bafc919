-- ===== src/Ipcbuf.antt =====
-- src/ipcbuf.c: the ring buffer in shared memory. One module for the calls of the writer, one for
-- those that take and give back a role, one for readers and viewers, one for creation, one for both
-- resets and one for what only reads the state.
pub mod Writer
pub mod EachReader
pub mod Lock
pub mod Reader
pub mod Create
pub mod Reset
pub mod Query
mod Tests
mod ResetTests
