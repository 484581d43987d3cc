-- ===== src/Gdb.antt =====
-- Parts of GdbInstance (packages/mcu-debug/src/adapter/gdb-mi/gdb-instance.ts): the command queue, the
-- pending commands and the reading of gdb's output.
pub mod State
pub mod Books
pub mod Records
pub mod Utf8
pub mod Output
pub mod Run
pub mod Chunks
pub mod Tally
pub mod Valid
pub mod Moves
pub mod Stop
pub mod Safe
pub mod Close
mod Tests
