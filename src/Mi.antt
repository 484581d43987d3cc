-- ===== src/Mi.antt =====
-- The GDB/MI output parser, packages/mcu-debug/src/adapter/gdb-mi/mi-parser.ts. Its functions
-- take a line and a position in it; here they take the text from that position on, and a
-- position past the end is the empty text.
pub mod Chars
pub mod Keys
pub mod Parser
pub mod Record
pub mod Fuel
pub mod Unique
pub mod Print
pub mod Consts
pub mod RoundTrip
pub mod Lines
pub mod Answers
mod Tests
