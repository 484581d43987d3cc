-- ===== src/Breakpoints.antt =====
-- `BreakpointManager` of packages/mcu-debug/src/adapter/breakpoints.ts: the breakpoints that the
-- editor asks for, against those that gdb has. gdb is a parameter: what it does with a command and
-- what it answers.
pub mod Args
pub mod World
pub mod Settle
pub mod Requests
pub mod Counts
pub mod Tracking
pub mod Kinds
pub mod Kept
pub mod Armed
pub mod Responses
pub mod Hits
mod Tests
