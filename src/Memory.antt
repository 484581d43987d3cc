-- ===== src/Memory.antt =====
-- Reading and writing the target's memory (packages/mcu-debug/src/adapter/memory.ts).
pub mod Numbers
pub mod Requests
pub mod Reads
pub mod Bounds
pub mod Words
mod Tests
