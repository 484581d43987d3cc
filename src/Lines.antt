-- ===== src/Lines.antt =====
-- Cutting streams of text into lines: LineSplitter (packages/shared/src/line-splitter.ts) and LineBuffer
-- (packages/mcu-debug/src/common/utils.ts).
pub mod Cut
pub mod Splitter
pub mod Reader
pub mod Chunks
mod Tests
