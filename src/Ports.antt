-- ===== src/Ports.antt =====
-- The search for free ports (packages/shared/src/find-free-ports.ts).
pub mod Scan
pub mod Sockets
pub mod Claims
pub mod Search
pub mod Scanner
pub mod Given
mod Tests
