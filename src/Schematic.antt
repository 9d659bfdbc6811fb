-- ===== src/Schematic.antt =====
-- The SCHEMATIC passes, passes/src/schematic.
pub mod Types
pub mod Rcg
pub mod Entries
pub mod Allocator
pub mod Choose
pub mod Extend
pub mod Config
mod Tests
