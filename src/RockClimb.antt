-- ===== src/RockClimb.antt =====
-- The parts of passes/rockclimb-backend: the machine code, the liveness of registers, the partition
-- of a function into regions.
pub mod Machine
pub mod Liveness
pub mod Partition
pub mod Optimizer
pub mod Distributed
pub mod Config
mod Tests
