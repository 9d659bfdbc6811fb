-- ===== src/Common.antt =====
-- What the passes share, passes/src/common.
pub mod LoopTripCount
mod Tests
