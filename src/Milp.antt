-- ===== src/Milp.antt =====
-- passes/src/milp: the mixed-integer program that places checkpoints.
pub mod Views
pub mod Order
pub mod Expr
pub mod Graph
pub mod Model
pub mod Region
pub mod Energy
pub mod Solve
mod Tests
