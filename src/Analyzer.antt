-- ===== src/Analyzer.antt =====
-- The block energy analyzer, passes/bb-energy-analyzer.
pub mod EnergyModel
mod Tests
