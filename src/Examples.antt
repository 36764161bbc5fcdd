-- ===== src/Examples.antt =====
-- Runs of the models at concrete inputs.
pub mod Groups
pub mod Dumps
pub mod Reports
pub mod Graphs
pub mod Tensors
pub mod Builds
mod Lives
