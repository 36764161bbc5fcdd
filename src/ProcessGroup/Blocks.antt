-- ===== src/ProcessGroup/Blocks.antt =====
-- How NCCL groups and coalescing blocks open and close, for every method of `MojoProcessGroup`.
-- The children have what the plumbing keeps, what the collectives keep, and every history of calls.
pub mod Level
pub mod Staged
pub mod Grouped
pub mod Methods
pub mod Exchanges
pub mod History
pub mod Calls
