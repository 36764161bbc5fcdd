-- ===== src/ProcessGroup.antt =====
-- torch_mojo_backend/distributed/process_group.py, `MojoProcessGroup`: communicators, coalescing
-- blocks and collectives. The children hold the values and the state (Types), methods that raise
-- (Monad), what every collective is built from (Plumbing, Coalescing), and the collectives.
pub mod Types
pub mod Monad
pub mod Plumbing
pub mod Staging
pub mod Coalescing
pub mod Collectives
pub mod AllToAll
pub mod Rooted
pub mod Operations
pub mod Blocks
pub mod Chunks
