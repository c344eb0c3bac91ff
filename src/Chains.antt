-- ===== src/Chains.antt =====
-- The chain runtime (pkg/gateway/chains).
pub mod Model
pub mod Access
pub mod Defaults
pub mod Replay
pub mod MemoryStore
pub mod Manager
pub mod ClientTools
pub mod Branch
pub mod Execution
