-- ===== src/Cache.antt =====
-- crates/rllm-cache: the KV cache's blocks, their free queue, the pool and the manager.
pub mod FreeQueue
pub mod BlockPool
pub mod Prefix
pub mod Manager
pub mod Offload
pub mod Spec
