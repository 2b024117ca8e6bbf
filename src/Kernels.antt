-- ===== src/Kernels.antt =====
-- The backend-independent attention code of crates/rllm-kernels.
pub mod Metadata
pub mod Batch
