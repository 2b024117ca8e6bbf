-- ===== src/Core.antt =====
-- crates/rllm-core: what a request asks for, and its life cycle.
pub mod Status
pub mod Params
