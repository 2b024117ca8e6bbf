-- ===== src/Sampling.antt =====
-- crates/rllm-sampling: proposals for speculative decoding.
pub mod Speculative
