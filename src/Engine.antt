-- ===== src/Engine.antt =====
-- crates/rllm-engine: the queue in front of the scheduler.
pub mod BatchQueue
