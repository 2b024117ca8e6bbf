-- ===== src/Scheduler.antt =====
-- crates/rllm-scheduler: the queue of waiting requests, and the steps that admit, run and preempt.
pub mod Policy
pub mod State
pub mod Contract
pub mod Invariant
pub mod Moves
pub mod Run
pub mod Admit
pub mod Step
pub mod KvManager
