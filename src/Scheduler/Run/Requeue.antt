-- ===== src/Scheduler/Run/Requeue.antt =====
-- crates/rllm-scheduler/src/scheduler.rs, `preempt_request`: where a preempted request ends up.
use r_llm.Shared.{
  ℕ, some, [], ◌≡◌, refl, ◌≢◌, arith, In, NotIn, NotIn-without_self, lookup, lookup-insert,
}
use r_llm.Core.Status.{waiting}
use r_llm.Scheduler.Policy.Members.{ids, push-In}
use r_llm.Scheduler.State.{ManagerOps, SchedulerRequest, Scheduler, add_usize}
use r_llm.Scheduler.Contract.{Contract}
use r_llm.Scheduler.Invariant.{Inv}
use r_llm.Scheduler.Run.{requeue, preempt_request}
use r_llm.Scheduler.Run.Preempt.{released, requeue-Preempts}

abbrev pub restarted : SchedulerRequest → SchedulerRequest
restarted r = record r { num_computed_tokens = 0; cached_block_ids = []; status = waiting }

module _ {M : Type 0} {ops : ManagerOps M} {block_size : ℕ} (c : Contract ops block_size)
    (prompts drafts k : ℕ) where
  -- Over a manager that keeps the contract, the preemption of a tracked request in a scheduler in
  -- order does not panic and keeps the scheduler in order. The request does not run any more and
  -- waits, with no tokens computed, no cached blocks and the status `waiting`, and its table in
  -- the manager has no blocks. The number of preemptions is one more, modulo 2^64, and the
  -- records of the other requests stay.
  pub preempt_request-requeues :
      (s : Scheduler M) (id : ℕ) (r : SchedulerRequest)
      → Inv c prompts drafts k s
      → lookup id s.requests ≡ some r
      → (s' : Scheduler M) × (preempt_request ops s id ≡ some s')
        × Inv c prompts drafts k s'
        × (lookup id s'.requests ≡ some (restarted r))
        × NotIn id s'.running
        × In id (ids s'.waiting.entries)
        × (c.held (c.entry s'.kv_cache_manager id) ≡ 0)
        × (s'.total_preemptions ≡ add_usize s.total_preemptions 1)
        × ((j : ℕ) → id ≢ j → lookup j s'.requests ≡ lookup j s.requests)
  unfolding preempt_request requeue released
  preempt_request-requeues s id r h found =
      let (m', e, valid, others, ready, nothing) = c.release k s.kv_cache_manager id h.manager in
      let back = requeue-Preempts c prompts drafts k s h id m' valid others ready (some r) found in
      (
        requeue ops (released c prompts drafts k s h id m' valid others ready) id (some r),
        rw (e, found) refl,
        back.inv,
        ground (arith, lookup-insert id id (restarted r) s.requests),
        NotIn-without_self id s.running,
        push-In s.waiting id r.request.priority r.request.arrival_time,
        nothing,
        refl,
        λ j d. ground (arith, lookup-insert id j (restarted r) s.requests, d),
      )
