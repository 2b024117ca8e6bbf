-- ===== src/Scheduler/Step/Requests.antt =====
-- crates/rllm-scheduler/src/scheduler.rs: `with_kv_cache_manager`, `add_request` and
-- `abort_request`.
use r_llm.Shared.{
  ℕ, ◌≤◌, Bool, none, some, [], ◌≡◌, refl, sym, ◌≢◌, inl, inr, arith, NotIn, NotIn-In, In-dec,
  length, NotIn-without_self, lookup, lookup-insert, lookup-delete, delete, without, subst,
  ℕ_discrete,
}
use r_llm.Core.Status.{waiting}
use r_llm.Scheduler.Policy
use r_llm.Scheduler.Policy.Members.{ids, push-NotIn, push-Distinct, NotIn-remove_self}
use r_llm.Scheduler.State.{
  ManagerOps, InferenceRequest, SchedulerRequest, SchedulerConfig, Scheduler, with_kv_cache_manager,
}
use r_llm.Scheduler.Contract.{Contract}
use r_llm.Scheduler.Run.{draft_tokens}
use r_llm.Scheduler.Invariant.{Inv, IsBounded}
use r_llm.Scheduler.Step.{or_default, add_request, abort_request}
use r_llm.Scheduler.Step.Finish.{left, left-Inv}

module _ {M : Type 0} {ops : ManagerOps M} {block_size : ℕ} (c : Contract ops block_size)
    (prompts drafts k : ℕ) where
  -- A new scheduler over a manager in order that holds no blocks for any request.
  pub with_kv_cache_manager-Inv :
      (config : SchedulerConfig) (max_model_len : ℕ) (enable : Bool) (m : M)
      → c.Valid k m
      → ((i : ℕ) → c.Ready (c.entry m i))
      → Inv c prompts drafts k (with_kv_cache_manager config block_size max_model_len enable m)
  unfolding with_kv_cache_manager Policy.new lookup
  with_kv_cache_manager-Inv config max_model_len enable m valid ready = record {
    manager = valid;
    size = refl;
    queue = tt;
    apart = λ i g. absurd g;
    ready = λ i n. ready i;
    covered = λ i r g e. elim g [ inl g' ↦ absurd g' | inr g' ↦ absurd g' ];
    bounded = λ i r e. absurd (ground (arith, e));
  }

  -- Over a manager that keeps the contract, a request that does not run, with at most `prompts`
  -- tokens and `drafts` drafts, may be added to a scheduler in order at any time, also when it
  -- waits already: the scheduler stays in order.
  pub add_request-Inv :
      (s : Scheduler M) (q : InferenceRequest)
      → Inv c prompts drafts k s
      → NotIn q.request_id s.running
      → length (or_default q.token_ids) ≤ prompts
      → draft_tokens q.speculative_decoding ≤ drafts
      → Inv c prompts drafts k (add_request ops s q)
  unfolding add_request
  add_request-Inv s q h out few_tokens few_drafts =
      let id = q.request_id in
      let r' : SchedulerRequest = record {
        request = q;
        prompt_token_ids = or_default q.token_ids;
        num_computed_tokens = 0;
        cached_block_ids = [];
        status = waiting;
      } in
      record {
        manager = h.manager;
        size = h.size;
        queue = push-Distinct s.waiting id q.priority q.arrival_time h.queue;
        apart = λ i g.
            push-NotIn s.waiting id q.priority q.arrival_time i
              (λ e. NotIn-In id i s.running out g (sym e)) (h.apart i g);
        ready = h.ready;
        covered = λ i r g e. elim (ℕ_discrete id i) [
          | yes p ↦
              let zero_now : r.num_computed_tokens ≡ 0 =
                ground (arith, lookup-insert id i r' s.requests, e, p) in
              omega (arith, zero_now)
          | no d ↦
              let old : lookup i s.requests ≡ some r =
                ground (arith, lookup-insert id i r' s.requests, e, d) in
              elim g [
                | inl run ↦ h.covered i r (inl run) old
                | inr wait ↦ elim (In-dec i (ids s.waiting.entries)) [
                  | inl before ↦ h.covered i r (inr before) old
                  | inr away ↦ absurd (
                      NotIn-In i i _
                        (push-NotIn s.waiting id q.priority q.arrival_time i (λ p. d (sym p)) away)
                        wait refl)
                ]
              ]
        ];
        bounded = λ i r e. elim (ℕ_discrete id i) [
          | yes p ↦
              let same : r' ≡ r = ground (arith, lookup-insert id i r' s.requests, e, p) in
              subst (IsBounded prompts drafts) same (few_tokens, few_drafts)
          | no d ↦ h.bounded i r (ground (arith, lookup-insert id i r' s.requests, e, d))
        ];
      }

  -- Over a manager that keeps the contract, an abort in a scheduler in order does not panic and
  -- keeps the scheduler in order. The request is not tracked any more, and neither runs nor
  -- waits; the records of the other requests stay.
  pub abort_request-Inv :
      (s : Scheduler M) (id : ℕ)
      → Inv c prompts drafts k s
      → (s' : Scheduler M) × (abort_request ops s id ≡ some s')
        × Inv c prompts drafts k s'
        × (lookup id s'.requests ≡ none)
        × NotIn id s'.running
        × NotIn id (ids s'.waiting.entries)
        × ((j : ℕ) → id ≢ j → lookup j s'.requests ≡ lookup j s.requests)
  unfolding abort_request left Policy.remove
  abort_request-Inv s id h =
      let (m', e, valid, others, ready, _) = c.release k s.kv_cache_manager id h.manager in
      let table = delete id s.requests in
      let gone : lookup id table ≡ none = ground (arith, lookup-delete id id s.requests) in
      let kept : (i : ℕ) (r : SchedulerRequest)
          → lookup i table ≡ some r
          → lookup i s.requests ≡ some r =
        λ i r f. ground (arith, lookup-delete id i s.requests, f) in
      let fin = without id s.finished in
      (
        left c prompts drafts k s h id m' valid others ready table kept fin,
        rw e refl,
        left-Inv c prompts drafts k s h id m' valid others ready table kept fin,
        gone,
        NotIn-without_self id s.running,
        NotIn-remove_self id s.waiting.entries h.queue,
        λ j d. ground (arith, lookup-delete id j s.requests, d),
      )
