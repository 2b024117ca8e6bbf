-- ===== src/Scheduler/Run.antt =====
-- crates/rllm-scheduler/src/scheduler.rs: `schedule_running` and `preempt_request`.
pub mod Decode
pub mod Preempt
pub mod Outcome
pub mod Requeue
use r_llm.Shared.{
  ℕ, zero, suc, ◌+◌, ◌-◌, ◌≤◌, Bool, true, false, not, ◌&&◌, Option, none, some, List, [], ◌∷◌,
  ◌++◌, ◌==◌, ltb, leb, if◌then◌else◌, ◌>>=◌, Map, lookup, insert, without, div_ceil,
}
use r_llm.Core.Status.{waiting, finished_length}
use r_llm.Core.Params.{SpeculativeDecodingConfig}
use r_llm.Scheduler.Policy
use r_llm.Scheduler.State.{ManagerOps, SchedulerRequest, Scheduler, SchedulerOutput, add_usize}

-- `spec_k`: the draft tokens of a request that are decoded with the next one.
unfoldable pub draft_tokens : Option SpeculativeDecodingConfig → ℕ
draft_tokens none = 0
draft_tokens (some c) =
    if c.enabled && ltb 0 c.num_speculative_tokens then c.num_speculative_tokens else 0

unfoldable pub tokens_to_decode : SchedulerRequest → ℕ
unfolding draft_tokens
tokens_to_decode r = add_usize 1 (draft_tokens r.request.speculative_decoding)

-- `if let Some(blocks) = … { output.block_tables.insert(id, blocks) }`
unfoldable pub copy_table : Option (List ℕ) → ℕ → Map (List ℕ) → Map (List ℕ)
copy_table none id tables = tables
copy_table (some blocks) id tables = insert id blocks tables

module _ {M : Type 0} (ops : ManagerOps M) where
  -- What the loop over the running requests changes.
  pub record RunLoop : Type 0 where
    pub scheduler : Scheduler M
    pub output : SchedulerOutput
    pub budget_used : ℕ
    pub total_decode : ℕ
    pub to_preempt : List ℕ

  -- The end of a round: the request has its blocks, in the manager `m`.
  unfoldable pub decode : RunLoop → ℕ → SchedulerRequest → ℕ → M → RunLoop
  unfolding copy_table
  decode l id r tokens m =
      let s = l.scheduler in
      let r' : SchedulerRequest = record r {
        num_computed_tokens = add_usize r.num_computed_tokens tokens;
      } in
      record l {
        scheduler = record s { requests = insert id r' s.requests; kv_cache_manager = m };
        output = record l.output {
          scheduled_running = l.output.scheduled_running ++ id ∷ [];
          num_scheduled_tokens = insert id tokens l.output.num_scheduled_tokens;
          block_tables = copy_table (ops.get_block_ids m id) id l.output.block_tables;
        };
        budget_used = add_usize l.budget_used tokens;
        total_decode = add_usize l.total_decode tokens;
      }

  -- The request needs blocks: they are allocated, or the request is to be preempted.
  unfoldable pub grow_and_decode : RunLoop → ℕ → SchedulerRequest → ℕ → Option RunLoop
  unfolding decode
  grow_and_decode l id r tokens = do
    let s = l.scheduler
    let total = add_usize r.num_computed_tokens tokens
    (granted, m) ← ops.allocate_slots s.kv_cache_manager id total r.num_computed_tokens
    some (
        if granted then decode l id r tokens m else record l {
          scheduler = record s { kv_cache_manager = m };
          to_preempt = l.to_preempt ++ id ∷ [];
        })

  -- One round for a request that is tracked.
  unfoldable pub run_request : RunLoop → ℕ → SchedulerRequest → Option RunLoop
  unfolding decode grow_and_decode tokens_to_decode
  run_request l id r =
      let s = l.scheduler in
      let c = r.num_computed_tokens in
      let tokens = tokens_to_decode r in
      if leb s.max_model_len c
      then some (record l {
        scheduler = record s {
          requests = insert id (record r { status = finished_length }) s.requests;
        };
      })
      else if s.block_size == 0
      then none
      else if ltb (div_ceil c s.block_size) (div_ceil (add_usize c tokens) s.block_size)
      then grow_and_decode l id r tokens
      else some (decode l id r tokens s.kv_cache_manager)

  unfoldable pub run_id : RunLoop → ℕ → Option RunLoop
  unfolding run_request
  run_id l id = elim (lookup id l.scheduler.requests) [
    | none ↦ some l
    | some r ↦ run_request l id r
  ]

  -- `for request_id in &running_ids`, until the budget is used up.
  unfoldable pub run_all : List ℕ → ℕ → RunLoop → Option RunLoop
  unfolding run_id
  run_all [] max_budget l = some l
  run_all (id ∷ ids) max_budget l =
      let rest = do l' ← run_id l id; run_all ids max_budget l'
      in if leb max_budget l.budget_used then some l else rest

  -- The request goes back to the waiting queue, if it is tracked.
  unfoldable pub requeue : Scheduler M → ℕ → Option SchedulerRequest → Scheduler M
  requeue s id none = s
  requeue s id (some r) =
      let r' : SchedulerRequest = record r {
        num_computed_tokens = 0;
        cached_block_ids = [];
        status = waiting;
      } in
      record s {
        requests = insert id r' s.requests;
        waiting = Policy.push s.waiting id r.request.priority r.request.arrival_time;
      }

  unfoldable pub preempt_request : Scheduler M → ℕ → Option (Scheduler M)
  unfolding requeue
  preempt_request s id = do
    m ← ops.free s.kv_cache_manager id
    let s' = record s {
      running = without id s.running;
      kv_cache_manager = m;
      total_preemptions = add_usize s.total_preemptions 1;
    }
    some (requeue s' id (lookup id s.requests))

  -- `for id in to_preempt`.
  unfoldable pub preempt_all : List ℕ → Scheduler M → List ℕ → Option (Scheduler M × List ℕ)
  unfolding preempt_request
  preempt_all [] s preempted = some (s, preempted)
  preempt_all (id ∷ ids) s preempted = do
    s' ← preempt_request s id
    preempt_all ids s' (preempted ++ id ∷ [])

  -- The number of decode tokens, the budget used, the output and the scheduler.
  pub record RunResult : Type 0 where
    pub scheduler : Scheduler M
    pub output : SchedulerOutput
    pub budget_used : ℕ
    pub decode_tokens : ℕ

  unfoldable pub schedule_running : Scheduler M → SchedulerOutput → ℕ → ℕ → Option RunResult
  unfolding run_all preempt_all
  schedule_running s output budget_used max_budget = do
    l ← run_all s.running max_budget (record {
      scheduler = s;
      output = output;
      budget_used = budget_used;
      total_decode = 0;
      to_preempt = [];
    })
    (s', preempted) ← preempt_all l.to_preempt l.scheduler l.output.preempted
    some (record {
      scheduler = s';
      output = record l.output { preempted = preempted };
      budget_used = l.budget_used;
      decode_tokens = l.total_decode;
    })
