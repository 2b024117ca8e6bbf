-- ===== src/Scheduler/Step.antt =====
-- crates/rllm-scheduler/src/scheduler.rs: `step`, and the scheduler's other operations. Metrics and
-- logs are left out.
pub mod Finish
pub mod Outcome
pub mod Requests
use r_llm.Shared.{
  ℕ, ◌+◌, Bool, true, false, not, ◌&&◌, ◌||◌, Option, none, some, List, [], ◌∷◌, ◌++◌, ◌==◌,
  if◌then◌else◌, ◌>>=◌, Map, lookup, insert, delete, without, length, is_empty,
}
use r_llm.Core.Status.{waiting, is_finished}
use r_llm.Scheduler.Policy
use r_llm.Scheduler.State.{
  ManagerOps, InferenceRequest, SchedulerRequest, Scheduler, SchedulerOutput, SchedulerStats,
  empty_output,
}
use r_llm.Scheduler.Run.{schedule_running}
use r_llm.Scheduler.Admit.{schedule_waiting}

-- `token_ids.unwrap_or_default()`
abbrev or_default : Option (List ℕ) → List ℕ
or_default none = []
or_default (some ids) = ids

-- `HashSet::insert`.
unfoldable pub insert_id : ℕ → List ℕ → List ℕ
insert_id id ids = id ∷ without id ids

-- The tracked requests that are finished. (The map's own order is arbitrary.)
unfoldable pub finished_ids : Map SchedulerRequest → List ℕ
unfolding is_finished
finished_ids [] = []
finished_ids (entry ∷ table) =
    let rest = finished_ids table in if is_finished entry.1.status then entry.0 ∷ rest else rest

module _ {M : Type 0} (ops : ManagerOps M) where
  unfoldable pub add_request : Scheduler M → InferenceRequest → Scheduler M
  add_request s q =
      let r : SchedulerRequest = record {
        request = q;
        prompt_token_ids = or_default q.token_ids;
        num_computed_tokens = 0;
        cached_block_ids = [];
        status = waiting;
      } in
      record s {
        requests = insert q.request_id r s.requests;
        waiting = Policy.push s.waiting q.request_id q.priority q.arrival_time;
      }

  unfoldable pub abort_request : Scheduler M → ℕ → Option (Scheduler M)
  abort_request s id = do
    m ← ops.free s.kv_cache_manager id
    some (record s {
      waiting = (Policy.remove s.waiting id).1;
      running = without id s.running;
      finished = without id s.finished;
      requests = delete id s.requests;
      kv_cache_manager = m;
    })

  unfoldable pub finish_request_internal : Scheduler M → ℕ → Option (Scheduler M)
  unfolding insert_id
  finish_request_internal s id = do
    m ← ops.free s.kv_cache_manager id
    some (record s {
      running = without id s.running;
      waiting = (Policy.remove s.waiting id).1;
      kv_cache_manager = m;
      finished = insert_id id s.finished;
    })

  -- `for id in to_finish`.
  unfoldable pub finish_all : List ℕ → Scheduler M → List ℕ → Option (Scheduler M × List ℕ)
  unfolding finish_request_internal
  finish_all [] s reported = some (s, reported)
  finish_all (id ∷ ids) s reported = do
    s' ← finish_request_internal s id
    finish_all ids s' (reported ++ id ∷ [])

  unfoldable pub process_finished :
      Scheduler M → SchedulerOutput → Option (Scheduler M × SchedulerOutput)
  unfolding finish_all finished_ids
  process_finished s output = do
    (s', reported) ← finish_all (finished_ids s.requests) s output.finished
    some (s', record output { finished = reported })

  unfoldable pub stats_of : Scheduler M → ℕ → ℕ → ℕ → SchedulerStats
  stats_of s num_finished prefill_tokens decode_tokens = record {
    num_waiting = length s.waiting.entries;
    num_running = length s.running;
    num_finished = num_finished;
    total_preemptions = s.total_preemptions;
    prefill_tokens = prefill_tokens;
    decode_tokens = decode_tokens;
  }

  unfoldable pub build_output : Scheduler M → ℕ → ℕ → SchedulerOutput
  unfolding stats_of
  build_output s prefill_tokens decode_tokens = record empty_output {
    stats = stats_of s 0 prefill_tokens decode_tokens;
  }

  -- A step that is not paused.
  unfoldable pub run_step : Scheduler M → Option (SchedulerOutput × Scheduler M)
  unfolding process_finished schedule_running schedule_waiting stats_of
  run_step s = do
    let max_budget = s.config.max_num_scheduled_tokens
    (s₁, output₁) ← process_finished s empty_output
    r ← schedule_running ops s₁ output₁ 0 max_budget
    a ← schedule_waiting ops r.scheduler r.output r.budget_used max_budget
    let s₂ = a.scheduler
    some (
      record a.output {
        token_budget_used = a.budget_used;
        stats = stats_of s₂ (length a.output.finished) a.total_prefill r.decode_tokens;
      },
      s₂,
    )

  unfoldable pub step : Scheduler M → Option (SchedulerOutput × Scheduler M)
  unfolding run_step build_output
  step s = if s.paused then some (build_output s 0 0, s) else run_step s

  unfoldable pub pause : Scheduler M → Scheduler M
  pause s = record s { paused = true }

  unfoldable pub resume : Scheduler M → Scheduler M
  resume s = record s { paused = false }

  unfoldable pub has_work : Scheduler M → Bool
  has_work s = not (is_empty s.waiting.entries) || not (is_empty s.running)

  unfoldable pub is_paused : Scheduler M → Bool
  is_paused s = s.paused

  unfoldable pub num_waiting : Scheduler M → ℕ
  num_waiting s = Policy.len s.waiting

  unfoldable pub num_running : Scheduler M → ℕ
  num_running s = length s.running

  unfoldable pub num_active : Scheduler M → ℕ
  num_active s = length s.requests

  unfoldable pub last_prefix_cache_admission : Scheduler M → Option (ℕ × ℕ)
  last_prefix_cache_admission s = elim s.prefix_cache_admission.request_id [
    | none ↦ none
    | some id ↦ some (id, s.prefix_cache_admission.cached_tokens)
  ]

unfoldable pub num_scheduled : SchedulerOutput → ℕ
num_scheduled o = length o.scheduled_new + length o.scheduled_cached + length o.scheduled_running
