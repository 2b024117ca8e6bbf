-- ===== src/Scheduler/State.antt =====
-- crates/rllm-scheduler/src/scheduler.rs and output.rs: the scheduler's state, its output, and what
-- it asks of the manager of the KV cache. Counts of tokens and events are `usize` and wrap at 64 bits,
-- as in a release build. An outer `none` is a panic.
use r_llm.Shared.{ℕ, ◌+◌, ◌%◌, ◌^◌, Bool, false, Option, none, List, [], Map}
use r_llm.Core.Status.{RequestStatus}
use r_llm.Core.Params.{SpeculativeDecodingConfig}
use r_llm.Scheduler.Policy
use r_llm.Scheduler.Policy.{ℤ, RequestQueue, SchedulingPolicy}

-- The manager's operations that a scheduler calls. `allocate_slots` answers whether it succeeded.
pub record ManagerOps (M : Type 0) : Type 0 where
  pub get_computed_blocks : M → ℕ → List ℕ → Bool → Option ((List ℕ × ℕ) × M)
  pub allocate_slots : M → ℕ → ℕ → ℕ → Option (Bool × M)
  pub free : M → ℕ → Option M
  pub cache_blocks : M → ℕ → ℕ → Option M
  pub get_block_ids : M → ℕ → Option (List ℕ)

pub record SchedulerConfig : Type 0 where
  pub max_num_seqs : ℕ
  pub max_num_batched_tokens : ℕ
  pub max_num_scheduled_tokens : ℕ
  pub long_prefill_token_threshold : ℕ
  pub enable_chunked_prefill : Bool
  pub scheduling_policy : SchedulingPolicy
  pub stream_interval : ℕ
  pub async_scheduling : Bool

-- The fields of a request that the scheduler reads.
pub record InferenceRequest : Type 0 where
  pub request_id : ℕ
  pub token_ids : Option (List ℕ)
  pub skip_reading_prefix_cache : Bool
  pub speculative_decoding : Option SpeculativeDecodingConfig
  pub arrival_time : ℕ
  pub priority : ℤ

pub record SchedulerRequest : Type 0 where
  pub request : InferenceRequest
  pub prompt_token_ids : List ℕ
  pub num_computed_tokens : ℕ
  pub cached_block_ids : List ℕ
  pub status : RequestStatus

pub record PrefixCacheAdmission : Type 0 where
  pub request_id : Option ℕ
  pub cached_tokens : ℕ

-- A hash set is a list.
pub record Scheduler (M : Type 0) : Type 0 where
  pub config : SchedulerConfig
  pub block_size : ℕ
  pub max_model_len : ℕ
  pub enable_prefix_caching : Bool
  pub requests : Map SchedulerRequest
  pub waiting : RequestQueue
  pub running : List ℕ
  pub finished : List ℕ
  pub kv_cache_manager : M
  pub total_preemptions : ℕ
  pub prefix_cache_lookups : ℕ
  pub prefix_cache_hits : ℕ
  pub paused : Bool
  pub prefix_cache_admission : PrefixCacheAdmission

pub record SchedulerStats : Type 0 where
  pub num_waiting : ℕ
  pub num_running : ℕ
  pub num_finished : ℕ
  pub total_preemptions : ℕ
  pub prefill_tokens : ℕ
  pub decode_tokens : ℕ

pub record SchedulerOutput : Type 0 where
  pub scheduled_new : List ℕ
  pub scheduled_cached : List ℕ
  pub scheduled_running : List ℕ
  pub num_scheduled_tokens : Map ℕ
  pub block_tables : Map (List ℕ)
  pub token_budget_used : ℕ
  pub preempted : List ℕ
  pub finished : List ℕ
  pub stats : SchedulerStats

-- `SchedulerOutput::empty`.
abbrev pub empty_output : SchedulerOutput
empty_output = record {
  scheduled_new = [];
  scheduled_cached = [];
  scheduled_running = [];
  num_scheduled_tokens = [];
  block_tables = [];
  token_budget_used = 0;
  preempted = [];
  finished = [];
  stats = record {
    num_waiting = 0;
    num_running = 0;
    num_finished = 0;
    total_preemptions = 0;
    prefill_tokens = 0;
    decode_tokens = 0;
  };
}

abbrev pub add_usize : ℕ → ℕ → ℕ
add_usize a b = (a + b) % 2 ^ 64

module _ {M : Type 0} where
  unfoldable pub with_kv_cache_manager : SchedulerConfig → ℕ → ℕ → Bool → M → Scheduler M
  with_kv_cache_manager config block_size max_model_len enable_prefix_caching manager = record {
    config = config;
    block_size = block_size;
    max_model_len = max_model_len;
    enable_prefix_caching = enable_prefix_caching;
    requests = [];
    waiting = Policy.new config.scheduling_policy;
    running = [];
    finished = [];
    kv_cache_manager = manager;
    total_preemptions = 0;
    prefix_cache_lookups = 0;
    prefix_cache_hits = 0;
    paused = false;
    prefix_cache_admission = record { request_id = none; cached_tokens = 0 };
  }
