-- ===== src/Tests/Scheduling.antt =====
-- The theorems on crates/rllm-scheduler/src/scheduler.rs, at a small scheduler over the manager of the
-- KV cache.
use r_llm.Shared.{
  ℕ, ◌*◌, insert, ◌+◌, ◌≤◌, ◌<◌, Bool, true, false, none, some, [], ◌∷◌, ◌≡◌, refl, sym, subst, ◌≢◌,
  ◌⊎◌, inl, inr, arith, In, NotIn, length, lookup,
}
use r_llm.Core.Status.{finished_length, running, is_finished}
use r_llm.Cache.Prefix.{Digests, xx_hash}
use r_llm.Cache.Manager.{KvCacheManager, cache_blocks}
use r_llm.Cache.Manager.Counts.{IsBlock}
use r_llm.Scheduler.Policy
use r_llm.Scheduler.Policy.{pos, fcfs}
use r_llm.Scheduler.Policy.Members.{ids}
use r_llm.Scheduler.State.{
  InferenceRequest, SchedulerRequest, SchedulerConfig, Scheduler, SchedulerOutput,
  with_kv_cache_manager, add_usize,
}
use r_llm.Scheduler.Invariant.{Inv, IsBounded}
use r_llm.Scheduler.Run.{draft_tokens}
use r_llm.Scheduler.Run.{preempt_request}
use r_llm.Scheduler.Run.Requeue.{restarted, preempt_request-requeues}
use r_llm.Scheduler.Admit.{select_waiting_request}
use r_llm.Scheduler.Admit.Best.{Unseen}
use r_llm.Scheduler.Admit.Longest.{select_waiting_request-longest}
use r_llm.Scheduler.Step.{add_request, abort_request, step}
use r_llm.Scheduler.Step.Outcome.{step-outcome, step-finished_again}
use r_llm.Scheduler.Step.Requests.{with_kv_cache_manager-Inv, add_request-Inv, abort_request-Inv}
use r_llm.Scheduler.KvManager
use r_llm.Scheduler.KvManager.{CacheConfig, kv_manager, Valid, entry, held, Ready}
use r_llm.Scheduler.KvManager.Instance.{kv_contract, new-Inv, allocate-cache_blocks}
use r_llm.Tests.Pools.{once, once-IsPool}
use r_llm.Scheduler.KvManager.Lookup.{Looked, get_computed_blocks-Looked}

-- A stand-in for the two hash functions.
abbrev digests : Digests
digests = record { sha256 = λ bytes. bytes; xxh3_64 = λ bytes. length bytes }

abbrev config : SchedulerConfig
config = record {
  max_num_seqs = 2;
  max_num_batched_tokens = 8;
  max_num_scheduled_tokens = 8;
  long_prefill_token_threshold = 4;
  enable_chunked_prefill = true;
  scheduling_policy = fcfs;
  stream_interval = 1;
  async_scheduling = false;
}

abbrev cache : CacheConfig
cache = record { block_size = 2; enable_prefix_caching = true; prefix_hash_algorithm = xx_hash }

abbrev positive : 0 < 2
positive = omega arith

new_scheduler_example :
    (s : Scheduler KvCacheManager) × (KvManager.new config cache 4 16 ≡ some s)
    × Inv (kv_contract digests 2 positive) 5 0 4294967293 s
    × (s.waiting.entries ≡ [])
    × (s.running ≡ [])
    × (s.config ≡ config)
new_scheduler_example = new-Inv digests 2 positive 5 0 config cache 4 16 (omega arith) refl

-- Block 1 belongs to request 5, and blocks 2 and 3 are free.
abbrev manager : KvCacheManager
manager = record {
  block_pool = once;
  block_size = 2;
  enable_prefix_caching = true;
  hash_algorithm = xx_hash;
  request_blocks = (5, 1 ∷ []) ∷ [];
  request_computed_tokens = [];
  request_block_hashes = [];
}

manager-Valid : Valid 2 4294967293 manager
unfolding lookup
manager-Valid = record {
  fits = record {
    free_blocks = 2 ∷ 3 ∷ [];
    valid = once-IsPool;
    counts = λ i j r h n e. ground (arith, e);
    room = omega arith;
  };
  size = refl;
  tables = λ j i g.
      let same : i ≡ 1 = ground (arith, g) in
      subst (IsBlock once) (sym same) ((1, none, 1, false), refl);
}

manager-Ready : (i : ℕ) → Ready 2 (entry manager i)
unfolding lookup
manager-Ready i = inl refl

allocate_cache_example :
    (granted : Bool) × (m' : KvCacheManager) × ((kv_manager digests).allocate_slots manager 6 3 0
      ≡ some (granted, m'))
    × ((granted ≡ false)
        ⊎ ((m'' : KvCacheManager) × (cache_blocks m' 6 3 ≡ some m'')
            × Valid 2 4294967293 m''
            × (held (entry m'' 6) ≡ held (entry m' 6))))
allocate_cache_example =
    allocate-cache_blocks digests 2 positive 4294967293 manager 6 3 0 manager-Valid
      (manager-Ready 6)

look_up_example :
    Looked digests 2 positive 4294967288 manager 6 (7 ∷ 8 ∷ 9 ∷ 7 ∷ 8 ∷ []) false manager-Valid
look_up_example =
    get_computed_blocks-Looked digests 2 positive 4294967288 manager 6 (7 ∷ 8 ∷ 9 ∷ 7 ∷ 8 ∷ [])
      false manager-Valid

abbrev idle : Scheduler KvCacheManager
idle = with_kv_cache_manager config 2 16 true manager

idle-Inv : Inv (kv_contract digests 2 positive) 5 0 4294967293 idle
unfolding kv_contract
idle-Inv =
    with_kv_cache_manager-Inv (kv_contract digests 2 positive) 5 0 4294967293 config 16 true manager
      manager-Valid manager-Ready

abbrev request : InferenceRequest
request = record {
  request_id = 6;
  token_ids = some (7 ∷ 8 ∷ 9 ∷ 7 ∷ 8 ∷ []);
  skip_reading_prefix_cache = false;
  speculative_decoding = none;
  arrival_time = 0;
  priority = pos 0;
}

abbrev one_waiting : Scheduler KvCacheManager
one_waiting = add_request (kv_manager digests) idle request

add_request_example : Inv (kv_contract digests 2 positive) 5 0 4294967293 one_waiting
unfolding with_kv_cache_manager draft_tokens
add_request_example =
    add_request-Inv (kv_contract digests 2 positive) 5 0 4294967293 idle request idle-Inv tt
      (omega arith) (omega arith)

step_example :
    (output : SchedulerOutput) × (s' : Scheduler KvCacheManager) × (step
        (kv_manager digests)
        one_waiting
      ≡ some (output, s'))
    × Inv (kv_contract digests 2 positive) 5 0 4294967273 s'
    × (length s'.running ≤ s'.config.max_num_seqs)
    × (output.token_budget_used ≤ one_waiting.config.max_num_scheduled_tokens + 0)
unfolding add_request with_kv_cache_manager Policy.push Policy.insert_entry Policy.arrange
    Policy.new
step_example =
    step-outcome (kv_contract digests 2 positive) 5 0 positive 4294967273 one_waiting
      add_request_example (omega arith)

abort_example :
    (s' : Scheduler KvCacheManager) × (abort_request (kv_manager digests) one_waiting 6 ≡ some s')
    × Inv (kv_contract digests 2 positive) 5 0 4294967293 s'
    × (lookup 6 s'.requests ≡ none)
    × NotIn 6 s'.running
    × NotIn 6 (ids s'.waiting.entries)
    × ((j : ℕ) → 6 ≢ j → lookup j s'.requests ≡ lookup j one_waiting.requests)
abort_example =
    abort_request-Inv (kv_contract digests 2 positive) 5 0 4294967293 one_waiting 6
      add_request_example

abbrev too_long : SchedulerRequest
too_long = record {
  request = request;
  prompt_token_ids = 7 ∷ 8 ∷ 9 ∷ 7 ∷ 8 ∷ [];
  num_computed_tokens = 16;
  cached_block_ids = [];
  status = finished_length;
}

abbrev one_finished : Scheduler KvCacheManager
one_finished = record idle { requests = (9, too_long) ∷ [] }

one_finished-Inv : Inv (kv_contract digests 2 positive) 5 0 4294967293 one_finished
unfolding with_kv_cache_manager lookup draft_tokens Policy.new kv_contract
one_finished-Inv = record {
  manager = manager-Valid;
  size = refl;
  queue = tt;
  apart = λ i g. absurd g;
  ready = λ i n. manager-Ready i;
  covered = λ i r g e. elim g [ inl g' ↦ absurd g' | inr g' ↦ absurd g' ];
  bounded = λ i r e.
      let same : too_long ≡ r = ground (arith, e) in
      subst (IsBounded 5 0) same (omega arith, omega arith);
}

finished_again_example :
    (output : SchedulerOutput) × (s' : Scheduler KvCacheManager) × (step
        (kv_manager digests)
        one_finished
      ≡ some (output, s'))
    × In 9 output.finished
    × (lookup 9 s'.requests ≡ some too_long)
    × NotIn 9 s'.running
    × NotIn 9 (ids s'.waiting.entries)
unfolding with_kv_cache_manager lookup Policy.new is_finished
finished_again_example =
    step-finished_again (kv_contract digests 2 positive) 5 0 positive 4294967288 one_finished
      one_finished-Inv (omega arith) refl 9 too_long refl refl tt tt

one_waiting-Unseen : Unseen (kv_manager digests) one_waiting (ids one_waiting.waiting.entries)
unfolding add_request with_kv_cache_manager lookup insert Policy.new
one_waiting-Unseen i r g e empty = ground (arith, e)

select_example :
    (id : ℕ) × (s' : Scheduler KvCacheManager) × (select_waiting_request
        (kv_manager digests)
        one_waiting
      ≡ some (some id, s'))
    × In id (ids one_waiting.waiting.entries)
    × ((i : ℕ) (r : SchedulerRequest)
        → In i (ids one_waiting.waiting.entries)
        → lookup i s'.requests ≡ some r
        → r.num_computed_tokens ≤ s'.prefix_cache_admission.cached_tokens)
    × ((r : SchedulerRequest)
        → lookup id s'.requests ≡ some r
        → r.num_computed_tokens ≡ s'.prefix_cache_admission.cached_tokens)
unfolding add_request with_kv_cache_manager Policy.push Policy.insert_entry Policy.arrange
    Policy.new
select_example =
    select_waiting_request-longest (kv_contract digests 2 positive) 5 0 4294967288 one_waiting
      add_request_example refl refl one_waiting-Unseen

abbrev decoding : SchedulerRequest
decoding = record {
  request = request;
  prompt_token_ids = 7 ∷ 8 ∷ [];
  num_computed_tokens = 2;
  cached_block_ids = [];
  status = running;
}

abbrev one_running : Scheduler KvCacheManager
one_running = record idle { requests = (5, decoding) ∷ []; running = 5 ∷ [] }

one_running-Inv : Inv (kv_contract digests 2 positive) 5 0 4294967293 one_running
unfolding with_kv_cache_manager lookup draft_tokens Policy.new kv_contract
one_running-Inv = record {
  manager = manager-Valid;
  size = refl;
  queue = tt;
  apart = λ i g. tt;
  ready = λ i n. manager-Ready i;
  covered = λ i r g e.
      let here : i ≡ 5 = ground (arith, e) in
      let same : decoding ≡ r = ground (arith, e) in
      subst (λ j. r.num_computed_tokens ≤ held (entry manager j) * 2) (sym here)
        (subst (λ q. q.num_computed_tokens ≤ 2) same (omega arith));
  bounded = λ i r e.
      let same : decoding ≡ r = ground (arith, e) in
      subst (IsBounded 5 0) same (omega arith, omega arith);
}

preempt_example :
    (s' : Scheduler KvCacheManager) × (preempt_request (kv_manager digests) one_running 5 ≡ some s')
    × Inv (kv_contract digests 2 positive) 5 0 4294967293 s'
    × (lookup 5 s'.requests ≡ some (restarted decoding))
    × NotIn 5 s'.running
    × In 5 (ids s'.waiting.entries)
    × (held (entry s'.kv_cache_manager 5) ≡ 0)
    × (s'.total_preemptions ≡ add_usize one_running.total_preemptions 1)
    × ((j : ℕ) → 5 ≢ j → lookup j s'.requests ≡ lookup j one_running.requests)
unfolding lookup kv_contract
preempt_example =
    preempt_request-requeues (kv_contract digests 2 positive) 5 0 4294967293 one_running 5 decoding
      one_running-Inv refl
