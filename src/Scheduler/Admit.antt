-- ===== src/Scheduler/Admit.antt =====
-- crates/rllm-scheduler/src/scheduler.rs: `select_waiting_request` and `schedule_waiting`.
pub mod Looks
pub mod Select
pub mod Start
pub mod Rounds
pub mod Admission
pub mod Loop
pub mod Best
pub mod Longest
use r_llm.Shared.{
  ℕ, zero, suc, ◌+◌, ◌-◌, ◌≤◌, min, Bool, true, false, not, ◌&&◌, ◌||◌, Option, none, some, List,
  [], ◌∷◌, ◌++◌, ◌==◌, ltb, leb, if◌then◌else◌, ◌>>=◌, Map, lookup, insert, length, is_empty, map,
}
use r_llm.Core.Status.{running}
use r_llm.Scheduler.Policy
use r_llm.Scheduler.Policy.{RequestQueue}
use r_llm.Scheduler.State.{ManagerOps, SchedulerRequest, Scheduler, SchedulerOutput, add_usize}
use r_llm.Scheduler.Run.{copy_table}

-- `requests.get(id).map(f).unwrap_or(default)`
unfoldable pub read_request {ℓ} :
    {A : Type ℓ} → Option SchedulerRequest → (SchedulerRequest → A) → A → A
read_request none f default = default
read_request (some r) f default = f r

-- `if let Some(r) = requests.get_mut(id) { … }`
unfoldable pub update_request :
    Option SchedulerRequest
    → (SchedulerRequest → SchedulerRequest)
    → ℕ
    → Map SchedulerRequest
    → Map SchedulerRequest
update_request none f id table = table
update_request (some r) f id table = insert id (f r) table

unfoldable pub queued_ids : RequestQueue → List ℕ
queued_ids q = map (λ e. e.request_id) q.entries

module _ {M : Type 0} (ops : ManagerOps M) where
  -- The counters, and the request's own record, after a look-up of its prefix.
  unfoldable pub record_lookup : Scheduler M → ℕ → List ℕ → ℕ → M → Scheduler M
  record_lookup s id ids cached m = record s {
    prefix_cache_lookups = add_usize s.prefix_cache_lookups 1;
    prefix_cache_hits =
        if ltb 0 cached then add_usize s.prefix_cache_hits 1 else s.prefix_cache_hits;
    requests =
        update_request (lookup id s.requests)
          (λ r. record r { cached_block_ids = ids; num_computed_tokens = cached }) id s.requests;
    kv_cache_manager = m;
  }

  unfoldable pub probe : Scheduler M → ℕ → List ℕ → Bool → Option (ℕ × Scheduler M)
  unfolding record_lookup
  probe s id prompt skip = do
    ((ids, cached), m) ← ops.get_computed_blocks s.kv_cache_manager id prompt skip
    some (cached, record_lookup s id ids cached m)

  -- A request of the queue with the best one so far: a longer prefix wins.
  unfoldable pub better : ℕ → ℕ → ℕ × ℕ → ℕ × ℕ
  better id cached (best, best_cached) =
      if ltb best_cached cached then (id, cached) else (best, best_cached)

  unfoldable pub probe_better :
      Scheduler M → ℕ → SchedulerRequest → ℕ × ℕ → Option ((ℕ × ℕ) × Scheduler M)
  unfolding probe better
  probe_better s id r best = do
    (cached, s') ← probe s id r.prompt_token_ids r.request.skip_reading_prefix_cache
    some (better id cached best, s')

  unfoldable pub weigh : Scheduler M → ℕ → ℕ × ℕ → Option ((ℕ × ℕ) × Scheduler M)
  unfolding probe_better better
  weigh s id best = elim (lookup id s.requests) [
    | none ↦ some (best, s)
    | some r ↦
        if is_empty r.cached_block_ids
        then probe_better s id r best
        else some (better id r.num_computed_tokens best, s)
  ]

  -- `for request_id in queued`.
  unfoldable pub weigh_all : List ℕ → Scheduler M → ℕ × ℕ → Option ((ℕ × ℕ) × Scheduler M)
  unfolding weigh
  weigh_all [] s best = some (best, s)
  weigh_all (id ∷ ids) s best = do (best', s') ← weigh s id best; weigh_all ids s' best'

  unfoldable pub admit_as : ℕ → ℕ → Scheduler M → Scheduler M
  admit_as id cached s = record s {
    prefix_cache_admission = record { request_id = some id; cached_tokens = cached };
  }

  unfoldable pub select_best : Scheduler M → ℕ × ℕ → Option (Option ℕ × Scheduler M)
  unfolding weigh_all admit_as queued_ids
  select_best s first = do
    ((best, best_cached), s') ← weigh_all (queued_ids s.waiting) s first
    some (some best, admit_as best best_cached s')

  unfoldable pub select_waiting_request : Scheduler M → Option (Option ℕ × Scheduler M)
  unfolding select_best admit_as read_request
  select_waiting_request s = elim (Policy.peek s.waiting) [
    | none ↦ some (none, s)
    | some first ↦
        let s₁ = admit_as first 0 s in
        let cached = read_request (lookup first s.requests) (λ r. r.num_computed_tokens) 0 in
        if not s.enable_prefix_caching
        then some (some first, s₁)
        else select_best s₁ (first, cached)
  ]

  -- The prefix of the selected request that is computed already.
  unfoldable pub cached_tokens : Scheduler M → ℕ → Option (ℕ × Scheduler M)
  unfolding probe read_request
  cached_tokens s id =
      let r = lookup id s.requests in
      if s.enable_prefix_caching && read_request r (λ q. is_empty q.cached_block_ids) true
      then probe s id (read_request r (λ q. q.prompt_token_ids) [])
          (read_request r (λ q. q.request.skip_reading_prefix_cache) false)
      else some (read_request r (λ q. q.num_computed_tokens) 0, s)

  -- What the loop over the waiting requests changes.
  pub record AdmitLoop : Type 0 where
    pub scheduler : Scheduler M
    pub output : SchedulerOutput
    pub budget_used : ℕ
    pub total_prefill : ℕ

  -- A round goes on to the next one, or breaks the loop.
  pub data Round : Type 0 where
    next : AdmitLoop → Round
    stop : AdmitLoop → Round

  -- From the waiting queue to the running requests, with the computed tokens if they change.
  unfoldable pub start_running :
      Scheduler M → ℕ → (SchedulerRequest → SchedulerRequest) → Scheduler M
  start_running s id update = record s {
    waiting = (Policy.pop_request s.waiting id).1;
    requests =
        update_request (lookup id s.requests) (λ r. record (update r) { status = running }) id
          s.requests;
    running = s.running ++ id ∷ [];
  }

  unfoldable pub admit_cached : AdmitLoop → Scheduler M → ℕ → AdmitLoop
  unfolding start_running
  admit_cached l s id = record l {
    scheduler = start_running s id (λ r. r);
    output = record l.output { scheduled_cached = l.output.scheduled_cached ++ id ∷ [] };
  }

  -- The tokens of the request for this step: what is left of the prompt, the budget, the chunk and
  -- the model's length.
  unfoldable pub tokens_to_prefill : Scheduler M → ℕ → ℕ → ℕ → ℕ
  tokens_to_prefill s remaining available num_cached =
      let tokens = min remaining available in
      let chunk =
        if s.config.enable_chunked_prefill
        then min tokens s.config.long_prefill_token_threshold
        else tokens in
      min chunk (s.max_model_len - num_cached)

  -- `if self.enable_prefix_caching { manager.cache_blocks(…) }`
  unfoldable pub cache_prefix : Bool → M → ℕ → ℕ → Option M
  cache_prefix enabled m id total = if enabled then ops.cache_blocks m id total else some m

  -- The request has its blocks, in the manager `m`.
  unfoldable pub prefill : AdmitLoop → Scheduler M → ℕ → ℕ → ℕ → M → Option AdmitLoop
  unfolding start_running cache_prefix copy_table
  prefill l s id tokens total_after m = do
    let s' = start_running s id (λ r. record r { num_computed_tokens = total_after })
    m' ← cache_prefix s.enable_prefix_caching m id total_after
    some (record {
      scheduler = record s' { kv_cache_manager = m' };
      output = record l.output {
        scheduled_new = l.output.scheduled_new ++ id ∷ [];
        num_scheduled_tokens = insert id tokens l.output.num_scheduled_tokens;
        block_tables = copy_table (ops.get_block_ids m id) id l.output.block_tables;
      };
      budget_used = add_usize l.budget_used tokens;
      total_prefill = add_usize l.total_prefill tokens;
    })

  unfoldable pub allocate_and_prefill : AdmitLoop → Scheduler M → ℕ → ℕ → ℕ → Option Round
  unfolding prefill
  allocate_and_prefill l s id num_cached tokens = do
    let total_after = add_usize num_cached tokens
    (granted, m) ← ops.allocate_slots s.kv_cache_manager id total_after num_cached
    if granted
        then (do l' ← prefill l s id tokens total_after m; some (next l'))
        else some (stop (record l { scheduler = record s { kv_cache_manager = m } }))

  -- A round for the selected request.
  unfoldable pub admit : AdmitLoop → Scheduler M → ℕ → ℕ → Option Round
  unfolding cached_tokens admit_cached tokens_to_prefill allocate_and_prefill read_request
  admit l s₀ id max_budget = do
    (num_cached, s) ← cached_tokens s₀ id
    let prompt_len = read_request (lookup id s.requests) (λ r. length r.prompt_token_ids) 0
    let remaining = prompt_len - num_cached
    let tokens = tokens_to_prefill s remaining (max_budget - l.budget_used) num_cached
    if remaining == 0
        then some (next (admit_cached l s id))
        else if tokens == 0
        then some (stop (record l { scheduler = s }))
        else allocate_and_prefill l s id num_cached tokens

  -- The test of the `while` and the limit on running requests.
  unfoldable pub admits_more : AdmitLoop → ℕ → Bool
  admits_more l max_budget =
      let s = l.scheduler in
      not (is_empty s.waiting.entries)
      && ltb l.budget_used max_budget
      && ltb (length s.running) s.config.max_num_seqs

  -- The `while` loop, on fuel.
  unfoldable pub admit_all : ℕ → ℕ → AdmitLoop → Option AdmitLoop
  unfolding select_waiting_request admit admits_more
  admit_all zero max_budget l = none
  admit_all (suc fuel) max_budget l = elim (admits_more l max_budget) [
    | false ↦ some l
    | true ↦ do
      (selected, s) ← select_waiting_request l.scheduler
      elim selected [
        | none ↦ some (record l { scheduler = s })
        | some id ↦ do
          round ← admit l s id max_budget
          elim round [ stop l' ↦ some l' | next l' ↦ admit_all fuel max_budget l' ]
      ]
  ]

  -- One round for each waiting request, and the last test, are fuel enough.
  unfoldable pub schedule_waiting : Scheduler M → SchedulerOutput → ℕ → ℕ → Option AdmitLoop
  unfolding admit_all
  schedule_waiting s output budget_used max_budget =
      admit_all (suc (length s.waiting.entries)) max_budget
        (record { scheduler = s; output = output; budget_used = budget_used; total_prefill = 0 })
