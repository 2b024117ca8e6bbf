-- ===== src/Scheduler/Admit/Rounds.antt =====
-- crates/rllm-scheduler/src/scheduler.rs, `schedule_waiting`: a round of the loop, after the
-- look-ups.
use r_llm.Shared.{
  ℕ, suc, ◌+◌, ◌*◌, ◌≤◌, ◌<◌, Bool, true, false, some, [], ◌∷◌, ◌++◌, ◌≡◌, refl, sym, ◌∙◌, ◌≢◌, ◌⊎◌,
  inl, inr, arith, In, NotIn, length, insert, subst, Bool-cases,
}
use r_llm.Scheduler.Policy.Members.{ids}
use r_llm.Scheduler.State.{ManagerOps, SchedulerRequest, Scheduler, add_usize}
use r_llm.Scheduler.Contract.{Contract}
use r_llm.Scheduler.Invariant.{Inv, Inv-manager, Others-all}
use r_llm.Scheduler.Moves.{Moves}
use r_llm.Scheduler.Run.{copy_table}
use r_llm.Scheduler.Admit.{
  AdmitLoop, Round, next, stop, start_running, admit_cached, tokens_to_prefill, cache_prefix,
  prefill, allocate_and_prefill,
}
use r_llm.Scheduler.Admit.Looks.{Looks}
use r_llm.Scheduler.Admit.Start.{start_running-Moves, start_running-counts}

pub tokens_to_prefill-le :
    {M : Type 0} (ops : ManagerOps M) (s : Scheduler M) (remaining available num_cached : ℕ)
    → tokens_to_prefill ops s remaining available num_cached ≤ available
unfolding tokens_to_prefill
tokens_to_prefill-le ops s remaining available num_cached =
    elim (Bool-cases s.config.enable_chunked_prefill) [
      | inl e ↦ rw e (omega arith)
      | inr e ↦ rw e (omega arith)
    ]

module _ {M : Type 0} {ops : ManagerOps M} {block_size : ℕ} (c : Contract ops block_size)
    (prompts drafts : ℕ) where
  pub Looks-Moves :
      (k : ℕ) (s s' : Scheduler M) → Looks c prompts drafts k s s' → Moves c prompts drafts k s s'
  Looks-Moves k s s' h = record {
    inv = h.inv;
    same_config = h.same_config;
    idle = λ j n w. (
      h.idle j w,
      subst (NotIn j) (sym h.same_running) n,
      subst (λ q. NotIn j (ids q.entries)) (sym h.same_waiting) w,
    );
  }

  -- What a round leaves, begun with the loop `l` and the scheduler `s`.
  pub record Ends (k max_budget : ℕ) (l : AdmitLoop ops) (s : Scheduler M) (l' : AdmitLoop ops)
      : Type 0 where
    pub moves : Moves c prompts drafts k s l'.scheduler
    pub budget : l'.budget_used ≤ max_budget
    pub counts : length l'.scheduler.running ≤ suc (length s.running)
    pub same_finished : l'.output.finished ≡ l.output.finished

  -- The round goes on with one request fewer in the queue, or it is the last one.
  abbrev pub Goes : Scheduler M → Round ops → AdmitLoop ops → Type 0
  Goes s round l' =
      ((round ≡ next l') × (suc (length l'.scheduler.waiting.entries) ≡ length s.waiting.entries))
      ⊎ (round ≡ stop l')

  module _ (k max_budget : ℕ) (l : AdmitLoop ops) (room : l.budget_used < max_budget)
      (s : Scheduler M) (h : Inv c prompts drafts k s) (id : ℕ)
      (queued : In id (ids s.waiting.entries)) where
    pub stops :
        (m' : M)
        → c.Valid k m'
        → ((i : ℕ) → c.entry m' i ≡ c.entry s.kv_cache_manager i)
        → Ends k max_budget l s (record l { scheduler = record s { kv_cache_manager = m' } })
    stops m' valid same = record {
      moves = record {
        inv = Inv-manager c prompts drafts k k s h m' valid same;
        same_config = refl;
        idle = λ j n w. (refl, n, w);
      };
      budget = omega (arith, room);
      counts = omega arith;
      same_finished = refl;
    }

    pub admit_cached-Ends :
        Ends k max_budget l s (admit_cached ops l s id)
        × (suc (length (admit_cached ops l s id).scheduler.waiting.entries)
            ≡ length s.waiting.entries)
    unfolding admit_cached start_running
    admit_cached-Ends =
        let m = s.kv_cache_manager in
        let (fewer, more) =
          start_running-counts c prompts drafts k k s h id queued (λ r. r) m h.manager (λ i d. refl)
            (λ r b. b) (λ r e. h.covered id r (inr queued) e) in
        (
          record {
            moves =
                start_running-Moves c prompts drafts k k s h id queued (λ r. r) m h.manager
                  (λ i d. refl) (λ r b. b) (λ r e. h.covered id r (inr queued) e);
            budget = omega (arith, room);
            counts = omega (arith, more);
            same_finished = refl;
          },
          fewer,
        )

    -- The blocks that are full get their hashes, and the table stays.
    cache_prefix-outcome :
        (enabled : Bool) (m : M) (total : ℕ)
        → c.Valid k m
        → c.Cacheable m id
        → (m' : M) × (cache_prefix ops enabled m id total ≡ some m')
          × c.Valid k m'
          × ((i : ℕ) → id ≢ i → c.entry m' i ≡ c.entry m i)
          × (c.held (c.entry m' id) ≡ c.held (c.entry m id))
    unfolding cache_prefix
    cache_prefix-outcome false m total valid able = (m, refl, valid, λ i d. refl, refl)
    cache_prefix-outcome true m total valid able = c.cache k m id total valid able

    prefilled : ℕ → ℕ → M → M → AdmitLoop ops
    prefilled tokens total m m' = record {
      scheduler = record (start_running ops s id (λ r. record r { num_computed_tokens = total })) {
        kv_cache_manager = m';
      };
      output = record l.output {
        scheduled_new = l.output.scheduled_new ++ id ∷ [];
        num_scheduled_tokens = insert id tokens l.output.num_scheduled_tokens;
        block_tables = copy_table (ops.get_block_ids m id) id l.output.block_tables;
      };
      budget_used = add_usize l.budget_used tokens;
      total_prefill = add_usize l.total_prefill tokens;
    }

    prefill-Ends :
        (tokens total : ℕ) (m : M)
        → l.budget_used + tokens ≤ max_budget
        → c.Valid k m
        → ((i : ℕ) → id ≢ i → c.entry m i ≡ c.entry s.kv_cache_manager i)
        → c.Cacheable m id
        → total ≤ c.held (c.entry m id) * block_size
        → (l' : AdmitLoop ops) × (prefill ops l s id tokens total m ≡ some l')
          × Ends k max_budget l s l'
          × (suc (length l'.scheduler.waiting.entries) ≡ length s.waiting.entries)
    unfolding prefill prefilled start_running
    prefill-Ends tokens total m fits valid others able enough =
        let (m', e, valid', others', same) =
          cache_prefix-outcome s.enable_prefix_caching m total valid able in
        let update : SchedulerRequest → SchedulerRequest =
          λ r. record r { num_computed_tokens = total } in
        let covered : total ≤ c.held (c.entry m' id) * block_size =
          subst (λ x. total ≤ x * block_size) (sym same) enough in
        let apart : (i : ℕ) → id ≢ i → c.entry m' i ≡ c.entry s.kv_cache_manager i =
          λ i d. others' i d ∙ others i d in
        let (fewer, more) =
          start_running-counts c prompts drafts k k s h id queued update m' valid' apart (λ r b. b)
            (λ r f. covered) in
        (
          prefilled tokens total m m',
          rw e refl,
          record {
            moves =
                start_running-Moves c prompts drafts k k s h id queued update m' valid' apart
                  (λ r b. b) (λ r f. covered);
            budget = omega (arith, fits);
            counts = omega (arith, more);
            same_finished = refl;
          },
          fewer,
        )

    -- All that is left of a round once the computed tokens are known.
    pub allocate_and_prefill-Ends :
        (num_cached tokens : ℕ)
        → NotIn id s.running
        → l.budget_used + tokens ≤ max_budget
        → num_cached ≤ c.held (c.entry s.kv_cache_manager id) * block_size
        → (round : Round ops) × (l' : AdmitLoop ops) × (allocate_and_prefill ops l s id num_cached
              tokens
            ≡ some round)
          × Goes s round l'
          × Ends k max_budget l s l'
    unfolding allocate_and_prefill
    allocate_and_prefill-Ends num_cached tokens out fits covered =
        let m = s.kv_cache_manager in
        let total = add_usize num_cached tokens in
        let (granted, m', e, valid, others, outcome) =
          c.allocate k m id total num_cached h.manager in
        elim outcome [
          | inl (refused, same) ↦
              let l' : AdmitLoop ops = record l {
                scheduler = record s { kv_cache_manager = m' };
              } in
              (
                stop l',
                l',
                rw (e, refused) refl,
                inr refl,
                stops m' valid (Others-all c prompts drafts m id m' others same),
              )
          | inr (given, more, able) ↦
              let (l', f, ends, fewer) =
                prefill-Ends tokens total m' fits valid others (able (h.ready id out))
                  (omega (arith, more, covered)) in
              (next l', l', rw (e, given, f) refl, inl (refl, fewer), ends)
        ]
