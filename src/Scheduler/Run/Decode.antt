-- ===== src/Scheduler/Run/Decode.antt =====
-- crates/rllm-scheduler/src/scheduler.rs, `schedule_running`: the loop over the running
-- requests.
use r_llm.Shared.{
  ℕ, suc, ◌+◌, ◌*◌, ◌≤◌, ◌<◌, false, some, List, [], ◌∷◌, ◌++◌, ◌≡◌, refl, sym, ◌≢◌, inl, inr,
  arith, In, NotIn, NotIn-In, In-append, length, length-append, lookup, lookup-insert, insert,
  subst, ◌==◌, ltb, leb, div_ceil, div_ceil-covers, Bool-cases, Option-cases,
}
use r_llm.Core.Status.{finished_length}
use r_llm.Scheduler.State.{ManagerOps, SchedulerRequest, Scheduler, add_usize}
use r_llm.Scheduler.Contract.{Contract}
use r_llm.Scheduler.Run.{
  RunLoop, tokens_to_decode, decode, grow_and_decode, run_request, run_id, run_all,
}
use r_llm.Scheduler.Invariant.{Inv, IsBounded, Others-all, Inv-manager, Inv-request}

module _ {M : Type 0} {ops : ManagerOps M} {block_size : ℕ} (c : Contract ops block_size)
    (prompts drafts : ℕ) (positive : 0 < block_size) (k : ℕ) (s : Scheduler M) (max_budget : ℕ)
    (reported : List ℕ) where
  -- The state of the loop, begun with the scheduler `s`, after at most `n` rounds.
  pub record Runs (n : ℕ) (l : RunLoop ops) : Type 0 where
    pub inv : Inv c prompts drafts k l.scheduler
    pub same_running : l.scheduler.running ≡ s.running
    pub same_waiting : l.scheduler.waiting ≡ s.waiting
    pub same_config : l.scheduler.config ≡ s.config
    pub same_finished : l.output.finished ≡ reported
    pub budget : l.budget_used ≤ max_budget + drafts
    pub few : length l.to_preempt ≤ n
    pub known : (i : ℕ) → In i l.to_preempt → In i s.running
    pub idle : (j : ℕ) → NotIn j s.running → lookup j l.scheduler.requests ≡ lookup j s.requests

  later : (m n : ℕ) (l : RunLoop ops) → m ≤ n → Runs m l → Runs n l
  later m n l more h = record {
    inv = h.inv;
    same_running = h.same_running;
    same_waiting = h.same_waiting;
    same_config = h.same_config;
    same_finished = h.same_finished;
    budget = h.budget;
    few = omega (arith, h.few);
    known = h.known;
    idle = h.idle;
  }

  module _ (n : ℕ) (l : RunLoop ops) (h : Runs n l) (id : ℕ) (member : In id s.running)
      (room : l.budget_used < max_budget) (r : SchedulerRequest)
      (tracked : lookup id l.scheduler.requests ≡ some r) where
    write_idle :
        (r' : SchedulerRequest) (j : ℕ)
        → NotIn j s.running
        → lookup j (insert id r' l.scheduler.requests) ≡ lookup j s.requests
    write_idle r' j out =
        let ne = NotIn-In j id s.running out member in
        ground (arith, lookup-insert id j r' l.scheduler.requests, ne, h.idle j out)

    running_now : In id l.scheduler.running
    running_now = subst (In id) (sym h.same_running) member

    covered_now :
        r.num_computed_tokens ≤ c.held (c.entry l.scheduler.kv_cache_manager id) * block_size
    covered_now = h.inv.covered id r (inl running_now) tracked

    tokens_few : tokens_to_decode r ≤ suc drafts
    unfolding tokens_to_decode
    tokens_few = let (_, few) = h.inv.bounded id r tracked in omega (arith, few)

    -- The request's record changes, and so may its entry in the manager.
    write_request :
        (r' : SchedulerRequest) (m' : M)
        → c.Valid k m'
        → ((j : ℕ) → id ≢ j → c.entry m' j ≡ c.entry l.scheduler.kv_cache_manager j)
        → r'.num_computed_tokens ≤ c.held (c.entry m' id) * block_size
        → IsBounded prompts drafts r'
        → Inv c prompts drafts k (record l.scheduler {
          requests = insert id r' l.scheduler.requests;
          kv_cache_manager = m';
        })
    write_request r' m' valid others covered bounded =
        Inv-request c prompts drafts k k l.scheduler h.inv id r' m' valid others
          (λ out. absurd (NotIn-In id id l.scheduler.running out running_now refl)) covered bounded

    decode-Runs :
        (m' : M)
        → c.Valid k m'
        → ((j : ℕ) → id ≢ j → c.entry m' j ≡ c.entry l.scheduler.kv_cache_manager j)
        → add_usize r.num_computed_tokens (tokens_to_decode r) ≤ c.held (c.entry m' id) * block_size
        → Runs (suc n) (decode ops l id r (tokens_to_decode r) m')
    unfolding decode
    decode-Runs m' valid others covered = record {
      inv = write_request _ m' valid others covered (h.inv.bounded id r tracked);
      same_running = h.same_running;
      same_waiting = h.same_waiting;
      same_config = h.same_config;
      same_finished = h.same_finished;
      budget = omega (arith, tokens_few);
      few = omega (arith, h.few);
      known = h.known;
      idle = write_idle _;
    }

    grow-Runs :
        (l' : RunLoop ops) × (grow_and_decode ops l id r (tokens_to_decode r) ≡ some l')
        × Runs (suc n) l'
    unfolding grow_and_decode
    grow-Runs =
        let m = l.scheduler.kv_cache_manager in
        let total = add_usize r.num_computed_tokens (tokens_to_decode r) in
        let (granted, m', e, valid, others, outcome) =
          c.allocate k m id total r.num_computed_tokens h.inv.manager in
        elim outcome [
          | inl (refused, same) ↦ (
            record l {
              scheduler = record l.scheduler { kv_cache_manager = m' };
              to_preempt = l.to_preempt ++ id ∷ [];
            },
            rw (e, refused) refl,
            record {
              inv =
                  Inv-manager c prompts drafts k k l.scheduler h.inv m' valid
                    (Others-all c prompts drafts m id m' others same);
              same_running = h.same_running;
              same_waiting = h.same_waiting;
              same_config = h.same_config;
              same_finished = h.same_finished;
              budget = h.budget;
              few = omega (arith, h.few, length-append l.to_preempt (id ∷ []));
              known = λ i g. elim (In-append i l.to_preempt (id ∷ []) g) [
                | inl old ↦ h.known i old
                | inr (inl q) ↦ subst (λ j. In j s.running) (sym q) member
                | inr (inr bad) ↦ absurd bad
              ];
              idle = h.idle;
            },
          )
          | inr (given, more, _) ↦ (
            decode ops l id r (tokens_to_decode r) m',
            rw (e, given) refl,
            decode-Runs m' valid others (omega (arith, more, covered_now)),
          )
        ]

    run_request-Runs : (l' : RunLoop ops) × (run_request ops l id r ≡ some l') × Runs (suc n) l'
    unfolding run_request
    run_request-Runs =
        let s' = l.scheduler in
        let t = r.num_computed_tokens in
        let u = add_usize t (tokens_to_decode r) in
        let full : (s'.block_size == 0) ≡ false = ground (arith, h.inv.size) in
        elim (Bool-cases (leb s'.max_model_len t)) [
          | inl end ↦
              let r' : SchedulerRequest = record r { status = finished_length } in
              (
                record l { scheduler = record s' { requests = insert id r' s'.requests } },
                rw end refl,
                record {
                  inv =
                      write_request r' s'.kv_cache_manager h.inv.manager (λ j d. refl) covered_now
                        (h.inv.bounded id r tracked);
                  same_running = h.same_running;
                  same_waiting = h.same_waiting;
                  same_config = h.same_config;
                  same_finished = h.same_finished;
                  budget = h.budget;
                  few = omega (arith, h.few);
                  known = h.known;
                  idle = write_idle r';
                },
              )
          | inr more ↦
              elim (Bool-cases (ltb (div_ceil t s'.block_size) (div_ceil u s'.block_size))) [
                | inl grow ↦ let (l', e, keeps) = grow-Runs in (l', rw (more, full, grow) e, keeps)
                | inr stay ↦ (
                  decode ops l id r (tokens_to_decode r) s'.kv_cache_manager,
                  rw (more, full, stay) refl,
                  decode-Runs s'.kv_cache_manager h.inv.manager (λ j d. refl)
                      (div_ceil-covers (c.held (c.entry s'.kv_cache_manager id)) block_size t u
                        positive covered_now (ground (arith, stay, h.inv.size))),
                )
              ]
        ]

  run_id-Runs :
      (n : ℕ) (l : RunLoop ops)
      → Runs n l
      → (id : ℕ) → In id s.running
      → l.budget_used < max_budget
      → (l' : RunLoop ops) × (run_id ops l id ≡ some l') × Runs (suc n) l'
  unfolding run_id
  run_id-Runs n l h id member room = elim (Option-cases (lookup id l.scheduler.requests)) [
    | inl e ↦ (l, rw (run_id, e) refl, later n (suc n) l (omega arith) h)
    | inr (r, e) ↦
        let (l', f, keeps) = run_request-Runs n l h id member room r e in
        (l', rw (run_id, e) f, keeps)
  ]

  pub run_all-Runs :
      (todo : List ℕ) (n : ℕ) (l : RunLoop ops)
      → Runs n l
      → ((i : ℕ) → In i todo → In i s.running)
      → (l' : RunLoop ops) × (run_all ops todo max_budget l ≡ some l') × Runs (length todo + n) l'
  unfolding run_all
  run_all-Runs [] n l h sub = (l, refl, later n (0 + n) l (omega arith) h)
  run_all-Runs (id ∷ todo) n l h sub = elim (Bool-cases (leb max_budget l.budget_used)) [
    | inl full ↦ (l, rw full refl, later n (length (id ∷ todo) + n) l (omega arith) h)
    | inr room ↦
        let (l₁, e, h₁) = run_id-Runs n l h id (sub id (inl refl)) (ground (arith, room)) in
        let (l₂, f, h₂) = run_all-Runs todo (suc n) l₁ h₁ (λ i k. sub i (inr k)) in
        (
          l₂,
          rw (room, e) f,
          later (length todo + suc n) (length (id ∷ todo) + n) l₂ (omega arith) h₂,
        )
  ]
