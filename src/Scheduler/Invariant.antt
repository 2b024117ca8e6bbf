-- ===== src/Scheduler/Invariant.antt =====
-- crates/rllm-scheduler/src/scheduler.rs: what holds of the scheduler between two operations.
use r_llm.Shared.{
  ℕ, ◌*◌, ◌≤◌, some, ◌≡◌, sym, ◌∙◌, ◌≢◌, ◌⊎◌, arith, In, NotIn, Distinct, length, lookup,
  lookup-insert, insert, Map, subst, ℕ_discrete,
}
use r_llm.Scheduler.Policy.Members.{ids}
use r_llm.Scheduler.State.{ManagerOps, SchedulerRequest, Scheduler}
use r_llm.Scheduler.Contract.{Contract}
use r_llm.Scheduler.Run.{draft_tokens}

-- A prompt has at most `prompts` tokens, and at most `drafts` are decoded with the next one.
abbrev pub IsBounded : ℕ → ℕ → SchedulerRequest → Type 0
IsBounded prompts drafts r =
    (length r.prompt_token_ids ≤ prompts) × (draft_tokens r.request.speculative_decoding ≤ drafts)

module _ {M : Type 0} {ops : ManagerOps M} {block_size : ℕ} (c : Contract ops block_size)
    (prompts drafts : ℕ) where
  -- No request is both waiting and running, the tokens that count as computed have blocks, and no
  -- request but the running ones has blocks beyond them.
  pub record Inv (k : ℕ) (s : Scheduler M) : Type 0 where
    pub manager : c.Valid k s.kv_cache_manager
    pub size : s.block_size ≡ block_size
    pub queue : Distinct (ids s.waiting.entries)
    pub apart : (i : ℕ) → In i s.running → NotIn i (ids s.waiting.entries)
    pub ready : (i : ℕ) → NotIn i s.running → c.Ready (c.entry s.kv_cache_manager i)
    pub covered :
        (i : ℕ) (r : SchedulerRequest)
        → In i s.running ⊎ In i (ids s.waiting.entries)
        → lookup i s.requests ≡ some r
        → r.num_computed_tokens ≤ c.held (c.entry s.kv_cache_manager i) * block_size
    pub bounded :
        (i : ℕ) (r : SchedulerRequest) → lookup i s.requests ≡ some r → IsBounded prompts drafts r

  -- The manager `m'` knows of all requests but `id` what `m` does.
  abbrev pub Others : M → ℕ → M → Type 0
  Others m id m' = (j : ℕ) → id ≢ j → c.entry m' j ≡ c.entry m j

  pub Others-all :
      (m : M) (id : ℕ) (m' : M)
      → Others m id m'
      → c.entry m' id ≡ c.entry m id
      → (i : ℕ) → c.entry m' i ≡ c.entry m i
  Others-all m id m' others same i = elim (ℕ_discrete id i) [
    | yes q ↦ subst (λ x. c.entry m' x ≡ c.entry m x) q same
    | no d ↦ others i d
  ]

  module _ (j k : ℕ) (s : Scheduler M) (inv : Inv j s) where
    -- A manager that knows the same of every request.
    pub Inv-manager :
        (m' : M)
        → c.Valid k m'
        → ((i : ℕ) → c.entry m' i ≡ c.entry s.kv_cache_manager i)
        → Inv k (record s { kv_cache_manager = m' })
    Inv-manager m' valid same = record {
      manager = valid;
      size = inv.size;
      queue = inv.queue;
      apart = inv.apart;
      ready = λ i n. subst c.Ready (sym (same i)) (inv.ready i n);
      covered = λ i r h e.
          subst (λ v. r.num_computed_tokens ≤ c.held v * block_size) (sym (same i))
            (inv.covered i r h e);
      bounded = inv.bounded;
    }

    -- The records of the requests change at `id` at most, and so does what the manager knows.
    pub Inv-table :
        (id : ℕ) (table : Map SchedulerRequest) (m' : M)
        → c.Valid k m'
        → Others s.kv_cache_manager id m'
        → (NotIn id s.running → c.Ready (c.entry m' id))
        → ((i : ℕ) → id ≢ i → lookup i table ≡ lookup i s.requests)
        → ((r : SchedulerRequest)
            → lookup id table ≡ some r
            → (r.num_computed_tokens ≤ c.held (c.entry m' id) * block_size)
              × IsBounded prompts drafts r)
        → Inv k (record s { requests = table; kv_cache_manager = m' })
    Inv-table id table m' valid others ready elsewhere here = record {
      manager = valid;
      size = inv.size;
      queue = inv.queue;
      apart = inv.apart;
      ready = λ i n. elim (ℕ_discrete id i) [
        | yes e ↦
            subst (λ x. c.Ready (c.entry m' x)) e (ready (subst (λ x. NotIn x s.running) (sym e) n))
        | no d ↦ subst c.Ready (sym (others i d)) (inv.ready i n)
      ];
      covered = λ i r h e. elim (ℕ_discrete id i) [
        | yes q ↦
            subst (λ x. r.num_computed_tokens ≤ c.held (c.entry m' x) * block_size) q
              (here r (subst (λ x. lookup x table ≡ some r) (sym q) e)).0
        | no d ↦
            subst (λ v. r.num_computed_tokens ≤ c.held v * block_size) (sym (others i d))
              (inv.covered i r h (sym (elsewhere i d) ∙ e))
      ];
      bounded = λ i r e. elim (ℕ_discrete id i) [
        | yes q ↦ (here r (subst (λ x. lookup x table ≡ some r) (sym q) e)).1
        | no d ↦ inv.bounded i r (sym (elsewhere i d) ∙ e)
      ];
    }

    -- One request's record and its entry in the manager change.
    pub Inv-request :
        (id : ℕ) (r' : SchedulerRequest) (m' : M)
        → c.Valid k m'
        → Others s.kv_cache_manager id m'
        → (NotIn id s.running → c.Ready (c.entry m' id))
        → r'.num_computed_tokens ≤ c.held (c.entry m' id) * block_size
        → IsBounded prompts drafts r'
        → Inv k (record s { requests = insert id r' s.requests; kv_cache_manager = m' })
    Inv-request id r' m' valid others ready covered bounded =
        Inv-table id (insert id r' s.requests) m' valid others ready
          (λ i d. ground (arith, lookup-insert id i r' s.requests, d))
          (λ r e.
            let same : r' ≡ r = ground (arith, lookup-insert id id r' s.requests, e) in
            subst
              (λ q.
                (q.num_computed_tokens ≤ c.held (c.entry m' id) * block_size)
                × IsBounded prompts drafts q)
              same (covered, bounded))
