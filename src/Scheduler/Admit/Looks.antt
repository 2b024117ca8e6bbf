-- ===== src/Scheduler/Admit/Looks.antt =====
-- crates/rllm-scheduler/src/scheduler.rs: the look-up of the prefix of a waiting request.
use r_llm.Shared.{
  ℕ, ◌+◌, ◌*◌, ◌≤◌, Bool, Option, none, some, List, ◌≡◌, refl, sym, ◌≢◌, arith, In, NotIn, NotIn-In,
  length, lookup, lookup-insert, Map, subst,
}
use r_llm.Scheduler.Policy.Members.{ids}
use r_llm.Scheduler.State.{ManagerOps, SchedulerRequest, Scheduler}
use r_llm.Scheduler.Contract.{Contract}
use r_llm.Scheduler.Invariant.{Inv, IsBounded, Inv-table}
use r_llm.Scheduler.Moves.{Inv-counters, Inv-weaken}
use r_llm.Scheduler.Admit.{record_lookup, probe, update_request, admit_as}

pub update-elsewhere :
    (found : Option SchedulerRequest) (f : SchedulerRequest → SchedulerRequest) (id : ℕ)
    (table : Map SchedulerRequest) (j : ℕ)
    → id ≢ j
    → lookup j (update_request found f id table) ≡ lookup j table
unfolding update_request
update-elsewhere none f id table j d = refl
update-elsewhere (some r) f id table j d = ground (arith, lookup-insert id j (f r) table, d)

pub update-here :
    (f : SchedulerRequest → SchedulerRequest) (id : ℕ) (table : Map SchedulerRequest)
    (found : Option SchedulerRequest)
    → lookup id table ≡ found
    → (r : SchedulerRequest) → lookup id (update_request found f id table) ≡ some r
    → (q : SchedulerRequest) × (lookup id table ≡ some q) × (f q ≡ r)
unfolding update_request
update-here f id table none e r h = absurd (ground (arith, e, h))
update-here f id table (some q) e r h = (q, e, ground (arith, lookup-insert id id (f q) table, h))

module _ {M : Type 0} {ops : ManagerOps M} {block_size : ℕ} (c : Contract ops block_size)
    (prompts drafts : ℕ) where
  -- The scheduler after some look-ups of prefixes, of waiting requests.
  pub record Looks (k : ℕ) (s s' : Scheduler M) : Type 0 where
    pub inv : Inv c prompts drafts k s'
    pub same_running : s'.running ≡ s.running
    pub same_waiting : s'.waiting ≡ s.waiting
    pub same_config : s'.config ≡ s.config
    pub idle :
        (j : ℕ) → NotIn j (ids s.waiting.entries) → lookup j s'.requests ≡ lookup j s.requests

  pub Looks-refl : (k : ℕ) (s : Scheduler M) → Inv c prompts drafts k s → Looks k s s
  Looks-refl k s h = record {
    inv = h;
    same_running = refl;
    same_waiting = refl;
    same_config = refl;
    idle = λ j n. refl;
  }

  pub Looks-next : (j k : ℕ) (s t u : Scheduler M) → Looks j s t → Looks k t u → Looks k s u
  Looks-next j k s t u h g = record {
    inv = g.inv;
    same_running = cc (g.same_running, h.same_running);
    same_waiting = cc (g.same_waiting, h.same_waiting);
    same_config = cc (g.same_config, h.same_config);
    idle = λ i n.
        let e = h.idle i n in
        let f = g.idle i (subst (λ q. NotIn i (ids q.entries)) (sym h.same_waiting) n) in cc (e, f);
  }

  pub Looks-weaken : (j k : ℕ) (s s' : Scheduler M) → Looks (j + k) s s' → Looks k s s'
  Looks-weaken j k s s' h =
      Looks-next (j + k) k s s' s' h (Looks-refl k s' (Inv-weaken c prompts drafts j k s' h.inv))

  -- The admission that is noted last.
  pub admit_as-Looks :
      (k : ℕ) (s s' : Scheduler M) (id cached : ℕ)
      → Looks k s s'
      → Looks k s (admit_as ops id cached s')
  unfolding admit_as
  admit_as-Looks k s s' id cached h = record {
    inv = Inv-counters c prompts drafts k s' _ _ _ h.inv;
    same_running = h.same_running;
    same_waiting = h.same_waiting;
    same_config = h.same_config;
    idle = h.idle;
  }

  module _ (k : ℕ) (s : Scheduler M) (id : ℕ) (prompt found : List ℕ) (cached : ℕ) (m' : M)
      (h : Inv c prompts drafts (length prompt + k) s) (queued : In id (ids s.waiting.entries))
      (valid : c.Valid k m')
      (others : (j : ℕ) → id ≢ j → c.entry m' j ≡ c.entry s.kv_cache_manager j)
      (enough : cached ≤ c.held (c.entry m' id) * block_size)
      (ready : c.Ready (c.entry s.kv_cache_manager id) → c.Ready (c.entry m' id)) where
    looked_up : SchedulerRequest → SchedulerRequest
    looked_up r = record r { cached_block_ids = found; num_computed_tokens = cached }

    looked_up_table : Map SchedulerRequest
    looked_up_table = update_request (lookup id s.requests) looked_up id s.requests

    record_lookup-Inv :
        Inv c prompts drafts k (record s { requests = looked_up_table; kv_cache_manager = m' })
    unfolding looked_up_table looked_up
    record_lookup-Inv =
        Inv-table c prompts drafts (length prompt + k) k s h id looked_up_table m' valid others
          (λ n. ready (h.ready id n))
          (update-elsewhere (lookup id s.requests) looked_up id s.requests)
          (λ r e.
            let (q, f, same) =
              update-here looked_up id s.requests (lookup id s.requests) refl r e in
            subst
              (λ x.
                (x.num_computed_tokens ≤ c.held (c.entry m' id) * block_size)
                × IsBounded prompts drafts x)
              same (enough, h.bounded id q f))

    record_lookup-Looks : Looks k s (record_lookup ops s id found cached m')
    unfolding record_lookup looked_up_table looked_up
    record_lookup-Looks = record {
      inv = Inv-counters c prompts drafts k _ _ _ _ record_lookup-Inv;
      same_running = refl;
      same_waiting = refl;
      same_config = refl;
      idle = λ j n.
          update-elsewhere (lookup id s.requests) _ id s.requests j
            (λ q. NotIn-In j id (ids s.waiting.entries) n queued (sym q));
    }

  pub probe-Looks :
      (k : ℕ) (s : Scheduler M) (id : ℕ) (prompt : List ℕ) (skip : Bool)
      → Inv c prompts drafts (length prompt + k) s
      → In id (ids s.waiting.entries)
      → (cached : ℕ) × (s' : Scheduler M) × (probe ops s id prompt skip ≡ some (cached, s'))
        × Looks k s s'
        × (cached ≤ c.held (c.entry s'.kv_cache_manager id) * block_size)
  unfolding probe record_lookup
  probe-Looks k s id prompt skip h queued =
      let (found, cached, m', e, valid, others, enough, ready) =
        c.get k s.kv_cache_manager id prompt skip h.manager in
      (
        cached,
        record_lookup ops s id found cached m',
        rw e refl,
        record_lookup-Looks k s id prompt found cached m' h queued valid others enough ready,
        enough,
      )
