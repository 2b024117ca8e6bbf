-- ===== src/Scheduler/Moves.antt =====
-- crates/rllm-scheduler/src/scheduler.rs: how a part of a step leads from one scheduler to another.
use r_llm.Shared.{ℕ, ◌+◌, ◌≡◌, refl, ◌∙◌, NotIn, lookup}
use r_llm.Scheduler.Policy.Members.{ids}
use r_llm.Scheduler.State.{ManagerOps, Scheduler, PrefixCacheAdmission}
use r_llm.Scheduler.Contract.{Contract}
use r_llm.Scheduler.Invariant.{Inv, Inv-manager}

module _ {M : Type 0} {ops : ManagerOps M} {block_size : ℕ} (c : Contract ops block_size)
    (prompts drafts : ℕ) where
  -- Between `s` and `s'`, a request that neither runs nor waits is untouched.
  pub record Moves (k : ℕ) (s s' : Scheduler M) : Type 0 where
    pub inv : Inv c prompts drafts k s'
    pub same_config : s'.config ≡ s.config
    pub idle :
        (j : ℕ)
        → NotIn j s.running
        → NotIn j (ids s.waiting.entries)
        → (lookup j s'.requests ≡ lookup j s.requests)
          × NotIn j s'.running
          × NotIn j (ids s'.waiting.entries)

  pub Moves-refl : (k : ℕ) (s : Scheduler M) → Inv c prompts drafts k s → Moves k s s
  Moves-refl k s h = record { inv = h; same_config = refl; idle = λ j n w. (refl, n, w) }

  pub Moves-next : (j k : ℕ) (s t u : Scheduler M) → Moves j s t → Moves k t u → Moves k s u
  Moves-next j k s t u h g = record {
    inv = g.inv;
    same_config = g.same_config ∙ h.same_config;
    idle = λ i n w.
        let (e, n₁, w₁) = h.idle i n w in let (f, n₂, w₂) = g.idle i n₁ w₁ in (f ∙ e, n₂, w₂);
  }

  pub Inv-weaken :
      (j k : ℕ) (s : Scheduler M) → Inv c prompts drafts (j + k) s → Inv c prompts drafts k s
  Inv-weaken j k s h =
      Inv-manager c prompts drafts (j + k) k s h s.kv_cache_manager
        (c.weaken j k s.kv_cache_manager h.manager) (λ i. refl)

  -- The counters of the prefix cache play no part.
  pub Inv-counters :
      (k : ℕ) (s : Scheduler M) (lookups hits : ℕ) (admission : PrefixCacheAdmission)
      → Inv c prompts drafts k s
      → Inv c prompts drafts k (record s {
        prefix_cache_lookups = lookups;
        prefix_cache_hits = hits;
        prefix_cache_admission = admission;
      })
  Inv-counters k s lookups hits admission h = record {
    manager = h.manager;
    size = h.size;
    queue = h.queue;
    apart = h.apart;
    ready = h.ready;
    covered = h.covered;
    bounded = h.bounded;
  }
