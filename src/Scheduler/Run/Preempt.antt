-- ===== src/Scheduler/Run/Preempt.antt =====
-- crates/rllm-scheduler/src/scheduler.rs, `preempt_request`, for one request and for several.
use r_llm.Shared.{
  ℕ, ◌+◌, ◌*◌, ◌≤◌, Option, none, some, List, [], ◌∷◌, ◌++◌, ◌≡◌, refl, sym, ◌∙◌, ◌≢◌, ◌⊎◌, inl,
  inr, arith, In, NotIn, NotIn-In, In-without, NotIn-without, length-without, without-NotIn, In-dec,
  length, without, lookup, lookup-insert, subst, ℕ_discrete,
}
use r_llm.Core.Status.{waiting}
use r_llm.Scheduler.Policy.Members.{ids, push-NotIn, push-Distinct, length-push}
use r_llm.Scheduler.State.{ManagerOps, SchedulerRequest, Scheduler, add_usize}
use r_llm.Scheduler.Contract.{Contract}
use r_llm.Scheduler.Run.{requeue, preempt_request, preempt_all}
use r_llm.Scheduler.Invariant.{Inv, IsBounded}

module _ {M : Type 0} {ops : ManagerOps M} {block_size : ℕ} (c : Contract ops block_size)
    (prompts drafts k : ℕ) where
  -- The scheduler `s'` is `s` after the preemption of `todo`.
  pub record Preempts (s : Scheduler M) (todo : List ℕ) (s' : Scheduler M) : Type 0 where
    pub inv : Inv c prompts drafts k s'
    pub same_config : s'.config ≡ s.config
    pub fewer_running : length s'.running ≤ length s.running
    pub more_waiting : length s'.waiting.entries ≤ length todo + length s.waiting.entries
    pub idle :
        (j : ℕ)
        → NotIn j todo
        → NotIn j s.running
        → NotIn j (ids s.waiting.entries)
        → (lookup j s'.requests ≡ lookup j s.requests)
          × NotIn j s'.running
          × NotIn j (ids s'.waiting.entries)

  module _ (s : Scheduler M) (h : Inv c prompts drafts k s) (id : ℕ) (m' : M) (valid : c.Valid k m')
      (others : (j : ℕ) → id ≢ j → c.entry m' j ≡ c.entry s.kv_cache_manager j)
      (ready : c.Ready (c.entry m' id)) where
    unfoldable pub released : Scheduler M
    released = record s {
      running = without id s.running;
      kv_cache_manager = m';
      total_preemptions = add_usize s.total_preemptions 1;
    }

    -- All but the requests that are covered, since `id` may still be in the queue.
    ready_now : (i : ℕ) → NotIn i (without id s.running) → c.Ready (c.entry m' i)
    ready_now i n = elim (ℕ_discrete id i) [
      | yes q ↦ subst (λ x. c.Ready (c.entry m' x)) q ready
      | no d ↦ elim (NotIn-without i id s.running n) [
        | inl q ↦ absurd (d (sym q))
        | inr out ↦ subst c.Ready (sym (others i d)) (h.ready i out)
      ]
    ]

    covered_other :
        (i : ℕ) (r : SchedulerRequest)
        → id ≢ i
        → In i s.running ⊎ In i (ids s.waiting.entries)
        → lookup i s.requests ≡ some r
        → r.num_computed_tokens ≤ c.held (c.entry m' i) * block_size
    covered_other i r d where_ e =
        subst (λ v. r.num_computed_tokens ≤ c.held v * block_size) (sym (others i d))
          (h.covered i r where_ e)

    pub requeue-Preempts :
        (found : Option SchedulerRequest)
        → lookup id s.requests ≡ found
        → Preempts s (id ∷ []) (requeue ops released id found)
    unfolding requeue released
    requeue-Preempts none e = record {
      inv = record {
        manager = valid;
        size = h.size;
        queue = h.queue;
        apart = λ i g. h.apart i (In-without id i s.running g).1;
        ready = ready_now;
        covered = λ i r g f. elim g [
          | inl g' ↦ let (d, g'') = In-without id i s.running g' in covered_other i r d (inl g'') f
          | inr g' ↦ elim (ℕ_discrete id i) [
            | yes q ↦ absurd (ground (arith, e, f, q))
            | no d ↦ covered_other i r d (inr g') f
          ]
        ];
        bounded = h.bounded;
      };
      same_config = refl;
      fewer_running = length-without id s.running;
      more_waiting = omega arith;
      idle = λ j t n w. (refl, without-NotIn j id s.running n, w);
    }
    requeue-Preempts (some r) e =
        let priority = r.request.priority in
        let arrival = r.request.arrival_time in
        let r' : SchedulerRequest = record r {
          num_computed_tokens = 0;
          cached_block_ids = [];
          status = waiting;
        } in
        record {
          inv = record {
            manager = valid;
            size = h.size;
            queue = push-Distinct s.waiting id priority arrival h.queue;
            apart = λ i g.
                let (d, g') = In-without id i s.running g in
                push-NotIn s.waiting id priority arrival i (λ q. d (sym q)) (h.apart i g');
            ready = ready_now;
            covered = λ i q g f. elim (ℕ_discrete id i) [
              | yes p ↦
                  let zero_now : q.num_computed_tokens ≡ 0 =
                    ground (arith, lookup-insert id i r' s.requests, f, p) in
                  omega (arith, zero_now)
              | no d ↦
                  let old : lookup i s.requests ≡ some q =
                    ground (arith, lookup-insert id i r' s.requests, f, d) in
                  elim g [
                    | inl g' ↦ covered_other i q d (inl (In-without id i s.running g').1) old
                    | inr g' ↦ elim (In-dec i (ids s.waiting.entries)) [
                      | inl g'' ↦ covered_other i q d (inr g'') old
                      | inr out ↦ absurd (
                          NotIn-In i i _
                            (push-NotIn s.waiting id priority arrival i (λ p. d (sym p)) out) g'
                            refl)
                    ]
                  ]
            ];
            bounded = λ i q f. elim (ℕ_discrete id i) [
              | yes p ↦
                  let same : r' ≡ q = ground (arith, lookup-insert id i r' s.requests, f, p) in
                  subst (IsBounded prompts drafts) same (h.bounded id r e)
              | no d ↦ h.bounded i q (ground (arith, lookup-insert id i r' s.requests, f, d))
            ];
          };
          same_config = refl;
          fewer_running = length-without id s.running;
          more_waiting = omega (arith, length-push s.waiting id priority arrival);
          idle = λ j (ne, _) n w. (
            ground (arith, lookup-insert id j r' s.requests, ne),
            without-NotIn j id s.running n,
            push-NotIn s.waiting id priority arrival j ne w,
          );
        }

  preempt_request-Preempts :
      (s : Scheduler M) (id : ℕ)
      → Inv c prompts drafts k s
      → (s' : Scheduler M) × (preempt_request ops s id ≡ some s') × Preempts s (id ∷ []) s'
  unfolding preempt_request released without
  preempt_request-Preempts s id h =
      let (m', e, valid, others, ready, _) = c.release k s.kv_cache_manager id h.manager in
      (
        requeue ops (released s h id m' valid others ready) id (lookup id s.requests),
        rw e refl,
        requeue-Preempts s h id m' valid others ready (lookup id s.requests) refl,
      )

  preempted_next :
      (s s₁ s₂ : Scheduler M) (id : ℕ) (todo : List ℕ)
      → Preempts s (id ∷ []) s₁
      → Preempts s₁ todo s₂
      → Preempts s (id ∷ todo) s₂
  preempted_next s s₁ s₂ id todo h g = record {
    inv = g.inv;
    same_config = g.same_config ∙ h.same_config;
    fewer_running = omega (arith, g.fewer_running, h.fewer_running);
    more_waiting = omega (arith, g.more_waiting, h.more_waiting);
    idle = λ j (ne, t) n w.
        let (e, n₁, w₁) = h.idle j (ne, tt) n w in
        let (f, n₂, w₂) = g.idle j t n₁ w₁ in (f ∙ e, n₂, w₂);
  }

  pub preempt_all-Preempts :
      (todo : List ℕ) (s : Scheduler M) (preempted : List ℕ)
      → Inv c prompts drafts k s
      → (s' : Scheduler M) × (all : List ℕ) × (preempt_all ops todo s preempted ≡ some (s', all))
        × Preempts s todo s'
  unfolding preempt_all
  preempt_all-Preempts [] s preempted h = (
    s,
    preempted,
    refl,
    record {
      inv = h;
      same_config = refl;
      fewer_running = omega arith;
      more_waiting = omega arith;
      idle = λ j t n w. (refl, n, w);
    },
  )
  preempt_all-Preempts (id ∷ todo) s preempted h =
      let (s₁, e, h₁) = preempt_request-Preempts s id h in
      let (s₂, all, f, h₂) = preempt_all-Preempts todo s₁ (preempted ++ id ∷ []) h₁.inv in
      (s₂, all, rw e f, preempted_next s s₁ s₂ id todo h₁ h₂)
