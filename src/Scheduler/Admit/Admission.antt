-- ===== src/Scheduler/Admit/Admission.antt =====
-- crates/rllm-scheduler/src/scheduler.rs, `schedule_waiting`: a whole round, for one request.
use r_llm.Shared.{
  ℕ, suc, ◌+◌, ◌-◌, ◌≤◌, ◌<◌, some, ◌≡◌, refl, sym, inl, inr, arith, In, NotIn, NotIn-In, In-dec,
  length, lookup, subst, ◌==◌, Bool-cases,
}
use r_llm.Scheduler.Policy.Members.{ids}
use r_llm.Scheduler.State.{ManagerOps, Scheduler}
use r_llm.Scheduler.Contract.{Contract}
use r_llm.Scheduler.Invariant.{Inv}
use r_llm.Scheduler.Moves.{Moves-next}
use r_llm.Scheduler.Admit.{
  AdmitLoop, Round, next, stop, read_request, tokens_to_prefill, admit_cached, admit,
}
use r_llm.Scheduler.Admit.Looks.{Looks}
use r_llm.Scheduler.Admit.Select.{cached_tokens-Looks}
use r_llm.Scheduler.Admit.Rounds.{
  Looks-Moves, Ends, Goes, stops, admit_cached-Ends, allocate_and_prefill-Ends,
  tokens_to_prefill-le,
}

module _ {M : Type 0} {ops : ManagerOps M} {block_size : ℕ} (c : Contract ops block_size)
    (prompts drafts : ℕ) where
  -- Some look-ups go before.
  pub Ends-after :
      (j k max_budget : ℕ) (l : AdmitLoop ops) (s₀ s : Scheduler M) (l' : AdmitLoop ops)
      → Looks c prompts drafts j s₀ s
      → Ends c prompts drafts k max_budget l s l'
      → Ends c prompts drafts k max_budget l s₀ l'
  Ends-after j k max_budget l s₀ s l' looks ends = record {
    moves =
        Moves-next c prompts drafts j k s₀ s l'.scheduler
          (Looks-Moves c prompts drafts j s₀ s looks) ends.moves;
    budget = ends.budget;
    counts =
        subst (λ r. length l'.scheduler.running ≤ suc (length r)) looks.same_running ends.counts;
    same_finished = ends.same_finished;
  }

  pub Goes-after :
      (k : ℕ) (s₀ s : Scheduler M) (round : Round ops) (l' : AdmitLoop ops)
      → Looks c prompts drafts k s₀ s
      → Goes c prompts drafts s round l'
      → Goes c prompts drafts s₀ round l'
  Goes-after k s₀ s round l' looks (inl (e, fewer)) = inl (
    e,
    subst (λ q. suc (length l'.scheduler.waiting.entries) ≡ length q.entries) looks.same_waiting
        fewer,
  )
  Goes-after k s₀ s round l' looks (inr e) = inr e

  waiting-out :
      (k : ℕ) (s : Scheduler M) (id : ℕ)
      → Inv c prompts drafts k s
      → In id (ids s.waiting.entries)
      → NotIn id s.running
  waiting-out k s id h queued = elim (In-dec id s.running) [
    | inl g ↦ absurd (NotIn-In id id (ids s.waiting.entries) (h.apart id g) queued refl)
    | inr n ↦ n
  ]

  -- A round for a request of the queue comes to an end: no call of the manager panics.
  pub admit-Ends :
      (k max_budget : ℕ) (l : AdmitLoop ops) (s₀ : Scheduler M) (id : ℕ)
      → l.budget_used < max_budget
      → Inv c prompts drafts (prompts + k) s₀
      → In id (ids s₀.waiting.entries)
      → (round : Round ops) × (l' : AdmitLoop ops) × (admit ops l s₀ id max_budget ≡ some round)
        × Goes c prompts drafts s₀ round l'
        × Ends c prompts drafts k max_budget l s₀ l'
  unfolding admit
  admit-Ends k max_budget l s₀ id room h queued =
      let (n, s, e, looks, covered) = cached_tokens-Looks c prompts drafts k s₀ h id queued in
      let remaining = read_request (lookup id s.requests) (λ r. length r.prompt_token_ids) 0 - n in
      let available = max_budget - l.budget_used in
      let tokens = tokens_to_prefill ops s remaining available n in
      let few = tokens_to_prefill-le ops s remaining available n in
      let queued' = subst (λ q. In id (ids q.entries)) (sym looks.same_waiting) queued in
      let out = waiting-out k s id looks.inv queued' in
      elim (Bool-cases (remaining == 0)) [
        | inl z ↦
            let (ends, fewer) =
              admit_cached-Ends c prompts drafts k max_budget l room s looks.inv id queued' in
            let l' = admit_cached ops l s id in
            (
              next l',
              l',
              rw (e, z) refl,
              Goes-after k s₀ s (next l') l' looks (inl (refl, fewer)),
              Ends-after k k max_budget l s₀ s l' looks ends,
            )
        | inr more ↦ elim (Bool-cases (tokens == 0)) [
          | inl z ↦
              let l' : AdmitLoop ops = record l { scheduler = s } in
              (
                stop l',
                l',
                rw (e, more, z) refl,
                inr refl,
                Ends-after k k max_budget l s₀ s l' looks (
                    stops c prompts drafts k max_budget l room s looks.inv id queued'
                      s.kv_cache_manager looks.inv.manager (λ i. refl)),
              )
          | inr some_now ↦
              let fits : l.budget_used + tokens ≤ max_budget = omega (arith, few, room) in
              let (round, l', f, goes, ends) =
                allocate_and_prefill-Ends c prompts drafts k max_budget l room s looks.inv id
                  queued' n tokens out fits covered in
              (
                round,
                l',
                rw (e, more, some_now) f,
                Goes-after k s₀ s round l' looks goes,
                Ends-after k k max_budget l s₀ s l' looks ends,
              )
        ]
      ]
