-- ===== src/Scheduler/Admit/Start.antt =====
-- crates/rllm-scheduler/src/scheduler.rs, `schedule_waiting`: how a request starts to run.
use r_llm.Shared.{
  ℕ, suc, ◌*◌, ◌≤◌, some, [], ◌∷◌, ◌≡◌, refl, sym, ◌∙◌, ◌≢◌, ◌⊎◌, inl, inr, arith, In, NotIn,
  NotIn-In, NotIn-append, append-NotIn, In-append, length, length-append, lookup, Map, subst,
  ℕ_discrete,
}
use r_llm.Core.Status.{running}
use r_llm.Scheduler.Policy
use r_llm.Scheduler.Policy.{QueueEntry, remove_entry}
use r_llm.Scheduler.Policy.Members.{
  ids, NotIn-remove, In-remove, Distinct-remove, NotIn-remove_self, length-remove,
}
use r_llm.Scheduler.State.{ManagerOps, SchedulerRequest, Scheduler}
use r_llm.Scheduler.Contract.{Contract}
use r_llm.Scheduler.Invariant.{Inv, IsBounded}
use r_llm.Scheduler.Moves.{Moves}
use r_llm.Scheduler.Admit.{update_request, start_running}
use r_llm.Scheduler.Admit.Looks.{update-elsewhere, update-here}

module _ {M : Type 0} {ops : ManagerOps M} {block_size : ℕ} (c : Contract ops block_size)
    (prompts drafts j k : ℕ) (s : Scheduler M) (h : Inv c prompts drafts j s) (id : ℕ)
    (queued : In id (ids s.waiting.entries)) (update : SchedulerRequest → SchedulerRequest) (m' : M)
    (valid : c.Valid k m') (others : (i : ℕ) → id ≢ i → c.entry m' i ≡ c.entry s.kv_cache_manager i)
    (bounded : (r : SchedulerRequest)
      → IsBounded prompts drafts r
      → IsBounded prompts drafts (update r))
    (covered : (r : SchedulerRequest)
      → lookup id s.requests ≡ some r
      → (update r).num_computed_tokens ≤ c.held (c.entry m' id) * block_size) where
  started_request : SchedulerRequest → SchedulerRequest
  started_request r = record (update r) { status = running }

  started : Map SchedulerRequest
  started = update_request (lookup id s.requests) started_request id s.requests

  elsewhere : (i : ℕ) → id ≢ i → lookup i started ≡ lookup i s.requests
  unfolding started
  elsewhere i d = update-elsewhere (lookup id s.requests) started_request id s.requests i d

  here :
      (r : SchedulerRequest)
      → lookup id started ≡ some r
      → (r.num_computed_tokens ≤ c.held (c.entry m' id) * block_size) × IsBounded prompts drafts r
  unfolding started started_request
  here r e =
      let (q, f, same) =
        update-here started_request id s.requests (lookup id s.requests) refl r e in
      subst
        (λ x.
          (x.num_computed_tokens ≤ c.held (c.entry m' id) * block_size)
          × IsBounded prompts drafts x)
        same (covered q f, bounded q (h.bounded id q f))

  pub start_running-Moves :
      Moves c prompts drafts k s (record (start_running ops s id update) { kv_cache_manager = m' })
  unfolding start_running Policy.pop_request started started_request
  start_running-Moves = record {
    inv = record {
      manager = valid;
      size = h.size;
      queue = Distinct-remove id s.waiting.entries h.queue;
      apart = λ i g. elim (In-append i s.running (id ∷ []) g) [
        | inl old ↦ NotIn-remove i id s.waiting.entries (h.apart i old)
        | inr (inl q) ↦
            subst (λ x. NotIn x (ids (remove_entry id s.waiting.entries))) (sym q)
              (NotIn-remove_self id s.waiting.entries h.queue)
        | inr (inr bad) ↦ absurd bad
      ];
      ready = λ i n.
          let (out, (ne, _)) = NotIn-append i s.running (id ∷ []) n in
          subst c.Ready (sym (others i (λ q. ne (sym q)))) (h.ready i out);
      covered = λ i r g e. elim (ℕ_discrete id i) [
        | yes q ↦
            subst (λ x. r.num_computed_tokens ≤ c.held (c.entry m' x) * block_size) q
              (here r (subst (λ x. lookup x started ≡ some r) (sym q) e)).0
        | no d ↦
            let before : In i s.running ⊎ In i (ids s.waiting.entries) = elim g [
              | inl run ↦ elim (In-append i s.running (id ∷ []) run) [
                | inl old ↦ inl old
                | inr (inl q) ↦ absurd (d (sym q))
                | inr (inr bad) ↦ absurd bad
              ]
              | inr wait ↦ inr (In-remove i id s.waiting.entries wait)
            ] in
            subst (λ v. r.num_computed_tokens ≤ c.held v * block_size) (sym (others i d))
              (h.covered i r before (sym (elsewhere i d) ∙ e))
      ];
      bounded = λ i r e. elim (ℕ_discrete id i) [
        | yes q ↦ (here r (subst (λ x. lookup x started ≡ some r) (sym q) e)).1
        | no d ↦ h.bounded i r (sym (elsewhere i d) ∙ e)
      ];
    };
    same_config = refl;
    idle = λ i n w.
        let d = NotIn-In i id (ids s.waiting.entries) w queued in
        (
          elsewhere i (λ q. d (sym q)),
          append-NotIn i s.running (id ∷ []) n (d, tt),
          NotIn-remove i id s.waiting.entries w,
        );
  }

  -- One request fewer waits, and one more runs.
  pub start_running-counts :
      (suc (length (start_running ops s id update).waiting.entries) ≡ length s.waiting.entries)
      × (length (start_running ops s id update).running ≡ suc (length s.running))
  unfolding start_running Policy.pop_request
  start_running-counts = (
    sym (length-remove id s.waiting.entries queued),
    omega (arith, length-append s.running (id ∷ [])),
  )
