-- ===== src/Scheduler/Step/Outcome.antt =====
-- crates/rllm-scheduler/src/scheduler.rs, `step`: what a whole step does.
use r_llm.Shared.{
  ℕ, suc, ◌+◌, ◌≤◌, ◌<◌, true, false, some, [], ◌∷◌, ◌≡◌, refl, sym, ◌∙◌, arith, In, NotIn, inl,
  inr, length, lookup, Map, subst, if◌then◌else◌, Bool-cases,
}
use r_llm.Core.Status.{is_finished}
use r_llm.Scheduler.Policy.Members.{ids}
use r_llm.Scheduler.State.{ManagerOps, SchedulerRequest, Scheduler, SchedulerOutput, empty_output}
use r_llm.Scheduler.Contract.{Contract}
use r_llm.Scheduler.Invariant.{Inv}
use r_llm.Scheduler.Moves.{Moves, Moves-next, Inv-weaken}
use r_llm.Scheduler.Run.Outcome.{schedule_running-Ran}
use r_llm.Scheduler.Admit.Loop.{cost, schedule_waiting-Admits}
use r_llm.Scheduler.Step.{finished_ids, stats_of, build_output, run_step, step}
use r_llm.Scheduler.Step.Finish.{process_finished-Finishes}

finished_ids-In :
    (j : ℕ) (r : SchedulerRequest) (table : Map SchedulerRequest)
    → lookup j table ≡ some r
    → is_finished r.status ≡ true
    → In j (finished_ids table)
unfolding finished_ids lookup
finished_ids-In j r [] e f = absurd (ground (arith, e))
finished_ids-In j r (entry ∷ table) e f =
    let rest = finished_ids-In j r table in ground (arith, rest, e, f)

module _ {M : Type 0} {ops : ManagerOps M} {block_size : ℕ} (c : Contract ops block_size)
    (prompts drafts : ℕ) where
  -- The references that the look-ups of a step may take.
  abbrev pub step_cost : Scheduler M → ℕ
  step_cost s =
      let all = length s.running + length s.waiting.entries in cost c prompts drafts (suc all) all

  -- What a step that is not paused leaves.
  pub record Steps (k : ℕ) (s : Scheduler M) (output : SchedulerOutput) (s' : Scheduler M)
      : Type 0 where
    pub moves : Moves c prompts drafts k s s'
    pub budget : output.token_budget_used ≤ s.config.max_num_scheduled_tokens + drafts
    pub limit : length s'.running ≤ s'.config.max_num_seqs
    pub reported : output.finished ≡ finished_ids s.requests

  module _ (positive : 0 < block_size) (k : ℕ) (s : Scheduler M)
      (h : Inv c prompts drafts (step_cost s + k) s)
      (limit : length s.running ≤ s.config.max_num_seqs) where
    pub run_step-Steps :
        (output : SchedulerOutput) × (s' : Scheduler M) × (run_step ops s ≡ some (output, s'))
        × Steps k s output s'
    unfolding run_step
    run_step-Steps =
        let all = length s.running + length s.waiting.entries in
        let j = step_cost s + k in
        let max_budget = s.config.max_num_scheduled_tokens in
        let (s₁, e, ends) = process_finished-Finishes c prompts drafts j s empty_output h in
        let output₁ : SchedulerOutput = record empty_output {
          finished = finished_ids s.requests;
        } in
        let (r, f, ran) =
          schedule_running-Ran c prompts drafts positive j s₁ ends.moves.inv output₁ max_budget in
        let two = Moves-next c prompts drafts j j s s₁ r.scheduler ends.moves ran.moves in
        let few : length r.scheduler.waiting.entries ≤ all =
          omega (arith, ran.more_waiting, ends.fewer_running, ends.fewer_waiting) in
        let limit₂ : length r.scheduler.running ≤ r.scheduler.config.max_num_seqs =
          subst (λ x. length r.scheduler.running ≤ x.max_num_seqs) (sym two.same_config)
            (omega (arith, ran.fewer_running, ends.fewer_running, limit)) in
        let (a, g, admits) =
          schedule_waiting-Admits c prompts drafts max_budget all k r.scheduler r.output
            r.budget_used ran.moves.inv few ran.budget limit₂ in
        let output : SchedulerOutput = record a.output {
          token_budget_used = a.budget_used;
          stats =
              stats_of ops a.scheduler (length a.output.finished) a.total_prefill r.decode_tokens;
        } in
        (
          output,
          a.scheduler,
          rw (e, f, g) refl,
          record {
            moves = Moves-next c prompts drafts j k s r.scheduler a.scheduler two admits.moves;
            budget = admits.budget;
            limit =
                subst (λ x. length a.scheduler.running ≤ x.max_num_seqs)
                  (sym admits.moves.same_config) admits.limit;
            reported = admits.same_finished ∙ ran.same_finished;
          },
        )

    -- Take a manager of the cache that keeps the contract, a positive block size, and a scheduler
    -- in order (no request both waits and runs, the tokens that count as computed have blocks)
    -- that runs at most `max_num_seqs` requests, whose prompts have at most `prompts` tokens and
    -- whose drafts have at most `drafts`, with room in the reference counts for the look-ups of
    -- one step. Then the step ends with an output: it neither panics nor runs out of fuel. The
    -- scheduler stays in order, runs at most `max_num_seqs` requests, and the token budget used
    -- is at most `max_num_scheduled_tokens` and the drafts of one request.
    pub step-outcome :
        (output : SchedulerOutput) × (s' : Scheduler M) × (step ops s ≡ some (output, s'))
        × Inv c prompts drafts k s'
        × (length s'.running ≤ s'.config.max_num_seqs)
        × (output.token_budget_used ≤ s.config.max_num_scheduled_tokens + drafts)
    unfolding step build_output
    step-outcome = elim (Bool-cases s.paused) [
      | inl still ↦ (
        build_output ops s 0 0,
        s,
        subst
            (λ b.
              (if b then some (build_output ops s 0 0, s) else run_step ops s)
              ≡ some (build_output ops s 0 0, s))
            (sym still) refl,
        Inv-weaken c prompts drafts (step_cost s) k s h,
        limit,
        omega arith,
      )
      | inr on ↦
          let (output, s', e, steps) = run_step-Steps in
          (
            output,
            s',
            subst
                (λ b.
                  (if b then some (build_output ops s 0 0, s) else run_step ops s)
                  ≡ some (output, s'))
                (sym on) e,
            steps.moves.inv,
            steps.limit,
            steps.budget,
          )
    ]

    -- Under the conditions of `step-outcome`, with a scheduler that is not paused, a request that
    -- is tracked with a finished status and neither runs nor waits is reported as finished by the
    -- step. After it the request is still tracked with the same record, and neither runs nor
    -- waits, so that the next step reports it again.
    pub step-finished_again :
        s.paused ≡ false
        → (j : ℕ) (r : SchedulerRequest) → lookup j s.requests ≡ some r
        → is_finished r.status ≡ true
        → NotIn j s.running
        → NotIn j (ids s.waiting.entries)
        → (output : SchedulerOutput) × (s' : Scheduler M) × (step ops s ≡ some (output, s'))
          × In j output.finished
          × (lookup j s'.requests ≡ some r)
          × NotIn j s'.running
          × NotIn j (ids s'.waiting.entries)
    unfolding step
    step-finished_again on j r tracked finished out away =
        let (output, s', e, steps) = run_step-Steps in
        let (same, out', away') = steps.moves.idle j out away in
        (
          output,
          s',
          subst
              (λ b.
                (if b then some (build_output ops s 0 0, s) else run_step ops s)
                ≡ some (output, s'))
              (sym on) e,
          subst (In j) (sym steps.reported) (finished_ids-In j r s.requests tracked finished),
          same ∙ tracked,
          out',
          away',
        )
