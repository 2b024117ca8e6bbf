-- ===== src/Scheduler/Run/Outcome.antt =====
-- crates/rllm-scheduler/src/scheduler.rs, `schedule_running`: the whole of it.
use r_llm.Shared.{
  ℕ, ◌+◌, ◌≤◌, ◌<◌, some, List, [], ◌≡◌, refl, sym, ◌∙◌, inl, inr, arith, NotIn, NotIn-In, In-dec,
  length, subst,
}
use r_llm.Scheduler.Policy.Members.{ids}
use r_llm.Scheduler.State.{ManagerOps, Scheduler, SchedulerOutput}
use r_llm.Scheduler.Contract.{Contract}
use r_llm.Scheduler.Invariant.{Inv}
use r_llm.Scheduler.Moves.{Moves}
use r_llm.Scheduler.Run.{RunLoop, RunResult, schedule_running}
use r_llm.Scheduler.Run.Decode.{Runs, run_all-Runs}
use r_llm.Scheduler.Run.Preempt.{Preempts, preempt_all-Preempts}

module _ {M : Type 0} {ops : ManagerOps M} {block_size : ℕ} (c : Contract ops block_size)
    (prompts drafts : ℕ) (positive : 0 < block_size) (k : ℕ) (s : Scheduler M)
    (h : Inv c prompts drafts k s) (output : SchedulerOutput) (max_budget : ℕ) where
  -- What `schedule_running` leaves.
  pub record Ran (r : RunResult ops) : Type 0 where
    pub moves : Moves c prompts drafts k s r.scheduler
    pub budget : r.budget_used ≤ max_budget + drafts
    pub fewer_running : length r.scheduler.running ≤ length s.running
    pub more_waiting :
        length r.scheduler.waiting.entries ≤ length s.running + length s.waiting.entries
    pub same_finished : r.output.finished ≡ output.finished

  first_loop : RunLoop ops
  first_loop = record {
    scheduler = s;
    output = output;
    budget_used = 0;
    total_decode = 0;
    to_preempt = [];
  }

  first-Runs : Runs c prompts drafts positive k s max_budget output.finished 0 first_loop
  unfolding first_loop
  first-Runs = record {
    inv = h;
    same_running = refl;
    same_waiting = refl;
    same_config = refl;
    same_finished = refl;
    budget = omega arith;
    few = omega arith;
    known = λ i g. absurd g;
    idle = λ j n. refl;
  }

  unpreempted :
      (n j : ℕ) (l : RunLoop ops)
      → Runs c prompts drafts positive k s max_budget output.finished n l
      → NotIn j s.running
      → NotIn j l.to_preempt
  unpreempted n j l runs out = elim (In-dec j l.to_preempt) [
    | inl g ↦ absurd (NotIn-In j j s.running out (runs.known j g) refl)
    | inr away ↦ away
  ]

  ran :
      (n : ℕ) (l : RunLoop ops) (s' : Scheduler M)
      → n ≤ length s.running
      → Runs c prompts drafts positive k s max_budget output.finished n l
      → Preempts c prompts drafts k l.scheduler l.to_preempt s'
      → (all : List ℕ)
      → Ran (record {
        scheduler = s';
        output = record l.output { preempted = all };
        budget_used = l.budget_used;
        decode_tokens = l.total_decode;
      })
  ran n l s' few runs back all = record {
    moves = record {
      inv = back.inv;
      same_config = back.same_config ∙ runs.same_config;
      idle = λ j out away.
          let (e, n₁, w₁) =
            back.idle j (unpreempted n j l runs out) (subst (NotIn j) (sym runs.same_running) out)
              (subst (λ q. NotIn j (ids q.entries)) (sym runs.same_waiting) away) in
          (e ∙ runs.idle j out, n₁, w₁);
    };
    budget = runs.budget;
    fewer_running = subst (λ r. length s'.running ≤ length r) runs.same_running back.fewer_running;
    more_waiting =
        let most : length s'.waiting.entries ≤ length l.to_preempt + length s.waiting.entries =
          subst (λ q. length s'.waiting.entries ≤ length l.to_preempt + length q.entries)
            runs.same_waiting back.more_waiting in
        omega (arith, most, runs.few, few);
    same_finished = runs.same_finished;
  }

  pub schedule_running-Ran :
      (r : RunResult ops) × (schedule_running ops s output 0 max_budget ≡ some r) × Ran r
  unfolding schedule_running first_loop
  schedule_running-Ran =
      let (l, e, runs) =
        run_all-Runs c prompts drafts positive k s max_budget output.finished s.running 0 first_loop
          first-Runs (λ i g. g) in
      let (s', all, f, back) =
        preempt_all-Preempts c prompts drafts k l.to_preempt l.scheduler l.output.preempted
          runs.inv in
      (_, rw (e, f) refl, ran (length s.running + 0) l s' (omega arith) runs back all)
