-- ===== src/Scheduler/Admit/Loop.antt =====
-- crates/rllm-scheduler/src/scheduler.rs, `schedule_waiting`: the loop over the waiting requests.
use r_llm.Shared.{
  ℕ, zero, suc, ◌+◌, ◌-◌, ◌*◌, ◌≤◌, ◌<◌, true, false, some, ◌≡◌, refl, sym, ◌∙◌, inl, inr, arith,
  In, length, is_empty, subst, Bool-cases, mul-le,
}
use r_llm.Scheduler.Policy.Members.{ids}
use r_llm.Scheduler.State.{ManagerOps, Scheduler, SchedulerOutput}
use r_llm.Scheduler.Contract.{Contract}
use r_llm.Scheduler.Invariant.{Inv}
use r_llm.Scheduler.Moves.{Moves, Moves-refl, Moves-next, Inv-weaken}
use r_llm.Scheduler.Admit.{
  AdmitLoop, Round, select_waiting_request, admit, admits_more, admit_all, schedule_waiting,
}
use r_llm.Scheduler.Admit.Select.{select_waiting_request-Looks}
use r_llm.Scheduler.Admit.Rounds.{Ends, Goes}
use r_llm.Scheduler.Admit.Admission.{Ends-after, Goes-after, admit-Ends}

module _ {M : Type 0} {ops : ManagerOps M} {block_size : ℕ} (c : Contract ops block_size)
    (prompts drafts : ℕ) where
  -- What the loop leaves, begun with `l`.
  pub record Admits (k max_budget : ℕ) (l l' : AdmitLoop ops) : Type 0 where
    pub moves : Moves c prompts drafts k l.scheduler l'.scheduler
    pub budget : l'.budget_used ≤ max_budget + drafts
    pub limit : length l'.scheduler.running ≤ l.scheduler.config.max_num_seqs
    pub same_finished : l'.output.finished ≡ l.output.finished

  -- The look-ups of one round, with at most `waiting` requests in the queue.
  abbrev pub round_cost : ℕ → ℕ
  round_cost waiting = waiting * prompts + prompts

  abbrev pub cost : ℕ → ℕ → ℕ
  cost fuel waiting = fuel * round_cost waiting

  spend_round :
      (fuel waiting n k : ℕ) (s : Scheduler M)
      → n ≤ waiting
      → Inv c prompts drafts (cost (suc fuel) waiting + k) s
      → Inv c prompts drafts (n * prompts + (prompts + (cost fuel waiting + k))) s
  spend_round fuel waiting n k s few h =
      let less = mul-le n waiting prompts few in
      let rest = n * prompts + (prompts + (cost fuel waiting + k)) in
      let total : cost (suc fuel) waiting + k ≡ (waiting * prompts - n * prompts) + rest =
        omega (arith, less) in
      Inv-weaken c prompts drafts (waiting * prompts - n * prompts) rest s
        (subst (λ x. Inv c prompts drafts x s) total h)

  admits_more-room :
      (l : AdmitLoop ops) (max_budget : ℕ)
      → admits_more ops l max_budget ≡ true
      → (is_empty l.scheduler.waiting.entries ≡ false)
        × (l.budget_used < max_budget)
        × (length l.scheduler.running < l.scheduler.config.max_num_seqs)
  unfolding admits_more
  admits_more-room l max_budget e = ground (arith, e)

  module _ (max_budget waiting : ℕ) where
    -- What the loop asks for: credits for the rounds, and the limits that hold so far.
    pub record Begins (fuel k : ℕ) (l : AdmitLoop ops) : Type 0 where
      pub inv : Inv c prompts drafts (cost fuel waiting + k) l.scheduler
      pub few : length l.scheduler.waiting.entries ≤ waiting
      pub fuel_enough : length l.scheduler.waiting.entries < fuel
      pub budget : l.budget_used ≤ max_budget + drafts
      pub limit : length l.scheduler.running ≤ l.scheduler.config.max_num_seqs

    ends_now : (fuel k : ℕ) (l : AdmitLoop ops) → Begins fuel k l → Admits k max_budget l l
    ends_now fuel k l h = record {
      moves =
          Moves-refl c prompts drafts k l.scheduler
            (Inv-weaken c prompts drafts (cost fuel waiting) k l.scheduler h.inv);
      budget = h.budget;
      limit = h.limit;
      same_finished = refl;
    }

    -- A round of the loop, from the look-ups on.
    round-Ends :
        (fuel k : ℕ) (l : AdmitLoop ops)
        → Begins (suc fuel) k l
        → admits_more ops l max_budget ≡ true
        → (id : ℕ) × (s : Scheduler M) × (round : Round ops) × (l₁ : AdmitLoop ops)
          × (select_waiting_request ops l.scheduler ≡ some (some id, s))
          × (admit ops l s id max_budget ≡ some round)
          × Goes c prompts drafts l.scheduler round l₁
          × Ends c prompts drafts (cost fuel waiting + k) max_budget l l.scheduler l₁
    round-Ends fuel k l h more =
        let (some_wait, room, space) = admits_more-room l max_budget more in
        let n = length l.scheduler.waiting.entries in
        let j = cost fuel waiting + k in
        let h₁ = spend_round fuel waiting n k l.scheduler h.few h.inv in
        let (id, s, e, looks, chosen) =
          select_waiting_request-Looks c prompts drafts (prompts + j) l.scheduler h₁ some_wait in
        let queued = subst (λ q. In id (ids q.entries)) (sym looks.same_waiting) chosen in
        let (round, l₁, f, goes, ends) =
          admit-Ends c prompts drafts j max_budget l s id room looks.inv queued in
        (
          id,
          s,
          round,
          l₁,
          e,
          f,
          Goes-after c prompts drafts (prompts + j) l.scheduler s round l₁ looks goes,
          Ends-after c prompts drafts (prompts + j) j max_budget l l.scheduler s l₁ looks ends,
        )

    within :
        (k : ℕ) (l l₁ : AdmitLoop ops)
        → length l.scheduler.running < l.scheduler.config.max_num_seqs
        → Ends c prompts drafts k max_budget l l.scheduler l₁
        → length l₁.scheduler.running ≤ l.scheduler.config.max_num_seqs
    within k l l₁ space ends = omega (arith, space, ends.counts)

    last_round :
        (j k : ℕ) (l l₁ : AdmitLoop ops)
        → length l.scheduler.running < l.scheduler.config.max_num_seqs
        → Ends c prompts drafts (j + k) max_budget l l.scheduler l₁
        → Admits k max_budget l l₁
    last_round j k l l₁ space ends = record {
      moves =
          Moves-next c prompts drafts (j + k) k l.scheduler l₁.scheduler l₁.scheduler ends.moves (
            Moves-refl c prompts drafts k l₁.scheduler
              (Inv-weaken c prompts drafts j k l₁.scheduler ends.moves.inv));
      budget = omega (arith, ends.budget);
      limit = within (j + k) l l₁ space ends;
      same_finished = ends.same_finished;
    }

    next-Begins :
        (fuel k : ℕ) (l l₁ : AdmitLoop ops)
        → Begins (suc fuel) k l
        → length l.scheduler.running < l.scheduler.config.max_num_seqs
        → Ends c prompts drafts (cost fuel waiting + k) max_budget l l.scheduler l₁
        → suc (length l₁.scheduler.waiting.entries) ≡ length l.scheduler.waiting.entries
        → Begins fuel k l₁
    next-Begins fuel k l l₁ h space ends fewer = record {
      inv = ends.moves.inv;
      few = omega (arith, h.few, fewer);
      fuel_enough = omega (arith, h.fuel_enough, fewer);
      budget = omega (arith, ends.budget);
      limit =
          subst (λ x. length l₁.scheduler.running ≤ x.max_num_seqs) (sym ends.moves.same_config)
            (within (cost fuel waiting + k) l l₁ space ends);
    }

    rounds_next :
        (j k : ℕ) (l l₁ l₂ : AdmitLoop ops)
        → Ends c prompts drafts j max_budget l l.scheduler l₁
        → Admits k max_budget l₁ l₂
        → Admits k max_budget l l₂
    rounds_next j k l l₁ l₂ ends h = record {
      moves =
          Moves-next c prompts drafts j k l.scheduler l₁.scheduler l₂.scheduler ends.moves h.moves;
      budget = h.budget;
      limit =
          subst (λ x. length l₂.scheduler.running ≤ x.max_num_seqs) ends.moves.same_config h.limit;
      same_finished = h.same_finished ∙ ends.same_finished;
    }

    pub admit_all-Admits :
        (fuel k : ℕ) (l : AdmitLoop ops)
        → Begins fuel k l
        → (l' : AdmitLoop ops) × (admit_all ops fuel max_budget l ≡ some l')
          × Admits k max_budget l l'
    unfolding admit_all
    admit_all-Admits zero k l h = absurd (omega (arith, h.fuel_enough))
    admit_all-Admits (suc fuel) k l h = elim (Bool-cases (admits_more ops l max_budget)) [
      | inr done ↦ (l, rw (admit_all, done) refl, ends_now (suc fuel) k l h)
      | inl more ↦
          let (_, _, space) = admits_more-room l max_budget more in
          let (id, s, round, l₁, e, f, goes, ends) = round-Ends fuel k l h more in
          elim goes [
            | inr last ↦ (
              l₁,
              rw (admit_all, more, e, f, last) refl,
              last_round (cost fuel waiting) k l l₁ space ends,
            )
            | inl (on, fewer) ↦
                let (l₂, g, h₂) =
                  admit_all-Admits fuel k l₁ (next-Begins fuel k l l₁ h space ends fewer) in
                (
                  l₂,
                  rw (admit_all, more, e, f, on) g,
                  rounds_next (cost fuel waiting + k) k l l₁ l₂ ends h₂,
                )
          ]
    ]

    -- The fuel that `schedule_waiting` gives is enough.
    pub schedule_waiting-Admits :
        (k : ℕ) (s : Scheduler M) (output : SchedulerOutput) (budget_used : ℕ)
        → Inv c prompts drafts (cost (suc waiting) waiting + k) s
        → length s.waiting.entries ≤ waiting
        → budget_used ≤ max_budget + drafts
        → length s.running ≤ s.config.max_num_seqs
        → (l' : AdmitLoop ops) × (schedule_waiting ops s output budget_used max_budget ≡ some l')
          × Admits k max_budget
              (record {
                scheduler = s;
                output = output;
                budget_used = budget_used;
                total_prefill = 0;
              })
              l'
    unfolding schedule_waiting
    schedule_waiting-Admits k s output budget_used h few budget limit =
        let fuel = suc (length s.waiting.entries) in
        let less = mul-le fuel (suc waiting) (round_cost waiting) (omega (arith, few)) in
        let extra = suc waiting * round_cost waiting - fuel * round_cost waiting in
        let total : suc waiting * round_cost waiting + k ≡ extra + (fuel * round_cost waiting + k) =
          omega (arith, less) in
        let inv =
          Inv-weaken c prompts drafts extra (fuel * round_cost waiting + k) s
            (subst (λ x. Inv c prompts drafts x s) total h) in
        admit_all-Admits fuel k _ (record {
          inv = inv;
          few = few;
          fuel_enough = omega arith;
          budget = budget;
          limit = limit;
        })
