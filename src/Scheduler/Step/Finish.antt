-- ===== src/Scheduler/Step/Finish.antt =====
-- crates/rllm-scheduler/src/scheduler.rs: `process_finished`.
use r_llm.Shared.{
  ℕ, ◌*◌, ◌≤◌, some, List, [], ◌∷◌, ◌++◌, ◌≡◌, refl, sym, ◌≢◌, ◌⊎◌, inl, inr, arith, In, In-without,
  NotIn-without, length-without, without-NotIn, NotIn-In, length, without, lookup, Map, subst,
  ℕ_discrete,
}
use mathlib.Core.List.{append-nil, append_assoc}
use r_llm.Scheduler.Policy
use r_llm.Scheduler.Policy.Members.{
  ids, NotIn-remove, NotIn-remove_self, In-remove, Distinct-remove, length-remove_le,
}
use r_llm.Scheduler.State.{ManagerOps, SchedulerRequest, Scheduler, SchedulerOutput}
use r_llm.Scheduler.Contract.{Contract}
use r_llm.Scheduler.Invariant.{Inv}
use r_llm.Scheduler.Moves.{Moves, Moves-refl, Moves-next}
use r_llm.Scheduler.Step.{
  insert_id, finish_request_internal, finish_all, finished_ids, process_finished,
}

module _ {M : Type 0} {ops : ManagerOps M} {block_size : ℕ} (c : Contract ops block_size)
    (prompts drafts k : ℕ) where
  -- A request leaves the running ones and the queue, and its blocks are free.
  module _ (s : Scheduler M) (h : Inv c prompts drafts k s) (id : ℕ) (m' : M) (valid : c.Valid k m')
      (others : (j : ℕ) → id ≢ j → c.entry m' j ≡ c.entry s.kv_cache_manager j)
      (ready : c.Ready (c.entry m' id)) (table : Map SchedulerRequest)
      (kept : (i : ℕ) (r : SchedulerRequest)
        → lookup i table ≡ some r
        → lookup i s.requests ≡ some r)
      (finished : List ℕ) where
    still :
        (i : ℕ)
        → In i (without id s.running) ⊎ In i (ids (Policy.remove_entry id s.waiting.entries))
        → (id ≢ i) × (In i s.running ⊎ In i (ids s.waiting.entries))
    still i (inl g) = let (d, g') = In-without id i s.running g in (d, inl g')
    still i (inr g) =
        let gone = NotIn-remove_self id s.waiting.entries h.queue in
        (NotIn-In id i _ gone g, inr (In-remove i id s.waiting.entries g))

    unfoldable pub left : Scheduler M
    unfolding Policy.remove
    left = record s {
      running = without id s.running;
      waiting = (Policy.remove s.waiting id).1;
      finished = finished;
      requests = table;
      kv_cache_manager = m';
    }

    pub left-Inv : Inv c prompts drafts k left
    unfolding left Policy.remove
    left-Inv = record {
      manager = valid;
      size = h.size;
      queue = Distinct-remove id s.waiting.entries h.queue;
      apart =
          λ i g. NotIn-remove i id s.waiting.entries (h.apart i (In-without id i s.running g).1);
      ready = λ i n. elim (ℕ_discrete id i) [
        | yes q ↦ subst (λ x. c.Ready (c.entry m' x)) q ready
        | no d ↦ elim (NotIn-without i id s.running n) [
          | inl q ↦ absurd (d (sym q))
          | inr out ↦ subst c.Ready (sym (others i d)) (h.ready i out)
        ]
      ];
      covered = λ i r g e.
          let (d, before) = still i g in
          subst (λ v. r.num_computed_tokens ≤ c.held v * block_size) (sym (others i d))
            (h.covered i r before (kept i r e));
      bounded = λ i r e. h.bounded i r (kept i r e);
    }

  -- What the end of some requests leaves: no request is forgotten.
  pub record Finishes (s s' : Scheduler M) : Type 0 where
    pub moves : Moves c prompts drafts k s s'
    pub fewer_running : length s'.running ≤ length s.running
    pub fewer_waiting : length s'.waiting.entries ≤ length s.waiting.entries

  finish_request_internal-Finishes :
      (s : Scheduler M) (id : ℕ)
      → Inv c prompts drafts k s
      → (s' : Scheduler M) × (finish_request_internal ops s id ≡ some s') × Finishes s s'
  unfolding finish_request_internal Policy.remove left
  finish_request_internal-Finishes s id h =
      let (m', e, valid, others, ready, _) = c.release k s.kv_cache_manager id h.manager in
      (
        left s h id m' valid others ready s.requests (λ i r f. f) (insert_id id s.finished),
        rw e refl,
        record {
          moves = record {
            inv =
                left-Inv s h id m' valid others ready s.requests (λ i r f. f)
                  (insert_id id s.finished);
            same_config = refl;
            idle = λ j n w.
                (refl, without-NotIn j id s.running n, NotIn-remove j id s.waiting.entries w);
          };
          fewer_running = length-without id s.running;
          fewer_waiting = length-remove_le id s.waiting.entries;
        },
      )

  finish_all-Finishes :
      (todo : List ℕ) (s : Scheduler M) (reported : List ℕ)
      → Inv c prompts drafts k s
      → (s' : Scheduler M) × (finish_all ops todo s reported ≡ some (s', reported ++ todo))
        × Finishes s s'
  unfolding finish_all
  finish_all-Finishes [] s reported h = (
    s,
    rw (append-nil reported) refl,
    record {
      moves = Moves-refl c prompts drafts k s h;
      fewer_running = omega arith;
      fewer_waiting = omega arith;
    },
  )
  finish_all-Finishes (id ∷ todo) s reported h =
      let (s₁, e, h₁) = finish_request_internal-Finishes s id h in
      let (s₂, f, h₂) = finish_all-Finishes todo s₁ (reported ++ id ∷ []) h₁.moves.inv in
      (
        s₂,
        rw (e, sym (append_assoc reported (id ∷ []) todo)) f,
        record {
          moves = Moves-next c prompts drafts k k s s₁ s₂ h₁.moves h₂.moves;
          fewer_running = omega (arith, h₁.fewer_running, h₂.fewer_running);
          fewer_waiting = omega (arith, h₁.fewer_waiting, h₂.fewer_waiting);
        },
      )

  -- The requests that are reported are those tracked with a finished status.
  pub process_finished-Finishes :
      (s : Scheduler M) (output : SchedulerOutput)
      → Inv c prompts drafts k s
      → (s' : Scheduler M) × (process_finished ops s output
          ≡ some (s', record output { finished = output.finished ++ finished_ids s.requests }))
        × Finishes s s'
  unfolding process_finished
  process_finished-Finishes s output h =
      let (s', e, ends) = finish_all-Finishes (finished_ids s.requests) s output.finished h in
      (s', rw e refl, ends)
