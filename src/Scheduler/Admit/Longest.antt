-- ===== src/Scheduler/Admit/Longest.antt =====
-- crates/rllm-scheduler/src/scheduler.rs, `select_waiting_request`: the whole choice.
use mathlib.Core.Option.{some-injective, none-ne-some}
use r_llm.Shared.{
  ℕ, ◌+◌, ◌*◌, ◌≤◌, true, false, not, some, List, [], ◌∷◌, ◌≡◌, refl, sym, ◌∙◌, ap, ◌≢◌, ◌⊎◌, inl,
  inr, In, NotIn, NotIn-In, Distinct, length, lookup, subst, Option-cases, is_empty,
}
use r_llm.Scheduler.Policy.Members.{ids, length-ids}
use r_llm.Scheduler.State.{ManagerOps, SchedulerRequest, Scheduler}
use r_llm.Scheduler.Contract.{Contract}
use r_llm.Scheduler.Invariant.{Inv}
use r_llm.Scheduler.Admit.{
  read_request, queued_ids, weigh, weigh_all, admit_as, select_best, select_waiting_request,
}
use r_llm.Scheduler.Admit.Looks.{Looks-refl, admit_as-Looks}
use r_llm.Scheduler.Admit.Select.{weigh_all-Looks, peek-cases}
use r_llm.Scheduler.Admit.Best.{weigh-Weighed, IsBest, IsBest-next, Unseen}

module _ {M : Type 0} (ops : ManagerOps M) where
  weigh_all-IsBest :
      (todo done : List ℕ) (s : Scheduler M) (best : ℕ × ℕ) (x : (ℕ × ℕ) × Scheduler M)
      → weigh_all ops todo s best ≡ some x
      → Distinct todo
      → ((i : ℕ) → In i todo → NotIn i done)
      → Unseen ops s todo
      → IsBest ops done s best
      → (all : List ℕ) × IsBest ops all x.1 x.0 × ((i : ℕ) → In i todo ⊎ In i done → In i all)
  unfolding weigh_all
  weigh_all-IsBest [] done s best x f d out unseen h = (
    done,
    subst (λ y. IsBest ops done y.1 y.0) (some-injective _ _ f) h,
    λ i g. elim g [ inl bad ↦ absurd bad | inr g' ↦ g' ],
  )
  weigh_all-IsBest (id ∷ todo) done s best x f (nid, d) out unseen h =
      elim (Option-cases (weigh ops s id best)) [
        | inl g ↦ absurd (none-ne-some x (sym (rw g refl) ∙ f))
        | inr (y, g) ↦
            let w = weigh-Weighed ops s id best y g in
            let next =
              IsBest-next ops done s id best y.0 y.1 (out id (inl refl))
                (λ r. unseen id r (inl refl)) w h in
            let apart : (i : ℕ) → In i todo → id ≢ i = λ i k. NotIn-In id i todo nid k in
            let away : (i : ℕ) → In i todo → NotIn i (id ∷ done) =
              λ i k. (λ q. apart i k (sym q), out i (inr k)) in
            let unseen' : Unseen ops y.1 todo =
              λ i r k e. unseen i r (inr k) (sym (w.others i (apart i k)) ∙ e) in
            let rest : weigh_all ops todo y.1 y.0 ≡ some x = sym (rw g refl) ∙ f in
            let (all, best_of, covers) =
              weigh_all-IsBest todo (id ∷ done) y.1 y.0 x rest d away unseen' next in
            (
              all,
              best_of,
              λ i k. elim k [
                | inl (inl q) ↦ covers i (inr (inl q))
                | inl (inr k') ↦ covers i (inl k')
                | inr k' ↦ covers i (inr (inr k'))
              ],
            )
      ]

module _ {M : Type 0} {ops : ManagerOps M} {block_size : ℕ} (c : Contract ops block_size)
    (prompts drafts k : ℕ) (s : Scheduler M)
    (h : Inv c prompts drafts (length s.waiting.entries * prompts + k) s) where
  select_best-longest :
      (first : ℕ)
      → In first (ids s.waiting.entries)
      → Unseen ops s (ids s.waiting.entries)
      → (id : ℕ) × (s' : Scheduler M) × (select_best ops s
            (first, read_request (lookup first s.requests) (λ r. r.num_computed_tokens) 0)
          ≡ some (some id, s'))
        × In id (ids s.waiting.entries)
        × ((i : ℕ) (r : SchedulerRequest)
            → In i (ids s.waiting.entries)
            → lookup i s'.requests ≡ some r
            → r.num_computed_tokens ≤ s'.prefix_cache_admission.cached_tokens)
        × ((r : SchedulerRequest)
            → lookup id s'.requests ≡ some r
            → r.num_computed_tokens ≡ s'.prefix_cache_admission.cached_tokens)
  unfolding select_best queued_ids admit_as read_request
  select_best-longest first start unseen =
      let inv =
        subst (λ n. Inv c prompts drafts (n * prompts + k) s) (sym (length-ids s.waiting.entries))
          h in
      let begin : ℕ × ℕ =
        (first, read_request (lookup first s.requests) (λ r. r.num_computed_tokens) 0) in
      let ((best, cached), s', e, looks, chosen) =
        weigh_all-Looks c prompts drafts (ids s.waiting.entries) k s begin inv (λ i g. g) start in
      let at_first : IsBest ops [] s begin = record {
        bound = λ i r g. absurd g;
        own = λ r f. rw f refl;
      } in
      let (all, best_of, covers) =
        weigh_all-IsBest ops (ids s.waiting.entries) [] s begin ((best, cached), s') e h.queue
          (λ i g. tt) unseen at_first in
      (
        best,
        admit_as ops best cached s',
        rw e refl,
        chosen,
        (λ i r g f. best_of.bound i r (covers i (inl g)) f),
        best_of.own,
      )

module _ {M : Type 0} {ops : ManagerOps M} {block_size : ℕ} (c : Contract ops block_size)
    (prompts drafts k : ℕ) (s : Scheduler M)
    (h : Inv c prompts drafts (length s.waiting.entries * prompts + k) s) where
  -- Over a manager that keeps the contract, take a scheduler in order with prefix caching on,
  -- some request waiting, and room in the reference counts for a look-up of each waiting prompt,
  -- in which no waiting request without blocks from a look-up counts tokens as computed. Then
  -- `select_waiting_request` answers a request that waits. In the scheduler that it leaves, no
  -- waiting request counts more tokens as computed than the admission that it notes, and the
  -- selected one, if it is tracked, counts exactly that many.
  pub select_waiting_request-longest :
      is_empty s.waiting.entries ≡ false
      → s.enable_prefix_caching ≡ true
      → Unseen ops s (ids s.waiting.entries)
      → (id : ℕ) × (s' : Scheduler M) × (select_waiting_request ops s ≡ some (some id, s'))
        × In id (ids s.waiting.entries)
        × ((i : ℕ) (r : SchedulerRequest)
            → In i (ids s.waiting.entries)
            → lookup i s'.requests ≡ some r
            → r.num_computed_tokens ≤ s'.prefix_cache_admission.cached_tokens)
        × ((r : SchedulerRequest)
            → lookup id s'.requests ≡ some r
            → r.num_computed_tokens ≡ s'.prefix_cache_admission.cached_tokens)
  unfolding select_waiting_request admit_as
  select_waiting_request-longest some_wait on unseen =
      let (first, e, start) = peek-cases c prompts drafts s.waiting some_wait in
      let w = length s.waiting.entries * prompts in
      let s₁ = admit_as ops first 0 s in
      let h₁ =
        admit_as-Looks c prompts drafts (w + k) s s first 0
          (Looks-refl c prompts drafts (w + k) s h) in
      let (id, s', f, chosen, bound, own) =
        select_best-longest c prompts drafts k s₁ h₁.inv first start unseen in
      let caching : not s.enable_prefix_caching ≡ false = ap not on in
      (id, s', rw (select_waiting_request, e, caching) f, chosen, bound, own)
