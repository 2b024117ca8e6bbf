-- ===== src/Scheduler/Admit/Select.antt =====
-- crates/rllm-scheduler/src/scheduler.rs, `select_waiting_request`: the look-ups for the
-- requests of the queue.
use r_llm.Shared.{
  ℕ, ◌+◌, ◌-◌, ◌*◌, ◌≤◌, true, false, not, ◌&&◌, some, List, [], ◌∷◌, ◌≡◌, refl, sym, inl, inr,
  arith, In, length, lookup, subst, ltb, Bool-cases, Option-cases, List-cases, is_empty,
}
use r_llm.Scheduler.Policy
use r_llm.Scheduler.Policy.Members.{ids, length-ids}
use r_llm.Scheduler.State.{ManagerOps, Scheduler}
use r_llm.Scheduler.Contract.{Contract}
use r_llm.Scheduler.Invariant.{Inv}
use r_llm.Scheduler.Moves.{Inv-weaken}
use r_llm.Scheduler.Admit.{
  read_request, queued_ids, better, probe_better, weigh, weigh_all, admit_as, select_best,
  select_waiting_request, cached_tokens,
}
use r_llm.Scheduler.Admit.Looks.{
  Looks, Looks-refl, Looks-next, Looks-weaken, admit_as-Looks, probe-Looks,
}

module _ {M : Type 0} {ops : ManagerOps M} {block_size : ℕ} (c : Contract ops block_size)
    (prompts drafts : ℕ) where
  module _ (j : ℕ) (k : ℕ) (s : Scheduler M) (h : Inv c prompts drafts (j + k) s) where
    -- A look-up of a prompt of at most `j` tokens.
    short : (prompt : List ℕ) → length prompt ≤ j → Inv c prompts drafts (length prompt + k) s
    short prompt few =
        let q : (j + k) ≡ (j - length prompt) + (length prompt + k) = omega (arith, few) in
        Inv-weaken c prompts drafts (j - length prompt) (length prompt + k) s
          (subst (λ n. Inv c prompts drafts n s) q h)

    unseen : Looks c prompts drafts k s s
    unseen = Looks-refl c prompts drafts k s (Inv-weaken c prompts drafts j k s h)

  better-In :
      (id cached : ℕ) (best : ℕ × ℕ) (queue : List ℕ)
      → In id queue
      → In best.0 queue
      → In (better ops id cached best).0 queue
  unfolding better
  better-In id cached (best, best_cached) queue a b = elim (Bool-cases (ltb best_cached cached)) [
    | inl e ↦ rw e a
    | inr e ↦ rw e b
  ]

  module _ (k : ℕ) (s : Scheduler M) (h : Inv c prompts drafts (prompts + k) s) (id : ℕ)
      (queued : In id (ids s.waiting.entries)) where
    weigh-Looks :
        (best : ℕ × ℕ)
        → In best.0 (ids s.waiting.entries)
        → (best' : ℕ × ℕ) × (s' : Scheduler M) × (weigh ops s id best ≡ some (best', s'))
          × Looks c prompts drafts k s s'
          × In best'.0 (ids s.waiting.entries)
    unfolding weigh probe_better
    weigh-Looks best first = elim (Option-cases (lookup id s.requests)) [
      | inl e ↦ (best, s, rw (weigh, e) refl, unseen prompts k s h, first)
      | inr (r, e) ↦ elim (Bool-cases (is_empty r.cached_block_ids)) [
        | inl unknown ↦
            let prompt = r.prompt_token_ids in
            let inv = short prompts k s h prompt (h.bounded id r e).0 in
            let (cached, s', f, looks, _) =
              probe-Looks c prompts drafts k s id prompt r.request.skip_reading_prefix_cache inv
                queued in
            (
              better ops id cached best,
              s',
              rw (weigh, e, unknown, f) refl,
              looks,
              better-In id cached best _ queued first,
            )
        | inr seen ↦ (
          better ops id r.num_computed_tokens best,
          s,
          rw (weigh, e, seen) refl,
          unseen prompts k s h,
          better-In id r.num_computed_tokens best _ queued first,
        )
      ]
    ]

    prompt_now : List ℕ
    unfolding read_request
    prompt_now = read_request (lookup id s.requests) (λ r. r.prompt_token_ids) []

    prompt_now-short : length prompt_now ≤ prompts
    unfolding prompt_now read_request
    prompt_now-short = elim (Option-cases (lookup id s.requests)) [
      | inl e ↦ rw e (omega arith)
      | inr (r, e) ↦ rw e (h.bounded id r e).0
    ]

    computed_now-covered :
        read_request (lookup id s.requests) (λ r. r.num_computed_tokens) 0
        ≤ c.held (c.entry s.kv_cache_manager id) * block_size
    unfolding read_request
    computed_now-covered = elim (Option-cases (lookup id s.requests)) [
      | inl e ↦ rw e (omega arith)
      | inr (r, e) ↦ rw e (h.covered id r (inr queued) e)
    ]

    -- The tokens that are computed already are covered by blocks.
    pub cached_tokens-Looks :
        (n : ℕ) × (s' : Scheduler M) × (cached_tokens ops s id ≡ some (n, s'))
        × Looks c prompts drafts k s s'
        × (n ≤ c.held (c.entry s'.kv_cache_manager id) * block_size)
    unfolding cached_tokens prompt_now
    cached_tokens-Looks =
        let r = lookup id s.requests in
        let test =
          s.enable_prefix_caching && read_request r (λ q. is_empty q.cached_block_ids) true in
        let skip = read_request r (λ q. q.request.skip_reading_prefix_cache) false in
        elim (Bool-cases test) [
          | inl on ↦
              let inv = short prompts k s h prompt_now prompt_now-short in
              let (n, s', f, looks, enough) =
                probe-Looks c prompts drafts k s id prompt_now skip inv queued in
              (n, s', rw on f, looks, enough)
          | inr off ↦ (
            read_request r (λ q. q.num_computed_tokens) 0,
            s,
            rw off refl,
            unseen prompts k s h,
            computed_now-covered,
          )
        ]

  pub weigh_all-Looks :
      (todo : List ℕ) (k : ℕ) (s : Scheduler M) (best : ℕ × ℕ)
      → Inv c prompts drafts (length todo * prompts + k) s
      → ((i : ℕ) → In i todo → In i (ids s.waiting.entries))
      → In best.0 (ids s.waiting.entries)
      → (best' : ℕ × ℕ) × (s' : Scheduler M) × (weigh_all ops todo s best ≡ some (best', s'))
        × Looks c prompts drafts k s s'
        × In best'.0 (ids s.waiting.entries)
  unfolding weigh_all
  weigh_all-Looks [] k s best h sub first = (
    best,
    s,
    refl,
    Looks-refl c prompts drafts k s (subst (λ n. Inv c prompts drafts n s) (omega arith) h),
    first,
  )
  weigh_all-Looks (id ∷ todo) k s best h sub first =
      let more = length todo * prompts + k in
      let total : length (id ∷ todo) * prompts + k ≡ prompts + more = omega arith in
      let (b₁, s₁, e, h₁, in₁) =
        weigh-Looks more s (subst (λ n. Inv c prompts drafts n s) total h) id (sub id (inl refl))
          best first in
      let same : s.waiting ≡ s₁.waiting = sym h₁.same_waiting in
      let (b₂, s₂, f, h₂, in₂) =
        weigh_all-Looks todo k s₁ b₁ h₁.inv
          (λ i g. subst (λ q. In i (ids q.entries)) same (sub i (inr g)))
          (subst (λ q. In b₁.0 (ids q.entries)) same in₁) in
      (
        b₂,
        s₂,
        rw e f,
        Looks-next c prompts drafts more k s s₁ s₂ h₁ h₂,
        subst (λ q. In b₂.0 (ids q.entries)) h₁.same_waiting in₂,
      )

  select_best-Looks :
      (k : ℕ) (s : Scheduler M) (first : ℕ × ℕ)
      → Inv c prompts drafts (length s.waiting.entries * prompts + k) s
      → In first.0 (ids s.waiting.entries)
      → (id : ℕ) × (s' : Scheduler M) × (select_best ops s first ≡ some (some id, s'))
        × Looks c prompts drafts k s s'
        × In id (ids s.waiting.entries)
  unfolding select_best queued_ids
  select_best-Looks k s first h start =
      let inv =
        subst (λ n. Inv c prompts drafts (n * prompts + k) s) (sym (length-ids s.waiting.entries))
          h in
      let ((best, cached), s', e, looks, chosen) =
        weigh_all-Looks (ids s.waiting.entries) k s first inv (λ i g. g) start in
      (
        best,
        admit_as ops best cached s',
        rw e refl,
        admit_as-Looks c prompts drafts k s s' best cached looks,
        chosen,
      )

  pub peek-cases :
      (q : Policy.RequestQueue)
      → is_empty q.entries ≡ false
      → (id : ℕ) × (Policy.peek q ≡ some id) × In id (ids q.entries)
  unfolding Policy.peek
  peek-cases q e = elim (List-cases q.entries) [
    | inl f ↦ absurd (ground (arith, e, f))
    | inr (x, xs, f) ↦ (x.request_id, rw f refl, rw f (inl refl))
  ]

  -- A request of a queue that is not empty is selected.
  pub select_waiting_request-Looks :
      (k : ℕ) (s : Scheduler M)
      → Inv c prompts drafts (length s.waiting.entries * prompts + k) s
      → is_empty s.waiting.entries ≡ false
      → (id : ℕ) × (s' : Scheduler M) × (select_waiting_request ops s ≡ some (some id, s'))
        × Looks c prompts drafts k s s'
        × In id (ids s.waiting.entries)
  unfolding select_waiting_request admit_as
  select_waiting_request-Looks k s h some_wait =
      let (first, e, start) = peek-cases s.waiting some_wait in
      let w = length s.waiting.entries * prompts in
      let cached = read_request (lookup first s.requests) (λ r. r.num_computed_tokens) 0 in
      let s₁ = admit_as ops first 0 s in
      let h₁ =
        admit_as-Looks c prompts drafts (w + k) s s first 0
          (Looks-refl c prompts drafts (w + k) s h) in
      elim (Bool-cases (not s.enable_prefix_caching)) [
        | inr on ↦
            let (id, s₂, f, h₂, chosen) = select_best-Looks k s₁ (first, cached) h₁.inv start in
            (
              id,
              s₂,
              rw (select_waiting_request, e, on) f,
              Looks-next c prompts drafts (w + k) k s s₁ s₂ h₁ h₂,
              chosen,
            )
        | inl off ↦ (
          first,
          s₁,
          rw (select_waiting_request, e, off) refl,
          Looks-weaken c prompts drafts w k s s₁ h₁,
          start,
        )
      ]
