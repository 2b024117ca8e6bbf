-- ===== src/Scheduler/Admit/Best.antt =====
-- crates/rllm-scheduler/src/scheduler.rs, `select_waiting_request`: how requests are weighed.
use mathlib.Core.Option.{some-injective, none-ne-some}
use r_llm.Shared.{
  ℕ, ◌≤◌, Bool, true, false, Option, none, some, List, ◌∷◌, ◌≡◌, refl, sym, ◌∙◌, ap, ◌≢◌, ◌⊎◌, inl,
  inr, arith, In, NotIn, NotIn-In, lookup, lookup-insert, Map, subst, if◌then◌else◌, ltb,
  Bool-cases, Option-cases, is_empty, ℕ_discrete,
}
use r_llm.Scheduler.State.{ManagerOps, SchedulerRequest, Scheduler}
use r_llm.Scheduler.Admit.{update_request, record_lookup, probe, better, probe_better, weigh}
use r_llm.Scheduler.Admit.Looks.{update-elsewhere}

update-found :
    (f : SchedulerRequest → SchedulerRequest) (id : ℕ) (table : Map SchedulerRequest)
    (r : SchedulerRequest)
    → lookup id table ≡ some r
    → lookup id (update_request (lookup id table) f id table) ≡ some (f r)
unfolding update_request
update-found f id table r e = rw e (ground (arith, lookup-insert id id (f r) table))

module _ {M : Type 0} (ops : ManagerOps M) where
  -- One request is weighed: what its record says in the end counts, and no other record changes.
  pub record Weighed (s : Scheduler M) (id : ℕ) (best best' : ℕ × ℕ) (s' : Scheduler M)
      : Type 0 where
    pub others : (j : ℕ) → id ≢ j → lookup j s'.requests ≡ lookup j s.requests
    pub outcome :
        ((lookup id s.requests ≡ none) × (lookup id s'.requests ≡ none) × (best' ≡ best))
        ⊎ ((r r' : SchedulerRequest) × (lookup id s.requests ≡ some r)
            × (lookup id s'.requests ≡ some r')
            × (best' ≡ better ops id r'.num_computed_tokens best)
            × (is_empty r.cached_block_ids ≡ false
                → r'.num_computed_tokens ≡ r.num_computed_tokens))

  abbrev pub After : Scheduler M → ℕ → ℕ × ℕ → (ℕ × ℕ) × Scheduler M → Type 0
  After s id best x = Weighed s id best x.0 x.1

  probe_better-Weighed :
      (s : Scheduler M) (id : ℕ) (r : SchedulerRequest) (best : ℕ × ℕ) (x : (ℕ × ℕ) × Scheduler M)
      → lookup id s.requests ≡ some r
      → is_empty r.cached_block_ids ≡ true
      → probe_better ops s id r best ≡ some x
      → After s id best x
  unfolding probe_better probe record_lookup
  probe_better-Weighed s id r best x e empty f =
      elim (Option-cases (
        ops.get_computed_blocks s.kv_cache_manager id r.prompt_token_ids
          r.request.skip_reading_prefix_cache)) [
            | inl g ↦ absurd (none-ne-some x (sym (rw g refl) ∙ f))
            | inr (((found, cached), m), g) ↦
                let update : SchedulerRequest → SchedulerRequest =
                  λ q. record q { cached_block_ids = found; num_computed_tokens = cached } in
                let base : After s id best
                    (better ops id cached best, record_lookup ops s id found cached m) =
                  record {
                    others = update-elsewhere (lookup id s.requests) update id s.requests;
                    outcome = inr (
                      r,
                      update r,
                      e,
                      update-found update id s.requests r e,
                      refl,
                      λ full. absurd (ground (arith, empty, full)),
                    );
                  } in
                subst (After s id best) (some-injective _ _ (sym (rw g refl) ∙ f)) base
          ]

  weigh-probe_better :
      (s : Scheduler M) (id : ℕ) (best : ℕ × ℕ) (r : SchedulerRequest)
      → lookup id s.requests ≡ some r
      → is_empty r.cached_block_ids ≡ true
      → weigh ops s id best ≡ probe_better ops s id r best
  unfolding weigh
  weigh-probe_better s id best r e empty =
      let seen : SchedulerRequest → Bool → Option ((ℕ × ℕ) × Scheduler M) = λ q b.
        if b
        then probe_better ops s id q best
        else some (better ops id q.num_computed_tokens best, s) in
      let go : Option SchedulerRequest → Option ((ℕ × ℕ) × Scheduler M) =
        λ o. elim o [ none ↦ some (best, s) | some q ↦ seen q (is_empty q.cached_block_ids) ] in
      ap go e ∙ ap (seen r) empty

  pub weigh-Weighed :
      (s : Scheduler M) (id : ℕ) (best : ℕ × ℕ) (x : (ℕ × ℕ) × Scheduler M)
      → weigh ops s id best ≡ some x
      → After s id best x
  unfolding weigh
  weigh-Weighed s id best x f = elim (Option-cases (lookup id s.requests)) [
    | inl e ↦
        let base : After s id best (best, s) = record {
          others = λ j d. refl;
          outcome = inl (e, e, refl);
        } in
        subst (After s id best) (some-injective _ _ (sym (rw (weigh, e) refl) ∙ f)) base
    | inr (r, e) ↦ elim (Bool-cases (is_empty r.cached_block_ids)) [
      | inl empty ↦
          probe_better-Weighed s id r best x e empty
            (sym (weigh-probe_better s id best r e empty) ∙ f)
      | inr full ↦
          let base : After s id best (better ops id r.num_computed_tokens best, s) = record {
            others = λ j d. refl;
            outcome = inr (r, r, e, e, refl, λ q. refl);
          } in
          subst (After s id best) (some-injective _ _ (sym (rw (weigh, e, full) refl) ∙ f)) base
    ]
  ]

  -- Of the requests `done`, none has more computed tokens than are noted for the best one.
  pub record IsBest (done : List ℕ) (s : Scheduler M) (best : ℕ × ℕ) : Type 0 where
    pub bound :
        (i : ℕ) (r : SchedulerRequest)
        → In i done
        → lookup i s.requests ≡ some r
        → r.num_computed_tokens ≤ best.1
    pub own :
        (r : SchedulerRequest) → lookup best.0 s.requests ≡ some r → r.num_computed_tokens ≡ best.1

  -- A request without blocks from a look-up has no computed tokens.
  abbrev pub Unseen : Scheduler M → List ℕ → Type 0
  Unseen s todo =
      (i : ℕ) (r : SchedulerRequest)
      → In i todo
      → lookup i s.requests ≡ some r
      → is_empty r.cached_block_ids ≡ true
      → r.num_computed_tokens ≡ 0

  pub IsBest-next :
      (done : List ℕ) (s : Scheduler M) (id : ℕ) (best best' : ℕ × ℕ) (s' : Scheduler M)
      → NotIn id done
      → ((r : SchedulerRequest)
          → lookup id s.requests ≡ some r
          → is_empty r.cached_block_ids ≡ true
          → r.num_computed_tokens ≡ 0)
      → Weighed s id best best' s'
      → IsBest done s best
      → IsBest (id ∷ done) s' best'
  unfolding better
  IsBest-next done s id best best' s' out unseen w h = elim w.outcome [
    | inl (_, gone, same) ↦ record {
      bound = λ i r g e. elim g [
        | inl q ↦
            absurd (none-ne-some r (sym gone ∙ subst (λ x. lookup x s'.requests ≡ some r) q e))
        | inr g' ↦
            subst (λ b. r.num_computed_tokens ≤ b.1) (sym same)
              (h.bound i r g' (sym (w.others i (NotIn-In id i done out g')) ∙ e))
      ];
      own = λ r e.
          let e' : lookup best.0 s'.requests ≡ some r =
            subst (λ b. lookup b.0 s'.requests ≡ some r) same e in
          elim (ℕ_discrete id best.0) [
            | yes q ↦
                absurd (
                  none-ne-some r (sym gone ∙ subst (λ x. lookup x s'.requests ≡ some r) (sym q) e'))
            | no d ↦ h.own r (sym (w.others best.0 d) ∙ e') ∙ ap (λ b. b.1) (sym same)
          ];
    }
    | inr (r₀, r₁, before, after, same, kept) ↦
        let n = r₁.num_computed_tokens in
        let this : (r : SchedulerRequest)
            → lookup id s'.requests ≡ some r
            → r.num_computed_tokens ≡ n =
          λ r e. ap (λ x. x.num_computed_tokens) (some-injective r r₁ (sym e ∙ after)) in
        elim (Bool-cases (ltb best.1 n)) [
          | inl more ↦
              let now : best' ≡ (id, n) = same ∙ rw more refl in
              subst (IsBest (id ∷ done) s') (sym now) (record {
                bound = λ i r g e. elim g [
                  | inl q ↦
                      let eq = this r (subst (λ x. lookup x s'.requests ≡ some r) q e) in
                      omega (arith, eq)
                  | inr g' ↦
                      let old = h.bound i r g' (sym (w.others i (NotIn-In id i done out g')) ∙ e) in
                      ground (arith, old, more)
                ];
                own = this;
              })
          | inr less ↦
              let now : best' ≡ best = same ∙ rw less refl in
              let few : n ≤ best.1 = ground (arith, less) in
              subst (IsBest (id ∷ done) s') (sym now) (record {
                bound = λ i r g e. elim g [
                  | inl q ↦
                      let eq = this r (subst (λ x. lookup x s'.requests ≡ some r) q e) in
                      omega (arith, eq, few)
                  | inr g' ↦ h.bound i r g' (sym (w.others i (NotIn-In id i done out g')) ∙ e)
                ];
                own = λ r e. elim (ℕ_discrete id best.0) [
                  | yes q ↦
                      let eq = this r (subst (λ x. lookup x s'.requests ≡ some r) (sym q) e) in
                      let was = h.own r₀ (subst (λ x. lookup x s.requests ≡ some r₀) q before) in
                      elim (Bool-cases (is_empty r₀.cached_block_ids)) [
                        | inl empty ↦
                            let none_yet = unseen r₀ before empty in
                            omega (arith, eq, was, none_yet, few)
                        | inr full ↦ let still = kept full in omega (arith, eq, was, still)
                      ]
                  | no d ↦ h.own r (sym (w.others best.0 d) ∙ e)
                ];
              })
        ]
  ]
