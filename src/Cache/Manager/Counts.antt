-- ===== src/Cache/Manager/Counts.antt =====
-- crates/rllm-cache/src/manager.rs, its loops over the pool, and the limit of the reference counts.
use r_llm.Shared.{
  ℕ, zero, suc, ◌+◌, ◌≤◌, ◌<◌, Bool, true, false, Option, some, List, [], ◌∷◌, ◌≡◌, refl, sym, ◌∙◌,
  ap, inl, inr, arith, In, length, subst, ℕ_discrete,
}
use r_llm.Cache.BlockPool.{BlockPool, free}
use r_llm.Cache.BlockPool.View.{Payload, View, view, set_view, used, count_used}
use r_llm.Cache.BlockPool.Invariant.{IsPool}
use r_llm.Cache.BlockPool.Release.{free-Frees}
use r_llm.Cache.BlockPool.Revive.{get_cached_block-Hits, CountsFit}
use r_llm.Cache.Manager.{free_all, collect_cached}

-- The pool is in order, and no reference count is within `k` of the limit.
pub record Fits (k : ℕ) (p : BlockPool) : Type 0 where
  pub free_blocks : List ℕ
  pub valid : IsPool p free_blocks
  pub counts :
      (i j r : ℕ) (h : Option ℕ) (n : Bool)
      → view p.blocks i ≡ some (j, h, r, n)
      → r + k ≤ 4294967294
  pub room : suc k ≤ 4294967294

pub weaken-Fits : (j k : ℕ) (p : BlockPool) → k ≤ j → Fits j p → Fits k p
weaken-Fits j k p less f = record {
  free_blocks = f.free_blocks;
  valid = f.valid;
  counts = λ i j r h n e. omega (arith, f.counts i j r h n e, less);
  room = omega (arith, f.room, less);
}

-- A block of `p`.
abbrev pub IsBlock : BlockPool → ℕ → Type 0
IsBlock p i = (w : Payload) × (view p.blocks i ≡ some w)

-- Every block is still there.
abbrev pub Keeps : BlockPool → BlockPool → Type 0
Keeps p p' = (i : ℕ) → IsBlock p i → IsBlock p' i

module _ (p p' : BlockPool) (id r : ℕ) (h : Option ℕ) (n : Bool)
    (blocks : view p'.blocks ≡ set_view (view p.blocks) id (id, h, r, n)) where
  pub set-Keeps : Keeps p p'
  set-Keeps i (w, e) = elim (ℕ_discrete id i) [
    | yes q ↦ ((id, h, r, n), ap (λ v. v i) blocks ∙ ground (arith, q))
    | no d ↦ (w, ap (λ v. v i) blocks ∙ ground (arith, d, e))
  ]

  pub set-Fits :
      (j k : ℕ) (xs : List ℕ) → k ≤ j → Fits j p → IsPool p' xs → r + k ≤ 4294967294 → Fits k p'
  set-Fits j k xs less f valid small = record {
    free_blocks = xs;
    valid = valid;
    counts = λ i a s g b e. elim (ℕ_discrete id i) [
      | yes q ↦
          let here : set_view (view p.blocks) id (id, h, r, n) i ≡ some (a, g, s, b) =
            sym (ap (λ v. v i) blocks) ∙ e in
          let same : r ≡ s = ground (arith, here, q) in omega (arith, same, small)
      | no d ↦
          let here : set_view (view p.blocks) id (id, h, r, n) i ≡ some (a, g, s, b) =
            sym (ap (λ v. v i) blocks) ∙ e in
          let old : view p.blocks i ≡ some (a, g, s, b) = ground (arith, here, d) in
          omega (arith, f.counts i a s g b old, less)
    ];
    room = omega (arith, f.room, less);
  }

free-Fits :
    (k : ℕ) (p : BlockPool) (id : ℕ) (h : Option ℕ) (r : ℕ) (n : Bool)
    → Fits k p
    → view p.blocks id ≡ some (id, h, r, n)
    → (p' : BlockPool) × (free p id ≡ some p') × Fits k p' × Keeps p p'
free-Fits k p id h r true f e = (p, free-Frees p f.free_blocks id h r true f.valid e, f, λ i b. b)
free-Fits k p id h zero false f e =
    (p, free-Frees p f.free_blocks id h zero false f.valid e, f, λ i b. b)
free-Fits k p id h (suc zero) false f e =
    let (p', g, rec, _) = free-Frees p f.free_blocks id h 1 false f.valid e in
    (
      p',
      g,
      set-Fits p p' id 0 h false rec.blocks k k _ (omega arith) f rec.valid (omega (arith, f.room)),
      set-Keeps p p' id 0 h false rec.blocks,
    )
free-Fits k p id h (suc (suc r)) false f e =
    let (p', g, rec, _) = free-Frees p f.free_blocks id h (suc (suc r)) false f.valid e in
    (
      p',
      g,
      set-Fits p p' id (suc r) h false rec.blocks k k _ (omega arith) f rec.valid
          (omega (arith, f.counts id id (suc (suc r)) h false e)),
      set-Keeps p p' id (suc r) h false rec.blocks,
    )

-- Giving back blocks of the pool does not panic.
pub free_all-Fits :
    (ids : List ℕ) (k : ℕ) (p : BlockPool)
    → Fits k p
    → ((i : ℕ) → In i ids → IsBlock p i)
    → (p' : BlockPool) × (free_all ids p ≡ some p') × Fits k p' × Keeps p p'
unfolding free_all
free_all-Fits [] k p f all = (p, refl, f, λ i b. b)
free_all-Fits (id ∷ ids) k p f all =
    let ((j, h, r, n), e) = all id (inl refl) in
    let own : j ≡ id = f.valid.books.own_id id j r h n e in
    let (p₁, g₁, f₁, keeps₁) =
      free-Fits k p id h r n f (subst (λ x. view p.blocks id ≡ some (x, h, r, n)) own e) in
    let (p₂, g₂, f₂, keeps₂) = free_all-Fits ids k p₁ f₁ (λ i m. keeps₁ i (all i (inr m))) in
    (p₂, rw g₁ g₂, f₂, λ i b. keeps₂ i (keeps₁ i b))

fit-CountsFit : (k : ℕ) (p : BlockPool) → Fits (suc k) p → CountsFit p
fit-CountsFit k p f id r h e = omega (arith, f.counts id id r h false e)

-- The look-ups of hashes do not panic, and what they answer are blocks.
pub collect_cached-Fits :
    (hashes : List ℕ) (k : ℕ) (p : BlockPool)
    → Fits (length hashes + k) p
    → (ids : List ℕ) × (p' : BlockPool) × (collect_cached hashes p ≡ some (ids, p'))
      × Fits k p'
      × Keeps p p'
      × ((i : ℕ) → In i ids → IsBlock p' i)
unfolding collect_cached
collect_cached-Fits [] k p f =
    ([], p, refl, weaken-Fits (0 + k) k p (omega arith) f, λ i b. b, λ i m. absurd m)
collect_cached-Fits (hash ∷ hashes) k p f =
    let f₀ = weaken-Fits (length (hash ∷ hashes) + k) (suc (length hashes + k)) p (omega arith) f in
    elim (get_cached_block-Hits p f.free_blocks hash f.valid
      (fit-CountsFit (length hashes + k) p f₀)) [
        | inl (_, e) ↦ (
          [],
          p,
          rw e refl,
          weaken-Fits (length (hash ∷ hashes) + k) k p (omega arith) f,
          λ i b. b,
          λ i m. absurd m,
        )
        | inr (id, r, xs', p₁, _, at, e, rec, _) ↦
            let rest = length hashes + k in
            let f₁ =
              set-Fits p p₁ id (suc r) (some hash) false rec.blocks (length (hash ∷ hashes) + k)
                rest xs' (omega arith) f rec.valid
                (omega (arith, f.counts id id r (some hash) false at)) in
            let keeps₁ = set-Keeps p p₁ id (suc r) (some hash) false rec.blocks in
            let (ids, p₂, g, f₂, keeps₂, all) = collect_cached-Fits hashes k p₁ f₁ in
            (
              id ∷ ids,
              p₂,
              rw (e, g) refl,
              f₂,
              (λ i b. keeps₂ i (keeps₁ i b)),
              λ i m. elim m [
                | inl q ↦ subst (IsBlock p₂) (sym q) (keeps₂ id (keeps₁ id (_, at)))
                | inr m' ↦ all i m'
              ],
            )
      ]

count_used-zero : (v : View) (n i : ℕ) → count_used v n ≡ 0 → i < n → used (v i) ≡ 0
unfolding count_used
count_used-zero v zero i e less = absurd (omega (arith, less))
count_used-zero v (suc n) i e less = elim (ℕ_discrete i n) [
  | yes q ↦ subst (λ x. used (v x) ≡ 0) (sym q) (omega (arith, e))
  | no d ↦ count_used-zero v n i (omega (arith, e)) (omega (arith, less, d))
]

-- Without active blocks no block has a reference.
pub fresh-Fits :
    (p : BlockPool) (xs : List ℕ) → IsPool p xs → p.num_active_blocks ≡ 0 → Fits 4294967293 p
fresh-Fits p xs valid none_active = record {
  free_blocks = xs;
  valid = valid;
  counts = λ i j r h n e.
      let unused =
        count_used-zero (view p.blocks) p.num_blocks i (sym valid.books.in_use ∙ none_active)
          (valid.books.range i _ e) in
      let zero_now : r ≡ 0 = ground (arith, unused, e) in omega (arith, zero_now);
  room = omega arith;
}
