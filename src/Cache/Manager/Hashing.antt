-- ===== src/Cache/Manager/Hashing.antt =====
-- crates/rllm-cache/src/manager.rs, the loop of `cache_blocks`.
use r_llm.Shared.{
  ℕ, zero, suc, ◌+◌, ◌-◌, ◌≤◌, ◌<◌, false, none, some, List, [], ◌∷◌, ◌++◌, ◌≡◌, refl, sym, ◌∙◌, ap,
  ◌≢◌, ◌⊎◌, inl, inr, arith, In, NotIn-In, Distinct, length, get_elem?, subst, Option-cases,
}
use r_llm.Cache.BlockPool.{BlockPool}
use r_llm.Cache.BlockPool.View.{view, set_view-ne}
use r_llm.Cache.BlockPool.Caching.{cache_block-Caches}
use r_llm.Cache.Manager.{cache_at, cache_range}
use r_llm.Cache.Manager.Batch.{Claimed}
use r_llm.Cache.Manager.Counts.{Fits, Keeps, set-Fits, set-Keeps}

get_elem?-In : (xs : List ℕ) (n x : ℕ) → get_elem? xs n ≡ some x → In x xs
get_elem?-In [] n x e = absurd (ground (arith, e))
get_elem?-In (y ∷ xs) zero x e = inl (ground (arith, e))
get_elem?-In (y ∷ xs) (suc n) x e = inr (get_elem?-In xs n x e)

get_elem?-apart :
    (xs : List ℕ) (n m a b : ℕ)
    → Distinct xs
    → n < m
    → get_elem? xs n ≡ some a
    → get_elem? xs m ≡ some b
    → a ≢ b
get_elem?-apart [] n m a b d less e f = absurd (ground (arith, e))
get_elem?-apart (x ∷ xs) n zero a b d less e f = absurd (omega (arith, less))
get_elem?-apart (x ∷ xs) zero (suc m) a b (out, d) less e f =
    let here : x ≡ a = ground (arith, e) in
    subst (λ y. y ≢ b) here (NotIn-In x b xs out (get_elem?-In xs m b f))
get_elem?-apart (x ∷ xs) (suc n) (suc m) a b (out, d) less e f =
    get_elem?-apart xs n m a b d (omega (arith, less)) e f

get_elem?-right :
    (old ids : List ℕ) (n : ℕ)
    → length old ≤ n
    → get_elem? (old ++ ids) n ≡ get_elem? ids (n - length old)
get_elem?-right [] ids n less = ap (get_elem? ids) (omega arith)
get_elem?-right (x ∷ old) ids zero less = absurd (omega (arith, less))
get_elem?-right (x ∷ old) ids (suc n) less =
    get_elem?-right old ids n (omega (arith, less)) ∙ ap (get_elem? ids) (omega arith)

get_elem?-some : (xs : List ℕ) (n : ℕ) → n < length xs → (x : ℕ) × (get_elem? xs n ≡ some x)
get_elem?-some [] n less = absurd (omega (arith, less))
get_elem?-some (x ∷ xs) zero less = (x, refl)
get_elem?-some (x ∷ xs) (suc n) less = get_elem?-some xs n (omega (arith, less))

-- From index `i` on, the blocks of the table are different and new, with one reference each.
pub record Fresh (table : List ℕ) (i : ℕ) (p : BlockPool) : Type 0 where
  pub new :
      (n id : ℕ)
      → i ≤ n
      → get_elem? table n ≡ some id
      → view p.blocks id ≡ some (id, none, 1, false)
  pub apart :
      (n m a b : ℕ)
      → i ≤ n
      → n < m
      → get_elem? table n ≡ some a
      → get_elem? table m ≡ some b
      → a ≢ b

pub Claimed-Fresh :
    (old ids : List ℕ) (i : ℕ) (p : BlockPool)
    → length old ≤ i
    → Distinct ids
    → Claimed (view p.blocks) ids
    → Fresh (old ++ ids) i p
Claimed-Fresh old ids i p less d claimed = record {
  new = λ n id g e. claimed id (
      get_elem?-In ids (n - length old) id
        (sym (get_elem?-right old ids n (omega (arith, less, g))) ∙ e));
  apart = λ n m a b g l e f.
      get_elem?-apart ids (n - length old) (m - length old) a b d (omega (arith, less, g, l))
        (sym (get_elem?-right old ids n (omega (arith, less, g))) ∙ e)
        (sym (get_elem?-right old ids m (omega (arith, less, g, l))) ∙ f);
}

Fresh-next : (table : List ℕ) (i : ℕ) (p : BlockPool) → Fresh table i p → Fresh table (suc i) p
Fresh-next table i p h = record {
  new = λ n id g. h.new n id (omega (arith, g));
  apart = λ n m a b g. h.apart n m a b (omega (arith, g));
}

module _ (table hashes : List ℕ) (k : ℕ) where
  cache_at-Fits :
      (i : ℕ) (p : BlockPool)
      → Fits k p
      → Fresh table i p
      → i < length hashes
      → (p' : BlockPool) × (cache_at table hashes i p ≡ some p')
        × Fits k p'
        × Keeps p p'
        × Fresh table (suc i) p'
  unfolding cache_at
  cache_at-Fits i p f h few = elim (Option-cases (get_elem? table i)) [
    | inl e ↦ (p, rw (cache_at, e) refl, f, λ j b. b, Fresh-next table i p h)
    | inr (id, e) ↦
        let (hash, g) = get_elem?-some hashes i few in
        let at = h.new i id (omega arith) e in
        let (p', c, caches) =
          cache_block-Caches p f.free_blocks id hash 0 none f.valid at (inl refl) in
        (
          p',
          rw (cache_at, e, g) c,
          set-Fits p p' id 1 (some hash) false caches.blocks k k _ (omega arith) f caches.valid
              (omega (arith, f.room)),
          set-Keeps p p' id 1 (some hash) false caches.blocks,
          record {
            new = λ n j l q.
                let d = h.apart i n id j (omega arith) (omega (arith, l)) e q in
                ap (λ v. v j) caches.blocks
                ∙ set_view-ne (view p.blocks) id j _ d
                ∙ h.new n j (omega (arith, l)) q;
            apart = λ n m a b l. h.apart n m a b (omega (arith, l));
          },
        )
  ]

  -- The loop of `cache_blocks` does not panic.
  pub cache_range-Fits :
      (left i : ℕ) (p : BlockPool)
      → Fits k p
      → Fresh table i p
      → (left ≡ 0) ⊎ (i + left ≤ length hashes)
      → (p' : BlockPool) × (cache_range left table hashes i p ≡ some p') × Fits k p' × Keeps p p'
  unfolding cache_range
  cache_range-Fits zero i p f h few = (p, refl, f, λ j b. b)
  cache_range-Fits (suc left) i p f h few =
      let (p₁, e₁, f₁, keeps₁, h₁) = cache_at-Fits i p f h (omega (arith, few)) in
      let (p₂, e₂, f₂, keeps₂) =
        cache_range-Fits left (suc i) p₁ f₁ h₁ (inr (omega (arith, few))) in
      (p₂, rw e₁ e₂, f₂, λ j b. keeps₂ j (keeps₁ j b))
