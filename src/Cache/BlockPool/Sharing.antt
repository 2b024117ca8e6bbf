-- ===== src/Cache/BlockPool/Sharing.antt =====
-- crates/rllm-cache/src/block_pool.rs, `incref`, `is_shared` and `copy_on_write`.
use r_llm.Shared.{
  ℕ, zero, suc, ◌+◌, ◌<◌, ◌≤◌, Bool, true, false, Option, none, some, List, [], ◌∷◌, ◌++◌, ◌≡◌,
  refl, sym, ◌∙◌, ap, ◌≢◌, ◌⊎◌, inl, inr, arith, In, In-middle, subst,
}
use r_llm.Cache.BlockPool.{
  BlockPool, allocate, incref, add_reference, is_shared, copy_on_write, replace_shared,
}
use r_llm.Cache.BlockPool.View.{view, set_view, view-block}
use r_llm.Cache.BlockPool.Invariant.{IsPool}
use r_llm.Cache.BlockPool.Allocate.{Hands, allocate-Allocates}
use r_llm.Cache.BlockPool.Release.{Recounts, recount, recount-Recounts, free_shared}

module _ (p : BlockPool) (xs : List ℕ) (valid : IsPool p xs) (id : ℕ) (h : Option ℕ) where
  incref-Recounts :
      (r : ℕ)
      → view p.blocks id ≡ some (id, h, suc r, false)
      → suc r < 4294967295
      → (p' : BlockPool) × (incref p id ≡ some p')
        × Recounts p id h (suc (suc r)) xs p'
        × (p'.num_active_blocks ≡ p.num_active_blocks)
  unfolding incref add_reference
  incref-Recounts r at small =
      let (b, e, w) = view-block p.blocks id _ at in
      (
        recount p id b (suc (suc r)),
        ground arith,
        recount-Recounts p xs valid id h r (suc r) b at e w,
        refl,
      )

  incref_limit :
      (r : ℕ)
      → view p.blocks id ≡ some (id, h, suc r, false)
      → 4294967295 ≤ suc r
      → incref p id ≡ none
  unfolding incref add_reference
  incref_limit r at great = let (b, e, w) = view-block p.blocks id _ at in ground arith

  -- What `incref` does to a block with the reference count `r`: nothing to the null block or to a
  -- block without references, and a panic at the limit of a `u32`.
  abbrev pub Increfs : ℕ → Bool → Type 0
  Increfs r true = incref p id ≡ some p
  Increfs zero false = incref p id ≡ some p
  Increfs (suc r) false =
      ((suc r < 4294967295)
        × ((p' : BlockPool) × (incref p id ≡ some p')
            × Recounts p id h (suc (suc r)) xs p'
            × (p'.num_active_blocks ≡ p.num_active_blocks)))
      ⊎ ((4294967295 ≤ suc r) × (incref p id ≡ none))

  -- Another reference to a block of a well-formed pool: the null block and a block without
  -- references stay as they are, and nothing changes. A block with 1 to 2^32 - 2 references has
  -- one more and nothing else changes; the pool stays well formed. A block with more references
  -- makes it panic.
  pub incref-Increfs : (r : ℕ) (n : Bool) → view p.blocks id ≡ some (id, h, r, n) → Increfs r n
  unfolding incref
  incref-Increfs r true at = let (b, e, w) = view-block p.blocks id _ at in ground arith
  incref-Increfs zero false at = let (b, e, w) = view-block p.blocks id _ at in ground arith
  incref-Increfs (suc r) false at =
      let bound : (suc r < 4294967295) ⊎ (4294967295 ≤ suc r) = ground arith in
      elim bound [
        | inl small ↦ inl (small, incref-Recounts r at small)
        | inr great ↦ inr (great, incref_limit r at great)
      ]

  is_shared_many :
      (r : ℕ) → view p.blocks id ≡ some (id, h, suc (suc r), false) → is_shared p id ≡ some true
  unfolding is_shared
  is_shared_many r at =
      let (b, e, w) = view-block p.blocks id _ at in
      let below = valid.books.range id _ at in ground arith

  is_shared_few :
      (r : ℕ) (n : Bool)
      → view p.blocks id ≡ some (id, h, r, n)
      → (r ≤ 1) ⊎ (n ≡ true)
      → is_shared p id ≡ some false
  unfolding is_shared
  is_shared_few r n at few =
      let (b, e, w) = view-block p.blocks id _ at in
      let below = valid.books.range id _ at in ground arith

  -- A block that is not shared is written in place.
  copy_on_write_exclusive :
      (r : ℕ) (n : Bool)
      → view p.blocks id ≡ some (id, h, r, n)
      → (r ≤ 1) ⊎ (n ≡ true)
      → copy_on_write p id ≡ some (some id, p)
  unfolding copy_on_write
  copy_on_write_exclusive r n at few = rw (is_shared_few r n at few) refl

  -- What `copy_on_write` does to a shared block: if no block is free it fails and changes nothing.
  -- Otherwise it answers a free block, now with one reference, and the shared one loses one.
  abbrev pub Copies : ℕ → Type 0
  Copies r =
      ((xs ≡ []) × (copy_on_write p id ≡ some (none, p)))
      ⊎ ((ys : List ℕ) × (x : ℕ) × (zs : List ℕ) × (p' : BlockPool) × (xs ≡ ys ++ x ∷ zs)
          × (copy_on_write p id ≡ some (some x, p'))
          × (x ≢ id)
          × IsPool p' (ys ++ zs)
          × (view p'.blocks
              ≡ set_view (set_view (view p.blocks) x (x, none, 1, false)) id (id, h, suc r, false))
          × (p'.num_active_blocks ≡ p.num_active_blocks + 1))

  copy_found :
      (r : ℕ) (ys : List ℕ) (x : ℕ) (zs : List ℕ) (p' : BlockPool)
      → view p.blocks id ≡ some (id, h, suc (suc r), false)
      → xs ≡ ys ++ x ∷ zs
      → allocate p ≡ some (some x, p')
      → Hands p ys x zs p'
      → Copies r
  unfolding copy_on_write replace_shared
  copy_found r ys x zs p' at split e hands =
      let (g, w) = valid.books.idle x (subst (λ l. In x l) (sym split) (In-middle ys x zs)) in
      let ne : x ≢ id = λ q. ground arith in
      let at' : view p'.blocks id ≡ some (id, h, suc (suc r), false) =
        ap (λ u. u id) hands.blocks ∙ ground arith in
      let (p'', e', rec, active) = free_shared p' (ys ++ zs) hands.valid id h r at' in
      inr (
        ys,
        x,
        zs,
        p'',
        split,
        rw (is_shared_many r at, e, e') refl,
        ne,
        rec.valid,
        rec.blocks ∙ ap (λ u. set_view u id (id, h, suc r, false)) hands.blocks,
        active ∙ hands.num_active,
      )

  -- Writing to a block of a well-formed pool that has at least two references: if no block is
  -- free, it fails and changes nothing. Otherwise it answers another block, which was free and
  -- has one reference now, the shared block has one reference fewer, and the pool stays well
  -- formed.
  pub copy_on_write-Copies :
      (r : ℕ) → view p.blocks id ≡ some (id, h, suc (suc r), false) → Copies r
  unfolding copy_on_write replace_shared
  copy_on_write-Copies r at = elim (allocate-Allocates p xs valid) [
    | inl (empty, e) ↦ inl (empty, rw (is_shared_many r at, e) refl)
    | inr (ys, x, zs, p', split, e, hands, _) ↦ copy_found r ys x zs p' at split e hands
  ]
