-- ===== src/Cache/Manager/Slots.antt =====
-- crates/rllm-cache/src/manager.rs, `allocate_slots`: all the blocks that a request needs, or none.
use mathlib.Core.List.{append-nil}
use r_llm.Shared.{
  div_ceil-least, ℕ, ◌+◌, ◌-◌, ◌*◌, ◌<◌, ◌≤◌, none, some, List, [], ◌++◌, ◌≡◌, refl, sym, ◌∙◌, ap,
  ◌≢◌, ◌⊎◌, inl, inr, arith, In, Distinct, length, lookup, lookup-insert, insert, div_ceil, subst,
  ℕ_discrete,
}
use r_llm.Cache.BlockPool.{BlockPool, ids_of}
use r_llm.Cache.BlockPool.View.{view}
use r_llm.Cache.BlockPool.Invariant.{IsPool}
use r_llm.Cache.BlockPool.Reset.{unhashed}
use r_llm.Cache.Manager.{KvCacheManager, allocate_slots, take_slots, allocate_all}
use r_llm.Cache.Manager.Batch.{Claimed, SameOutside, allocate_all-cases}

-- The blocks that the request still needs.
abbrev pub needed : KvCacheManager → ℕ → ℕ → ℕ
needed m num_tokens num_computed = div_ceil (num_tokens - num_computed) m.block_size

-- The request's table has grown by `ids`, and nothing else but the pool has changed.
abbrev pub TableGrows : KvCacheManager → ℕ → List ℕ → KvCacheManager → Type 0
TableGrows m r ids m' =
    (ids_of (lookup r m'.request_blocks) ≡ ids_of (lookup r m.request_blocks) ++ ids)
    × ((s : ℕ) → r ≢ s → lookup s m'.request_blocks ≡ lookup s m.request_blocks)
    × (m'.request_computed_tokens ≡ m.request_computed_tokens)
    × (m'.request_block_hashes ≡ m.request_block_hashes)
    × (m'.block_size ≡ m.block_size)

-- Success: as many blocks as are needed, each free before, with one reference now and in no other
-- place of the answer. They hold all tokens, and one block fewer would not.
abbrev pub Granted : KvCacheManager → List ℕ → ℕ → ℕ → ℕ → Type 0
Granted m xs r num_tokens num_computed =
    (ids : List ℕ) × (m' : KvCacheManager) × (xs' : List ℕ) × (allocate_slots m r num_tokens
        num_computed
      ≡ some (some ids, m'))
    × (length ids ≡ needed m num_tokens num_computed)
    × (num_tokens - num_computed ≤ length ids * m.block_size)
    × (length ids * m.block_size < num_tokens - num_computed + m.block_size)
    × IsPool m'.block_pool xs'
    × (length xs ≡ length ids + length xs')
    × Distinct ids
    × Claimed (view m'.block_pool.blocks) ids
    × SameOutside (view m.block_pool.blocks) (view m'.block_pool.blocks) ids
    × ((i : ℕ) → In i ids → In i xs)
    × TableGrows m r ids m'

-- Failure: every table, the number of active and of free blocks and every reference count are as
-- before. (Hashes of free blocks may be lost.)
abbrev pub Refused : KvCacheManager → List ℕ → ℕ → ℕ → ℕ → Type 0
Refused m xs r num_tokens num_computed =
    (pool : BlockPool) × (xs' : List ℕ) × (allocate_slots m r num_tokens num_computed
      ≡ some (none, record m { block_pool = pool }))
    × IsPool pool xs'
    × (length xs' ≡ length xs)
    × (pool.num_active_blocks ≡ m.block_pool.num_active_blocks)
    × ((i : ℕ) → unhashed (view pool.blocks i) ≡ unhashed (view m.block_pool.blocks i))

module _ (m : KvCacheManager) (xs : List ℕ) (valid : IsPool m.block_pool xs) (r : ℕ) where
  take_slots-grows :
      (n : ℕ) (ids : List ℕ) (pool : BlockPool)
      → allocate_all n [] m.block_pool ≡ some (some ids, pool)
      → (m' : KvCacheManager) × (take_slots m r n ≡ some (some ids, m'))
        × (m'.block_pool ≡ pool)
        × TableGrows m r ids m'
  unfolding take_slots
  take_slots-grows n ids pool e =
      let table = ids_of (lookup r m.request_blocks) ++ ids in
      (
        record m { block_pool = pool; request_blocks = insert r table m.request_blocks },
        rw e refl,
        refl,
        (
          ground (arith, lookup-insert r r table m.request_blocks),
          (λ s n. ground (arith, lookup-insert r s table m.request_blocks)),
          refl,
          refl,
          refl,
        ),
      )

  take_slots-refused :
      (n : ℕ) (pool : BlockPool)
      → allocate_all n [] m.block_pool ≡ some (none, pool)
      → take_slots m r n ≡ some (none, record m { block_pool = pool })
  unfolding take_slots
  take_slots-refused n pool e = rw e refl

  module _ (num_tokens num_computed : ℕ) (positive : 0 < m.block_size) where
    slots-take_slots :
        num_tokens - num_computed ≢ 0
        → allocate_slots m r num_tokens num_computed
          ≡ take_slots m r (needed m num_tokens num_computed)
    unfolding allocate_slots
    slots-take_slots some_needed = ground arith

    slots-none_needed :
        num_tokens - num_computed ≡ 0
        → allocate_slots m r num_tokens num_computed ≡ some (some [], m)
    unfolding allocate_slots
    slots-none_needed e = ground arith

    Granted-none : num_tokens - num_computed ≡ 0 → Granted m xs r num_tokens num_computed
    Granted-none e = (
      [],
      m,
      xs,
      slots-none_needed e,
      grind arith,
      omega arith,
      grind arith,
      valid,
      omega arith,
      tt,
      (λ i k. absurd k),
      (λ i n. refl),
      (λ i k. absurd k),
      (sym (append-nil _), (λ s n. refl), refl, refl, refl),
    )

    -- In a well-formed pool with a positive block size, `allocate_slots` succeeds exactly when as
    -- many blocks are free as the request still needs. Then it answers that many different blocks
    -- that were free, each with one reference; they hold the tokens, and one block fewer would
    -- not; the request's table grows by them, and the other tables and blocks, the computed
    -- tokens, the hashes and the block size stay. Otherwise it answers that there is no room, and
    -- every table, every reference count and the numbers of active and of free blocks are as
    -- before. Both leave the pool well formed.
    pub allocate_slots-outcome :
        ((needed m num_tokens num_computed ≤ length xs) × Granted m xs r num_tokens num_computed)
        ⊎ ((length xs < needed m num_tokens num_computed) × Refused m xs r num_tokens num_computed)
    allocate_slots-outcome = elim (ℕ_discrete (num_tokens - num_computed) 0) [
      | yes e ↦ inl (grind arith, Granted-none e)
      | no n ↦ elim (allocate_all-cases (needed m num_tokens num_computed) m.block_pool xs valid) [
        | inl (enough, (ids, pool, xs', e, len, ok, total, distinct, claimed, active, out, from)) ↦
            let (m', f, same, grows) = take_slots-grows _ ids pool e in
            inl (
              enough,
              (
                ids,
                m',
                xs',
                slots-take_slots n ∙ f,
                len,
                rw len (div_ceil-least (num_tokens - num_computed) m.block_size positive).0,
                rw len (div_ceil-least (num_tokens - num_computed) m.block_size positive).1,
                subst (λ q. IsPool q xs') (sym same) ok,
                total ∙ ap (λ k. k + length xs') (sym len),
                distinct,
                subst (λ q. Claimed (view q.blocks) ids) (sym same) claimed,
                subst (λ q. SameOutside (view m.block_pool.blocks) (view q.blocks) ids) (sym same)
                    out,
                from,
                grows,
              ),
            )
        | inr (few, (pool, xs', e, ok, len, active, total, out, back)) ↦ inr (
          few,
          (
            pool,
            xs',
            slots-take_slots n ∙ take_slots-refused _ pool e,
            ok,
            omega (arith, len),
            omega (arith, active),
            λ i. out i tt,
          ),
        )
      ]
    ]
