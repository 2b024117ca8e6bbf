-- ===== src/Scheduler/KvManager/Release.antt =====
-- crates/rllm-cache/src/manager.rs, `free` and `cache_blocks`, as the scheduler relies on them.
use r_llm.Shared.{
  ℕ, ◌+◌, ◌-◌, ◌/◌, ◌≤◌, ◌<◌, min, false, not, Option, none, some, List, ◌++◌, ◌≡◌, refl, sym, ◌∙◌,
  ap, ◌≢◌, ◌⊎◌, inl, inr, arith, In, length, lookup, lookup-insert, lookup-delete, insert, delete,
  subst, ℕ_discrete, ◌==◌, Bool-cases,
}
use r_llm.Cache.BlockPool.{BlockPool, ids_of}
use r_llm.Cache.Manager.{
  KvCacheManager, free, cache_blocks, with_table, cache_full_blocks, get_computed_tokens,
}
use r_llm.Cache.Manager.Counts.{IsBlock, Keeps, free_all-Fits}
use r_llm.Cache.Manager.Hashing.{Claimed-Fresh, Fresh, cache_range-Fits}
use r_llm.Scheduler.KvManager.{Valid, entry, held, Ready, Cacheable}

module _ (block_size k : ℕ) (m : KvCacheManager) (id : ℕ) (valid : Valid block_size k m) where
  freed : BlockPool → KvCacheManager
  freed pool = record m {
    block_pool = pool;
    request_blocks = delete id m.request_blocks;
    request_computed_tokens = delete id m.request_computed_tokens;
    request_block_hashes = delete id m.request_block_hashes;
  }

  freed-tables :
      (pool : BlockPool)
      → Keeps m.block_pool pool
      → (j i : ℕ) → In i (ids_of (lookup j (delete id m.request_blocks)))
      → IsBlock pool i
  freed-tables pool keeps j i g = elim (ℕ_discrete id j) [
    | yes q ↦
        let gone : lookup j (delete id m.request_blocks) ≡ none =
          ground (arith, lookup-delete id j m.request_blocks, q) in
        absurd (subst (λ o. In i (ids_of o)) gone g)
    | no n ↦
        let same : lookup j (delete id m.request_blocks) ≡ lookup j m.request_blocks =
          ground (arith, lookup-delete id j m.request_blocks, n) in
        keeps i (valid.tables j i (subst (λ o. In i (ids_of o)) same g))
  ]

  freed-entry : (pool : BlockPool) (j : ℕ) → id ≢ j → entry (freed pool) j ≡ entry m j
  unfolding freed
  freed-entry pool j n =
      let a : lookup j (delete id m.request_blocks) ≡ lookup j m.request_blocks =
        ground (arith, lookup-delete id j m.request_blocks, n) in
      let b : lookup j (delete id m.request_computed_tokens) ≡ lookup j m.request_computed_tokens =
        ground (arith, lookup-delete id j m.request_computed_tokens, n) in
      let e : lookup j (delete id m.request_block_hashes) ≡ lookup j m.request_block_hashes =
        ground (arith, lookup-delete id j m.request_block_hashes, n) in
      rw (a, b, e) refl

  -- A request that is freed has no hashes and no blocks.
  pub free-released :
      (m' : KvCacheManager) × (free m id ≡ some m')
      × Valid block_size k m'
      × ((j : ℕ) → id ≢ j → entry m' j ≡ entry m j)
      × Ready block_size (entry m' id)
      × (held (entry m' id) ≡ 0)
  unfolding free freed
  free-released =
      let (pool, e, fits, keeps) =
        free_all-Fits (ids_of (lookup id m.request_blocks)) k m.block_pool valid.fits
          (valid.tables id) in
      (
        freed pool,
        rw e refl,
        record { fits = fits; size = valid.size; tables = freed-tables pool keeps },
        freed-entry pool,
        inl (ground (arith, lookup-delete id id m.request_block_hashes)),
        (let gone : lookup id (delete id m.request_blocks) ≡ none =
              ground (arith, lookup-delete id id m.request_blocks) in
            rw gone refl),
      )

  abbrev pub Cached : ℕ → Option KvCacheManager → Type 0
  Cached total answer =
      (m' : KvCacheManager) × (answer ≡ some m')
      × Valid block_size k m'
      × ((j : ℕ) → id ≢ j → entry m' j ≡ entry m j)
      × (held (entry m' id) ≡ held (entry m id))

  unchanged : (total : ℕ) → Cached total (some m)
  unchanged total = (m, refl, valid, (λ j n. refl), refl)

  cache_full_blocks-Cached :
      (total : ℕ) (old ids hashes : List ℕ)
      → Fresh (old ++ ids) (get_computed_tokens m id / m.block_size) m.block_pool
      → Cached total (cache_full_blocks m id total (old ++ ids) hashes)
  unfolding cache_full_blocks
  cache_full_blocks-Cached total old ids hashes fresh =
      let first = get_computed_tokens m id / m.block_size in
      let end = min (total / m.block_size) (length hashes) in
      let few : (end - first ≡ 0) ⊎ (first + (end - first) ≤ length hashes) = ground arith in
      let (pool, e, fits, keeps) =
        cache_range-Fits (old ++ ids) hashes k (end - first) first m.block_pool valid.fits fresh
          few in
      (
        record m {
          block_pool = pool;
          request_computed_tokens = insert id total m.request_computed_tokens;
        },
        rw e refl,
        record { fits = fits; size = valid.size; tables = λ j i g. keeps i (valid.tables j i g) },
        (λ j n.
            let b : lookup j (insert id total m.request_computed_tokens)
                ≡ lookup j m.request_computed_tokens =
              ground (arith, lookup-insert id j total m.request_computed_tokens, n) in
            rw b refl),
        refl,
      )

  -- `cache_blocks` does not panic on blocks that are new.
  with_table-Cached :
      (total : ℕ) (table hashes : Option (List ℕ))
      → lookup id m.request_blocks ≡ table
      → lookup id m.request_block_hashes ≡ hashes
      → Cacheable block_size m id
      → Cached total (with_table m id total table hashes)
  unfolding with_table get_computed_tokens
  with_table-Cached total none hashes e f able = unchanged total
  with_table-Cached total (some table) none e f able = unchanged total
  with_table-Cached total (some table) (some hashes) e f (inl missing) =
      absurd (ground (arith, f, missing))
  with_table-Cached total (some table) (some hashes) e f (inr (old, ids, split, few, d, claimed)) =
      let same : table ≡ old ++ ids = sym (ap ids_of e) ∙ split in
      let few' : length old ≤ get_computed_tokens m id / m.block_size =
        subst (λ b. length old ≤ get_computed_tokens m id / b) (sym valid.size) few in
      subst (λ t. Cached total (cache_full_blocks m id total t hashes)) (sym same)
        (cache_full_blocks-Cached total old ids hashes
          (Claimed-Fresh old ids _ m.block_pool few' d claimed))

  pub cache_blocks-Cached :
      0 < block_size
      → (total : ℕ) → Cacheable block_size m id
      → Cached total (cache_blocks m id total)
  unfolding cache_blocks
  cache_blocks-Cached positive total able = elim (Bool-cases (not m.enable_prefix_caching)) [
    | inl off ↦ subst (Cached total) (rw off refl) (unchanged total)
    | inr on ↦
        let full : (m.block_size == 0) ≡ false = ground (arith, valid.size) in
        let rest =
          with_table-Cached total (lookup id m.request_blocks) (lookup id m.request_block_hashes)
            refl refl able in
        let (m', e, valid', others, same) = rest in (m', rw (on, full) e, valid', others, same)
  ]
