-- ===== src/Scheduler/KvManager/Lookup.antt =====
-- crates/rllm-cache/src/manager.rs, `get_computed_blocks`, as the scheduler relies on it.
use r_llm.Shared.{
  ℕ, zero, suc, ◌+◌, ◌*◌, ◌/◌, ◌≤◌, ◌<◌, Bool, not, ◌||◌, Option, none, some, List, [], ◌≡◌, refl,
  sym, ap, ◌≢◌, inl, inr, arith, In, length, is_empty, lookup, lookup-insert, insert, subst,
  ℕ_discrete, Bool-cases,
}
use r_llm.Cache.BlockPool.{BlockPool, ids_of}
use r_llm.Cache.Prefix.{Digests, PrefixHashAlgorithm, compute_block_hashes, hash_blocks}
use r_llm.Cache.Manager.{KvCacheManager, PrefixCacheResult, look_up_prefix, get_computed_blocks}
use r_llm.Cache.Manager.Counts.{Fits, IsBlock, Keeps, weaken-Fits, collect_cached-Fits}
use r_llm.Scheduler.KvManager.{kv_manager, Valid, Tables, entry, held, Ready}

length-hash_blocks :
    (d : Digests) (algo : PrefixHashAlgorithm) (tokens : List ℕ) (block_size : ℕ)
    (salt : Option (List ℕ)) (left i parent : ℕ)
    → length (hash_blocks d algo tokens block_size salt left i parent) ≡ left
unfolding hash_blocks
length-hash_blocks d algo tokens block_size salt zero i parent = refl
length-hash_blocks d algo tokens block_size salt (suc left) i parent =
    ap suc (length-hash_blocks d algo tokens block_size salt left (suc i) _)

-- There are no more hashes than tokens.
compute_block_hashes-few :
    (d : Digests) (algo : PrefixHashAlgorithm) (tokens : List ℕ) (block_size : ℕ)
    → 0 < block_size
    → (hashes : List ℕ) × (compute_block_hashes d algo tokens block_size none ≡ some hashes)
      × (length hashes ≤ length tokens)
unfolding compute_block_hashes
compute_block_hashes-few d algo tokens block_size positive =
    let n = length tokens / block_size in
    let hashes = hash_blocks d algo tokens block_size none n 0 0 in
    let same = length-hash_blocks d algo tokens block_size none n 0 0 in
    let few : n ≤ length tokens = grind arith in
    (hashes, ground (arith, positive), omega (arith, same, few))

module _ (d : Digests) (block_size : ℕ) (positive : 0 < block_size) (k : ℕ) (m : KvCacheManager)
    (id : ℕ) (prompt : List ℕ) (skip : Bool) (valid : Valid block_size (length prompt + k) m) where
  abbrev pub Looked : Type 0
  Looked =
      (ids : List ℕ) × (cached : ℕ) × (m' : KvCacheManager) × ((kv_manager d).get_computed_blocks m
          id prompt skip
        ≡ some ((ids, cached), m'))
      × Valid block_size k m'
      × ((j : ℕ) → id ≢ j → entry m' j ≡ entry m j)
      × (cached ≤ held (entry m' id) * block_size)
      × (Ready block_size (entry m id) → Ready block_size (entry m' id))

  found_table : List ℕ → List ℕ → BlockPool → KvCacheManager
  found_table hashes ids pool = record m {
    block_pool = pool;
    request_block_hashes = insert id hashes m.request_block_hashes;
    request_computed_tokens = insert id (length ids * m.block_size) m.request_computed_tokens;
    request_blocks = insert id ids m.request_blocks;
  }

  found_table-Tables :
      (hashes ids : List ℕ) (pool : BlockPool)
      → Keeps m.block_pool pool
      → ((i : ℕ) → In i ids → IsBlock pool i)
      → Tables (found_table hashes ids pool)
  unfolding found_table
  found_table-Tables hashes ids pool keeps all j i g = elim (ℕ_discrete id j) [
    | yes q ↦
        let same : ids_of (lookup j (insert id ids m.request_blocks)) ≡ ids =
          ground (arith, lookup-insert id j ids m.request_blocks, q) in
        all i (subst (In i) same g)
    | no n ↦
        let same : lookup j (insert id ids m.request_blocks) ≡ lookup j m.request_blocks =
          ground (arith, lookup-insert id j ids m.request_blocks, n) in
        keeps i (valid.tables j i (subst (λ o. In i (ids_of o)) same g))
  ]

  found_table-entry :
      (hashes ids : List ℕ) (pool : BlockPool) (j : ℕ)
      → id ≢ j
      → entry (found_table hashes ids pool) j ≡ entry m j
  unfolding found_table
  found_table-entry hashes ids pool j n =
      let a : lookup j (insert id ids m.request_blocks) ≡ lookup j m.request_blocks =
        ground (arith, lookup-insert id j ids m.request_blocks, n) in
      let cached = length ids * m.block_size in
      let b : lookup j (insert id cached m.request_computed_tokens)
          ≡ lookup j m.request_computed_tokens =
        ground (arith, lookup-insert id j cached m.request_computed_tokens, n) in
      let e : lookup j (insert id hashes m.request_block_hashes) ≡ lookup j m.request_block_hashes =
        ground (arith, lookup-insert id j hashes m.request_block_hashes, n) in
      rw (a, b, e) refl

  found_table-here :
      (hashes ids : List ℕ) (pool : BlockPool)
      → entry (found_table hashes ids pool) id
        ≡ (some ids, some (length ids * block_size), some hashes)
  unfolding found_table
  found_table-here hashes ids pool =
      let a : lookup id (insert id ids m.request_blocks) ≡ some ids =
        ground (arith, lookup-insert id id ids m.request_blocks) in
      let cached = length ids * m.block_size in
      let b : lookup id (insert id cached m.request_computed_tokens) ≡ some cached =
        ground (arith, lookup-insert id id cached m.request_computed_tokens) in
      let e : lookup id (insert id hashes m.request_block_hashes) ≡ some hashes =
        ground (arith, lookup-insert id id hashes m.request_block_hashes) in
      rw (a, b, e, valid.size) refl

  found_table-Valid :
      (hashes ids : List ℕ) (pool : BlockPool)
      → Fits k pool
      → Keeps m.block_pool pool
      → ((i : ℕ) → In i ids → IsBlock pool i)
      → Valid block_size k (found_table hashes ids pool)
  unfolding found_table
  found_table-Valid hashes ids pool fits keeps all = record {
    fits = fits;
    size = valid.size;
    tables = found_table-Tables hashes ids pool keeps all;
  }

  -- The blocks of the look-up are all cached.
  hit_blocks : (n : ℕ) → n ≤ n * block_size / block_size
  hit_blocks n = grind arith

  look_up_prefix-Looked :
      (found : PrefixCacheResult) × (m' : KvCacheManager) × (look_up_prefix d m id prompt
        ≡ some (found, m'))
      × Valid block_size k m'
      × ((j : ℕ) → id ≢ j → entry m' j ≡ entry m j)
      × (found.num_computed_tokens ≤ held (entry m' id) * block_size)
      × Ready block_size (entry m' id)
  unfolding look_up_prefix found_table
  look_up_prefix-Looked =
      let same_size : 0 < m.block_size = subst (λ b. 0 < b) (sym valid.size) positive in
      let (hashes, e, few) =
        compute_block_hashes-few d m.hash_algorithm prompt m.block_size same_size in
      let fits =
        weaken-Fits (length prompt + k) (length hashes + k) m.block_pool (omega (arith, few))
          valid.fits in
      let (ids, pool, f, fits', keeps, all) = collect_cached-Fits hashes k m.block_pool fits in
      let here = found_table-here hashes ids pool in
      let found : PrefixCacheResult = record {
        cached_block_ids = ids;
        num_computed_tokens = length ids * m.block_size;
      } in
      (
        found,
        found_table hashes ids pool,
        rw (e, f) refl,
        found_table-Valid hashes ids pool fits' keeps all,
        found_table-entry hashes ids pool,
        subst (λ v. length ids * m.block_size ≤ held v * block_size) (sym here)
            (subst (λ b. length ids * b ≤ length ids * block_size) (sym valid.size) (omega arith)),
        subst (Ready block_size) (sym here) (inr (hit_blocks (length ids))),
      )

  -- In a manager in order with a positive block size and room in the reference counts for as many
  -- references as the prompt has tokens, the look-up of a prompt does not panic. The manager
  -- stays in order with that much less room, what it knows of other requests stays, the tokens
  -- found have blocks in the request's table, and a request whose blocks all count as computed,
  -- or without hashes, stays so.
  pub get_computed_blocks-Looked : Looked
  unfolding kv_manager get_computed_blocks
  get_computed_blocks-Looked =
      elim (Bool-cases (not m.enable_prefix_caching || skip || is_empty prompt)) [
        | inl off ↦ (
          [],
          0,
          m,
          rw off refl,
          record {
            fits = weaken-Fits (length prompt + k) k m.block_pool (omega arith) valid.fits;
            size = valid.size;
            tables = valid.tables;
          },
          (λ j n. refl),
          omega arith,
          λ r. r,
        )
        | inr on ↦
            let (found, m', e, valid', others, enough, ready) = look_up_prefix-Looked in
            (
              found.cached_block_ids,
              found.num_computed_tokens,
              m',
              rw (on, e) refl,
              valid',
              others,
              enough,
              λ r. ready,
            )
      ]
