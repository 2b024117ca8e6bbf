-- ===== src/Cache/Manager.antt =====
-- crates/rllm-cache/src/manager.rs, `KvCacheManager`: the block tables of the requests. A request's
-- id is a number. An outer `none` is a panic: one of the pool, or a division by a block size of 0.
pub mod Batch
pub mod Slots
pub mod Counts
pub mod Hashing
use r_llm.Shared.{
  ℕ, zero, suc, ◌+◌, ◌-◌, ◌*◌, ◌/◌, min, Bool, true, false, not, ◌||◌, Option, none, some, List, [],
  ◌∷◌, ◌++◌, ◌==◌, ltb, if◌then◌else◌, ◌>>=◌, is_empty, length, get_elem?, Map, lookup, insert,
  delete, div_ceil,
}
use r_llm.Cache.BlockPool
use r_llm.Cache.BlockPool.{BlockPool, BlockPoolUsage, ResetResult, done, active, ids_of}
use r_llm.Cache.Prefix.{Digests, PrefixHashAlgorithm, compute_block_hashes}

pub record KvCacheManager : Type 0 where
  pub block_pool : BlockPool
  pub block_size : ℕ
  pub enable_prefix_caching : Bool
  pub hash_algorithm : PrefixHashAlgorithm
  pub request_blocks : Map (List ℕ)
  pub request_computed_tokens : Map ℕ
  pub request_block_hashes : Map (List ℕ)

unfoldable pub new : ℕ → ℕ → Bool → PrefixHashAlgorithm → Option KvCacheManager
new num_blocks block_size enable algo = do
  pool ← BlockPool.new num_blocks
  some (record {
    block_pool = pool;
    block_size = block_size;
    enable_prefix_caching = enable;
    hash_algorithm = algo;
    request_blocks = [];
    request_computed_tokens = [];
    request_block_hashes = [];
  })

pub record PrefixCacheResult : Type 0 where
  pub cached_block_ids : List ℕ
  pub num_computed_tokens : ℕ

-- The loop over the hashes, up to the first miss.
unfoldable pub collect_cached : List ℕ → BlockPool → Option (List ℕ × BlockPool)
collect_cached [] p = some ([], p)
collect_cached (hash ∷ hashes) p = do
  (found, p₁) ← BlockPool.get_cached_block p hash
  elim found [
    | none ↦ some ([], p₁)
    | some id ↦ do (ids, p₂) ← collect_cached hashes p₁; some (id ∷ ids, p₂)
  ]

unfoldable pub look_up_prefix :
    Digests → KvCacheManager → ℕ → List ℕ → Option (PrefixCacheResult × KvCacheManager)
look_up_prefix d m request_id prompt_tokens = do
  hashes ← compute_block_hashes d m.hash_algorithm prompt_tokens m.block_size none
  (ids, pool) ← collect_cached hashes m.block_pool
  some (
    record { cached_block_ids = ids; num_computed_tokens = length ids * m.block_size },
    record m {
      block_pool = pool;
      request_block_hashes = insert request_id hashes m.request_block_hashes;
      request_computed_tokens =
          insert request_id (length ids * m.block_size) m.request_computed_tokens;
      request_blocks = insert request_id ids m.request_blocks;
    },
  )

unfoldable pub get_computed_blocks :
    Digests → KvCacheManager → ℕ → List ℕ → Bool → Option (PrefixCacheResult × KvCacheManager)
get_computed_blocks d m request_id prompt_tokens skip_prefix_cache =
    if not m.enable_prefix_caching || skip_prefix_cache || is_empty prompt_tokens
    then some (record { cached_block_ids = []; num_computed_tokens = 0 }, m)
    else look_up_prefix d m request_id prompt_tokens

-- `for id in ids { pool.free(id) }`.
unfoldable pub free_all : List ℕ → BlockPool → Option BlockPool
free_all [] p = some p
free_all (id ∷ ids) p = do p' ← BlockPool.free p id; free_all ids p'

-- `for _ in 0..left`, with the blocks got so far: the blocks, or their rollback.
unfoldable pub allocate_all : ℕ → List ℕ → BlockPool → Option (Option (List ℕ) × BlockPool)
allocate_all zero got p = some (some got, p)
allocate_all (suc left) got p = do
  (found, p₁) ← BlockPool.allocate p
  elim found [
    | none ↦ do p₂ ← free_all got p₁; some (none, p₂)
    | some id ↦ allocate_all left (got ++ id ∷ []) p₁
  ]

unfoldable pub take_slots : KvCacheManager → ℕ → ℕ → Option (Option (List ℕ) × KvCacheManager)
take_slots m request_id num_new_blocks = do
  (got, pool) ← allocate_all num_new_blocks [] m.block_pool
  elim got [
    | none ↦ some (none, record m { block_pool = pool })
    | some ids ↦ some (
      some ids,
      record m {
        block_pool = pool;
        request_blocks =
            insert request_id (ids_of (lookup request_id m.request_blocks) ++ ids) m.request_blocks;
      },
    )
  ]

unfoldable pub allocate_slots :
    KvCacheManager → ℕ → ℕ → ℕ → Option (Option (List ℕ) × KvCacheManager)
allocate_slots m request_id num_tokens num_computed =
    if num_tokens - num_computed == 0
    then some (some [], m)
    else if m.block_size == 0
    then none
    else take_slots m request_id (div_ceil (num_tokens - num_computed) m.block_size)

unfoldable pub free : KvCacheManager → ℕ → Option KvCacheManager
free m request_id = do
  pool ← free_all (ids_of (lookup request_id m.request_blocks)) m.block_pool
  some (record m {
    block_pool = pool;
    request_blocks = delete request_id m.request_blocks;
    request_computed_tokens = delete request_id m.request_computed_tokens;
    request_block_hashes = delete request_id m.request_block_hashes;
  })

-- One round of the loop of `cache_blocks`, at index `i`.
unfoldable pub cache_at : List ℕ → List ℕ → ℕ → BlockPool → Option BlockPool
cache_at block_table hashes i p = elim (get_elem? block_table i) [
  | none ↦ some p
  | some id ↦ do hash ← get_elem? hashes i; BlockPool.cache_block p id hash
]

unfoldable pub cache_range : ℕ → List ℕ → List ℕ → ℕ → BlockPool → Option BlockPool
cache_range zero block_table hashes i p = some p
cache_range (suc left) block_table hashes i p = do
  p' ← cache_at block_table hashes i p
  cache_range left block_table hashes (suc i) p'

abbrev pub computed_or_zero : Option ℕ → ℕ
computed_or_zero none = 0
computed_or_zero (some n) = n

unfoldable pub get_computed_tokens : KvCacheManager → ℕ → ℕ
get_computed_tokens m request_id = computed_or_zero (lookup request_id m.request_computed_tokens)

unfoldable pub cache_full_blocks : KvCacheManager → ℕ → ℕ → List ℕ → List ℕ → Option KvCacheManager
cache_full_blocks m request_id num_computed_tokens block_table hashes = do
  let first = get_computed_tokens m request_id / m.block_size
  let end = min (num_computed_tokens / m.block_size) (length hashes)
  pool ← cache_range (end - first) block_table hashes first m.block_pool
  some (record m {
    block_pool = pool;
    request_computed_tokens = insert request_id num_computed_tokens m.request_computed_tokens;
  })

-- The `let … else` of `cache_blocks`.
unfoldable pub with_table :
    KvCacheManager → ℕ → ℕ → Option (List ℕ) → Option (List ℕ) → Option KvCacheManager
with_table m request_id num_computed_tokens none hashes = some m
with_table m request_id num_computed_tokens (some block_table) none = some m
with_table m request_id num_computed_tokens (some block_table) (some hashes) =
    cache_full_blocks m request_id num_computed_tokens block_table hashes

unfoldable pub cache_blocks : KvCacheManager → ℕ → ℕ → Option KvCacheManager
cache_blocks m request_id num_computed_tokens =
    if not m.enable_prefix_caching
    then some m
    else if m.block_size == 0
    then none
    else with_table m request_id num_computed_tokens (lookup request_id m.request_blocks)
        (lookup request_id m.request_block_hashes)

unfoldable pub get_block_ids : KvCacheManager → ℕ → Option (List ℕ)
get_block_ids m request_id = lookup request_id m.request_blocks

unfoldable incref_all : List ℕ → BlockPool → Option BlockPool
incref_all [] p = some p
incref_all (id ∷ ids) p = do p' ← BlockPool.incref p id; incref_all ids p'

-- `if let Some(v) = map.get(parent) { map.insert(child, v) }`.
abbrev copy_entry {ℓ} : {V : Type ℓ} → Option V → ℕ → Map V → Map V
copy_entry none child m = m
copy_entry (some v) child m = insert child v m

pub data ForkResult : Type 0 where
  forked : KvCacheManager → ForkResult
  parent_not_found : ForkResult

unfoldable fork_blocks : KvCacheManager → ℕ → ℕ → Option ForkResult
fork_blocks m parent child = elim (lookup parent m.request_blocks) [
  | none ↦ some parent_not_found
  | some ids ↦ do
    pool ← incref_all ids m.block_pool
    some (
        forked (record m {
          block_pool = pool;
          request_blocks = insert child ids m.request_blocks;
          request_computed_tokens =
              copy_entry (lookup parent m.request_computed_tokens) child m.request_computed_tokens;
          request_block_hashes =
              copy_entry (lookup parent m.request_block_hashes) child m.request_block_hashes;
        }))
]

pub record CacheUsage : Type 0 where
  pub num_total_blocks : ℕ
  pub num_active_blocks : ℕ
  pub num_free_blocks : ℕ
  pub num_cached_hashes : ℕ
  pub num_tracked_requests : ℕ

unfoldable pub usage : KvCacheManager → CacheUsage
usage m =
    let u = BlockPool.usage m.block_pool in
    record {
      num_total_blocks = u.num_total;
      num_active_blocks = u.num_active;
      num_free_blocks = u.num_free;
      num_cached_hashes = u.num_cached;
      num_tracked_requests = length m.request_blocks;
    }

pub data ManagerReset : Type 0 where
  reset : KvCacheManager → ManagerReset
  requests_active : ℕ → ManagerReset
  block_active : ℕ → ManagerReset

unfoldable pub reset_prefix_cache : KvCacheManager → Option ManagerReset
reset_prefix_cache m =
    let cleared = do
      r ← BlockPool.reset_prefix_cache m.block_pool
      some (elim r [
        | done pool ↦ reset (record m { block_pool = pool })
        | active id ↦ block_active id
      ])
    in if is_empty m.request_blocks
      then cleared
      else some (requests_active (length m.request_blocks))
