-- ===== src/Scheduler/KvManager.antt =====
-- crates/rllm-scheduler/src/scheduler.rs with crates/rllm-cache/src/manager.rs: the manager of the KV
-- cache as the scheduler calls it, and what the scheduler may rely on.
pub mod Lookup
pub mod Blocks
pub mod Release
pub mod Instance
use r_llm.Shared.{
  ℕ, ◌+◌, ◌/◌, ◌≤◌, Bool, Option, none, some, List, ◌++◌, ◌≡◌, ◌⊎◌, In, Distinct, length, lookup,
  is_some, ◌>>=◌,
}
use r_llm.Cache.BlockPool.{ids_of}
use r_llm.Cache.BlockPool.View.{view}
use r_llm.Cache.Prefix.{Digests, PrefixHashAlgorithm}
use r_llm.Cache.Manager
use r_llm.Cache.Manager.{KvCacheManager, ManagerReset, computed_or_zero}
use r_llm.Cache.Manager.Batch.{Claimed}
use r_llm.Cache.Manager.Counts.{Fits, IsBlock}
use r_llm.Scheduler.State.{ManagerOps, SchedulerConfig, Scheduler, with_kv_cache_manager}

unfoldable pub kv_manager : Digests → ManagerOps KvCacheManager
kv_manager d = record {
  get_computed_blocks = λ m id prompt skip. do
    (found, m') ← Manager.get_computed_blocks d m id prompt skip
    some ((found.cached_block_ids, found.num_computed_tokens), m');
  allocate_slots = λ m id total computed. do
    (got, m') ← Manager.allocate_slots m id total computed
    some (is_some got, m');
  free = Manager.free;
  cache_blocks = Manager.cache_blocks;
  get_block_ids = Manager.get_block_ids;
}

-- The fields of the configuration of the cache that the scheduler reads.
pub record CacheConfig : Type 0 where
  pub block_size : ℕ
  pub enable_prefix_caching : Bool
  pub prefix_hash_algorithm : PrefixHashAlgorithm

unfoldable pub new : SchedulerConfig → CacheConfig → ℕ → ℕ → Option (Scheduler KvCacheManager)
new config cache num_cache_blocks max_model_len = do
  m ←
      Manager.new num_cache_blocks cache.block_size cache.enable_prefix_caching
        cache.prefix_hash_algorithm
  some (with_kv_cache_manager config cache.block_size max_model_len cache.enable_prefix_caching m)

unfoldable pub reset_prefix_cache : Scheduler KvCacheManager → Option ManagerReset
reset_prefix_cache s = Manager.reset_prefix_cache s.kv_cache_manager

-- Every block of a table is a block of the pool.
abbrev pub Tables : KvCacheManager → Type 0
Tables m = (j i : ℕ) → In i (ids_of (lookup j m.request_blocks)) → IsBlock m.block_pool i

pub record Valid (block_size k : ℕ) (m : KvCacheManager) : Type 0 where
  pub fits : Fits k m.block_pool
  pub size : m.block_size ≡ block_size
  pub tables : Tables m

-- The table, the computed tokens and the hashes of a request.
abbrev pub Entry : Type 0
Entry = Option (List ℕ) × Option ℕ × Option (List ℕ)

abbrev pub entry : KvCacheManager → ℕ → Entry
entry m j =
    (lookup j m.request_blocks, lookup j m.request_computed_tokens, lookup j m.request_block_hashes)

abbrev pub held : Entry → ℕ
held e = length (ids_of e.0)

-- Without hashes nothing is cached; with them, the table's blocks are cached already.
abbrev pub Ready : ℕ → Entry → Type 0
Ready block_size e = (e.2 ≡ none) ⊎ (held e ≤ computed_or_zero e.1 / block_size)

-- The blocks beyond those that are cached are new.
abbrev pub Cacheable : ℕ → KvCacheManager → ℕ → Type 0
Cacheable block_size m j =
    (lookup j m.request_block_hashes ≡ none)
    ⊎ ((old ids : List ℕ) × (ids_of (lookup j m.request_blocks) ≡ old ++ ids)
        × (length old ≤ computed_or_zero (lookup j m.request_computed_tokens) / block_size)
        × Distinct ids
        × Claimed (view m.block_pool.blocks) ids)
