-- ===== src/Scheduler/KvManager/Instance.antt =====
-- crates/rllm-cache/src/manager.rs behind the interface of crates/rllm-scheduler/src/scheduler.rs.
use r_llm.Shared.{
  ℕ, ◌+◌, ◌-◌, ◌^◌, ◌≤◌, ◌<◌, Bool, false, some, [], ◌≡◌, refl, ◌⊎◌, inl, inr, arith, lookup,
}
use r_llm.Cache.BlockPool.New.{range, new-IsPool}
use r_llm.Cache.Prefix.{Digests, PrefixHashAlgorithm}
use r_llm.Cache.Manager.{KvCacheManager, new, cache_blocks}
use r_llm.Cache.Manager.Counts.{weaken-Fits, fresh-Fits}
use r_llm.Scheduler.Contract.{Contract}
use r_llm.Scheduler.Policy
use r_llm.Scheduler.State.{SchedulerConfig, Scheduler, with_kv_cache_manager}
use r_llm.Scheduler.Invariant.{Inv}
use r_llm.Scheduler.Step.Requests.{with_kv_cache_manager-Inv}
use r_llm.Scheduler.KvManager
use r_llm.Scheduler.KvManager.{CacheConfig, kv_manager, Valid, Entry, entry, held, Ready, Cacheable}
use r_llm.Scheduler.KvManager.Lookup.{get_computed_blocks-Looked}
use r_llm.Scheduler.KvManager.Blocks.{allocate_slots-Allocated}
use r_llm.Scheduler.KvManager.Release.{free-released, cache_blocks-Cached}

module _ (d : Digests) (block_size : ℕ) (positive : 0 < block_size) where
  unfoldable pub kv_contract : Contract (kv_manager d) block_size
  unfolding kv_manager
  kv_contract = record {
    Valid = Valid block_size;
    Entry = Entry;
    entry = entry;
    held = held;
    Ready = Ready block_size;
    Cacheable = Cacheable block_size;
    weaken = λ j k m valid. record {
      fits = weaken-Fits (j + k) k m.block_pool (omega arith) valid.fits;
      size = valid.size;
      tables = valid.tables;
    };
    get = λ k m id prompt skip valid.
        get_computed_blocks-Looked d block_size positive k m id prompt skip valid;
    allocate = λ k m id total computed valid.
        allocate_slots-Allocated d block_size positive k m id total computed valid;
    release = λ k m id valid. free-released block_size k m id valid;
    cache =
        λ k m id total valid able. cache_blocks-Cached block_size k m id valid positive total able;
  }

  -- A manager that is just made is in order, and holds no blocks.
  pub new-Valid :
      (num_blocks : ℕ) (enable : Bool) (algo : PrefixHashAlgorithm)
      → num_blocks ≤ 2 ^ 32
      → (m : KvCacheManager) × (new num_blocks block_size enable algo ≡ some m)
        × Valid block_size 4294967293 m
        × ((i : ℕ) → Ready block_size (entry m i))
  unfolding new lookup
  new-Valid num_blocks enable algo small =
      let (pool, e, valid, none_active, _) = new-IsPool num_blocks small in
      (
        record {
          block_pool = pool;
          block_size = block_size;
          enable_prefix_caching = enable;
          hash_algorithm = algo;
          request_blocks = [];
          request_computed_tokens = [];
          request_block_hashes = [];
        },
        rw e refl,
        record {
          fits = fresh-Fits pool (range 1 (num_blocks - 1)) valid none_active;
          size = refl;
          tables = λ j i g. absurd g;
        },
        λ i. inl refl,
      )

  -- In a manager in order with a positive block size, take a request without hashes, or whose
  -- blocks all count as computed. Asking slots for it does not panic, and if they are granted,
  -- caching its full blocks right after, as `schedule_waiting` does, does not panic either: the
  -- manager stays in order, and the request's table keeps its length.
  pub allocate-cache_blocks :
      (k : ℕ) (m : KvCacheManager) (id total computed : ℕ)
      → Valid block_size k m
      → Ready block_size (entry m id)
      → (granted : Bool) × (m' : KvCacheManager) × ((kv_manager d).allocate_slots m id total
            computed
          ≡ some (granted, m'))
        × ((granted ≡ false)
            ⊎ ((m'' : KvCacheManager) × (cache_blocks m' id total ≡ some m'')
                × Valid block_size k m''
                × (held (entry m'' id) ≡ held (entry m' id))))
  allocate-cache_blocks k m id total computed valid ready =
      let (granted, m', e, valid', others, outcome) =
        allocate_slots-Allocated d block_size positive k m id total computed valid in
      elim outcome [
        | inl (no_room, _) ↦ (granted, m', e, inl no_room)
        | inr (_, _, able) ↦
            let (m'', f, valid'', _, same) =
              cache_blocks-Cached block_size k m' id valid' positive total (able ready) in
            (granted, m', e, inr (m'', f, valid'', same))
      ]

  -- With at most 2^32 blocks and a positive block size, `Scheduler::new` does not panic. The new
  -- scheduler, over the manager that it makes, is in order with room for 4294967293 more
  -- references to each block; no request waits or runs, and the configuration is the given one.
  pub new-Inv :
      (prompts drafts : ℕ) (config : SchedulerConfig) (cache : CacheConfig)
      (num_cache_blocks max_model_len : ℕ)
      → num_cache_blocks ≤ 2 ^ 32
      → cache.block_size ≡ block_size
      → (s : Scheduler KvCacheManager) × (KvManager.new config cache num_cache_blocks max_model_len
          ≡ some s)
        × Inv kv_contract prompts drafts 4294967293 s
        × (s.waiting.entries ≡ [])
        × (s.running ≡ [])
        × (s.config ≡ config)
  unfolding KvManager.new kv_contract with_kv_cache_manager Policy.new
  new-Inv prompts drafts config cache num_cache_blocks max_model_len small same =
      let (m, e, valid, ready) =
        new-Valid num_cache_blocks cache.enable_prefix_caching cache.prefix_hash_algorithm small in
      (
        with_kv_cache_manager config block_size max_model_len cache.enable_prefix_caching m,
        rw (same, e) refl,
        with_kv_cache_manager-Inv kv_contract prompts drafts 4294967293 config max_model_len
            cache.enable_prefix_caching m valid ready,
        refl,
        refl,
        refl,
      )
