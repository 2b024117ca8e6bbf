-- ===== src/Tests/Cache.antt =====
-- The theorems on crates/rllm-cache and crates/rllm-kernels at small pools, stores and batches.
use r_llm.Shared.{
  ℕ, ◌≤◌, ◌<◌, true, false, none, some, List, [], ◌∷◌, ◌≡◌, refl, ◌⊎◌, inl, arith, length, take,
  lookup, Map, is_some, get_elem?, All,
}
use r_llm.Cache.FreeQueue.{FreeBlockQueue, remove, push_front, push_back, pop_front}
use r_llm.Cache.FreeQueue.Chain.{SamePayload}
use r_llm.Cache.FreeQueue.Order.{
  IsQueue, Leaves, remove-Leaves, push_front-Leaves, push_back-Leaves, pop_front-Leaves,
}
use r_llm.Cache.BlockPool.{BlockPool, new, free, get_cached_block, cache_block}
use r_llm.Cache.BlockPool.View.{view}
use r_llm.Cache.BlockPool.Invariant.{IsPool}
use r_llm.Cache.BlockPool.Allocate.{Allocates, allocate-Allocates}
use r_llm.Cache.BlockPool.Release.{Frees, free-Frees}
use r_llm.Cache.BlockPool.Sharing.{Copies, Increfs, incref-Increfs, copy_on_write-Copies}
use r_llm.Cache.BlockPool.Revive.{Hits, get_cached_block-Hits}
use r_llm.Cache.BlockPool.Caching.{Caches, cache_block-Caches, cache-free-hit}
use r_llm.Cache.BlockPool.Reset.{Resets, reset_prefix_cache-Resets}
use r_llm.Cache.BlockPool.New.{range, new-IsPool}
use r_llm.Cache.Prefix.{Digests, compute_block_hashes, find_prefix_hit, xx_hash}
use r_llm.Cache.Prefix.Chaining.{compute_block_hashes-append, find_prefix_hit-longest}
use r_llm.Cache.Manager.{KvCacheManager}
use r_llm.Cache.Manager.Slots.{Granted, Refused, needed, allocate_slots-outcome}
use r_llm.Cache.Offload.{CpuKvOffloadStore, find_slot, same_key}
use r_llm.Cache.Offload.RoundTrip.{IsStore, PutOutcome, put-PutOutcome}
use r_llm.Cache.Spec.{KvCacheSpec, bf16}
use r_llm.Tests.Pools.{
  block, small_blocks, free_two, small-IsQueue, once, once-IsPool, shared, shared-IsPool, cached,
  cached-IsPool, cached-CountsFit,
}

allocate_example : Allocates once (2 ∷ 3 ∷ [])
allocate_example = allocate-Allocates once (2 ∷ 3 ∷ []) once-IsPool

abbrev manager : KvCacheManager
manager = record {
  block_pool = once;
  block_size = 16;
  enable_prefix_caching = true;
  hash_algorithm = xx_hash;
  request_blocks = (5, 1 ∷ []) ∷ [];
  request_computed_tokens = [];
  request_block_hashes = [];
}

slots_example :
    ((needed manager 30 0 ≤ 2) × Granted manager (2 ∷ 3 ∷ []) 6 30 0)
    ⊎ ((2 < needed manager 30 0) × Refused manager (2 ∷ 3 ∷ []) 6 30 0)
slots_example = allocate_slots-outcome manager (2 ∷ 3 ∷ []) once-IsPool 6 30 0 (omega arith)

hit_example : Hits cached (2 ∷ 3 ∷ []) 77
hit_example = get_cached_block-Hits cached (2 ∷ 3 ∷ []) 77 cached-IsPool cached-CountsFit

cache_free_hit_example :
    (p₁ p₂ p₃ : BlockPool) × (cache_block once 1 77 ≡ some p₁)
    × (free p₁ 1 ≡ some p₂)
    × (get_cached_block p₂ 77 ≡ some (some 1, p₃))
    × IsPool p₃ (2 ∷ 3 ∷ [])
    × (view p₃.blocks ≡ view p₁.blocks)
    × (p₃.num_active_blocks ≡ 1)
unfolding lookup
cache_free_hit_example = cache-free-hit once (2 ∷ 3 ∷ []) 1 77 once-IsPool refl refl

free_example : Frees once (2 ∷ 3 ∷ []) 1 none 1 false
free_example = free-Frees once (2 ∷ 3 ∷ []) 1 none 1 false once-IsPool refl

copy_example : Copies shared (2 ∷ 3 ∷ []) shared-IsPool 1 none 0
copy_example = copy_on_write-Copies shared (2 ∷ 3 ∷ []) shared-IsPool 1 none 0 refl

incref_example : Increfs once (2 ∷ 3 ∷ []) once-IsPool 1 none 1 false
incref_example = incref-Increfs once (2 ∷ 3 ∷ []) once-IsPool 1 none 1 false refl

new_example :
    (p : BlockPool) × (new 4 ≡ some p)
    × IsPool p (range 1 3)
    × (p.num_active_blocks ≡ 0)
    × (p.num_blocks ≡ 4)
new_example = new-IsPool 4 (omega arith)

reset_example : Resets cached (2 ∷ 3 ∷ [])
reset_example = reset_prefix_cache-Resets cached (2 ∷ 3 ∷ []) cached-IsPool

cache_example :
    (p : BlockPool) × (cache_block once 1 77 ≡ some p) × Caches once 1 77 1 (2 ∷ 3 ∷ []) p
cache_example = cache_block-Caches once (2 ∷ 3 ∷ []) 1 77 0 none once-IsPool refl (inl refl)

remove_example : Leaves (small_blocks 0 none) (2 ∷ []) (remove free_two (small_blocks 0 none) 3)
remove_example = remove-Leaves free_two (small_blocks 0 none) (2 ∷ []) 3 [] (small-IsQueue 0 none)

push_front_example :
    Leaves (small_blocks 0 none) (1 ∷ 2 ∷ 3 ∷ []) (push_front free_two (small_blocks 0 none) 1)
push_front_example =
    push_front-Leaves free_two (small_blocks 0 none) 1 (2 ∷ 3 ∷ []) (block 1 none 1 none none false)
      (small-IsQueue 0 none) (ground arith) refl

push_back_example :
    Leaves (small_blocks 0 none) (2 ∷ 3 ∷ 1 ∷ []) (push_back free_two (small_blocks 0 none) 1)
push_back_example =
    push_back-Leaves free_two (small_blocks 0 none) 1 (2 ∷ 3 ∷ []) (block 1 none 1 none none false)
      (small-IsQueue 0 none) (ground arith) refl

pop_front_example :
    (q : FreeBlockQueue) × (c : _) × (pop_front free_two (small_blocks 0 none)
      ≡ some (some 2, q, c))
    × IsQueue q c (3 ∷ [])
    × SamePayload (small_blocks 0 none) c
pop_front_example =
    pop_front-Leaves free_two (small_blocks 0 none) 2 (3 ∷ []) (small-IsQueue 0 none)

-- A stand-in for the two hash functions.
abbrev digests : Digests
digests = record { sha256 = λ bytes. bytes; xxh3_64 = λ bytes. length bytes }

hashes_example :
    (hs hs' : List ℕ) × (compute_block_hashes digests xx_hash (7 ∷ 8 ∷ []) 2 none ≡ some hs)
    × (compute_block_hashes digests xx_hash (7 ∷ 8 ∷ 9 ∷ []) 2 none ≡ some hs')
    × (length hs ≡ 1)
    × (take 1 hs' ≡ hs)
hashes_example =
    compute_block_hashes-append digests xx_hash 2 none (7 ∷ 8 ∷ []) (9 ∷ []) 1 (omega arith) refl

abbrev map_of_five : Map ℕ
map_of_five = (5, 1) ∷ []

prefix_hit_example :
    All
      (λ h. is_some (lookup h map_of_five) ≡ true)
      (take (find_prefix_hit (5 ∷ 6 ∷ []) map_of_five) (5 ∷ 6 ∷ []))
    × ((find_prefix_hit (5 ∷ 6 ∷ []) map_of_five ≡ 2)
        ⊎ ((h : ℕ) × (get_elem? (5 ∷ 6 ∷ []) (find_prefix_hit (5 ∷ 6 ∷ []) map_of_five) ≡ some h)
            × (lookup h map_of_five ≡ none)))
prefix_hit_example = find_prefix_hit-longest (5 ∷ 6 ∷ []) map_of_five

-- A store of two blocks of two bytes, one of them in use.
abbrev store : CpuKvOffloadStore
store = record {
  block_size_bytes = 2;
  capacity_blocks = 2;
  free_slots = 1 ∷ [];
  slots = ((5, 0), 0) ∷ [];
  storage = λ a. 0;
}

store-IsStore : IsStore store
unfolding find_slot same_key
store-IsStore =
    ((λ k j slot e f. ground (arith, e, f)), (λ k slot e. (ground (arith, e), tt)), (tt, tt))

put_example : PutOutcome store 5 3 (10 ∷ 11 ∷ [])
put_example = put-PutOutcome store 5 3 (10 ∷ 11 ∷ []) store-IsStore

abbrev spec : KvCacheSpec
spec = record {
  block_size = 16;
  num_layers = 2;
  num_kv_heads = 2;
  head_dim = 8;
  dtype = bf16;
  sliding_window = none;
}
