-- ===== src/Tests/Pools.antt =====
-- crates/rllm-cache/src/block_pool.rs: a pool of four blocks. Block 0 is the null block, block 1 is in
-- use, and 2 and 3 are free.
use r_llm.Shared.{
  ℕ, zero, suc, ◌<◌, Bool, true, false, Option, none, some, List, [], ◌∷◌, ◌≡◌, refl, arith, ◌==◌,
  if◌then◌else◌, Map, lookup, In,
}
use r_llm.Cache.FreeQueue.{KvCacheBlock, Blocks, FreeBlockQueue}
use r_llm.Cache.FreeQueue.Order.{IsQueue}
use r_llm.Cache.BlockPool.{BlockPool}
use r_llm.Cache.BlockPool.View.{Payload, view, count_used}
use r_llm.Cache.BlockPool.Books.{Books}
use r_llm.Cache.BlockPool.Invariant.{IsPool}
use r_llm.Cache.BlockPool.Revive.{CountsFit}

abbrev pub block : ℕ → Option ℕ → ℕ → Option ℕ → Option ℕ → Bool → KvCacheBlock
block id hash ref_count prev next is_null = record {
  id = id;
  hash = hash;
  ref_count = ref_count;
  prev_free = prev;
  next_free = next;
  is_null = is_null;
}

-- Block 1 has `r + 1` references and the hash `h`.
abbrev pub small_blocks : ℕ → Option ℕ → Blocks
small_blocks r h i =
    if i == 0
    then some (block 0 none 0 none none true)
    else if i == 1
    then some (block 1 h (suc r) none none false)
    else if i == 2
    then some (block 2 none 0 none (some 3) false)
    else if i == 3
    then some (block 3 none 0 (some 2) none false)
    else none

abbrev pub free_two : FreeBlockQueue
free_two = record { head = some 2; tail = some 3; len = 2 }

abbrev pub small : ℕ → Option ℕ → Map (List ℕ) → BlockPool
small r h m = record {
  num_blocks = 4;
  blocks = small_blocks r h;
  free_queue = free_two;
  hash_map = m;
  num_active_blocks = 1;
}

pub small-IsQueue : (r : ℕ) (h : Option ℕ) → IsQueue free_two (small_blocks r h) (2 ∷ 3 ∷ [])
small-IsQueue r h = record {
  head = refl;
  tail = refl;
  len = refl;
  links = (
    (block 2 none 0 none (some 3) false, refl, refl, refl),
    ((block 3 none 0 (some 2) none false, refl, refl, refl), tt),
  );
  distinct = ground arith;
}

small-present :
    (r : ℕ) (h : Option ℕ) (i : ℕ) → i < 4 → (w : Payload) × (view (small_blocks r h) i ≡ some w)
small-present r h zero k = ((0, none, 0, true), refl)
small-present r h (suc zero) k = ((1, h, suc r, false), refl)
small-present r h (suc (suc zero)) k = ((2, none, 0, false), refl)
small-present r h (suc (suc (suc zero))) k = ((3, none, 0, false), refl)
small-present r h (suc (suc (suc (suc i)))) k = absurd (omega (arith, k))

small-Books :
    (r : ℕ) (h : Option ℕ) (m : Map (List ℕ))
    → ((hash id : ℕ) (ids : List ℕ)
        → lookup hash m ≡ some ids
        → In id ids
        → (id ≡ 1) × (h ≡ some hash))
    → Books (view (small_blocks r h)) (2 ∷ 3 ∷ []) 1 4 m
unfolding count_used
small-Books r h m mapped = record {
  null = refl;
  idle = λ i k. (none, ground (arith, k));
  listed = λ i g e. ground (arith, e);
  own_id = λ i j s g n e. ground (arith, e);
  range = λ i w e. ground (arith, e);
  present = λ i k. small-present r h i k;
  in_use = ground arith;
  count = refl;
  mapped = λ hash id ids e k. let (a, b) = mapped hash id ids e k in (suc r, ground (arith, a, b));
}

small-IsPool :
    (r : ℕ) (h : Option ℕ) (m : Map (List ℕ))
    → ((hash id : ℕ) (ids : List ℕ)
        → lookup hash m ≡ some ids
        → In id ids
        → (id ≡ 1) × (h ≡ some hash))
    → IsPool (small r h m) (2 ∷ 3 ∷ [])
small-IsPool r h m mapped = record { queue = small-IsQueue r h; books = small-Books r h m mapped }

-- Block 1 is used once and not cached.
abbrev pub once : BlockPool
once = small 0 none []

pub once-IsPool : IsPool once (2 ∷ 3 ∷ [])
unfolding lookup
once-IsPool = small-IsPool 0 none [] (λ hash id ids e k. ground (arith, e))

-- Block 1 is shared by two.
abbrev pub shared : BlockPool
shared = small 1 none []

pub shared-IsPool : IsPool shared (2 ∷ 3 ∷ [])
unfolding lookup
shared-IsPool = small-IsPool 1 none [] (λ hash id ids e k. ground (arith, e))

-- Block 1 is used once and cached under the hash 77.
abbrev pub cached : BlockPool
cached = small 0 (some 77) ((77, 1 ∷ []) ∷ [])

pub cached-IsPool : IsPool cached (2 ∷ 3 ∷ [])
unfolding lookup
cached-IsPool =
    small-IsPool 0 (some 77) ((77, 1 ∷ []) ∷ []) (λ hash id ids e k. ground (arith, e, k))

pub cached-CountsFit : CountsFit cached
cached-CountsFit id r h e = ground (arith, e)
