-- ===== src/Cache/BlockPool.antt =====
-- crates/rllm-cache/src/block_pool.rs, `BlockPool`: reference counts, the free queue and the
-- prefix cache's hash map. An outer `none` is a panic (an index out of range, a failed `unwrap`, an
-- arithmetic overflow) or a loop that is out of fuel.
pub mod View
pub mod Books
pub mod Search
pub mod Invariant
pub mod Allocate
pub mod Release
pub mod Sharing
pub mod Revive
pub mod Caching
pub mod Reset
pub mod New
use mathlib.Core.Option
use r_llm.Shared.{
  ℕ, zero, suc, ◌+◌, ◌-◌, ◌%◌, ◌^◌, max, Bool, true, false, not, ◌&&◌, ◌||◌, Option, none, some,
  List, [], ◌∷◌, ◌++◌, ◌==◌, ltb, leb, if◌then◌else◌, ◌>>=◌, is_some, is_empty, length, without,
  Map, lookup, insert, delete,
}
use r_llm.Cache.FreeQueue
use r_llm.Cache.FreeQueue.{
  KvCacheBlock, Blocks, set_block, modify, FreeBlockQueue, decrement, remove, push_front, push_back,
}

pub record BlockPool : Type 0 where
  pub num_blocks : ℕ
  pub blocks : Blocks
  pub free_queue : FreeBlockQueue
  pub hash_map : Map (List ℕ)
  pub num_active_blocks : ℕ

-- `n += 1` on a `u32`, which panics at the greatest one.
abbrev increment_u32 : ℕ → Option ℕ
increment_u32 n = if ltb n 4294967295 then some (n + 1) else none

abbrev pub fresh_block : ℕ → Bool → KvCacheBlock
fresh_block i null = record {
  id = i % 2 ^ 32;
  hash = none;
  ref_count = 0;
  prev_free = none;
  next_free = none;
  is_null = null;
}

-- The null block, and the blocks `1..num_blocks`.
abbrev pub fresh_blocks : ℕ → Blocks
fresh_blocks n i =
    if i == 0
    then some (fresh_block 0 true)
    else if ltb i n
    then some (fresh_block i false)
    else none

-- `for i in i..` over `left` rounds.
unfoldable pub push_all : ℕ → ℕ → FreeBlockQueue → Blocks → Option (FreeBlockQueue × Blocks)
push_all zero i q c = some (q, c)
push_all (suc left) i q c = do (q', c') ← push_back q c (i % 2 ^ 32); push_all left (suc i) q' c'

unfoldable pub new : ℕ → Option BlockPool
unfolding push_all
new num_blocks = do
  (q, c) ← push_all (num_blocks - 1) 1 FreeQueue.new (fresh_blocks num_blocks)
  some (record {
    num_blocks = max 1 num_blocks;
    blocks = c;
    free_queue = q;
    hash_map = [];
    num_active_blocks = 0;
  })

-- The `while let` of `pop_uncached`, from the head.
unfoldable pub find_uncached : ℕ → Blocks → Option ℕ → Option (Option ℕ)
find_uncached zero c candidate = none
find_uncached (suc fuel) c none = some none
find_uncached (suc fuel) c (some idx) = do
  b ← c idx
  let rest = find_uncached fuel c b.next_free
  if is_some b.hash then rest else some (some idx)

-- The `while let` of `evict_lru`, from the tail.
unfoldable pub find_cached : ℕ → Blocks → Option ℕ → Option (Option ℕ)
find_cached zero c candidate = none
find_cached (suc fuel) c none = some none
find_cached (suc fuel) c (some idx) = do
  b ← c idx
  let rest = find_cached fuel c b.prev_free
  if is_some b.hash then some (some idx) else rest

unfoldable pub unlink : BlockPool → ℕ → Option BlockPool
unlink p idx = do
  (q, c) ← remove p.free_queue p.blocks idx
  some (record p { free_queue = q; blocks = c })

unfoldable pub pop_uncached : BlockPool → Option (Option ℕ × BlockPool)
pop_uncached p = do
  found ← find_uncached (suc p.num_blocks) p.blocks p.free_queue.head
  elim found [ none ↦ some (none, p) | some idx ↦ do p' ← unlink p idx; some (some idx, p') ]

unfoldable pub drop_id : Option (List ℕ) → ℕ → ℕ → Map (List ℕ) → Map (List ℕ)
drop_id none hash id m = m
drop_id (some ids) hash id m =
    if is_empty (without id ids) then delete hash m else insert hash (without id ids) m

unfoldable pub remove_hash_entry : ℕ → ℕ → Map (List ℕ) → Map (List ℕ)
unfolding drop_id
remove_hash_entry hash id m = drop_id (lookup hash m) hash id m

-- Unlinking the victim, taking its hash and forgetting it in the hash map.
unfoldable pub evict : BlockPool → ℕ → Option (Option ℕ × BlockPool)
evict p idx = do
  p' ← unlink p idx
  b ← p'.blocks idx
  hash ← b.hash
  some (
    some idx,
    record p' {
      blocks = set_block p'.blocks idx (record b { hash = none });
      hash_map = remove_hash_entry hash b.id p'.hash_map;
    },
  )

unfoldable pub evict_lru : BlockPool → Option (Option ℕ × BlockPool)
evict_lru p = do
  found ← find_cached (suc p.num_blocks) p.blocks p.free_queue.tail
  elim found [ none ↦ some (none, p) | some idx ↦ evict p idx ]

-- `or_else`: an eviction only if there is no uncached block.
unfoldable pub pick_block : BlockPool → Option (Option ℕ × BlockPool)
pick_block p = do
  (found, p') ← pop_uncached p
  elim found [ none ↦ evict_lru p' | some idx ↦ some (some idx, p') ]

unfoldable pub claim : BlockPool → ℕ → Option (Option ℕ × BlockPool)
claim p idx = do
  b ← p.blocks idx
  some (
    some b.id,
    record p {
      blocks = set_block p.blocks idx (record b { ref_count = 1; hash = none });
      num_active_blocks = p.num_active_blocks + 1;
    },
  )

unfoldable pub allocate : BlockPool → Option (Option ℕ × BlockPool)
allocate p = do
  (found, p') ← pick_block p
  elim found [ none ↦ some (none, p') | some idx ↦ claim p' idx ]

-- The last reference is gone: the block returns to the head of the free queue.
unfoldable pub release : BlockPool → ℕ → Option BlockPool
release p idx = do
  (q, c) ← push_front p.free_queue p.blocks idx
  active ← decrement p.num_active_blocks
  some (record p { free_queue = q; blocks = c; num_active_blocks = active })

unfoldable pub free : BlockPool → ℕ → Option BlockPool
free p id = do
  b ← p.blocks id
  let p' = record p { blocks = set_block p.blocks id (record b { ref_count = b.ref_count - 1 }) }
  if b.is_null || b.ref_count == 0
      then some p
      else if b.ref_count - 1 == 0
      then release p' id
      else some p'

unfoldable pub add_reference : BlockPool → ℕ → KvCacheBlock → Option BlockPool
add_reference p id b = do
  n ← increment_u32 b.ref_count
  some (record p { blocks = set_block p.blocks id (record b { ref_count = n }) })

unfoldable pub incref : BlockPool → ℕ → Option BlockPool
incref p id = do
  b ← p.blocks id
  if not b.is_null && ltb 0 b.ref_count then add_reference p id b else some p

unfoldable pub is_shared : BlockPool → ℕ → Option Bool
is_shared p id =
    if leb p.num_blocks id
    then some false
    else do b ← p.blocks id; some (not b.is_null && ltb 1 b.ref_count)

-- A new block in place of a shared one.
unfoldable pub replace_shared : BlockPool → ℕ → Option (Option ℕ × BlockPool)
replace_shared p old = do
  (fresh, p') ← allocate p
  elim fresh [ none ↦ some (none, p') | some id ↦ do p'' ← free p' old; some (some id, p'') ]

unfoldable pub copy_on_write : BlockPool → ℕ → Option (Option ℕ × BlockPool)
copy_on_write p old = do
  shared ← is_shared p old
  if shared then replace_shared p old else some (some old, p)

abbrev is_head : FreeBlockQueue → ℕ → Bool
is_head q idx = elim q.head [ none ↦ false | some h ↦ h == idx ]

abbrev pub in_queue : BlockPool → KvCacheBlock → ℕ → Bool
in_queue p b idx = is_some b.prev_free || is_some b.next_free || is_head p.free_queue idx

unfoldable pub move_front : BlockPool → ℕ → Option BlockPool
move_front p idx = do
  p' ← unlink p idx
  (q, c) ← push_front p'.free_queue p'.blocks idx
  some (record p' { free_queue = q; blocks = c })

unfoldable pub touch : BlockPool → ℕ → Option BlockPool
touch p id = do
  b ← p.blocks id
  if b.ref_count == 0 && not b.is_null && is_some b.hash && in_queue p b id
      then move_front p id
      else some p

-- `get_cached_block` once the block is found.
unfoldable pub activate : BlockPool → ℕ → Option BlockPool
activate p id = do
  p₁ ← touch p id
  b ← p₁.blocks id
  p₂ ← if b.ref_count == 0 && in_queue p₁ b id then unlink p₁ id else some p₁
  b' ← p₂.blocks id
  n ← increment_u32 b'.ref_count
  some (record p₂ {
    num_active_blocks = if b.ref_count == 0 then p₂.num_active_blocks + 1 else p₂.num_active_blocks;
    blocks = set_block p₂.blocks id (record b' { ref_count = n });
  })

unfoldable pub first_id : Option (List ℕ) → Option ℕ
first_id none = none
first_id (some []) = none
first_id (some (id ∷ ids)) = some id

unfoldable pub get_cached_block : BlockPool → ℕ → Option (Option ℕ × BlockPool)
get_cached_block p hash = elim (first_id (lookup hash p.hash_map)) [
  | none ↦ some (none, p)
  | some id ↦ do p' ← activate p id; some (some id, p')
]

-- `entry(hash).or_default()`.
abbrev pub ids_of : Option (List ℕ) → List ℕ
ids_of none = []
ids_of (some ids) = ids

unfoldable pub cache_block : BlockPool → ℕ → ℕ → Option BlockPool
cache_block p id hash = do
  b ← p.blocks id
  if b.ref_count == 0 || b.is_null
      then some p
      else some (record p {
        blocks = set_block p.blocks id (record b { hash = some hash });
        hash_map = insert hash (ids_of (lookup hash p.hash_map) ++ id ∷ []) p.hash_map;
      })

-- The first active block with a hash, among `left` blocks from `i`.
unfoldable pub find_active : ℕ → ℕ → Blocks → Option (Option ℕ)
find_active zero i c = some none
find_active (suc left) i c = do
  b ← c i
  let rest = find_active left (suc i) c
  if is_some b.hash && ltb 0 b.ref_count then some (some b.id) else rest

-- The error names the block.
pub data ResetResult (A : Type 0) : Type 0 where
  done : A → ResetResult A
  active : ℕ → ResetResult A

abbrev pub clear_hash : KvCacheBlock → KvCacheBlock
clear_hash b = record b { hash = none }

unfoldable pub reset_prefix_cache : BlockPool → Option (ResetResult BlockPool)
reset_prefix_cache p = do
  found ← find_active p.num_blocks 0 p.blocks
  some (elim found [
    | some id ↦ active id
    | none ↦ done (record p { blocks = λ i. Option.map clear_hash (p.blocks i); hash_map = [] })
  ])

pub record BlockPoolUsage : Type 0 where
  pub num_total : ℕ
  pub num_active : ℕ
  pub num_free : ℕ
  pub num_cached : ℕ

unfoldable pub usage : BlockPool → BlockPoolUsage
usage p = record {
  num_total = p.num_blocks - 1;
  num_active = p.num_active_blocks;
  num_free = p.free_queue.len;
  num_cached = length p.hash_map;
}
