-- ===== src/Cache/BlockPool/Release.antt =====
-- crates/rllm-cache/src/block_pool.rs, `free`, `incref` and `copy_on_write`: reference counting.
use r_llm.Shared.{
  ℕ, zero, suc, ◌+◌, Bool, true, false, Option, some, List, ◌∷◌, ◌≡◌, refl, ◌∙◌, inl, inr, arith,
  NotIn, In-dec,
}
use r_llm.Cache.FreeQueue.{KvCacheBlock, FreeBlockQueue, Blocks, set_block, push_front}
use r_llm.Cache.FreeQueue.Chain.{payload, set_block-eq}
use r_llm.Cache.FreeQueue.Order.{push_front-Leaves}
use r_llm.Cache.BlockPool.{BlockPool, free, release}
use r_llm.Cache.BlockPool.View.{view, set_view, view-block, view-set_block_eq, view-SamePayload}
use r_llm.Cache.BlockPool.Books.{Books-keep, Books-release, Books-active}
use r_llm.Cache.BlockPool.Invariant.{IsPool, IsQueue-set_block}

-- A write of another reference count to an active block.
abbrev pub recount : BlockPool → ℕ → KvCacheBlock → ℕ → BlockPool
recount p id b r = record p { blocks = set_block p.blocks id (record b { ref_count = r }) }

-- The pool `p'` is `p` with the reference count of block `id` at `r`, and the free blocks `xs`.
pub record Recounts (p : BlockPool) (id : ℕ) (h : Option ℕ) (r : ℕ) (xs : List ℕ) (p' : BlockPool)
    : Type 0 where
  pub valid : IsPool p' xs
  pub blocks : view p'.blocks ≡ set_view (view p.blocks) id (id, h, r, false)
  pub hash_map : p'.hash_map ≡ p.hash_map
  pub num_blocks : p'.num_blocks ≡ p.num_blocks

module _ (p : BlockPool) (xs : List ℕ) (valid : IsPool p xs) (id : ℕ) (h : Option ℕ) where
  active-NotIn : (r : ℕ) → view p.blocks id ≡ some (id, h, suc r, false) → NotIn id xs
  active-NotIn r at = elim (In-dec id xs) [
    | inl k ↦ let (g, w) = valid.books.idle id k in absurd (ground arith)
    | inr k ↦ k
  ]

  pub recount-Recounts :
      (r s : ℕ) (b : KvCacheBlock)
      → view p.blocks id ≡ some (id, h, suc r, false)
      → p.blocks id ≡ some b
      → payload b ≡ (id, h, suc r, false)
      → Recounts p id h (suc s) xs (recount p id b (suc s))
  recount-Recounts r s b at e w =
      let v =
        view-set_block_eq p.blocks id (record b { ref_count = suc s }) (view p.blocks)
          (id, h, suc s, false) refl (ground arith) in
      record {
        valid = record {
          queue =
              IsQueue-set_block p.free_queue p.blocks xs id b (record b { ref_count = suc s })
                valid.queue e refl refl;
          books = rw v (
              Books-keep (view p.blocks) xs _ _ _ valid.books id (suc r) (suc s) h at r s refl
                refl);
        };
        blocks = v;
        hash_map = refl;
        num_blocks = refl;
      }

  -- Dropping one of several references.
  pub free_shared :
      (r : ℕ)
      → view p.blocks id ≡ some (id, h, suc (suc r), false)
      → (p' : BlockPool) × (free p id ≡ some p')
        × Recounts p id h (suc r) xs p'
        × (p'.num_active_blocks ≡ p.num_active_blocks)
  unfolding free
  free_shared r at =
      let (b, e, w) = view-block p.blocks id _ at in
      (recount p id b (suc r), ground arith, recount-Recounts (suc r) r b at e w, refl)

  free_step :
      (b : KvCacheBlock)
      → p.blocks id ≡ some b
      → b.is_null ≡ false
      → b.ref_count ≡ 1
      → free p id ≡ release (recount p id b 0) id
  unfolding free
  free_step b e n r = rw (e, n, r) refl

  release_step :
      (b : KvCacheBlock) {q : FreeBlockQueue} {c : Blocks} {a : ℕ}
      → push_front p.free_queue (set_block p.blocks id (record b { ref_count = 0 })) id
        ≡ some (q, c)
      → p.num_active_blocks ≡ suc a
      → release (recount p id b 0) id
        ≡ some (record p { free_queue = q; blocks = c; num_active_blocks = a })
  unfolding release
  release_step b pushed active = simp (pushed, active)

  -- Dropping the last reference: the block goes to the head of the free queue, with its hash.
  pub free_last :
      view p.blocks id ≡ some (id, h, 1, false)
      → (p' : BlockPool) × (free p id ≡ some p')
        × Recounts p id h 0 (id ∷ xs) p'
        × (p'.num_active_blocks + 1 ≡ p.num_active_blocks)
  free_last at =
      let (b, e, w) = view-block p.blocks id _ at in
      let b₀ : KvCacheBlock = record b { ref_count = 0 } in
      let c₀ = set_block p.blocks id b₀ in
      let queue₀ = IsQueue-set_block p.free_queue p.blocks xs id b b₀ valid.queue e refl refl in
      let (a, active) = Books-active (view p.blocks) xs _ _ _ valid.books id 1 0 h at 0 refl in
      let (q, c, pushed, queue, same) =
        push_front-Leaves p.free_queue c₀ id xs b₀ queue₀ (active-NotIn 0 at)
          (set_block-eq p.blocks id b₀) in
      let v : view c ≡ set_view (view p.blocks) id (id, h, 0, false) =
        view-SamePayload c₀ c same
        ∙ view-set_block_eq p.blocks id b₀ (view p.blocks) (id, h, 0, false) refl (ground arith) in
      let last : (b.is_null ≡ false) × (b.ref_count ≡ 1) = (ground arith, ground arith) in
      (
        record p { free_queue = q; blocks = c; num_active_blocks = a },
        free_step b e last.0 last.1 ∙ release_step b pushed active,
        record {
          valid = record {
            queue = queue;
            books =
                rw v (
                  Books-release (view p.blocks) xs _ _ _ valid.books id 1 0 h at a refl refl
                    active);
          };
          blocks = v;
          hash_map = refl;
          num_blocks = refl;
        },
        omega arith,
      )

-- What `free` does to a block with the reference count `r`: nothing to the null block or a free
-- block, which a second `free` would be.
abbrev pub Frees : BlockPool → List ℕ → ℕ → Option ℕ → ℕ → Bool → Type 0
Frees p xs id h r true = free p id ≡ some p
Frees p xs id h zero false = free p id ≡ some p
Frees p xs id h (suc zero) false =
    (p' : BlockPool) × (free p id ≡ some p')
    × Recounts p id h 0 (id ∷ xs) p'
    × (p'.num_active_blocks + 1 ≡ p.num_active_blocks)
Frees p xs id h (suc (suc r)) false =
    (p' : BlockPool) × (free p id ≡ some p')
    × Recounts p id h (suc r) xs p'
    × (p'.num_active_blocks ≡ p.num_active_blocks)

-- Freeing a block of a well-formed pool does not panic. The null block and a block without
-- references stay as they are. A block with one reference goes to the front of the free list,
-- keeps its hash, and one block fewer is active; a block with more references has one fewer and
-- nothing else changes. The pool stays well formed.
pub free-Frees :
    (p : BlockPool) (xs : List ℕ) (id : ℕ) (h : Option ℕ) (r : ℕ) (n : Bool)
    → IsPool p xs
    → view p.blocks id ≡ some (id, h, r, n)
    → Frees p xs id h r n
unfolding free
free-Frees p xs id h r true valid at = ground arith
free-Frees p xs id h zero false valid at = ground arith
free-Frees p xs id h (suc zero) false valid at = free_last p xs valid id h at
free-Frees p xs id h (suc (suc r)) false valid at = free_shared p xs valid id h r at
