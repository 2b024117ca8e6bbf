-- ===== src/Cache/BlockPool/Allocate.antt =====
-- crates/rllm-cache/src/block_pool.rs, `allocate`.
use r_llm.Shared.{
  ℕ, suc, ◌+◌, false, Option, none, some, List, [], ◌∷◌, ◌++◌, ◌≡◌, refl, sym, ◌∙◌, ap, subst, ◌⊎◌,
  inl, inr, arith, In-middle, All, snoc-cases,
}
use r_llm.Cache.FreeQueue.{KvCacheBlock, Blocks, set_block}
use r_llm.Cache.FreeQueue.Order.{IsQueue}
use r_llm.Cache.BlockPool.{
  BlockPool, claim, allocate, pop_uncached, evict_lru, pick_block, remove_hash_entry, find_uncached,
  find_cached,
}
use r_llm.Cache.BlockPool.View.{
  view, set_view, view-block, view-set_block_eq, set_view-set_view, set_view-same,
}
use r_llm.Cache.BlockPool.Books.{Books, Books-take}
use r_llm.Cache.BlockPool.Search.{
  Hashed, Unhashed, find_uncached-FirstUnhashed, find_cached-last, Hashed-last,
}
use r_llm.Cache.BlockPool.Invariant.{IsPool, IsQueue-set_block, unlink-IsQueue, evict-IsPool}

-- The block `x` is handed out: it has left the queue, has one reference and no hash, and no other
-- block has changed.
pub record Hands (p : BlockPool) (ys : List ℕ) (x : ℕ) (zs : List ℕ) (p' : BlockPool) : Type 0 where
  pub valid : IsPool p' (ys ++ zs)
  pub blocks : view p'.blocks ≡ set_view (view p.blocks) x (x, none, 1, false)
  pub num_active : p'.num_active_blocks ≡ p.num_active_blocks + 1
  pub num_blocks : p'.num_blocks ≡ p.num_blocks

claim-Hands :
    (p p' : BlockPool) (ys : List ℕ) (x : ℕ) (zs : List ℕ)
    → IsPool p (ys ++ x ∷ zs)
    → IsQueue p'.free_queue p'.blocks (ys ++ zs)
    → view p'.blocks ≡ set_view (view p.blocks) x (x, none, 0, false)
    → Books (view p'.blocks) (ys ++ x ∷ zs) p.num_active_blocks p.num_blocks p'.hash_map
    → p'.num_active_blocks ≡ p.num_active_blocks
    → p'.num_blocks ≡ p.num_blocks
    → (p'' : BlockPool) × (claim p' x ≡ some (some x, p''))
      × Hands p ys x zs p''
      × (p''.hash_map ≡ p'.hash_map)
unfolding claim
claim-Hands p p' ys x zs h queue v books active total =
    let at : view p'.blocks x ≡ some (x, none, 0, false) = ap (λ u. u x) v ∙ (ground arith) in
    let (b, e, w) = view-block p'.blocks x (x, none, 0, false) at in
    let b' : KvCacheBlock = record b { ref_count = 1; hash = none } in
    let id_eq : b.id ≡ x = ground arith in
    let c : Blocks = set_block p'.blocks x b' in
    let v' : view c ≡ set_view (view p'.blocks) x (x, none, 1, false) =
      view-set_block_eq p'.blocks x b' (view p'.blocks) (x, none, 1, false) refl (ground arith) in
    let books' : Books (set_view (view p'.blocks) x (x, none, 1, false)) (ys ++ zs)
        (p.num_active_blocks + 1) p.num_blocks p'.hash_map =
      Books-take (view p'.blocks) ys x zs _ _ _ 0 none books h.queue.distinct at in
    (
      record p' { blocks = c; num_active_blocks = p'.num_active_blocks + 1 },
      rw (e, id_eq) refl,
      record {
        valid = record {
          queue = IsQueue-set_block p'.free_queue p'.blocks (ys ++ zs) x b b' queue e refl refl;
          books = rw (v', active, total) books';
        };
        blocks =
            v'
            ∙ ap (λ u. set_view u x (x, none, 1, false)) v
            ∙ set_view-set_view (view p.blocks) x (x, none, 0, false) (x, none, 1, false);
        num_active = ap (λ k. k + 1) active;
        num_blocks = total;
      },
      refl,
    )

-- Which block is handed out: the first uncached one of the queue, which costs the hash map nothing,
-- or, if every free block is cached, the one at the tail.
abbrev Choice : BlockPool → List ℕ → ℕ → List ℕ → BlockPool → Type 0
Choice p ys x zs p' =
    All (Hashed p.blocks) ys
    × ((Unhashed p.blocks x × (p'.hash_map ≡ p.hash_map)) ⊎ (Hashed p.blocks x × (zs ≡ [])))

abbrev pub Allocates : BlockPool → List ℕ → Type 0
Allocates p xs =
    ((xs ≡ []) × (allocate p ≡ some (none, p)))
    ⊎ ((ys : List ℕ) × (x : ℕ) × (zs : List ℕ) × (p' : BlockPool) × (xs ≡ ys ++ x ∷ zs)
        × (allocate p ≡ some (some x, p'))
        × Hands p ys x zs p'
        × Choice p ys x zs p')

Unhashed-view :
    (p : BlockPool) (x : ℕ) (h : Option ℕ)
    → Unhashed p.blocks x
    → view p.blocks x ≡ some (x, h, 0, false)
    → view p.blocks x ≡ some (x, none, 0, false)
Unhashed-view p x h (b, e, u) at = ground arith

Hashed-view :
    (p : BlockPool) (x : ℕ) (h : Option ℕ)
    → Hashed p.blocks x
    → view p.blocks x ≡ some (x, h, 0, false)
    → (hash : ℕ) × (view p.blocks x ≡ some (x, some hash, 0, false))
Hashed-view p x none (b, e, u) at = absurd (ground arith)
Hashed-view p x (some hash) (b, e, u) at = (hash, at)

allocate_uncached :
    (p : BlockPool) (ys : List ℕ) (x : ℕ) (zs : List ℕ)
    → IsPool p (ys ++ x ∷ zs)
    → find_uncached (suc p.num_blocks) p.blocks p.free_queue.head ≡ some (some x)
    → Unhashed p.blocks x
    → (p' : BlockPool) × (allocate p ≡ some (some x, p'))
      × Hands p ys x zs p'
      × (p'.hash_map ≡ p.hash_map)
unfolding allocate pick_block pop_uncached
allocate_uncached p ys x zs h found u =
    let (q, c, e, k, v) = unlink-IsQueue p ys x zs h in
    let (f, w) = h.books.idle x (In-middle ys x zs) in
    let at = Unhashed-view p x f u w in
    let p₁ : BlockPool = record p { free_queue = q; blocks = c } in
    let v₁ : view c ≡ set_view (view p.blocks) x (x, none, 0, false) =
      v ∙ sym (set_view-same (view p.blocks) x (x, none, 0, false) at) in
    let books =
      subst (λ u. Books u (ys ++ x ∷ zs) p.num_active_blocks p.num_blocks p.hash_map) (sym v)
        h.books in
    let (p₂, e₂, hands, same) = claim-Hands p p₁ ys x zs h k v₁ books refl refl in
    (p₂, rw (found, e, e₂) refl, hands, same)

allocate_cached :
    (p : BlockPool) (ys : List ℕ) (x : ℕ)
    → IsPool p (ys ++ x ∷ [])
    → find_uncached (suc p.num_blocks) p.blocks p.free_queue.head ≡ some none
    → All (Hashed p.blocks) (ys ++ x ∷ [])
    → (p' : BlockPool) × (allocate p ≡ some (some x, p')) × Hands p ys x [] p'
unfolding allocate pick_block pop_uncached evict_lru
allocate_cached p ys x h found all =
    let (f, w) = h.books.idle x (In-middle ys x []) in
    let (hash, at) = Hashed-view p x f (Hashed-last p.blocks ys x all) w in
    let (q, c, e, k, v, books) = evict-IsPool p ys x [] hash h at in
    let p₁ : BlockPool = record p {
      free_queue = q;
      blocks = c;
      hash_map = remove_hash_entry hash x p.hash_map;
    } in
    let (p₂, e₂, hands, same) = claim-Hands p p₁ ys x [] h k v books refl refl in
    let search : find_cached (suc p.num_blocks) p.blocks p.free_queue.tail ≡ some (some x) =
      ap (find_cached (suc p.num_blocks) p.blocks) h.queue.tail
      ∙ find_cached-last p.num_blocks p.blocks ys x all in
    (p₂, rw (found, search, e, e₂) refl, hands)

allocate_empty :
    (p : BlockPool) (xs : List ℕ)
    → IsQueue p.free_queue p.blocks xs
    → find_uncached (suc p.num_blocks) p.blocks p.free_queue.head ≡ some none
    → xs ≡ []
    → allocate p ≡ some (none, p)
unfolding allocate pick_block pop_uncached evict_lru find_cached
allocate_empty p [] queue found e =
    let search : find_cached (suc p.num_blocks) p.blocks p.free_queue.tail ≡ some none =
      ap (find_cached (suc p.num_blocks) p.blocks) queue.tail in
    rw (found, search) refl
allocate_empty p (x ∷ xs) queue found e = absurd (cc)

-- Allocation in a well-formed pool never panics nor runs out of fuel. If no block is free, it
-- fails and changes nothing. Otherwise it answers a free block, which leaves the free list, loses
-- its hash and has one reference; all blocks ahead of it in the list are cached, and either it is
-- not cached, or it is the last of the list and cached. The pool stays well formed, with one more
-- active block.
pub allocate-Allocates : (p : BlockPool) (xs : List ℕ) → IsPool p xs → Allocates p xs
allocate-Allocates p xs h =
    let (r, search, first) =
      find_uncached-FirstUnhashed (suc p.num_blocks) p.blocks none xs (omega (arith, h.books.count))
        h.queue.links in
    let found : find_uncached (suc p.num_blocks) p.blocks p.free_queue.head ≡ some r =
      ap (find_uncached (suc p.num_blocks) p.blocks) h.queue.head ∙ search in
    elim first [
      | inl (e, all) ↦ elim (snoc-cases xs) [
        | inl empty ↦ inl (empty, allocate_empty p xs h.queue (found ∙ ap some e) empty)
        | inr (ys, x, last) ↦
            let all' = subst (All (Hashed p.blocks)) last all in
            let (p', e', hands) =
              allocate_cached p ys x (subst (IsPool p) last h) (found ∙ ap some e) all' in
            inr (
              ys,
              x,
              [],
              p',
              last,
              e',
              hands,
              (All-init ys x all', inr (Hashed-last p.blocks ys x all', refl)),
            )
      ]
      | inr (ys, x, zs, split, e, all, u) ↦
          let (p', e', hands, same) =
            allocate_uncached p ys x zs (subst (IsPool p) split h) (found ∙ ap some e) u in
          inr (ys, x, zs, p', split, e', hands, (all, inl (u, same)))
    ]
  where
    All-init :
        (ys : List ℕ) (x : ℕ) → All (Hashed p.blocks) (ys ++ x ∷ []) → All (Hashed p.blocks) ys
    All-init [] x a = tt
    All-init (y ∷ ys) x a = (a.0, All-init ys x a.1)
