-- ===== src/Cache/BlockPool/Revive.antt =====
-- crates/rllm-cache/src/block_pool.rs, `touch` and `get_cached_block`: a hit in the prefix cache.
use r_llm.Shared.{
  ℕ, zero, suc, ◌+◌, ◌<◌, true, false, Option, none, some, List, [], ◌∷◌, ◌++◌, ◌≡◌, refl, ◌∙◌, ap,
  ◌⊎◌, inl, inr, arith, In-middle, In-split, subst, is_some, lookup, Distinct-IsSplit, append-NotIn,
}
use r_llm.Cache.FreeQueue.{KvCacheBlock, FreeBlockQueue, Blocks, set_block}
use r_llm.Cache.FreeQueue.Chain.{last, Segment-append}
use r_llm.Cache.FreeQueue.Order.{IsQueue, push_front-Leaves}
use r_llm.Cache.BlockPool.{
  BlockPool, touch, move_front, unlink, activate, in_queue, get_cached_block, first_id,
}
use r_llm.Cache.BlockPool.View.{view, set_view, view-block, view-set_block_eq, view-SamePayload}
use r_llm.Cache.BlockPool.Books.{Books-take, Books-front}
use r_llm.Cache.BlockPool.Invariant.{IsPool, IsQueue-set_block, unlink-IsQueue}
use r_llm.Cache.BlockPool.Release.{Recounts, recount, recount-Recounts}

last-some : (y : ℕ) (ys : List ℕ) → is_some (last (some y) ys) ≡ true
last-some y [] = refl
last-some y (z ∷ ys) = last-some z ys

-- A block of the free queue has a link, or is its head.
in_queue-free :
    (p : BlockPool) (ys : List ℕ) (x : ℕ) (zs : List ℕ) (b : KvCacheBlock)
    → IsQueue p.free_queue p.blocks (ys ++ x ∷ zs)
    → p.blocks x ≡ some b
    → in_queue p b x ≡ true
in_queue-free p [] x zs b h e = ground (arith, h.head)
in_queue-free p (y ∷ ys) x zs b h e =
    let (_, ((b', e', l, _), _)) = Segment-append p.blocks none (y ∷ ys) (x ∷ zs) none h.links in
    let same : b'.prev_free ≡ b.prev_free = ground arith in rw (← same, l, last-some y ys) refl

move_front-IsPool :
    (p : BlockPool) (ys : List ℕ) (x : ℕ) (zs : List ℕ)
    → IsPool p (ys ++ x ∷ zs)
    → (q : FreeBlockQueue) × (c : Blocks) × (move_front p x
        ≡ some (record p { free_queue = q; blocks = c }))
      × IsPool (record p { free_queue = q; blocks = c }) (x ∷ ys ++ zs)
      × (view c ≡ view p.blocks)
unfolding move_front
move_front-IsPool p ys x zs h =
    let (q, c, e, k, v) = unlink-IsQueue p ys x zs h in
    let split = Distinct-IsSplit ys x zs h.queue.distinct in
    let (g, w) = h.books.idle x (In-middle ys x zs) in
    let (b, f, _) = view-block c x _ (ap (λ u. u x) v ∙ w) in
    let (q', c', e', k', same) =
      push_front-Leaves q c x (ys ++ zs) b k (append-NotIn x ys zs split.not_left split.not_right)
        f in
    let v' : view c' ≡ view p.blocks = view-SamePayload c c' same ∙ v in
    (
      q',
      c',
      rw (e, e') refl,
      record {
        queue = k';
        books = rw v' (
            Books-front (view p.blocks) ys x zs p.num_active_blocks p.num_blocks p.hash_map
              h.books);
      },
      v',
    )

touch_free :
    (p : BlockPool) (x : ℕ) (b : KvCacheBlock)
    → p.blocks x ≡ some b
    → b.ref_count ≡ 0
    → b.is_null ≡ false
    → is_some b.hash ≡ true
    → in_queue p b x ≡ true
    → touch p x ≡ move_front p x
unfolding touch
touch_free p x b e r n h i = rw (e, r, n, h, i) refl

touch_active :
    (p : BlockPool) (x s : ℕ) (b : KvCacheBlock)
    → p.blocks x ≡ some b
    → b.ref_count ≡ suc s
    → touch p x ≡ some p
unfolding touch
touch_active p x s b e r = ground arith

activate_steps :
    (p p₁ p₂ : BlockPool) (x : ℕ) (b b' : KvCacheBlock)
    → touch p x ≡ some p₁
    → p₁.blocks x ≡ some b
    → b.ref_count ≡ 0
    → in_queue p₁ b x ≡ true
    → unlink p₁ x ≡ some p₂
    → p₂.blocks x ≡ some b'
    → b'.ref_count ≡ 0
    → activate p x
      ≡ some (record p₂ {
        num_active_blocks = p₂.num_active_blocks + 1;
        blocks = set_block p₂.blocks x (record b' { ref_count = 1 });
      })
unfolding activate
activate_steps p p₁ p₂ x b b' e₁ e₂ r i e₃ e₄ r' = rw (e₁, e₂, r, i, e₃, e₄, r') refl

-- A hit on a block without references takes it out of the free queue, wherever it stands there.
pub activate_free :
    (p : BlockPool) (ys : List ℕ) (x : ℕ) (zs : List ℕ) (hash : ℕ)
    → IsPool p (ys ++ x ∷ zs)
    → view p.blocks x ≡ some (x, some hash, 0, false)
    → (p' : BlockPool) × (activate p x ≡ some p')
      × Recounts p x (some hash) 1 (ys ++ zs) p'
      × (p'.num_active_blocks ≡ p.num_active_blocks + 1)
activate_free p ys x zs hash h at =
    let (b, e, w) = view-block p.blocks x _ at in
    let (q₁, c₁, m₁, h₁, v₁) = move_front-IsPool p ys x zs h in
    let p₁ : BlockPool = record p { free_queue = q₁; blocks = c₁ } in
    let touched : touch p x ≡ some p₁ =
      touch_free p x b e (ground arith) (ground arith) (ground arith)
        (in_queue-free p ys x zs b h.queue e)
      ∙ m₁ in
    let at₁ : view c₁ x ≡ some (x, some hash, 0, false) = ap (λ u. u x) v₁ ∙ at in
    let (b₁, e₁, w₁) = view-block c₁ x _ at₁ in
    let (q₂, c₂, m₂, k₂, v₂) = unlink-IsQueue p₁ [] x (ys ++ zs) h₁ in
    let p₂ : BlockPool = record p₁ { free_queue = q₂; blocks = c₂ } in
    let (b₂, e₂, w₂) = view-block c₂ x _ (ap (λ u. u x) v₂ ∙ at₁) in
    let b₃ : KvCacheBlock = record b₂ { ref_count = 1 } in
    let v₃ : view (set_block c₂ x b₃) ≡ set_view (view p.blocks) x (x, some hash, 1, false) =
      view-set_block_eq c₂ x b₃ (view p.blocks) (x, some hash, 1, false) (v₂ ∙ v₁) (ground arith) in
    (
      record p₂ { num_active_blocks = p.num_active_blocks + 1; blocks = set_block c₂ x b₃ },
      activate_steps p p₁ p₂ x b₁ b₂ touched e₁ (ground arith)
          (in_queue-free p₁ [] x (ys ++ zs) b₁ h₁.queue e₁) m₂ e₂ (ground arith),
      record {
        valid = record {
          queue = IsQueue-set_block q₂ c₂ (ys ++ zs) x b₂ b₃ k₂ e₂ refl refl;
          books = rw v₃ (
              Books-take (view p.blocks) ys x zs p.num_active_blocks p.num_blocks p.hash_map 0
                (some hash) h.books h.queue.distinct at);
        };
        blocks = v₃;
        hash_map = refl;
        num_blocks = refl;
      },
      refl,
    )

-- A hit on an active block adds a reference, below the limit of a `u32`.
activate_active :
    (p : BlockPool) (xs : List ℕ) (x s hash : ℕ)
    → IsPool p xs
    → view p.blocks x ≡ some (x, some hash, suc s, false)
    → suc s < 4294967295
    → (p' : BlockPool) × (activate p x ≡ some p')
      × Recounts p x (some hash) (suc (suc s)) xs p'
      × (p'.num_active_blocks ≡ p.num_active_blocks)
unfolding activate
activate_active p xs x s hash h at small =
    let (b, e, w) = view-block p.blocks x _ at in
    let r : b.ref_count ≡ suc s = ground arith in
    (
      recount p x b (suc (suc s)),
      ground (arith, touch_active p x s b),
      recount-Recounts p xs h x (some hash) s (suc s) b at e w,
      refl,
    )

-- What a look-up of `hash` answers: nothing, and nothing changes, if the hash map has no block for
-- it; else a block that holds `hash`, with one reference more, out of the free queue.
abbrev pub Hits : BlockPool → List ℕ → ℕ → Type 0
Hits p xs hash =
    (((lookup hash p.hash_map ≡ none) ⊎ (lookup hash p.hash_map ≡ some []))
      × (get_cached_block p hash ≡ some (none, p)))
    ⊎ ((id r : ℕ) × (xs' : List ℕ) × (p' : BlockPool) × ((ids : List ℕ) × (lookup hash p.hash_map
            ≡ some (id ∷ ids)))
        × (view p.blocks id ≡ some (id, some hash, r, false))
        × (get_cached_block p hash ≡ some (some id, p'))
        × Recounts p id (some hash) (suc r) xs' p'
        × (((r ≡ 0) × (p'.num_active_blocks ≡ p.num_active_blocks + 1))
            ⊎ ((xs' ≡ xs) × (p'.num_active_blocks ≡ p.num_active_blocks))))

-- No reference count is at the limit of a `u32`.
abbrev pub CountsFit : BlockPool → Type 0
CountsFit p = (id r : ℕ) (h : Option ℕ) → view p.blocks id ≡ some (id, h, r, false) → r < 4294967295

entry-cases :
    (o : Option (List ℕ))
    → ((o ≡ none) ⊎ (o ≡ some [])) ⊎ ((id : ℕ) × (ids : List ℕ) × (o ≡ some (id ∷ ids)))
entry-cases none = inl (inl refl)
entry-cases (some []) = inl (inr refl)
entry-cases (some (id ∷ ids)) = inr (id, ids, refl)

first_id-none : (o : Option (List ℕ)) → (o ≡ none) ⊎ (o ≡ some []) → first_id o ≡ none
unfolding first_id
first_id-none o (inl e) = rw e refl
first_id-none o (inr e) = rw e refl

first_id-some :
    (o : Option (List ℕ)) (id : ℕ) (ids : List ℕ) → o ≡ some (id ∷ ids) → first_id o ≡ some id
unfolding first_id
first_id-some o id ids e = rw e refl

get_cached_block_miss :
    (p : BlockPool) (hash : ℕ)
    → first_id (lookup hash p.hash_map) ≡ none
    → get_cached_block p hash ≡ some (none, p)
unfolding get_cached_block
get_cached_block_miss p hash e = rw (e, get_cached_block) refl

pub get_cached_block_hit :
    (p p' : BlockPool) (hash id : ℕ)
    → first_id (lookup hash p.hash_map) ≡ some id
    → activate p id ≡ some p'
    → get_cached_block p hash ≡ some (some id, p')
unfolding get_cached_block
get_cached_block_hit p p' hash id e f = rw (e, get_cached_block) (rw f refl)

hit-Hits :
    (p : BlockPool) (xs : List ℕ) (hash id r : ℕ)
    → IsPool p xs
    → CountsFit p
    → (entry : (ids : List ℕ) × (lookup hash p.hash_map ≡ some (id ∷ ids)))
    → view p.blocks id ≡ some (id, some hash, r, false)
    → Hits p xs hash
hit-Hits p xs hash id zero h fit (ids, found) at =
    let e = first_id-some (lookup hash p.hash_map) id ids found in
    let (ys, zs, split) = In-split id xs (h.books.listed id (some hash) at) in
    let (p', a, rec, active) = activate_free p ys id zs hash (subst (IsPool p) split h) at in
    inr (
      id,
      0,
      ys ++ zs,
      p',
      (ids, found),
      at,
      get_cached_block_hit p p' hash id e a,
      rec,
      inl (refl, active),
    )
hit-Hits p xs hash id (suc s) h fit (ids, found) at =
    let e = first_id-some (lookup hash p.hash_map) id ids found in
    let (p', a, rec, active) =
      activate_active p xs id s hash h at (fit id (suc s) (some hash) at) in
    inr (
      id,
      suc s,
      xs,
      p',
      (ids, found),
      at,
      get_cached_block_hit p p' hash id e a,
      rec,
      inr (refl, active),
    )

-- A look-up in a well-formed pool whose reference counts are below 2^32 - 1 does not panic. If
-- the hash map has no entry of the hash, or an empty one, it answers nothing and changes nothing.
-- Otherwise it answers the first block of the entry, which has the hash, with one reference more
-- and nothing else changed; the number of active blocks grows by one if the block had no
-- reference, else it and the free list stay. The pool stays well formed.
pub get_cached_block-Hits :
    (p : BlockPool) (xs : List ℕ) (hash : ℕ) → IsPool p xs → CountsFit p → Hits p xs hash
get_cached_block-Hits p xs hash h fit = elim (entry-cases (lookup hash p.hash_map)) [
  | inl e ↦ inl (e, get_cached_block_miss p hash (first_id-none (lookup hash p.hash_map) e))
  | inr (id, ids, found) ↦
      let (r, at) = h.books.mapped hash id (id ∷ ids) found (inl refl) in
      hit-Hits p xs hash id r h fit (ids, found) at
]
