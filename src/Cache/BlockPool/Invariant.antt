-- ===== src/Cache/BlockPool/Invariant.antt =====
-- The pool's invariant, and what unlinking a free block and evicting one do to it.
use r_llm.Shared.{
  ℕ, false, Option, none, some, List, ◌∷◌, ◌++◌, ◌≡◌, refl, sym, ap, ◌∙◌, subst, ◌≢◌, arith, In,
  In-without, without, ℕ_discrete, Map, lookup, lookup-insert, lookup-delete,
}
use r_llm.Cache.FreeQueue.{KvCacheBlock, Blocks, FreeBlockQueue, set_block}
use r_llm.Cache.FreeQueue.Chain.{Segment-set_block}
use r_llm.Cache.FreeQueue.Order.{IsQueue, remove-Leaves}
use r_llm.Cache.BlockPool.{BlockPool, unlink, evict, remove_hash_entry, drop_id}
use r_llm.Cache.BlockPool.View.{view, set_view, view-SamePayload, view-set_block_eq, view-block}
use r_llm.Cache.BlockPool.Books.{Books, Books-unhash}

-- The free queue holds the blocks `xs`, the head first, and the books are in step with it.
pub record IsPool (p : BlockPool) (xs : List ℕ) : Type 0 where
  pub queue : IsQueue p.free_queue p.blocks xs
  pub books : Books (view p.blocks) xs p.num_active_blocks p.num_blocks p.hash_map

pub IsQueue-set_block :
    (q : FreeBlockQueue) (c : Blocks) (xs : List ℕ) (i : ℕ) (b b' : KvCacheBlock)
    → IsQueue q c xs
    → c i ≡ some b
    → b'.prev_free ≡ b.prev_free
    → b'.next_free ≡ b.next_free
    → IsQueue q (set_block c i b') xs
IsQueue-set_block q c xs i b b' h e l r = record {
  head = h.head;
  tail = h.tail;
  len = h.len;
  links = Segment-set_block c i b b' none xs none e l r h.links;
  distinct = h.distinct;
}

pub unlink-IsQueue :
    (p : BlockPool) (ys : List ℕ) (x : ℕ) (zs : List ℕ)
    → IsPool p (ys ++ x ∷ zs)
    → (q : FreeBlockQueue) × (c : Blocks) × (unlink p x
        ≡ some (record p { free_queue = q; blocks = c }))
      × IsQueue q c (ys ++ zs)
      × (view c ≡ view p.blocks)
unfolding unlink
unlink-IsQueue p ys x zs h =
    let (q, c, e, k, s) = remove-Leaves p.free_queue p.blocks ys x zs h.queue in
    (q, c, rw e refl, k, view-SamePayload p.blocks c s)

-- What is left in the hash map was there before, and is another block or under another hash.
drop_id-In :
    (o : Option (List ℕ)) (hash id : ℕ) (m : Map (List ℕ)) (g j : ℕ) (ids : List ℕ)
    → lookup hash m ≡ o
    → lookup g (drop_id o hash id m) ≡ some ids
    → In j ids
    → (js : List ℕ) × (lookup g m ≡ some js) × In j js × (hash ≡ g → id ≢ j)
unfolding drop_id
drop_id-In none hash id m g j ids missing e k = (ids, e, k, λ q. cc)
drop_id-In (some old) hash id m g j ids found e k = elim (ℕ_discrete hash g) [
  | no q ↦ (
    ids,
    ground (arith, lookup-delete hash g m, lookup-insert hash g (without id old) m),
    k,
    λ w. absurd (q w),
  )
  | yes q ↦
      let same : without id old ≡ ids =
        ground (arith, lookup-delete hash g m, lookup-insert hash g (without id old) m) in
      let (n, there) = In-without id j old (subst (In j) (sym same) k) in
      (old, (rw q at found), there, λ w. n)
]

remove_hash_entry-In :
    (hash id : ℕ) (m : Map (List ℕ)) (g j : ℕ) (ids : List ℕ)
    → lookup g (remove_hash_entry hash id m) ≡ some ids
    → In j ids
    → (js : List ℕ) × (lookup g m ≡ some js) × In j js × (hash ≡ g → id ≢ j)
unfolding remove_hash_entry
remove_hash_entry-In hash id m g j ids e k = drop_id-In (lookup hash m) hash id m g j ids refl e k

-- Evicting a free block with a hash: it is out of the queue, and has no hash any more.
pub evict-IsPool :
    (p : BlockPool) (ys : List ℕ) (x : ℕ) (zs : List ℕ) (hash : ℕ)
    → IsPool p (ys ++ x ∷ zs)
    → view p.blocks x ≡ some (x, some hash, 0, false)
    → (q : FreeBlockQueue) × (c : Blocks) × (evict p x
        ≡ some (
          some x,
          record p { free_queue = q; blocks = c; hash_map = remove_hash_entry hash x p.hash_map },
        ))
      × IsQueue q c (ys ++ zs)
      × (view c ≡ set_view (view p.blocks) x (x, none, 0, false))
      × Books
          (view c)
          (ys ++ x ∷ zs)
          p.num_active_blocks
          p.num_blocks
          (remove_hash_entry hash x p.hash_map)
unfolding evict
evict-IsPool p ys x zs hash h at =
    let (q, c, e, k, v) = unlink-IsQueue p ys x zs h in
    let (b, f, w) = view-block c x (x, some hash, 0, false) (ap (λ u. u x) v ∙ at) in
    let hash_eq : b.hash ≡ some hash = ground arith in
    let id_eq : b.id ≡ x = ground arith in
    let b' : KvCacheBlock = record b { hash = none } in
    let v' : view (set_block c x b') ≡ set_view (view p.blocks) x (x, none, 0, false) =
      view-set_block_eq c x b' (view p.blocks) (x, none, 0, false) v (ground arith) in
    (
      q,
      set_block c x b',
      rw (e, f, hash_eq, id_eq) refl,
      IsQueue-set_block q c (ys ++ zs) x b b' k f refl refl,
      v',
      rw v' (Books-unhash (view p.blocks) _ x _ _ _ _ (some hash) h.books at survivors),
    )
  where
    survivors :
        (g j : ℕ) (ids : List ℕ)
        → lookup g (remove_hash_entry hash x p.hash_map) ≡ some ids
        → In j ids
        → (x ≢ j) × ((r : ℕ) × (view p.blocks j ≡ some (j, some g, r, false)))
    survivors g j ids e k =
        let (js, old, there, n) = remove_hash_entry-In hash x p.hash_map g j ids e k in
        let (r, w) = h.books.mapped g j js old there in ((λ q. n (ground arith) q), (r, w))
