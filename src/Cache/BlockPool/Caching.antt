-- ===== src/Cache/BlockPool/Caching.antt =====
-- crates/rllm-cache/src/block_pool.rs, `cache_block`: how a block enters the prefix cache, and that
-- it is found again.
use r_llm.Shared.{
  ℕ, suc, false, Option, none, some, List, [], ◌∷◌, ◌++◌, ◌≡◌, refl, sym, ◌∙◌, ap, ◌≢◌, ◌⊎◌, inl,
  inr, arith, In, In-append, subst, lookup, insert, lookup-insert, ℕ_discrete,
}
use r_llm.Cache.FreeQueue.{KvCacheBlock, set_block}
use r_llm.Cache.BlockPool.{BlockPool, cache_block, free, get_cached_block, first_id, ids_of}
use r_llm.Cache.BlockPool.View.{
  view, set_view, set_view-set_view, set_view-same, view-block, view-set_block_eq,
}
use r_llm.Cache.BlockPool.Books.{Books-hash}
use r_llm.Cache.BlockPool.Invariant.{IsPool, IsQueue-set_block}
use r_llm.Cache.BlockPool.Release.{free_last}
use r_llm.Cache.BlockPool.Revive.{activate_free, get_cached_block_hit}

-- The pool `p'` is `p` with the hash on block `id`, which is the last entry of the hash.
pub record Caches (p : BlockPool) (id hash r : ℕ) (xs : List ℕ) (p' : BlockPool) : Type 0 where
  pub valid : IsPool p' xs
  pub blocks : view p'.blocks ≡ set_view (view p.blocks) id (id, some hash, r, false)
  pub entry : lookup hash p'.hash_map ≡ some (ids_of (lookup hash p.hash_map) ++ id ∷ [])
  pub others : (g : ℕ) → hash ≢ g → lookup g p'.hash_map ≡ lookup g p.hash_map
  pub num_active : p'.num_active_blocks ≡ p.num_active_blocks

In-ids_of :
    (o : Option (List ℕ)) (j : ℕ) → In j (ids_of o) → (ids : List ℕ) × (o ≡ some ids) × In j ids
In-ids_of none j h = absurd h
In-ids_of (some ids) j h = (ids, refl, h)

-- Caching a block of a well-formed pool that has references, and no hash or this very hash, does
-- not panic: the block has the hash and is the last of the hash's entry, the other entries and
-- blocks stay, and the pool stays well formed.
pub cache_block-Caches :
    (p : BlockPool) (xs : List ℕ) (id hash s : ℕ) (h : Option ℕ)
    → IsPool p xs
    → view p.blocks id ≡ some (id, h, suc s, false)
    → (h ≡ none) ⊎ (h ≡ some hash)
    → (p' : BlockPool) × (cache_block p id hash ≡ some p') × Caches p id hash (suc s) xs p'
unfolding cache_block
cache_block-Caches p xs id hash s h valid at fresh =
    let (b, e, w) = view-block p.blocks id _ at in
    let b' : KvCacheBlock = record b { hash = some hash } in
    let m = insert hash (ids_of (lookup hash p.hash_map) ++ id ∷ []) p.hash_map in
    let v : view (set_block p.blocks id b')
        ≡ set_view (view p.blocks) id (id, some hash, suc s, false) =
      view-set_block_eq p.blocks id b' (view p.blocks) (id, some hash, suc s, false) refl
        (ground arith) in
    (
      record p { blocks = set_block p.blocks id b'; hash_map = m },
      ground arith,
      record {
        valid = record {
          queue = IsQueue-set_block p.free_queue p.blocks xs id b b' valid.queue e refl refl;
          books = rw v (
              Books-hash (view p.blocks) xs id p.num_active_blocks p.num_blocks p.hash_map m h hash
                s valid.books at fresh entries);
        };
        blocks = v;
        entry = ground (
          arith,
          lookup-insert hash hash (ids_of (lookup hash p.hash_map) ++ id ∷ []) p.hash_map,
        );
        others = λ g n.
            ground
              (arith, lookup-insert hash g (ids_of (lookup hash p.hash_map) ++ id ∷ []) p.hash_map);
        num_active = refl;
      },
    )
  where
    entries :
        (g j : ℕ) (ids : List ℕ)
        → lookup g (insert hash (ids_of (lookup hash p.hash_map) ++ id ∷ []) p.hash_map) ≡ some ids
        → In j ids
        → ((id ≡ j) × (hash ≡ g)) ⊎ ((r : ℕ) × (view p.blocks j ≡ some (j, some g, r, false)))
    entries g j ids f k =
        let law = lookup-insert hash g (ids_of (lookup hash p.hash_map) ++ id ∷ []) p.hash_map in
        elim (ℕ_discrete hash g) [
          | no q ↦ inr (valid.books.mapped g j ids (ground (arith, law)) k)
          | yes q ↦
              let same : ids ≡ ids_of (lookup hash p.hash_map) ++ id ∷ [] = ground (arith, law) in
              elim (In-append j (ids_of (lookup hash p.hash_map)) (id ∷ []) (subst (In j) same k)) [
                | inl old ↦
                    let (js, found, there) = In-ids_of (lookup hash p.hash_map) j old in
                    inr (valid.books.mapped g j js (rw q at found) there)
                | inr (inl here) ↦ inl (sym here, q)
                | inr (inr bad) ↦ absurd bad
              ]
        ]

first_id-snoc :
    (o : Option (List ℕ)) (id : ℕ) → o ≡ none → first_id (some (ids_of o ++ id ∷ [])) ≡ some id
unfolding first_id
first_id-snoc none id e = refl
first_id-snoc (some ids) id e = absurd (cc)

-- A block of a well-formed pool that is cached under a new hash by its only user and then freed
-- is a hit for the hash: it is answered again, all blocks are as they were after the caching but
-- for their links, and the number of active blocks and the free list are as at first.
pub cache-free-hit :
    (p : BlockPool) (xs : List ℕ) (id hash : ℕ)
    → IsPool p xs
    → view p.blocks id ≡ some (id, none, 1, false)
    → lookup hash p.hash_map ≡ none
    → (p₁ p₂ p₃ : BlockPool) × (cache_block p id hash ≡ some p₁)
      × (free p₁ id ≡ some p₂)
      × (get_cached_block p₂ hash ≡ some (some id, p₃))
      × IsPool p₃ xs
      × (view p₃.blocks ≡ view p₁.blocks)
      × (p₃.num_active_blocks ≡ p.num_active_blocks)
cache-free-hit p xs id hash h at missing =
    let (p₁, e₁, c) = cache_block-Caches p xs id hash 0 none h at (inl refl) in
    let at₁ : view p₁.blocks id ≡ some (id, some hash, 1, false) =
      ap (λ u. u id) c.blocks ∙ ground arith in
    let (p₂, e₂, f, active₂) = free_last p₁ xs c.valid id (some hash) at₁ in
    let at₂ : view p₂.blocks id ≡ some (id, some hash, 0, false) =
      ap (λ u. u id) f.blocks ∙ ground arith in
    let (p₃, e₃, g, active₃) = activate_free p₂ [] id xs hash f.valid at₂ in
    let first : first_id (lookup hash p₂.hash_map) ≡ some id =
      ap (λ m. first_id (lookup hash m)) f.hash_map
      ∙ ap first_id c.entry
      ∙ first_id-snoc (lookup hash p.hash_map) id missing in
    (
      p₁,
      p₂,
      p₃,
      e₁,
      e₂,
      get_cached_block_hit p₂ p₃ hash id first e₃,
      g.valid,
      g.blocks
          ∙ ap (λ u. set_view u id (id, some hash, 1, false)) f.blocks
          ∙ set_view-set_view (view p₁.blocks) id (id, some hash, 0, false)
              (id, some hash, 1, false)
          ∙ set_view-same (view p₁.blocks) id (id, some hash, 1, false) at₁,
      omega (arith, active₂, active₃, c.num_active),
    )
