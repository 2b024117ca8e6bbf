-- ===== src/Cache/BlockPool/Reset.antt =====
-- crates/rllm-cache/src/block_pool.rs, `reset_prefix_cache`.
use mathlib.Core.Option
use r_llm.Shared.{
  ℕ, zero, suc, ◌+◌, ◌<◌, ◌≤◌, Bool, true, Option, none, some, List, [], ◌∷◌, ◌≡◌, refl, sym, ◌∙◌,
  ap, ◌⊎◌, inl, inr, arith, ltb, is_some, ◌&&◌, Bool-cases, lookup, Option-cases, ℕ_discrete, ◌-◌,
}
use r_llm.Cache.FreeQueue.{KvCacheBlock, Blocks}
use r_llm.Cache.FreeQueue.Chain.{payload, Segment}
use r_llm.Cache.BlockPool.{BlockPool, done, active, find_active, reset_prefix_cache, clear_hash}
use r_llm.Cache.BlockPool.View.{View, Payload, view, count_used, view-block}
use r_llm.Cache.BlockPool.Books.{Books}
use r_llm.Cache.BlockPool.Invariant.{IsPool}

-- The view with every hash gone.
abbrev pub unhashed : Option Payload → Option Payload
unhashed none = none
unhashed (some (i, h, r, n)) = some (i, none, r, n)

abbrev pub cleared : Blocks → Blocks
cleared c i = Option.map clear_hash (c i)

view-cleared : (c : Blocks) (i : ℕ) → view (cleared c) i ≡ unhashed (view c i)
view-cleared c i = ground arith

Segment-cleared :
    (c : Blocks) (p : Option ℕ) (xs : List ℕ) (n : Option ℕ)
    → Segment c p xs n
    → Segment (cleared c) p xs n
Segment-cleared c p [] n s = tt
Segment-cleared c p (x ∷ xs) n ((b, e, l, r), s) =
    ((clear_hash b, rw e refl, l, r), Segment-cleared c (some x) xs n s)

count_used-unhashed :
    (v w : View) (n : ℕ) → ((i : ℕ) → w i ≡ unhashed (v i)) → count_used w n ≡ count_used v n
unfolding count_used
count_used-unhashed v w zero h = refl
count_used-unhashed v w (suc n) h = ground (arith, h n, count_used-unhashed v w n h)

-- Block `i` is active and cached.
abbrev Blocking : View → ℕ → Type 0
Blocking v i = (h r : ℕ) × (m : Bool) × (v i ≡ some (i, some h, suc r, m))

-- No block from `i` on, below `n`, is active and cached.
abbrev Unblocked : View → ℕ → ℕ → Type 0
Unblocked v i n = (j : ℕ) → i ≤ j → j < n → ¬ Blocking v j

block_cases :
    (b : KvCacheBlock) (i : ℕ)
    → b.id ≡ i
    → (is_some b.hash && ltb 0 b.ref_count) ≡ true
    → (h r : ℕ) × (m : Bool) × (payload b ≡ (i, some h, suc r, m))
block_cases b i e t = elim (Option-cases b.hash) [
  | inl n ↦ absurd (ground arith)
  | inr (h, q) ↦ (h, b.ref_count - 1, b.is_null, ground arith)
]

module _ (p : BlockPool) (xs : List ℕ) (valid : IsPool p xs) where
  find_active-finds :
      (left i : ℕ)
      → left + i ≡ p.num_blocks
      → ((find_active left i p.blocks ≡ some none) × Unblocked (view p.blocks) i p.num_blocks)
        ⊎ ((j : ℕ) × (find_active left i p.blocks ≡ some (some j)) × Blocking (view p.blocks) j)
  unfolding find_active
  find_active-finds zero i e = inl (refl, λ j a b. absurd (omega arith))
  find_active-finds (suc left) i e =
      let ((k, h, r, m), at) = valid.books.present i (omega arith) in
      let (b, f, w) = view-block p.blocks i _ at in
      let own : b.id ≡ i = ground (arith, valid.books.own_id i k r h m) in
      elim (Bool-cases (is_some b.hash && ltb 0 b.ref_count)) [
        | inl t ↦
            let (g, s, n, pay) = block_cases b i own t in
            inr (i, rw (f, t, own) refl, (g, s, n, rw f (ap some pay)))
        | inr t ↦ elim (find_active-finds left (suc i) (omega arith)) [
          | inl (e', none_left) ↦ inl (
            rw (f, t) e',
            λ j a below blocking. elim (ℕ_discrete i j) [
              | yes q ↦ let (g, s, n, bad) = blocking in ground arith
              | no q ↦ none_left j (omega arith) below blocking
            ],
          )
          | inr (j, e', found) ↦ inr (j, rw (f, t) e', found)
        ]
      ]

  cleared-Books :
      Unblocked (view p.blocks) 0 p.num_blocks
      → Books (view (cleared p.blocks)) xs p.num_active_blocks p.num_blocks []
  unfolding lookup
  cleared-Books none_left = record {
    null = view-cleared p.blocks 0 ∙ ap unhashed valid.books.null;
    idle =
        λ i k. let (h, w) = valid.books.idle i k in (none, view-cleared p.blocks i ∙ ap unhashed w);
    listed = λ i h e.
        let ((j, g, r, m), at) = valid.books.present i (range i _ e) in
        let same = own i j r g m at in
        let e' = sym (view-cleared p.blocks i ∙ ap unhashed at) ∙ e in
        valid.books.listed i g (ground (arith, e'));
    own_id = λ i j r h m e.
        let ((j', g, r', m'), at) = valid.books.present i (range i _ e) in
        let same = own i j' r' g m' at in
        let e' = sym (view-cleared p.blocks i ∙ ap unhashed at) ∙ e in ground (arith, e');
    range = range;
    present = λ i h.
        let (w, e) = valid.books.present i h in
        (payload_cleared w, view-cleared p.blocks i ∙ ap unhashed e ∙ unhashed-some w);
    in_use =
        valid.books.in_use
        ∙ sym (
            count_used-unhashed (view p.blocks) (view (cleared p.blocks)) p.num_blocks
              (view-cleared p.blocks));
    count = valid.books.count;
    mapped = λ hash id ids e k. absurd (cc);
  }
    where
      own : (i j r : ℕ) (h : Option ℕ) (m : Bool) → view p.blocks i ≡ some (j, h, r, m) → j ≡ i
      own = valid.books.own_id

      range : (i : ℕ) (w : Payload) → view (cleared p.blocks) i ≡ some w → i < p.num_blocks
      range i w e = elim (Option-cases (view p.blocks i)) [
        | inl n ↦ absurd (ground (arith, view-cleared p.blocks i))
        | inr (u, f) ↦ valid.books.range i u f
      ]

      payload_cleared : Payload → Payload
      payload_cleared (i, h, r, n) = (i, none, r, n)

      unhashed-some : (w : Payload) → unhashed (some w) ≡ some (payload_cleared w)
      unhashed-some (i, h, r, n) = refl

-- What `reset_prefix_cache` does: it names an active block with a hash and changes nothing, or
-- there is none, and afterwards the hash map is empty, no block has a hash and the pool is valid.
abbrev pub Resets : BlockPool → List ℕ → Type 0
Resets p xs =
    ((j : ℕ) × (reset_prefix_cache p ≡ some (active j)) × Blocking (view p.blocks) j)
    ⊎ ((p' : BlockPool) × (reset_prefix_cache p ≡ some (done p'))
        × Unblocked (view p.blocks) 0 p.num_blocks
        × IsPool p' xs
        × (p'.hash_map ≡ [])
        × ((i : ℕ) → view p'.blocks i ≡ unhashed (view p.blocks i))
        × (p'.num_active_blocks ≡ p.num_active_blocks))

-- The reset of the prefix cache of a well-formed pool either names a cached block that has
-- references, or there is none, and it leaves a well-formed pool without entries in which no
-- block has a hash and all else is as before.
pub reset_prefix_cache-Resets : (p : BlockPool) (xs : List ℕ) → IsPool p xs → Resets p xs
unfolding reset_prefix_cache
reset_prefix_cache-Resets p xs h = elim (find_active-finds p xs h p.num_blocks 0 (omega arith)) [
  | inr (j, e, blocking) ↦ inl (j, rw e refl, blocking)
  | inl (e, none_left) ↦ inr (
    record p { blocks = cleared p.blocks; hash_map = [] },
    rw e refl,
    none_left,
    record {
      queue = record {
        head = h.queue.head;
        tail = h.queue.tail;
        len = h.queue.len;
        links = Segment-cleared p.blocks none xs none h.queue.links;
        distinct = h.queue.distinct;
      };
      books = cleared-Books p xs h none_left;
    },
    refl,
    view-cleared p.blocks,
    refl,
  )
]
