-- ===== src/Cache/BlockPool/New.antt =====
-- crates/rllm-cache/src/block_pool.rs, `BlockPool::new`: the fresh pool is valid.
use mathlib.Core.List.{append_assoc, append-nil}
use mathlib.Core.Option
use r_llm.Shared.{
  ℕ, zero, suc, ◌+◌, ◌-◌, ◌<◌, ◌≤◌, ◌%◌, ◌^◌, max, true, false, none, some, List, [], ◌∷◌, ◌++◌,
  ◌≡◌, refl, sym, ◌∙◌, ap, inl, inr, arith, In, NotIn, All, length, lookup, ℕ_discrete,
}
use r_llm.Cache.FreeQueue
use r_llm.Cache.FreeQueue.{KvCacheBlock, Blocks, FreeBlockQueue}
use r_llm.Cache.FreeQueue.Chain.{SamePayload, SamePayload-trans, payload}
use r_llm.Cache.FreeQueue.Order.{IsQueue, Leaves, push_back-Leaves, empty-IsQueue}
use r_llm.Cache.BlockPool.{BlockPool, new, push_all, fresh_blocks, fresh_block}
use r_llm.Cache.BlockPool.View.{view, view-SamePayload, view-block, count_used}
use r_llm.Cache.BlockPool.Books.{Books}
use r_llm.Cache.BlockPool.Invariant.{IsPool}

-- The numbers `i, i + 1, …`, `n` of them.
unfoldable pub range : ℕ → ℕ → List ℕ
range i zero = []
range i (suc n) = i ∷ range (suc i) n

In-range : (j i n : ℕ) → i ≤ j → j < i + n → In j (range i n)
unfolding range
In-range j i zero a b = absurd (omega arith)
In-range j i (suc n) a b = elim (ℕ_discrete j i) [
  | yes q ↦ inl q
  | no q ↦ inr (In-range j (suc i) n (omega arith) (omega arith))
]

range-In : (j i n : ℕ) → In j (range i n) → (i ≤ j) × (j < i + n)
unfolding range
range-In j i zero h = absurd h
range-In j i (suc n) (inl e) = omega arith
range-In j i (suc n) (inr h) = omega (arith, range-In j (suc i) n h)

length-range : (i n : ℕ) → length (range i n) ≡ n
unfolding range
length-range i zero = refl
length-range i (suc n) = ap suc (length-range (suc i) n)

Below-NotIn : (i : ℕ) (xs : List ℕ) → All (λ x. x < i) xs → NotIn i xs
Below-NotIn i [] h = tt
Below-NotIn i (x ∷ xs) (l, h) = ((λ e. omega arith), Below-NotIn i xs h)

Below-snoc : (i : ℕ) (xs : List ℕ) → All (λ x. x < i) xs → All (λ x. x < suc i) (xs ++ i ∷ [])
Below-snoc i [] h = (omega arith, tt)
Below-snoc i (x ∷ xs) (l, h) = (omega arith, Below-snoc i xs h)

-- The loop that fills the queue.
push_all-Leaves :
    (left i : ℕ) (q : FreeBlockQueue) (c : Blocks) (xs : List ℕ)
    → i + left ≤ 2 ^ 32
    → IsQueue q c xs
    → All (λ x. x < i) xs
    → ((j : ℕ) → i ≤ j → j < i + left → (b : KvCacheBlock) × (c j ≡ some b))
    → Leaves c (xs ++ range i left) (push_all left i q c)
unfolding push_all range
push_all-Leaves zero i q c xs small h below there = (q, c, refl, rw (append-nil xs) h, λ j. refl)
push_all-Leaves (suc left) i q c xs small h below there =
    let (b, e) = there i (omega arith) (omega arith) in
    let (q₁, c₁, e₁, h₁, s₁) = push_back-Leaves q c i xs b h (Below-NotIn i xs below) e in
    let (q₂, c₂, e₂, h₂, s₂) =
      push_all-Leaves left (suc i) q₁ c₁ (xs ++ i ∷ []) (omega arith) h₁ (Below-snoc i xs below)
        (λ j l u. still c₁ s₁ j (there j (omega arith) (omega arith))) in
    let small_i : i % 2 ^ 32 ≡ i = omega arith in
    (
      q₂,
      c₂,
      rw (small_i, e₁) e₂,
      rw (← append_assoc xs (i ∷ []) (range (suc i) left)) h₂,
      SamePayload-trans c c₁ c₂ s₁ s₂,
    )
  where
    still :
        (c' : Blocks)
        → SamePayload c c'
        → (j : ℕ) → ((b : KvCacheBlock) × (c j ≡ some b))
        → (b : KvCacheBlock) × (c' j ≡ some b)
    still c' s j (b, e) =
        let (b', e', _) = view-block c' j _ (s j ∙ ap (Option.map payload) e) in (b', e')

fresh-count_used : (n k : ℕ) → count_used (view (fresh_blocks n)) k ≡ 0
unfolding count_used
fresh-count_used n zero = refl
fresh-count_used n (suc k) = ground (arith, fresh-count_used n k)

fresh-present : (n i : ℕ) → i < max 1 n → (b : KvCacheBlock) × (fresh_blocks n i ≡ some b)
fresh-present n zero h = (fresh_block 0 true, refl)
fresh-present n (suc i) h = (fresh_block (suc i) false, ground arith)

fresh-Books : (n : ℕ) → n ≤ 2 ^ 32 → Books (view (fresh_blocks n)) (range 1 (n - 1)) 0 (max 1 n) []
unfolding lookup
fresh-Books n small = record {
  null = ground arith;
  idle = λ i k. let (a, b) = range-In i 1 (n - 1) k in (none, ground arith);
  listed = λ i h e. In-range i 1 (n - 1) (ground arith) (ground arith);
  own_id = λ i j r h m e. ground arith;
  range = λ i w e. ground arith;
  present = λ i h. let (b, e) = fresh-present n i h in (payload b, ap (Option.map payload) e);
  in_use = sym (fresh-count_used n (max 1 n));
  count = omega (arith, length-range 1 (n - 1));
  mapped = λ hash id ids e k. absurd (cc);
}

-- For at most 2^32 blocks the constructor does not panic, and the fresh pool is well formed: no
-- block is active, and all blocks but the null block are in the free list, in the order of their
-- ids.
pub new-IsPool :
    (n : ℕ)
    → n ≤ 2 ^ 32
    → (p : BlockPool) × (new n ≡ some p)
      × IsPool p (range 1 (n - 1))
      × (p.num_active_blocks ≡ 0)
      × (p.num_blocks ≡ max 1 n)
unfolding new
new-IsPool n small =
    let (q, c, e, h, s) =
      push_all-Leaves (n - 1) 1 FreeQueue.new (fresh_blocks n) [] (omega arith)
        (empty-IsQueue (fresh_blocks n)) tt (λ j a b. (fresh_block j false, ground arith)) in
    let v : view c ≡ view (fresh_blocks n) = view-SamePayload (fresh_blocks n) c s in
    (
      record {
        num_blocks = max 1 n;
        blocks = c;
        free_queue = q;
        hash_map = [];
        num_active_blocks = 0;
      },
      rw e refl,
      record { queue = h; books = rw v (fresh-Books n small) },
      refl,
      refl,
    )
