-- ===== src/Cache/BlockPool/Search.antt =====
-- crates/rllm-cache/src/block_pool.rs, the two searches of the free queue: which block they find,
-- and that their fuel is enough.
use r_llm.Shared.{
  ℕ, zero, suc, ◌<◌, Option, none, some, true, false, List, [], ◌∷◌, ◌++◌, ◌≡◌, refl, ap, ◌⊎◌, inl,
  inr, arith, All, is_some, length, Bool-cases,
}
use r_llm.Cache.FreeQueue.{KvCacheBlock, Blocks}
use r_llm.Cache.FreeQueue.Chain.{first, last, Segment}
use r_llm.Cache.BlockPool.{find_uncached, find_cached}

abbrev pub Hashed : Blocks → ℕ → Type 0
Hashed c i = (b : KvCacheBlock) × (c i ≡ some b) × (is_some b.hash ≡ true)

abbrev pub Unhashed : Blocks → ℕ → Type 0
Unhashed c i = (b : KvCacheBlock) × (c i ≡ some b) × (is_some b.hash ≡ false)

-- The first block without a hash, if there is one.
abbrev FirstUnhashed : Blocks → List ℕ → Option ℕ → Type 0
FirstUnhashed c xs r =
    ((r ≡ none) × All (Hashed c) xs)
    ⊎ ((ys : List ℕ) × (x : ℕ) × (zs : List ℕ) × (xs ≡ ys ++ x ∷ zs)
        × (r ≡ some x)
        × All (Hashed c) ys
        × Unhashed c x)

FirstUnhashed-cons :
    (c : Blocks) (x : ℕ) (xs : List ℕ) (r : Option ℕ)
    → Hashed c x
    → FirstUnhashed c xs r
    → FirstUnhashed c (x ∷ xs) r
FirstUnhashed-cons c x xs r h (inl (e, hs)) = inl (e, (h, hs))
FirstUnhashed-cons c x xs r h (inr (ys, y, zs, e, f, hs, u)) =
    inr (x ∷ ys, y, zs, ap (◌∷◌ x) e, f, (h, hs), u)

pub find_uncached-FirstUnhashed :
    (fuel : ℕ) (c : Blocks) (p : Option ℕ) (xs : List ℕ)
    → length xs < fuel
    → Segment c p xs none
    → (r : Option ℕ) × (find_uncached fuel c (first xs none) ≡ some r) × FirstUnhashed c xs r
unfolding find_uncached
find_uncached-FirstUnhashed zero c p xs h s = elim h [ ]
find_uncached-FirstUnhashed (suc fuel) c p [] h s = (none, refl, inl (refl, tt))
find_uncached-FirstUnhashed (suc fuel) c p (x ∷ xs) h ((b, e, l, n), s) =
    let (r, found, first) = find_uncached-FirstUnhashed fuel c (some x) xs (omega arith) s in
    elim (Bool-cases (is_some b.hash)) [
      | inl t ↦ (r, rw (e, t, n) found, FirstUnhashed-cons c x xs r (b, e, t) first)
      | inr f ↦ (some x, rw (e, f) refl, inr ([], x, xs, refl, refl, tt, (b, e, f)))
    ]

last-snoc : (p : Option ℕ) (ys : List ℕ) (x : ℕ) → last p (ys ++ x ∷ []) ≡ some x
last-snoc p [] x = refl
last-snoc p (y ∷ ys) x = last-snoc (some y) ys x

pub Hashed-last : (c : Blocks) (ys : List ℕ) (x : ℕ) → All (Hashed c) (ys ++ x ∷ []) → Hashed c x
Hashed-last c [] x h = h.0
Hashed-last c (y ∷ ys) x h = Hashed-last c ys x h.1

-- Where every block has a hash, the search from the tail stops at the tail.
pub find_cached-last :
    (fuel : ℕ) (c : Blocks) (ys : List ℕ) (x : ℕ)
    → All (Hashed c) (ys ++ x ∷ [])
    → find_cached (suc fuel) c (last none (ys ++ x ∷ [])) ≡ some (some x)
unfolding find_cached
find_cached-last fuel c ys x h =
    let (b, e, t) = Hashed-last c ys x h in rw (last-snoc none ys x, e, t) refl
