-- ===== src/Cache/FreeQueue/Chain.antt =====
-- Segments of the linked list in the blocks' vector, and what a write to a link does to them.
use mathlib.Core.Option
use native.Mathlib.Decide.{ℕ_discrete}
use r_llm.Shared.{
  ℕ, Bool, Option, none, some, List, [], ◌∷◌, ◌++◌, ◌≡◌, refl, sym, ◌∙◌, ◌≢◌, inl, inr, arith, In,
  NotIn, Distinct, NotIn-In,
}
use r_llm.Cache.FreeQueue.{
  KvCacheBlock, Blocks, set_block, set_prev, set_next, set_links, link_prev, link_next, modify,
}

abbrev pub first : List ℕ → Option ℕ → Option ℕ
first [] n = n
first (x ∷ xs) n = some x

abbrev pub last : Option ℕ → List ℕ → Option ℕ
last p [] = p
last p (x ∷ xs) = last (some x) xs

-- Block `x` holds the links `p` and `n`.
abbrev Node : Blocks → Option ℕ → ℕ → Option ℕ → Type 0
Node c p x n = (b : KvCacheBlock) × (c x ≡ some b) × (b.prev_free ≡ p) × (b.next_free ≡ n)

-- The blocks `xs` are linked in this order, between `p` and `n`.
abbrev pub Segment : Blocks → Option ℕ → List ℕ → Option ℕ → Type 0
Segment c p [] n = Unit {0}
Segment c p (x ∷ xs) n = Node c p x (first xs n) × Segment c (some x) xs n

-- What a block holds besides its links.
abbrev pub payload : KvCacheBlock → ℕ × Option ℕ × ℕ × Bool
payload b = (b.id, b.hash, b.ref_count, b.is_null)

-- Two states of the vector agree but for the links.
abbrev pub SamePayload : Blocks → Blocks → Type 0
SamePayload c c' = (i : ℕ) → Option.map payload (c' i) ≡ Option.map payload (c i)

pub Segment-frame :
    (c c' : Blocks) (p : Option ℕ) (xs : List ℕ) (n : Option ℕ)
    → ((i : ℕ) → In i xs → c' i ≡ c i)
    → Segment c p xs n
    → Segment c' p xs n
Segment-frame c c' p [] n same s = tt
Segment-frame c c' p (x ∷ xs) n same ((b, e, l, r), s) =
    ((b, same x (inl refl) ∙ e, l, r), Segment-frame c c' (some x) xs n (λ i h. same i (inr h)) s)

pub Segment-append :
    (c : Blocks) (p : Option ℕ) (xs ys : List ℕ) (n : Option ℕ)
    → Segment c p (xs ++ ys) n
    → Segment c p xs (first ys n) × Segment c (last p xs) ys n
Segment-append c p [] ys n s = (tt, s)
Segment-append c p (x ∷ []) ys n (h, s) = ((h, tt), s)
Segment-append c p (x ∷ y ∷ xs) ys n (h, s) =
    let (l, r) = Segment-append c (some x) (y ∷ xs) ys n s in ((h, l), r)

pub append-Segment :
    (c : Blocks) (p : Option ℕ) (xs ys : List ℕ) (n : Option ℕ)
    → Segment c p xs (first ys n)
    → Segment c (last p xs) ys n
    → Segment c p (xs ++ ys) n
append-Segment c p [] ys n s t = t
append-Segment c p (x ∷ []) ys n (h, s) t = (h, t)
append-Segment c p (x ∷ y ∷ xs) ys n (h, s) t = (h, append-Segment c (some x) (y ∷ xs) ys n s t)

set_block-ne : (c : Blocks) (i j : ℕ) (b : KvCacheBlock) → i ≢ j → set_block c i b j ≡ c j
set_block-ne c i j b h = ground arith

pub set_block-eq : (c : Blocks) (i : ℕ) (b : KvCacheBlock) → set_block c i b i ≡ some b
set_block-eq c i b = ground arith

-- A write that keeps the payload.
set_block-SamePayload :
    (c : Blocks) (i : ℕ) (b b' : KvCacheBlock)
    → c i ≡ some b
    → payload b' ≡ payload b
    → SamePayload c (set_block c i b')
set_block-SamePayload c i b b' e h j = ground arith

pub SamePayload-trans : (a b c : Blocks) → SamePayload a b → SamePayload b c → SamePayload a c
SamePayload-trans a b c h k i = k i ∙ h i

-- The effect of one link write: it succeeds, and touches no block outside `xs`.
abbrev Relinks : Blocks → List ℕ → Blocks → Type 0
Relinks c xs c' = ((i : ℕ) → NotIn i xs → c' i ≡ c i) × SamePayload c c'

last_node :
    (c : Blocks) (p n n' : Option ℕ) (x : ℕ) (xs : List ℕ)
    → Distinct (x ∷ xs)
    → Segment c p (x ∷ xs) n
    → (l : ℕ) × (b : KvCacheBlock) × (last p (x ∷ xs) ≡ some l)
      × (c l ≡ some b)
      × In l (x ∷ xs)
      × Segment (set_block c l (set_next n' b)) p (x ∷ xs) n'
last_node c p n n' x [] d ((b, e, l, r), s) =
    (x, b, refl, e, inl refl, ((set_next n' b, set_block-eq c x _, l, refl), tt))
last_node c p n n' x (y ∷ xs) (nx, d) ((b, e, l, r), s) =
    let (z, b', lz, ez, hz, sz) = last_node c (some x) n n' y xs d s in
    (
      z,
      b',
      lz,
      ez,
      inr hz,
      ((b, set_block-ne c z x _ (λ q. NotIn-In x z (y ∷ xs) nx hz (sym q)) ∙ e, l, r), sz),
    )

-- Writing the last block's forward link, or the head if there is no block.
pub link_next-Segment :
    (c : Blocks) (xs : List ℕ) (n n' : Option ℕ)
    → Distinct xs
    → Segment c none xs n
    → (c' : Blocks) × (link_next (first xs n) (last none xs) n' c ≡ some (first xs n', c'))
      × Segment c' none xs n'
      × Relinks c xs c'
unfolding link_next
link_next-Segment c [] n n' d s = (c, refl, tt, (λ i h. refl, λ i. refl))
link_next-Segment c (x ∷ xs) n n' d s =
    let (l, b, lz, e, h, s') = last_node c none n n' x xs d s in
    (
      set_block c l (set_next n' b),
      rw (lz, e) refl,
      s',
      (
        λ i k. set_block-ne c l i _ (λ q. NotIn-In i l (x ∷ xs) k h (sym q)),
        set_block-SamePayload c l b (set_next n' b) e refl,
      ),
    )

-- Writing the first block's back link, or the tail if there is no block.
pub link_prev-Segment :
    (c : Blocks) (xs : List ℕ) (p p' : Option ℕ)
    → Distinct xs
    → Segment c p xs none
    → (c' : Blocks) × (link_prev (last p xs) (first xs none) p' c ≡ some (last p' xs, c'))
      × Segment c' p' xs none
      × Relinks c xs c'
unfolding link_prev
link_prev-Segment c [] p p' d s = (c, refl, tt, (λ i h. refl, λ i. refl))
link_prev-Segment c (x ∷ xs) p p' (nx, d) ((b, e, l, r), s) = (
  set_block c x (set_prev p' b),
  rw e refl,
  (
    (set_prev p' b, set_block-eq c x _, refl, r),
    Segment-frame c _ (some x) xs none (λ i h. set_block-ne c x i _ (NotIn-In x i xs nx h)) s,
  ),
  (
    λ i k. set_block-ne c x i _ (λ q. k.0 (sym q)),
    set_block-SamePayload c x b (set_prev p' b) e refl,
  ),
)

-- Writing both links of a block.
pub set_links-Relinks :
    (c : Blocks) (x : ℕ) (b : KvCacheBlock) (p n : Option ℕ)
    → c x ≡ some b
    → (modify c x (set_links p n) ≡ some (set_block c x (set_links p n b)))
      × Node (set_block c x (set_links p n b)) p x n
      × Relinks c (x ∷ []) (set_block c x (set_links p n b))
set_links-Relinks c x b p n e = (
  rw e refl,
  (set_links p n b, set_block-eq c x _, refl, refl),
  (
    λ i k. set_block-ne c x i _ (λ q. k.0 (sym q)),
    set_block-SamePayload c x b (set_links p n b) e refl,
  ),
)

-- A write that keeps a block's links keeps every segment.
pub Segment-set_block :
    (c : Blocks) (i : ℕ) (b b' : KvCacheBlock) (p : Option ℕ) (xs : List ℕ) (n : Option ℕ)
    → c i ≡ some b
    → b'.prev_free ≡ b.prev_free
    → b'.next_free ≡ b.next_free
    → Segment c p xs n
    → Segment (set_block c i b') p xs n
Segment-set_block c i b b' p [] n e l r s = tt
Segment-set_block c i b b' p (x ∷ xs) n e l r ((d, f, l', r'), s) = (
  elim (ℕ_discrete i x) [
    | yes q ↦ (b', ground arith, ground arith, ground arith)
    | no q ↦ (d, set_block-ne c i x b' q ∙ f, l', r')
  ],
  Segment-set_block c i b b' (some x) xs n e l r s,
)
