-- ===== src/Cache/FreeQueue/Order.antt =====
-- The linked list is a queue: what each operation does to the order of the free blocks.
use r_llm.Shared.{
  ℕ, suc, ◌+◌, Option, none, some, List, [], ◌∷◌, ◌++◌, ◌≡◌, refl, sym, ◌∙◌, arith, NotIn, Distinct,
  Distinct-IsSplit, append-Distinct, NotIn-In, length, length-append,
}
use r_llm.Cache.FreeQueue.{
  KvCacheBlock, Blocks, FreeBlockQueue, set_block, set_links, push_front, push_back, pop_front,
  pop_at, remove, new,
}
use r_llm.Cache.FreeQueue.Chain.{
  first, last, Segment, SamePayload, SamePayload-trans, Segment-frame, Segment-append,
  append-Segment, link_next-Segment, link_prev-Segment, set_links-Relinks,
}

-- The queue holds the blocks `xs`, the head first.
pub record IsQueue (q : FreeBlockQueue) (c : Blocks) (xs : List ℕ) : Type 0 where
  pub head : q.head ≡ first xs none
  pub tail : q.tail ≡ last none xs
  pub len : q.len ≡ length xs
  pub links : Segment c none xs none
  pub distinct : Distinct xs

pub empty-IsQueue : (c : Blocks) → IsQueue new c []
empty-IsQueue c = record { head = refl; tail = refl; len = refl; links = tt; distinct = tt }

-- What an operation promises: it does not panic, the queue then holds `xs`, and no block has
-- changed but for its links.
abbrev pub Leaves : Blocks → List ℕ → Option (FreeBlockQueue × Blocks) → Type 0
Leaves c xs r =
    (q : FreeBlockQueue) × (c' : Blocks) × (r ≡ some (q, c')) × IsQueue q c' xs × SamePayload c c'

last-append : (p : Option ℕ) (xs ys : List ℕ) → last p (xs ++ ys) ≡ last (last p xs) ys
last-append p [] ys = refl
last-append p (x ∷ xs) ys = last-append (some x) xs ys

first-append : (xs ys : List ℕ) (n : Option ℕ) → first (xs ++ ys) n ≡ first xs (first ys n)
first-append [] ys n = refl
first-append (x ∷ xs) ys n = refl

-- Unlinking a block anywhere in a well-formed free queue leaves the queue of the other blocks in
-- their order, and changes nothing but links.
pub remove-Leaves :
    (q : FreeBlockQueue) (c : Blocks) (ys : List ℕ) (x : ℕ) (zs : List ℕ)
    → IsQueue q c (ys ++ x ∷ zs)
    → Leaves c (ys ++ zs) (remove q c x)
unfolding remove
remove-Leaves q c ys x zs h =
    let s = Distinct-IsSplit ys x zs h.distinct in
    let (left, ((b, e, p, n), right)) = Segment-append c none ys (x ∷ zs) none h.links in
    let (c₁, r₁, left₁, (out₁, pay₁)) =
      link_next-Segment c ys (some x) (first zs none) s.left left in
    let right₁ = Segment-frame c c₁ (some x) zs none (λ i k. out₁ i (s.apart i k)) right in
    let (c₂, r₂, right₂, (out₂, pay₂)) =
      link_prev-Segment c₁ zs (some x) (last none ys) s.right right₁ in
    let left₂ =
      Segment-frame c₁ c₂ none ys (first zs none) (λ i k. out₂ i (s.apart_left i k)) left₁ in
    let e₂ = out₂ x s.not_right ∙ out₁ x s.not_left ∙ e in
    let (r₃, _, (out₃, pay₃)) = set_links-Relinks c₂ x b none none e₂ in
    let len-remove : q.len ≡ suc (length (ys ++ zs)) =
      omega (arith, h.len, length-append ys (x ∷ zs), length-append ys zs) in
    let c₃ = set_block c₂ x (set_links none none b) in
    let left₃ =
      Segment-frame c₂ c₃ none ys (first zs none)
        (λ i k. out₃ i (λ q. NotIn-In x i ys s.not_left k (sym q), tt)) left₂ in
    let right₃ =
      Segment-frame c₂ c₃ (last none ys) zs none
        (λ i k. out₃ i (λ q. NotIn-In x i zs s.not_right k (sym q), tt)) right₂ in
    (
      record {
        head = first ys (first zs none);
        tail = last (last none ys) zs;
        len = length (ys ++ zs);
      },
      c₃,
      rw
          (
            e,
            p,
            n,
            h.head ∙ first-append ys (x ∷ zs) none,
            r₁,
            h.tail ∙ last-append none ys (x ∷ zs),
            r₂,
            r₃,
            len-remove,
          )
          refl,
      record {
        head = sym (first-append ys zs none);
        tail = sym (last-append none ys zs);
        len = refl;
        links = append-Segment c₃ none ys zs none left₃ right₃;
        distinct = s.joined;
      },
      SamePayload-trans c c₁ c₃ pay₁ (SamePayload-trans c₁ c₂ c₃ pay₂ pay₃),
    )

-- Pushing an existing block that is not in a well-formed free queue to its head leaves the queue
-- with the block ahead of the others, and changes nothing but links.
pub push_front-Leaves :
    (q : FreeBlockQueue) (c : Blocks) (x : ℕ) (xs : List ℕ) (b : KvCacheBlock)
    → IsQueue q c xs
    → NotIn x xs
    → c x ≡ some b
    → Leaves c (x ∷ xs) (push_front q c x)
unfolding push_front
push_front-Leaves q c x xs b h nx e =
    let (r₁, (b₁, e₁, p₁, n₁), (out₁, pay₁)) = set_links-Relinks c x b none (first xs none) e in
    let c₁ = set_block c x (set_links none (first xs none) b) in
    let links₁ =
      Segment-frame c c₁ none xs none (λ i k. out₁ i (λ q. NotIn-In x i xs nx k (sym q), tt))
        h.links in
    let (c₂, r₂, links₂, (out₂, pay₂)) = link_prev-Segment c₁ xs none (some x) h.distinct links₁ in
    (
      record { head = some x; tail = last (some x) xs; len = q.len + 1 },
      c₂,
      rw (h.head, h.tail, r₁, r₂) refl,
      record {
        head = refl;
        tail = refl;
        len = omega (arith, h.len);
        links = ((b₁, out₂ x nx ∙ e₁, p₁, n₁), links₂);
        distinct = (nx, h.distinct);
      },
      SamePayload-trans c c₁ c₂ pay₁ pay₂,
    )

-- Pushing an existing block that is not in a well-formed free queue to its tail leaves the queue
-- with the block behind the others, and changes nothing but links.
pub push_back-Leaves :
    (q : FreeBlockQueue) (c : Blocks) (x : ℕ) (xs : List ℕ) (b : KvCacheBlock)
    → IsQueue q c xs
    → NotIn x xs
    → c x ≡ some b
    → Leaves c (xs ++ x ∷ []) (push_back q c x)
unfolding push_back
push_back-Leaves q c x xs b h nx e =
    let (r₁, (b₁, e₁, p₁, n₁), (out₁, pay₁)) = set_links-Relinks c x b (last none xs) none e in
    let c₁ = set_block c x (set_links (last none xs) none b) in
    let links₁ =
      Segment-frame c c₁ none xs none (λ i k. out₁ i (λ q. NotIn-In x i xs nx k (sym q), tt))
        h.links in
    let (c₂, r₂, links₂, (out₂, pay₂)) = link_next-Segment c₁ xs none (some x) h.distinct links₁ in
    (
      record { head = first xs (some x); tail = some x; len = q.len + 1 },
      c₂,
      rw (h.head, h.tail, r₁, r₂) refl,
      record {
        head = sym (first-append xs (x ∷ []) none);
        tail = sym (last-append none xs (x ∷ []));
        len = omega (arith, h.len, length-append xs (x ∷ []));
        links = append-Segment c₂ none xs (x ∷ []) none links₂ ((b₁, out₂ x nx ∙ e₁, p₁, n₁), tt);
        distinct = append-Distinct xs x h.distinct nx;
      },
      SamePayload-trans c c₁ c₂ pay₁ pay₂,
    )

-- Taking a block from a well-formed free queue that has one answers the first block, leaves the
-- queue of the others in their order, and changes nothing but links.
pub pop_front-Leaves :
    (q : FreeBlockQueue) (c : Blocks) (x : ℕ) (xs : List ℕ)
    → IsQueue q c (x ∷ xs)
    → (q' : FreeBlockQueue) × (c' : Blocks) × (pop_front q c ≡ some (some x, q', c'))
      × IsQueue q' c' xs
      × SamePayload c c'
unfolding pop_front
pop_front-Leaves q c x xs h =
    let ((b, e, p, n), links) = h.links in
    let (nx, d) = h.distinct in
    let (c₁, r₁, links₁, (out₁, pay₁)) = link_prev-Segment c xs (some x) none d links in
    let (r₂, _, (out₂, pay₂)) = set_links-Relinks c₁ x b none none (out₁ x nx ∙ e) in
    let c₂ = set_block c₁ x (set_links none none b) in
    (
      record { head = first xs none; tail = last none xs; len = length xs },
      c₂,
      rw (h.head, pop_at, e, n, h.tail, r₁, r₂, h.len) refl,
      record {
        head = refl;
        tail = refl;
        len = refl;
        links =
            Segment-frame c₁ c₂ none xs none (λ i k. out₂ i (λ q. NotIn-In x i xs nx k (sym q), tt))
              links₁;
        distinct = d;
      },
      SamePayload-trans c c₁ c₂ pay₁ pay₂,
    )
