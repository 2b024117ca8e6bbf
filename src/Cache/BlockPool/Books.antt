-- ===== src/Cache/BlockPool/Books.antt =====
-- The invariant of what the pool's blocks hold: reference counts, ids, hashes and the free list.
use mathlib.Core.Path.{ap₂}
use native.Mathlib.Decide.{ℕ_discrete}
use r_llm.Shared.{
  ℕ, zero, suc, ◌+◌, ◌-◌, ◌≤◌, ◌<◌, ap, refl, Bool, true, false, Option, none, some, List, ◌∷◌,
  ◌++◌, ◌≡◌, sym, ◌∙◌, subst, ◌≢◌, ◌⊎◌, inl, inr, arith, In, NotIn-In, In-drop_middle,
  In-add_middle, In-middle, Distinct, Distinct-IsSplit, append-NotIn, length, length-append, Map,
  lookup,
}
use r_llm.Cache.BlockPool.View.{Payload, View, set_view, used, count_used, set_view-eq, set_view-ne}

-- The free blocks `xs`, the number of active blocks, the number of all blocks and the hash map are
-- in step: a block is in `xs` exactly when it is a proper block with no reference, the active blocks
-- are those with references, block 0 is the
-- null block, a block is at its own id, and what the hash map names under a hash is a proper block
-- with that hash.
pub record Books (v : View) (xs : List ℕ) (active total : ℕ) (m : Map (List ℕ)) : Type 0 where
  pub null : v 0 ≡ some (0, none, 0, true)
  pub idle : (i : ℕ) → In i xs → (h : Option ℕ) × (v i ≡ some (i, h, 0, false))
  pub listed : (i : ℕ) (h : Option ℕ) → v i ≡ some (i, h, 0, false) → In i xs
  pub own_id : (i j r : ℕ) (h : Option ℕ) (n : Bool) → v i ≡ some (j, h, r, n) → j ≡ i
  pub range : (i : ℕ) (w : Payload) → v i ≡ some w → i < total
  pub present : (i : ℕ) → i < total → (w : Payload) × (v i ≡ some w)
  pub in_use : active ≡ count_used v total
  pub count : active + length xs + 1 ≡ total
  pub mapped :
      (hash id : ℕ) (ids : List ℕ)
      → lookup hash m ≡ some ids
      → In id ids
      → (r : ℕ) × (v id ≡ some (id, some hash, r, false))

count_used-above :
    (v : View) (i : ℕ) (w : Payload) (n : ℕ)
    → n ≤ i
    → count_used (set_view v i w) n ≡ count_used v n
unfolding count_used
count_used-above v i w zero h = refl
count_used-above v i w (suc n) h =
    ap₂ (λ a b. used a + b) (set_view-ne v i n w (λ q. omega arith))
      (count_used-above v i w n (omega arith))

count_used-set_view :
    (v : View) (i : ℕ) (w : Payload) (n : ℕ)
    → i < n
    → count_used (set_view v i w) n + used (v i) ≡ count_used v n + used (some w)
unfolding count_used
count_used-set_view v i w zero h = elim h [ ]
count_used-set_view v i w (suc n) h = elim (ℕ_discrete i n) [
  | yes q ↦
      let e : used (set_view v i w n) ≡ used (some w) =
        ap used (ap (set_view v i w) (sym q) ∙ set_view-eq v i w) in
      omega (arith, e, ap (λ k. used (v k)) q, count_used-above v i w n (omega arith))
  | no q ↦ omega (arith, ap used (set_view-ne v i n w q), count_used-set_view v i w n (omega arith))
]

-- A new reference count of a proper block keeps block 0, the ids and the hash map's promise.
module _ (v : View) (xs : List ℕ) (a n : ℕ) (m : Map (List ℕ)) (books : Books v xs a n m) where
  range-set_view :
      (x : ℕ) (w w' : Payload)
      → v x ≡ some w
      → (i : ℕ) (u : Payload) → set_view v x w' i ≡ some u
      → i < n
  range-set_view x w w' at i u e = elim (ℕ_discrete x i) [
    | yes q ↦ subst (λ k. k < n) q (books.range x w at)
    | no q ↦ books.range i u (sym (set_view-ne v x i w' q) ∙ e)
  ]

  present-set_view :
      (x : ℕ) (w' : Payload) (i : ℕ) → i < n → (w : Payload) × (set_view v x w' i ≡ some w)
  present-set_view x w' i h = elim (ℕ_discrete x i) [
    | yes q ↦ (w', ap (set_view v x w') (sym q) ∙ set_view-eq v x w')
    | no q ↦ let (w, e) = books.present i h in (w, set_view-ne v x i w' q ∙ e)
  ]

  in_use-set_view :
      (x : ℕ) (w w' : Payload)
      → v x ≡ some w
      → count_used (set_view v x w') n + used (some w) ≡ a + used (some w')
  in_use-set_view x w w' at =
      omega (arith, count_used-set_view v x w' n (books.range x w at), ap used at, books.in_use)

  null-set_view :
      (x r r' : ℕ) (h h' : Option ℕ)
      → v x ≡ some (x, h, r, false)
      → set_view v x (x, h', r', false) 0 ≡ some (0, none, 0, true)
  null-set_view x r r' h h' at = ground (arith, books.null, at)

  own_id-set_view :
      (x r r' : ℕ) (h h' : Option ℕ)
      → v x ≡ some (x, h, r, false)
      → (i j k : ℕ) (g : Option ℕ) (b : Bool)
      → set_view v x (x, h', r', false) i ≡ some (j, g, k, b)
      → j ≡ i
  own_id-set_view x r r' h h' at i j k g b e = ground (arith, books.own_id i j k g b)

  module _ (x r r' : ℕ) (h : Option ℕ) (at : v x ≡ some (x, h, r, false)) where
    mapped-set_view :
        (hash id : ℕ) (ids : List ℕ)
        → lookup hash m ≡ some ids
        → In id ids
        → (k : ℕ) × (set_view v x (x, h, r', false) id ≡ some (id, some hash, k, false))
    mapped-set_view hash id ids e k =
        let (s, w) = books.mapped hash id ids e k in
        elim (ℕ_discrete x id) [
          | yes q ↦ (r', ground arith)
          | no q ↦ (s, set_view-ne v x id _ q ∙ w)
        ]

    pub Books-active : (s : ℕ) → r ≡ suc s → (b : ℕ) × (a ≡ suc b)
    Books-active s e =
        (a - 1, ground (arith, in_use-set_view x (x, h, r, false) (x, h, 0, false) at))

    -- The block stays active.
    pub Books-keep :
        (s s' : ℕ) → r ≡ suc s → r' ≡ suc s' → Books (set_view v x (x, h, r', false)) xs a n m
    Books-keep s s' p p' = record {
      null = null-set_view x r r' h h at;
      idle = λ i k. let (g, w) = books.idle i k in (g, set_view-ne v x i _ (λ q. ground arith) ∙ w);
      listed = λ i g e. books.listed i g (ground arith);
      own_id = own_id-set_view x r r' h h at;
      range = range-set_view x _ _ at;
      present = present-set_view x _;
      in_use = ground (arith, in_use-set_view x _ (x, h, r', false) at);
      count = books.count;
      mapped = mapped-set_view;
    }

    -- The block becomes free, behind its last reference.
    pub Books-release :
        (b : ℕ) → r ≡ 1 → r' ≡ 0 → a ≡ suc b → Books (set_view v x (x, h, r', false)) (x ∷ xs) b n m
    Books-release b one zer e = record {
      null = null-set_view x r r' h h at;
      idle = λ i k. elim (ℕ_discrete x i) [
        | yes q ↦ (h, ground arith)
        | no q ↦ elim k [
          | inl e ↦ absurd (q (sym e))
          | inr k' ↦ let (g, w) = books.idle i k' in (g, set_view-ne v x i _ q ∙ w)
        ]
      ];
      listed = λ i g w. elim (ℕ_discrete x i) [
        | yes q ↦ inl (sym q)
        | no q ↦ inr (books.listed i g (sym (set_view-ne v x i _ q) ∙ w))
      ];
      own_id = own_id-set_view x r r' h h at;
      range = range-set_view x _ _ at;
      present = present-set_view x _;
      in_use = ground (arith, in_use-set_view x _ (x, h, r', false) at);
      count = omega (arith, books.count);
      mapped = mapped-set_view;
    }

-- A free block becomes active.
pub Books-take :
    (v : View) (ys : List ℕ) (x : ℕ) (zs : List ℕ) (a n : ℕ) (m : Map (List ℕ)) (s : ℕ)
    (h : Option ℕ)
    → Books v (ys ++ x ∷ zs) a n m
    → Distinct (ys ++ x ∷ zs)
    → v x ≡ some (x, h, 0, false)
    → Books (set_view v x (x, h, suc s, false)) (ys ++ zs) (a + 1) n m
Books-take v ys x zs a n m s h books d at =
    let split = Distinct-IsSplit ys x zs d in
    let nx = append-NotIn x ys zs split.not_left split.not_right in
    record {
      null = null-set_view v _ a n m books x 0 (suc s) h h at;
      idle = λ i k.
          let (g, w) = books.idle i (In-add_middle i ys x zs k) in
          (g, set_view-ne v x i _ (NotIn-In x i (ys ++ zs) nx k) ∙ w);
      listed = λ i g w. elim (ℕ_discrete x i) [
        | yes q ↦ absurd (ground arith)
        | no q ↦
            In-drop_middle i ys x zs (λ e. q (sym e))
              (books.listed i g (sym (set_view-ne v x i _ q) ∙ w))
      ];
      own_id = own_id-set_view v _ a n m books x 0 (suc s) h h at;
      range = range-set_view v _ a n m books x _ _ at;
      present = present-set_view v _ a n m books x _;
      in_use = ground (arith, in_use-set_view v _ a n m books x _ (x, h, suc s, false) at);
      count = omega (arith, books.count, length-append ys (x ∷ zs), length-append ys zs);
      mapped = mapped-set_view v _ a n m books x 0 (suc s) h at;
    }

-- The order of the free blocks does not matter.
pub Books-front :
    (v : View) (ys : List ℕ) (x : ℕ) (zs : List ℕ) (a n : ℕ) (m : Map (List ℕ))
    → Books v (ys ++ x ∷ zs) a n m
    → Books v (x ∷ ys ++ zs) a n m
Books-front v ys x zs a n m books = record {
  null = books.null;
  idle = λ i k. elim k [
    | inl e ↦ books.idle i (subst (λ j. In j (ys ++ x ∷ zs)) (sym e) (In-middle ys x zs))
    | inr k' ↦ books.idle i (In-add_middle i ys x zs k')
  ];
  listed = λ i h e. elim (ℕ_discrete i x) [
    | yes q ↦ inl q
    | no q ↦ inr (In-drop_middle i ys x zs q (books.listed i h e))
  ];
  own_id = books.own_id;
  range = books.range;
  present = books.present;
  in_use = books.in_use;
  count = omega (arith, books.count, length-append ys (x ∷ zs), length-append ys zs);
  mapped = books.mapped;
}

-- The hash of a free block is dropped, and the block from the hash map.
pub Books-unhash :
    (v : View) (xs : List ℕ) (x : ℕ) (a n : ℕ) (m m' : Map (List ℕ)) (h : Option ℕ)
    → Books v xs a n m
    → v x ≡ some (x, h, 0, false)
    → ((hash id : ℕ) (ids : List ℕ)
        → lookup hash m' ≡ some ids
        → In id ids
        → (x ≢ id) × ((r : ℕ) × (v id ≡ some (id, some hash, r, false))))
    → Books (set_view v x (x, none, 0, false)) xs a n m'
Books-unhash v xs x a n m m' h books at sub = record {
  null = null-set_view v xs a n m books x 0 0 h none at;
  idle = λ i k. elim (ℕ_discrete x i) [
    | yes q ↦ (none, ground arith)
    | no q ↦ let (g, w) = books.idle i k in (g, set_view-ne v x i _ q ∙ w)
  ];
  listed = λ i g w. elim (ℕ_discrete x i) [
    | yes q ↦ subst (λ j. In j xs) q (books.listed x h at)
    | no q ↦ books.listed i g (sym (set_view-ne v x i _ q) ∙ w)
  ];
  own_id = own_id-set_view v xs a n m books x 0 0 h none at;
  range = range-set_view v xs a n m books x _ _ at;
  present = present-set_view v xs a n m books x _;
  in_use = ground (arith, in_use-set_view v xs a n m books x _ (x, none, 0, false) at);
  count = books.count;
  mapped =
      λ hash id ids e k. let (q, (r, w)) = sub hash id ids e k in (r, set_view-ne v x id _ q ∙ w);
}

-- An active block without a hash, or with this one, takes the hash, and its place in the hash map.
pub Books-hash :
    (v : View) (xs : List ℕ) (x : ℕ) (a n : ℕ) (m m' : Map (List ℕ)) (h : Option ℕ) (g s : ℕ)
    → Books v xs a n m
    → v x ≡ some (x, h, suc s, false)
    → (h ≡ none) ⊎ (h ≡ some g)
    → ((hash id : ℕ) (ids : List ℕ)
        → lookup hash m' ≡ some ids
        → In id ids
        → ((x ≡ id) × (g ≡ hash)) ⊎ ((r : ℕ) × (v id ≡ some (id, some hash, r, false))))
    → Books (set_view v x (x, some g, suc s, false)) xs a n m'
Books-hash v xs x a n m m' h g s books at fresh sub = record {
  null = null-set_view v xs a n m books x (suc s) (suc s) h (some g) at;
  idle = λ i k. let (f, w) = books.idle i k in (f, set_view-ne v x i _ (λ q. ground arith) ∙ w);
  listed = λ i f e. books.listed i f (ground arith);
  own_id = own_id-set_view v xs a n m books x (suc s) (suc s) h (some g) at;
  range = range-set_view v xs a n m books x _ _ at;
  present = present-set_view v xs a n m books x _;
  in_use = ground (arith, in_use-set_view v xs a n m books x _ (x, some g, suc s, false) at);
  count = books.count;
  mapped = λ hash id ids e k. elim (sub hash id ids e k) [
    | inl (q, t) ↦ (suc s, ground arith)
    | inr (r, w) ↦ elim (ℕ_discrete x id) [
      | yes q ↦ (suc s, ground arith)
      | no q ↦ (r, set_view-ne v x id _ q ∙ w)
    ]
  ];
}
