-- ===== src/Cache/Manager/Batch.antt =====
-- crates/rllm-cache/src/manager.rs, the loops of `allocate_slots` and `free` over the pool.
use mathlib.Core.List.{append-nil, append_assoc}
use native.Mathlib.Decide.{dec_le}
use r_llm.Shared.{
  ℕ, zero, suc, ◌+◌, ◌<◌, ◌≤◌, false, Option, none, some, List, [], ◌∷◌, ◌++◌, ◌≡◌, refl, sym, ◌∙◌,
  ap, ◌⊎◌, inl, inr, arith, In, NotIn, Distinct, length, length-append, append-Distinct, NotIn-In,
  In-append, In-append_left, In-append_right, In-add_middle, append-NotIn, In-dec, In-middle, subst,
  ℕ_discrete,
}
use r_llm.Cache.BlockPool.{BlockPool, allocate}
use r_llm.Cache.BlockPool.View.{View, view, set_view, set_view-ne}
use r_llm.Cache.BlockPool.Invariant.{IsPool}
use r_llm.Cache.BlockPool.Allocate.{allocate-Allocates}
use r_llm.Cache.BlockPool.Release.{free_last}
use r_llm.Cache.BlockPool.Reset.{unhashed}
use r_llm.Cache.Manager.{free_all, allocate_all}

-- The blocks `ids` each have one reference and no hash.
abbrev pub Claimed : View → List ℕ → Type 0
Claimed v ids = (i : ℕ) → In i ids → v i ≡ some (i, none, 1, false)

-- Two views agree outside `ids`, but for hashes.
abbrev pub SameOutside : View → View → List ℕ → Type 0
SameOutside v w ids = (i : ℕ) → NotIn i ids → w i ≡ v i

-- Giving back blocks that each have one reference.
free_all-Claimed :
    (ids : List ℕ) (p : BlockPool) (xs : List ℕ)
    → IsPool p xs
    → Distinct ids
    → Claimed (view p.blocks) ids
    → (p' : BlockPool) × (xs' : List ℕ) × (free_all ids p ≡ some p')
      × IsPool p' xs'
      × (length xs' ≡ length ids + length xs)
      × (p'.num_active_blocks + length ids ≡ p.num_active_blocks)
      × (p'.num_blocks ≡ p.num_blocks)
      × SameOutside (view p.blocks) (view p'.blocks) ids
      × ((i : ℕ) → In i ids → view p'.blocks i ≡ some (i, none, 0, false))
unfolding free_all
free_all-Claimed [] p xs h d c =
    (p, xs, refl, h, omega arith, omega arith, refl, (λ i n. refl), λ i k. absurd k)
free_all-Claimed (x ∷ ids) p xs h (nx, d) c =
    let (p₁, e₁, r₁, a₁) = free_last p xs h x none (c x (inl refl)) in
    let still : Claimed (view p₁.blocks) ids = λ i k.
      ap (λ u. u i) r₁.blocks
      ∙ set_view-ne (view p.blocks) x i _ (NotIn-In x i ids nx k)
      ∙ c i (inr k) in
    let (p₂, xs₂, e₂, h₂, l₂, a₂, n₂, out₂, in₂) =
      free_all-Claimed ids p₁ (x ∷ xs) r₁.valid d still in
    (
      p₂,
      xs₂,
      rw e₁ e₂,
      h₂,
      omega (arith, l₂),
      omega (arith, a₁, a₂),
      n₂ ∙ r₁.num_blocks,
      (λ i n.
          out₂ i n.1
          ∙ ap (λ u. u i) r₁.blocks
          ∙ set_view-ne (view p.blocks) x i _ (λ q. n.0 (sym q))),
      λ i k. elim k [
        | inl q ↦
            out₂ i (subst (λ j. NotIn j ids) (sym q) nx) ∙ ap (λ u. u i) r₁.blocks ∙ (ground arith)
        | inr k' ↦ in₂ i k'
      ],
    )

-- One more block: what holds of the blocks got so far.
record Grows (p : BlockPool) (xs got : List ℕ) (x : ℕ) (p' : BlockPool) (xs' : List ℕ)
    : Type 0 where
  found : allocate p ≡ some (some x, p')
  valid : IsPool p' xs'
  was_free : (h : Option ℕ) × (view p.blocks x ≡ some (x, h, 0, false))
  member : In x xs
  fewer : (i : ℕ) → In i xs' → In i xs
  shorter : length xs ≡ suc (length xs')
  blocks : view p'.blocks ≡ set_view (view p.blocks) x (x, none, 1, false)
  num_active : p'.num_active_blocks ≡ p.num_active_blocks + 1
  num_blocks : p'.num_blocks ≡ p.num_blocks
  not_got : NotIn x got
  distinct : Distinct (got ++ x ∷ [])
  claimed : Claimed (view p'.blocks) (got ++ x ∷ [])

grow :
    (p : BlockPool) (xs got : List ℕ)
    → IsPool p xs
    → Distinct got
    → Claimed (view p.blocks) got
    → ((xs ≡ []) × (allocate p ≡ some (none, p)))
      ⊎ ((x : ℕ) × (p' : BlockPool) × (xs' : List ℕ) × Grows p xs got x p' xs')
grow p xs got h d c = elim (allocate-Allocates p xs h) [
  | inl e ↦ inl e
  | inr (ys, x, zs, p', split, e, hands, _) ↦
      let there = subst (λ l. In x l) (sym split) (In-middle ys x zs) in
      let (g, free) = h.books.idle x there in
      let new : NotIn x got = elim (In-dec x got) [
        | inl k ↦ absurd (ground (arith, c x k))
        | inr k ↦ k
      ] in
      inr (
        x,
        p',
        ys ++ zs,
        record {
          found = e;
          valid = hands.valid;
          was_free = (g, free);
          member = there;
          fewer = λ i k. subst (λ l. In i l) (sym split) (In-add_middle i ys x zs k);
          shorter = omega (arith, ap length split, length-append ys (x ∷ zs), length-append ys zs);
          blocks = hands.blocks;
          num_active = hands.num_active;
          num_blocks = hands.num_blocks;
          not_got = new;
          distinct = append-Distinct got x d new;
          claimed = λ i k. elim (In-append i got (x ∷ []) k) [
            | inl old ↦
                ap (λ u. u i) hands.blocks
                ∙ set_view-ne (view p.blocks) x i _ (NotIn-In x i got new old)
                ∙ c i old
            | inr (inl q) ↦ ap (λ u. u i) hands.blocks ∙ (ground arith)
            | inr (inr bad) ↦ absurd bad
          ];
        },
      )
]

-- What the loop does with enough free blocks: it adds `left` of them to those got.
abbrev pub Batch : BlockPool → List ℕ → List ℕ → ℕ → Type 0
Batch p xs got left =
    (ids : List ℕ) × (p' : BlockPool) × (xs' : List ℕ) × (allocate_all left got p
      ≡ some (some (got ++ ids), p'))
    × (length ids ≡ left)
    × IsPool p' xs'
    × (length xs ≡ left + length xs')
    × Distinct (got ++ ids)
    × Claimed (view p'.blocks) (got ++ ids)
    × (p'.num_active_blocks ≡ p.num_active_blocks + left)
    × SameOutside (view p.blocks) (view p'.blocks) ids
    × ((i : ℕ) → In i ids → In i xs)

allocate_all-Batch :
    (left : ℕ) (got : List ℕ) (p : BlockPool) (xs : List ℕ)
    → IsPool p xs
    → Distinct got
    → Claimed (view p.blocks) got
    → left ≤ length xs
    → Batch p xs got left
unfolding allocate_all
allocate_all-Batch zero got p xs h d c enough = (
  [],
  p,
  xs,
  rw (append-nil got) refl,
  refl,
  h,
  omega arith,
  rw (append-nil got) d,
  rw (append-nil got) c,
  omega arith,
  (λ i n. refl),
  λ i k. absurd k,
)
allocate_all-Batch (suc left) got p xs h d c enough = elim (grow p xs got h d c) [
  | inl (empty, _) ↦ absurd (omega (arith, ap length empty))
  | inr (x, p₁, xs₁, g) ↦
      let (ids, p₂, xs₂, e, len, valid, total, distinct, claimed, active, out, from) =
        allocate_all-Batch left (got ++ x ∷ []) p₁ xs₁ g.valid g.distinct g.claimed
          (omega (arith, g.shorter)) in
      let assoc : (got ++ x ∷ []) ++ ids ≡ got ++ x ∷ ids = append_assoc got (x ∷ []) ids in
      (
        x ∷ ids,
        p₂,
        xs₂,
        rw (g.found, ← assoc) e,
        ap suc len,
        valid,
        omega (arith, total, g.shorter),
        rw (← assoc) distinct,
        rw (← assoc) claimed,
        omega (arith, active, g.num_active),
        (λ i n.
            out i n.1
            ∙ ap (λ u. u i) g.blocks
            ∙ set_view-ne (view p.blocks) x i _ (λ q. n.0 (sym q))),
        λ i k. elim k [
          | inl q ↦ subst (λ j. In j xs) (sym q) g.member
          | inr k' ↦ g.fewer i (from i k')
        ],
      )
]

-- What it does with too few: all that was got goes back, and only hashes are lost.
abbrev Rollback : BlockPool → List ℕ → List ℕ → ℕ → Type 0
Rollback p xs got left =
    (p' : BlockPool) × (xs' : List ℕ) × (allocate_all left got p ≡ some (none, p'))
    × IsPool p' xs'
    × (length xs' ≡ length got + length xs)
    × (p'.num_active_blocks + length got ≡ p.num_active_blocks)
    × (p'.num_blocks ≡ p.num_blocks)
    × ((i : ℕ) → NotIn i got → unhashed (view p'.blocks i) ≡ unhashed (view p.blocks i))
    × ((i : ℕ) → In i got → view p'.blocks i ≡ some (i, none, 0, false))

allocate_all-Rollback :
    (left : ℕ) (got : List ℕ) (p : BlockPool) (xs : List ℕ)
    → IsPool p xs
    → Distinct got
    → Claimed (view p.blocks) got
    → length xs < left
    → Rollback p xs got left
unfolding allocate_all
allocate_all-Rollback zero got p xs h d c few = elim few [ ]
allocate_all-Rollback (suc left) got p xs h d c few = elim (grow p xs got h d c) [
  | inl (empty, e) ↦
      let (p', xs', f, valid, len, active, total, out, back) = free_all-Claimed got p xs h d c in
      (p', xs', rw (e, f) refl, valid, len, active, total, (λ i n. ap unhashed (out i n)), back)
  | inr (x, p₁, xs₁, g) ↦
      let (p₂, xs₂, e, valid, len, active, total, out, back) =
        allocate_all-Rollback left (got ++ x ∷ []) p₁ xs₁ g.valid g.distinct g.claimed
          (omega (arith, g.shorter)) in
      (
        p₂,
        xs₂,
        rw g.found e,
        valid,
        omega (arith, len, g.shorter, length-append got (x ∷ [])),
        omega (arith, active, g.num_active, length-append got (x ∷ [])),
        total ∙ g.num_blocks,
        (λ i n. elim (ℕ_discrete i x) [
          | yes q ↦
              ap unhashed (back i (In-append_right i got (x ∷ []) (inl q)))
              ∙ sym (
                  let (h₀, f) = g.was_free in
                  ap (λ j. unhashed (view p.blocks j)) q
                  ∙ ap unhashed f
                  ∙ (λ k. some (sym q k, none, 0, false)))
          | no q ↦
              out i (append-NotIn i got (x ∷ []) n (q, tt))
              ∙ ap unhashed
                  (ap (λ u. u i) g.blocks ∙ set_view-ne (view p.blocks) x i _ (λ r. q (sym r)))
        ]),
        λ i k. back i (In-append_left i got (x ∷ []) k),
      )
]

-- `allocate_all` from no blocks.
pub allocate_all-cases :
    (n : ℕ) (p : BlockPool) (xs : List ℕ)
    → IsPool p xs
    → ((n ≤ length xs) × Batch p xs [] n) ⊎ ((length xs < n) × Rollback p xs [] n)
allocate_all-cases n p xs h = elim (dec_le n (length xs)) [
  | yes k ↦ inl (k, allocate_all-Batch n [] p xs h tt (λ i m. absurd m) k)
  | no k ↦
      let few : length xs < n = omega arith in
      inr (few, allocate_all-Rollback n [] p xs h tt (λ i m. absurd m) few)
]
