-- ===== src/Scheduler/KvManager/Blocks.antt =====
-- crates/rllm-cache/src/manager.rs, `allocate_slots`, as the scheduler relies on it.
use r_llm.Shared.{
  ℕ, ◌+◌, ◌-◌, ◌*◌, ◌≤◌, ◌<◌, Bool, true, false, Option, none, some, List, ◌≡◌, refl, sym, ◌∙◌, ap,
  ◌≢◌, ◌⊎◌, inl, inr, arith, In, In-append, In-dec, Distinct, length, length-append, lookup, subst,
  ℕ_discrete,
}
use r_llm.Cache.BlockPool.{BlockPool, ids_of}
use r_llm.Cache.BlockPool.View.{Payload, view}
use r_llm.Cache.BlockPool.Reset.{unhashed}
use r_llm.Cache.Prefix.{Digests}
use r_llm.Cache.Manager.{KvCacheManager}
use r_llm.Cache.Manager.Batch.{Claimed, SameOutside}
use r_llm.Cache.Manager.Slots.{TableGrows, Granted, Refused, allocate_slots-outcome}
use r_llm.Cache.Manager.Counts.{IsBlock}
use r_llm.Scheduler.KvManager.{kv_manager, Valid, entry, held, Ready, Cacheable}

unhashed-some :
    (o : Option Payload) (w : Payload)
    → unhashed o ≡ some w
    → (i : ℕ) × (h : Option ℕ) × (r : ℕ) × (n : Bool) × (o ≡ some (i, h, r, n))
      × (w ≡ (i, none, r, n))
unhashed-some none w e = absurd (ground (arith, e))
unhashed-some (some (i, h, r, n)) w e = (i, h, r, n, refl, ground (arith, e))

module _ (d : Digests) (block_size : ℕ) (positive : 0 < block_size) (k : ℕ) (m : KvCacheManager)
    (id total computed : ℕ) (valid : Valid block_size k m) where
  -- What the scheduler gets: all the blocks that the tokens need, or none.
  abbrev pub Allocated : Type 0
  Allocated =
      (granted : Bool) × (m' : KvCacheManager) × ((kv_manager d).allocate_slots m id total computed
        ≡ some (granted, m'))
      × Valid block_size k m'
      × ((j : ℕ) → id ≢ j → entry m' j ≡ entry m j)
      × (((granted ≡ false) × (entry m' id ≡ entry m id))
          ⊎ ((granted ≡ true)
              × (total - computed + held (entry m id) * block_size
                  ≤ held (entry m' id) * block_size)
              × (Ready block_size (entry m id) → Cacheable block_size m' id)))

  xs : List ℕ
  xs = valid.fits.free_blocks

  -- A refusal loses some hashes at most.
  same_blocks :
      (pool : BlockPool)
      → ((i : ℕ) → unhashed (view pool.blocks i) ≡ unhashed (view m.block_pool.blocks i))
      → (i : ℕ) → IsBlock m.block_pool i
      → IsBlock pool i
  same_blocks pool same i ((j, h, r, n), e) =
      let (j', h', r', n', e', _) =
        unhashed-some (view pool.blocks i) (j, none, r, n) (same i ∙ ap unhashed e) in
      (_, e')

  same_counts :
      (pool : BlockPool)
      → ((i : ℕ) → unhashed (view pool.blocks i) ≡ unhashed (view m.block_pool.blocks i))
      → (i j r : ℕ) (h : Option ℕ) (n : Bool) → view pool.blocks i ≡ some (j, h, r, n)
      → r + k ≤ 4294967294
  same_counts pool same i j r h n e =
      let (j', h', r', n', e', w) =
        unhashed-some (view m.block_pool.blocks i) (j, none, r, n) (sym (same i) ∙ ap unhashed e) in
      let count : r ≡ r' = ap (λ u. u.2) w in
      omega (arith, valid.fits.counts i j' r' h' n' e', count)

  refused : Refused m xs id total computed → Allocated
  unfolding kv_manager xs
  refused (pool, xs', e, ok, len, active, same) = (
    false,
    record m { block_pool = pool },
    rw e refl,
    record {
      fits = record {
        free_blocks = xs';
        valid = ok;
        counts = same_counts pool same;
        room = valid.fits.room;
      };
      size = valid.size;
      tables = λ j i g. same_blocks pool same i (valid.tables j i g);
    },
    (λ j n. refl),
    inl (refl, refl),
  )

  module _ (ids : List ℕ) (m' : KvCacheManager) (claimed : Claimed (view m'.block_pool.blocks) ids)
      (out : SameOutside (view m.block_pool.blocks) (view m'.block_pool.blocks) ids)
      (grows : TableGrows m id ids m') where
    granted-IsBlock : (i : ℕ) → IsBlock m.block_pool i → IsBlock m'.block_pool i
    granted-IsBlock i (w, e) = elim (In-dec i ids) [
      | inl g ↦ (_, claimed i g)
      | inr n ↦ (w, out i n ∙ e)
    ]

    granted-counts :
        (i j r : ℕ) (h : Option ℕ) (n : Bool)
        → view m'.block_pool.blocks i ≡ some (j, h, r, n)
        → r + k ≤ 4294967294
    granted-counts i j r h n e = elim (In-dec i ids) [
      | inl g ↦
          let one : r ≡ 1 = ground (arith, claimed i g, e) in omega (arith, one, valid.fits.room)
      | inr away ↦ valid.fits.counts i j r h n (sym (out i away) ∙ e)
    ]

    granted-tables :
        (j i : ℕ) → In i (ids_of (lookup j m'.request_blocks)) → IsBlock m'.block_pool i
    granted-tables j i g = elim (ℕ_discrete id j) [
      | yes q ↦
          let g' = subst (λ x. In i (ids_of (lookup x m'.request_blocks))) (sym q) g in
          elim (In-append i (ids_of (lookup id m.request_blocks)) ids (subst (In i) grows.0 g')) [
            | inl old ↦ granted-IsBlock i (valid.tables id i old)
            | inr new ↦ (_, claimed i new)
          ]
      | no n ↦ granted-IsBlock i (valid.tables j i (subst (λ o. In i (ids_of o)) (grows.1 j n) g))
    ]

    granted-entry : (j : ℕ) → id ≢ j → entry m' j ≡ entry m j
    granted-entry j n = rw (grows.1 j n, grows.2, grows.3) refl

    granted-held : held (entry m' id) ≡ held (entry m id) + length ids
    granted-held = ap length grows.0 ∙ length-append (ids_of (lookup id m.request_blocks)) ids

    granted-Cacheable : Distinct ids → Ready block_size (entry m id) → Cacheable block_size m' id
    granted-Cacheable distinct (inl e) = inl (rw grows.3 e)
    granted-Cacheable distinct (inr few) =
        inr (ids_of (lookup id m.request_blocks), ids, grows.0, rw grows.2 few, distinct, claimed)

  granted : Granted m xs id total computed → Allocated
  unfolding kv_manager xs
  granted (ids, m', xs', e, len, enough, least, ok, count, distinct, claimed, out, from, grows) =
      let more : total - computed ≤ length ids * block_size =
        subst (λ b. total - computed ≤ length ids * b) valid.size enough in
      let now = granted-held ids m' claimed out grows in
      (
        true,
        m',
        rw e refl,
        record {
          fits = record {
            free_blocks = xs';
            valid = ok;
            counts = granted-counts ids m' claimed out grows;
            room = valid.fits.room;
          };
          size = grows.4 ∙ valid.size;
          tables = granted-tables ids m' claimed out grows;
        },
        granted-entry ids m' claimed out grows,
        inr (
          refl,
          subst (λ n. total - computed + held (entry m id) * block_size ≤ n * block_size) (sym now)
              (omega (arith, more)),
          granted-Cacheable ids m' claimed out grows distinct,
        ),
      )

  pub allocate_slots-Allocated : Allocated
  unfolding xs
  allocate_slots-Allocated =
      let same_size : 0 < m.block_size = subst (λ b. 0 < b) (sym valid.size) positive in
      elim (allocate_slots-outcome m xs valid.fits.valid id total computed same_size) [
        | inl (_, g) ↦ granted g
        | inr (_, g) ↦ refused g
      ]
