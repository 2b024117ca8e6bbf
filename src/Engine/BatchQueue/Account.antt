-- ===== src/Engine/BatchQueue/Account.antt =====
-- crates/rllm-engine/src/batch_queue.rs: `enqueue_all`, `drain` and `remove`, and the counters.
use mathlib.Core.List.{append-nil, append_assoc}
use r_llm.Shared.{
  ℕ, suc, ◌<◌, ◌+◌, ◌-◌, ◌%◌, ◌^◌, min, true, false, none, some, List, [], ◌∷◌, ◌++◌, ◌≡◌, refl,
  sym, ◌∙◌, ap, ◌⊎◌, inl, inr, arith, length, length-append, length-take, length-drop, take,
  take-append-drop, is_empty, leb, Bool-cases, All, ◌≢◌, ℕ_discrete,
}
use r_llm.Engine.BatchQueue.{
  BatchQueue, BatchingStrategy, immediate, fixed_size, timeout, add_u64, batch_size, enqueue,
  enqueue_from, enqueue_all, drain, remove_first, remove,
}

empty-length {ℓ} : {A : Type ℓ} (xs : List A) → is_empty xs ≡ true → xs ≡ []
empty-length [] e = refl
empty-length (x ∷ xs) e = cc

is_empty-positive {ℓ} : {A : Type ℓ} (xs : List A) → is_empty xs ≡ false → 0 < length xs
is_empty-positive [] e = cc
is_empty-positive (x ∷ xs) e = omega arith

-- The most that a strategy takes at once.
abbrev pub quota : BatchingStrategy → ℕ
quota immediate = 1
quota (fixed_size n) = n
quota (timeout max_batch_size max_latency) = max_batch_size

batch_size-quota : (s : BatchingStrategy) (n : ℕ) → 0 < n → min (batch_size s n) n ≡ min (quota s) n
unfolding batch_size
batch_size-quota immediate n h = omega arith
batch_size-quota (fixed_size k) n h = omega arith
batch_size-quota (timeout k latency) n h = omega arith

module _ {ℓ} {R : Type ℓ} where
  -- The counters account for the pending requests, up to the wrapping of a `u64`.
  abbrev pub IsBalanced : BatchQueue R → Type 0
  IsBalanced q = q.total_enqueued ≡ (q.total_drained + length q.pending) % 2 ^ 64

  enqueue-full :
      (q : BatchQueue R) (r : R)
      → leb q.max_capacity (length q.pending) ≡ true
      → enqueue q r ≡ (false, q)
  unfolding enqueue
  enqueue-full q r t = rw t refl

  enqueue-room :
      (q : BatchQueue R) (r : R)
      → leb q.max_capacity (length q.pending) ≡ false
      → enqueue q r ≡ (
        true,
        record q { total_enqueued = add_u64 q.total_enqueued 1; pending = q.pending ++ r ∷ [] },
      )
  unfolding enqueue
  enqueue-room q r t = rw t refl

  -- What a run of `enqueue_all` leaves: the first `k` requests at the end of the queue.
  abbrev pub Enqueues : BatchQueue R → List R → ℕ → ℕ × BatchQueue R → Type ℓ
  Enqueues q rs added res =
      (k : ℕ) × (res.0 ≡ added + k)
      × (res.1.pending ≡ q.pending ++ take k rs)
      × (k ≡ min (length rs) (q.max_capacity - length q.pending))
      × (res.1.max_capacity ≡ q.max_capacity)
      × IsBalanced res.1

  enqueue_from-Enqueues :
      (rs : List R) (q : BatchQueue R) (added : ℕ)
      → IsBalanced q
      → Enqueues q rs added (enqueue_from q rs added)
  unfolding enqueue_from
  enqueue_from-Enqueues [] q added h =
      (0, omega arith, sym (append-nil q.pending), omega arith, refl, h)
  enqueue_from-Enqueues (r ∷ rs) q added h =
      elim (Bool-cases (leb q.max_capacity (length q.pending))) [
        | inl t ↦
            rw (enqueue-full q r t)
              (0, omega arith, sym (append-nil q.pending), ground arith, refl, h)
        | inr t ↦
            let q' : BatchQueue R = record q {
              total_enqueued = add_u64 q.total_enqueued 1;
              pending = q.pending ++ r ∷ [];
            } in
            let e = length-append q.pending (r ∷ []) in
            let (k, n, p, m, c, b) =
              enqueue_from-Enqueues rs q' (added + 1) (omega (arith, h, e)) in
            rw (enqueue-room q r t) (
              suc k,
              omega (arith, n),
              p ∙ append_assoc q.pending (r ∷ []) (take k rs),
              ground (arith, m, e),
              c,
              b,
            )
      ]

  -- If the counters are balanced, `enqueue_all` adds the first requests in their order, as many
  -- as there is room for, answers how many, and leaves the counters balanced and the capacity as
  -- it is.
  pub enqueue_all-Enqueues :
      (q : BatchQueue R) (rs : List R)
      → (balanced : IsBalanced q) → Enqueues q rs 0 (enqueue_all q rs)
  unfolding enqueue_all
  enqueue_all-Enqueues q rs balanced = enqueue_from-Enqueues rs q 0 balanced

  -- If the counters are balanced, `drain` takes requests from the front: one with the strategy
  -- `immediate`, else as many as the fixed size or the largest batch of the strategy, or all if
  -- there are fewer. It leaves the others in their order, the counters balanced, and the number
  -- of enqueued requests, the capacity and the strategy as they are.
  pub drain-front :
      (q : BatchQueue R)
      → (balanced : IsBalanced q)
      → ((drain q).0 ++ (drain q).1.pending ≡ q.pending)
        × (length (drain q).0 ≡ min (quota q.strategy) (length q.pending))
        × IsBalanced (drain q).1
        × ((drain q).1.total_enqueued ≡ q.total_enqueued)
        × ((drain q).1.max_capacity ≡ q.max_capacity)
        × ((drain q).1.strategy ≡ q.strategy)
  unfolding drain
  drain-front q balanced = elim (Bool-cases (is_empty q.pending)) [
    | inl t ↦
        let e : q.pending ≡ [] = empty-length q.pending t in
        rw t (refl, omega (arith, ap length e), balanced, refl, refl, refl)
    | inr t ↦
        let n = batch_size q.strategy (length q.pending) in
        rw t (
          take-append-drop n q.pending,
          length-take n q.pending
              ∙ batch_size-quota q.strategy (length q.pending) (is_empty-positive q.pending t),
          omega (arith, balanced, length-take n q.pending, length-drop n q.pending),
          refl,
          refl,
          refl,
        )
  ]

  remove_first-splits :
      (id_of : R → ℕ) (id : ℕ) (rs : List R)
      → ((remove_first id_of id rs ≡ none) × All (λ r. id_of r ≢ id) rs)
        ⊎ ((ys : List R) × (r : R) × (zs : List R) × (rs ≡ ys ++ r ∷ zs)
            × (remove_first id_of id rs ≡ some (r, ys ++ zs))
            × (id_of r ≡ id)
            × All (λ s. id_of s ≢ id) ys)
  unfolding remove_first
  remove_first-splits id_of id [] = inl (refl, tt)
  remove_first-splits id_of id (r ∷ rs) = elim (ℕ_discrete (id_of r) id) [
    | yes q ↦ inr ([], r, rs, refl, ground arith, q, tt)
    | no q ↦ elim (remove_first-splits id_of id rs) [
      | inl (e, all) ↦ inl (ground arith, (q, all))
      | inr (ys, s, zs, split, e, hit, all) ↦
          inr (r ∷ ys, s, zs, ap (◌∷◌ r) split, ground arith, hit, (q, all))
    ]
  ]

  -- What `remove` does: nothing if no request has the id; else it answers the first one of the id.
  abbrev pub Removes : (R → ℕ) → BatchQueue R → ℕ → Type ℓ
  Removes id_of q id =
      ((remove id_of q id ≡ (none, q)) × All (λ r. id_of r ≢ id) q.pending)
      ⊎ ((ys : List R) × (r : R) × (zs : List R) × (q.pending ≡ ys ++ r ∷ zs)
          × (remove id_of q id ≡ (
            some r,
            record q { pending = ys ++ zs; total_drained = (q.total_drained + 1) % 2 ^ 64 },
          ))
          × (id_of r ≡ id)
          × All (λ s. id_of s ≢ id) ys)

  -- If the counters are balanced, `remove` answers nothing and changes nothing when no request
  -- has the id. Otherwise it answers the first request of the id and leaves the others in their
  -- order, counts one more drained request modulo 2^64 and changes nothing else. The counters
  -- stay balanced.
  pub remove-Removes :
      (id_of : R → ℕ) (q : BatchQueue R) (id : ℕ)
      → (balanced : IsBalanced q) → Removes id_of q id × IsBalanced (remove id_of q id).1
  unfolding remove
  remove-Removes id_of q id balanced = elim (remove_first-splits id_of id q.pending) [
    | inl (e, all) ↦ rw (e, remove) (inl (refl, all), balanced)
    | inr (ys, r, zs, split, e, hit, all) ↦
        rw (e, remove)
          (
            inr (ys, r, zs, split, refl, hit, all),
            omega
                (arith, balanced, ap length split, length-append ys (r ∷ zs), length-append ys zs),
          )
  ]
