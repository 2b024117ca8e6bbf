-- ===== src/Scheduler/Policy/Members.antt =====
-- crates/rllm-scheduler/src/policy.rs: which requests are in the queue after an operation.
use r_llm.Shared.{
  ◌⊎◌, ◌==◌, ℕ, suc, ◌≤◌, List, [], ◌∷◌, ◌≡◌, refl, sym, ◌≢◌, inl, inr, arith, In, NotIn, Distinct,
  NotIn-In, In-dec, length, Bool-cases, map,
}
use r_llm.Scheduler.Policy.{
  QueueEntry, RequestQueue, SchedulingPolicy, fcfs, priority_order, ℤ, before, place,
  sort_by_priority, insert_entry, arrange, remove_entry, push,
}

abbrev pub ids : List QueueEntry → List ℕ
ids es = map (λ e. e.request_id) es

NotIn-insert :
    (i : ℕ) (e : QueueEntry) (es : List QueueEntry)
    → i ≢ e.request_id
    → NotIn i (ids es)
    → NotIn i (ids (insert_entry e es))
unfolding insert_entry
NotIn-insert i e [] h n = (h, tt)
NotIn-insert i e (f ∷ es) h n = ground (arith, NotIn-insert i e es h)

Distinct-insert :
    (e : QueueEntry) (es : List QueueEntry) → Distinct (ids es) → Distinct (ids (insert_entry e es))
unfolding insert_entry
Distinct-insert e [] d = (tt, tt)
Distinct-insert e (f ∷ es) d = ground (arith, Distinct-insert e es, NotIn-insert f.request_id e es)

length-insert :
    (e : QueueEntry) (es : List QueueEntry) → length (insert_entry e es) ≤ suc (length es)
unfolding insert_entry
length-insert e [] = omega arith
length-insert e (f ∷ es) = ground (arith, length-insert e es)

NotIn-place :
    (i : ℕ) (e : QueueEntry) (es : List QueueEntry)
    → i ≢ e.request_id
    → NotIn i (ids es)
    → NotIn i (ids (place e es))
unfolding place
NotIn-place i e [] h n = (h, tt)
NotIn-place i e (f ∷ es) h (a, n) = elim (Bool-cases (before f e)) [
  | inl t ↦ rw t (a, NotIn-place i e es h n)
  | inr t ↦ rw t (h, (a, n))
]

Distinct-place :
    (e : QueueEntry) (es : List QueueEntry)
    → NotIn e.request_id (ids es)
    → Distinct (ids es)
    → Distinct (ids (place e es))
unfolding place
Distinct-place e [] n d = (tt, tt)
Distinct-place e (f ∷ es) (a, n) (b, d) = elim (Bool-cases (before f e)) [
  | inl t ↦ rw t (NotIn-place f.request_id e es (λ q. a (sym q)) b, Distinct-place e es n d)
  | inr t ↦ rw t ((a, n), (b, d))
]

length-place : (e : QueueEntry) (es : List QueueEntry) → length (place e es) ≡ suc (length es)
unfolding place
length-place e [] = refl
length-place e (f ∷ es) = ground (arith, length-place e es)

NotIn-sort : (i : ℕ) (es : List QueueEntry) → NotIn i (ids es) → NotIn i (ids (sort_by_priority es))
unfolding sort_by_priority
NotIn-sort i [] n = tt
NotIn-sort i (e ∷ es) (a, n) = NotIn-place i e (sort_by_priority es) a (NotIn-sort i es n)

Distinct-sort : (es : List QueueEntry) → Distinct (ids es) → Distinct (ids (sort_by_priority es))
unfolding sort_by_priority
Distinct-sort [] d = tt
Distinct-sort (e ∷ es) (a, d) =
    Distinct-place e (sort_by_priority es) (NotIn-sort e.request_id es a) (Distinct-sort es d)

length-sort : (es : List QueueEntry) → length (sort_by_priority es) ≡ length es
unfolding sort_by_priority
length-sort [] = refl
length-sort (e ∷ es) = omega (arith, length-place e (sort_by_priority es), length-sort es)

NotIn-arrange :
    (p : SchedulingPolicy) (i : ℕ) (es : List QueueEntry)
    → NotIn i (ids es)
    → NotIn i (ids (arrange p es))
unfolding arrange
NotIn-arrange fcfs i es n = n
NotIn-arrange priority_order i es n = NotIn-sort i es n

Distinct-arrange :
    (p : SchedulingPolicy) (es : List QueueEntry)
    → Distinct (ids es)
    → Distinct (ids (arrange p es))
unfolding arrange
Distinct-arrange fcfs es d = d
Distinct-arrange priority_order es d = Distinct-sort es d

length-arrange : (p : SchedulingPolicy) (es : List QueueEntry) → length (arrange p es) ≡ length es
unfolding arrange
length-arrange fcfs es = refl
length-arrange priority_order es = length-sort es

module _ (q : RequestQueue) (id : ℕ) (priority : ℤ) (arrival : ℕ) where
  pub push-NotIn :
      (i : ℕ)
      → i ≢ id
      → NotIn i (ids q.entries)
      → NotIn i (ids (push q id priority arrival).entries)
  unfolding push
  push-NotIn i h n = NotIn-arrange q.policy i _ (NotIn-insert i _ q.entries h n)

  pub push-Distinct : Distinct (ids q.entries) → Distinct (ids (push q id priority arrival).entries)
  unfolding push
  push-Distinct d = Distinct-arrange q.policy _ (Distinct-insert _ q.entries d)

  pub length-push : length (push q id priority arrival).entries ≤ suc (length q.entries)
  unfolding push
  length-push = omega (arith, length-arrange q.policy _, length-insert _ q.entries)

pub NotIn-remove :
    (i id : ℕ) (es : List QueueEntry) → NotIn i (ids es) → NotIn i (ids (remove_entry id es))
unfolding remove_entry
NotIn-remove i id [] n = tt
NotIn-remove i id (f ∷ es) n = ground (arith, NotIn-remove i id es)

pub In-remove : (i id : ℕ) (es : List QueueEntry) → In i (ids (remove_entry id es)) → In i (ids es)
In-remove i id es h = elim (In-dec i (ids es)) [
  | inl k ↦ k
  | inr n ↦ absurd (NotIn-In i i (ids (remove_entry id es)) (NotIn-remove i id es n) h refl)
]

pub Distinct-remove :
    (id : ℕ) (es : List QueueEntry) → Distinct (ids es) → Distinct (ids (remove_entry id es))
unfolding remove_entry
Distinct-remove id [] d = tt
Distinct-remove id (f ∷ es) d =
    ground (arith, Distinct-remove id es, NotIn-remove f.request_id id es)

pub NotIn-remove_self :
    (id : ℕ) (es : List QueueEntry) → Distinct (ids es) → NotIn id (ids (remove_entry id es))
unfolding remove_entry
NotIn-remove_self id [] d = tt
NotIn-remove_self id (f ∷ es) d = ground (arith, NotIn-remove_self id es)

pub length-remove :
    (id : ℕ) (es : List QueueEntry) → In id (ids es) → length es ≡ suc (length (remove_entry id es))
unfolding remove_entry
length-remove id [] k = absurd k
length-remove id (f ∷ es) k = ground (arith, length-remove id es, k)

pub length-remove_le : (id : ℕ) (es : List QueueEntry) → length (remove_entry id es) ≤ length es
unfolding remove_entry
length-remove_le id [] = omega arith
length-remove_le id (f ∷ es) = ground (arith, length-remove_le id es)

pub length-ids : (es : List QueueEntry) → length (ids es) ≡ length es
length-ids [] = refl
length-ids (e ∷ es) = omega (arith, length-ids es)

In-insert : (e : QueueEntry) (es : List QueueEntry) → In e.request_id (ids (insert_entry e es))
unfolding insert_entry
In-insert e [] = inl refl
In-insert e (f ∷ es) = elim (Bool-cases (f.request_id == e.request_id)) [
  | inl t ↦ rw t (inl refl)
  | inr t ↦ rw t (inr (In-insert e es))
]

In-place :
    (i : ℕ) (e : QueueEntry) (es : List QueueEntry)
    → (i ≡ e.request_id) ⊎ In i (ids es)
    → In i (ids (place e es))
unfolding place
In-place i e [] h = h
In-place i e (f ∷ es) h = elim (Bool-cases (before f e)) [
  | inl t ↦ rw t (elim h [
    | inl q ↦ inr (In-place i e es (inl q))
    | inr (inl q) ↦ inl q
    | inr (inr g) ↦ inr (In-place i e es (inr g))
  ])
  | inr t ↦ rw t h
]

In-sort : (i : ℕ) (es : List QueueEntry) → In i (ids es) → In i (ids (sort_by_priority es))
unfolding sort_by_priority
In-sort i [] h = h
In-sort i (e ∷ es) (inl q) = In-place i e (sort_by_priority es) (inl q)
In-sort i (e ∷ es) (inr g) = In-place i e (sort_by_priority es) (inr (In-sort i es g))

In-arrange :
    (p : SchedulingPolicy) (i : ℕ) (es : List QueueEntry)
    → In i (ids es)
    → In i (ids (arrange p es))
unfolding arrange
In-arrange fcfs i es h = h
In-arrange priority_order i es h = In-sort i es h

-- A request that is pushed waits.
pub push-In :
    (q : RequestQueue) (id : ℕ) (priority : ℤ) (arrival : ℕ)
    → In id (ids (push q id priority arrival).entries)
unfolding push
push-In q id priority arrival = In-arrange q.policy id _ (In-insert _ q.entries)
