-- ===== src/Scheduler/Policy/Order.antt =====
-- crates/rllm-scheduler/src/policy.rs: `push`, `pop` and `pop_request`, and the order of the
-- priority policy.
use mathlib.Core.List.{Perm}
use mathlib.Core.List.Perm
use r_llm.Shared.{
  ℕ, ◌<◌, ◌≤◌, true, false, Option, some, List, [], ◌∷◌, ◌++◌, ◌≡◌, ◌≢◌, refl, sym, ap, ◌∙◌, arith,
  All, Bool-cases, ◌⊎◌, inl, inr, ◌==◌, subst, ℕ_discrete,
}
use r_llm.Scheduler.Policy.{
  ℤ, pos, negsuc, lt_int, SchedulingPolicy, QueueEntry, RequestQueue, fcfs, priority_order, before,
  place, sort_by_priority, insert_entry, arrange, remove_entry, push, pop, pop_request,
}

-- `a < b`.
abbrev pub IsLess : ℤ → ℤ → Type 0
IsLess (pos a) (pos b) = a < b
IsLess (pos a) (negsuc b) = ⊥
IsLess (negsuc a) (pos b) = Unit
IsLess (negsuc a) (negsuc b) = b < a

-- `a` may stand before `b`: its priority is the higher one, or the two are equal and it did not
-- arrive later.
abbrev pub MayPrecede : QueueEntry → QueueEntry → Type 0
MayPrecede a b =
    IsLess b.priority a.priority ⊎ ((a.priority ≡ b.priority) × (a.arrival_time ≤ b.arrival_time))

abbrev pub PrecedesAll : QueueEntry → List QueueEntry → Type 0
PrecedesAll e = All (MayPrecede e)

abbrev pub IsSorted : List QueueEntry → Type 0
IsSorted [] = Unit {0}
IsSorted (e ∷ es) = PrecedesAll e es × IsSorted es

lt_int-IsLess : (a b : ℤ) → lt_int a b ≡ true → IsLess a b
lt_int-IsLess (pos a) (pos b) h = ground (arith, h)
lt_int-IsLess (pos a) (negsuc b) h = ground (arith, h)
lt_int-IsLess (negsuc a) (pos b) h = tt
lt_int-IsLess (negsuc a) (negsuc b) h = ground (arith, h)

not_less-eq : (a b : ℤ) → lt_int a b ≡ false → lt_int b a ≡ false → a ≡ b
not_less-eq (pos a) (pos b) h k = let e : a ≡ b = ground (arith, h, k) in ap pos e
not_less-eq (pos a) (negsuc b) h k = absurd (ground (arith, h, k))
not_less-eq (negsuc a) (pos b) h k = absurd (ground (arith, h, k))
not_less-eq (negsuc a) (negsuc b) h k = let e : a ≡ b = ground (arith, h, k) in ap negsuc e

not_before-MayPrecede : (a b : QueueEntry) → before b a ≡ false → MayPrecede a b
unfolding before
not_before-MayPrecede a b h = elim (Bool-cases (lt_int b.priority a.priority)) [
  | inl t ↦ inl (lt_int-IsLess b.priority a.priority t)
  | inr t ↦ elim (Bool-cases (lt_int a.priority b.priority)) [
    | inl u ↦ absurd (ground (arith, h, t, u))
    | inr u ↦ inr (not_less-eq a.priority b.priority u t, ground (arith, h, t, u))
  ]
]

before-asymm : (a b : QueueEntry) → before a b ≡ true → before b a ≡ false
unfolding before
before-asymm a b h = ground arith

IsLess-trans : (a b c : ℤ) → IsLess a b → IsLess b c → IsLess a c
IsLess-trans (pos a) (pos b) (pos c) h k = omega (arith, h, k)
IsLess-trans (pos a) (negsuc b) c h k = absurd h
IsLess-trans (pos a) (pos b) (negsuc c) h k = absurd k
IsLess-trans (negsuc a) (pos b) (pos c) h k = tt
IsLess-trans (negsuc a) (pos b) (negsuc c) h k = absurd k
IsLess-trans (negsuc a) (negsuc b) (pos c) h k = tt
IsLess-trans (negsuc a) (negsuc b) (negsuc c) h k = omega (arith, h, k)

MayPrecede-trans : (a b c : QueueEntry) → MayPrecede a b → MayPrecede b c → MayPrecede a c
MayPrecede-trans a b c (inl h) (inl k) = inl (IsLess-trans c.priority b.priority a.priority k h)
MayPrecede-trans a b c (inl h) (inr (e, k)) = inl (subst (λ z. IsLess z a.priority) e h)
MayPrecede-trans a b c (inr (e, h)) (inl k) = inl (subst (λ z. IsLess c.priority z) (sym e) k)
MayPrecede-trans a b c (inr (e, h)) (inr (f, k)) = inr (e ∙ f, omega (arith, h, k))

PrecedesAll-trans :
    (a b : QueueEntry) (es : List QueueEntry) → MayPrecede a b → PrecedesAll b es → PrecedesAll a es
PrecedesAll-trans a b [] h n = tt
PrecedesAll-trans a b (e ∷ es) h (k, n) = (MayPrecede-trans a b e h k, PrecedesAll-trans a b es h n)

PrecedesAll-place :
    (a e : QueueEntry) (es : List QueueEntry)
    → MayPrecede a e
    → PrecedesAll a es
    → PrecedesAll a (place e es)
unfolding place
PrecedesAll-place a e [] h n = (h, tt)
PrecedesAll-place a e (f ∷ es) h (k, n) = elim (Bool-cases (before f e)) [
  | inl t ↦ rw t (k, PrecedesAll-place a e es h n)
  | inr t ↦ rw t (h, (k, n))
]

place-IsSorted : (e : QueueEntry) (es : List QueueEntry) → IsSorted es → IsSorted (place e es)
unfolding place
place-IsSorted e [] s = (tt, tt)
place-IsSorted e (f ∷ es) (n, s) = elim (Bool-cases (before f e)) [
  | inl t ↦ rw t (
    PrecedesAll-place f e es (not_before-MayPrecede f e (before-asymm f e t)) n,
    place-IsSorted e es s,
  )
  | inr t ↦
      let first = not_before-MayPrecede e f t in
      rw t ((first, PrecedesAll-trans e f es first n), (n, s))
]

sort-IsSorted : (es : List QueueEntry) → IsSorted (sort_by_priority es)
unfolding sort_by_priority
sort-IsSorted [] = tt
sort-IsSorted (e ∷ es) = place-IsSorted e (sort_by_priority es) (sort-IsSorted es)

remove-PrecedesAll :
    (a : QueueEntry) (id : ℕ) (es : List QueueEntry)
    → PrecedesAll a es
    → PrecedesAll a (remove_entry id es)
unfolding remove_entry
remove-PrecedesAll a id [] n = tt
remove-PrecedesAll a id (f ∷ es) (k, n) = elim (Bool-cases (f.request_id == id)) [
  | inl t ↦ rw t n
  | inr t ↦ rw t (k, remove-PrecedesAll a id es n)
]

remove-IsSorted : (id : ℕ) (es : List QueueEntry) → IsSorted es → IsSorted (remove_entry id es)
unfolding remove_entry
remove-IsSorted id [] s = tt
remove-IsSorted id (f ∷ es) (n, s) = elim (Bool-cases (f.request_id == id)) [
  | inl t ↦ rw t s
  | inr t ↦ rw t (remove-PrecedesAll f id es n, remove-IsSorted id es s)
]

place-perm : (e : QueueEntry) (es : List QueueEntry) → Perm (place e es) (e ∷ es)
unfolding place
place-perm e [] = Perm.refl _
place-perm e (f ∷ es) = elim (Bool-cases (before f e)) [
  | inl t ↦ rw t (Perm.trans (Perm.cons f (place-perm e es)) (Perm.swap e f es))
  | inr t ↦ rw t (Perm.refl _)
]

sort-perm : (es : List QueueEntry) → Perm (sort_by_priority es) es
unfolding sort_by_priority
sort-perm [] = Perm.refl _
sort-perm (e ∷ es) = Perm.trans (place-perm e (sort_by_priority es)) (Perm.cons e (sort-perm es))

-- `new` is `old` with `e` at the end, or in place of the entry of the same id.
abbrev pub Inserted : QueueEntry → List QueueEntry → List QueueEntry → Type 0
Inserted e old new =
    (All (λ f. f.request_id ≢ e.request_id) old × (new ≡ old ++ e ∷ []))
    ⊎ ((ys : List QueueEntry) × (f : QueueEntry) × (zs : List QueueEntry) × (old ≡ ys ++ f ∷ zs)
        × (f.request_id ≡ e.request_id)
        × (new ≡ ys ++ e ∷ zs))

insert_entry-Inserted : (e : QueueEntry) (es : List QueueEntry) → Inserted e es (insert_entry e es)
unfolding insert_entry
insert_entry-Inserted e [] = inl (tt, refl)
insert_entry-Inserted e (f ∷ es) = elim (ℕ_discrete f.request_id e.request_id) [
  | yes q ↦ inr ([], f, es, refl, q, ground (arith, q))
  | no q ↦ elim (insert_entry-Inserted e es) [
    | inl (all, same) ↦ inl ((q, all), ground (arith, q, same))
    | inr (ys, g, zs, split, hit, same) ↦
        inr (f ∷ ys, g, zs, ap (◌∷◌ f) split, hit, ground (arith, q, same))
  ]
]

Inserted-nonempty : (e : QueueEntry) (old : List QueueEntry) → ¬ Inserted e old []
Inserted-nonempty e [] (inl (all, same)) = ground (arith, same)
Inserted-nonempty e (f ∷ old) (inl (all, same)) = ground (arith, same)
Inserted-nonempty e old (inr ([], f, zs, split, hit, same)) = ground (arith, same)
Inserted-nonempty e old (inr (y ∷ ys, f, zs, split, hit, same)) = ground (arith, same)

-- How a queue of this policy holds the entries.
abbrev pub Holds : SchedulingPolicy → List QueueEntry → List QueueEntry → Type 0
Holds fcfs inserted es = es ≡ inserted
Holds priority_order inserted es = IsSorted es × Perm es inserted

arrange-Holds :
    (policy : SchedulingPolicy) (inserted : List QueueEntry)
    → Holds policy inserted (arrange policy inserted)
unfolding arrange
arrange-Holds fcfs inserted = refl
arrange-Holds priority_order inserted = (sort-IsSorted inserted, sort-perm inserted)

-- What a pop answers, after a push that left the entries `inserted` in some order.
abbrev pub PopsFirst : List QueueEntry → Option ℕ × RequestQueue → Type 0
PopsFirst inserted res =
    (f : QueueEntry) × (res.0 ≡ some f.request_id)
    × PrecedesAll f res.1.entries
    × IsSorted res.1.entries
    × Perm (f ∷ res.1.entries) inserted

pop-PopsFirst :
    (q' : RequestQueue) (es inserted : List QueueEntry)
    → q'.entries ≡ es
    → inserted ≢ []
    → IsSorted es
    → Perm es inserted
    → PopsFirst inserted (pop q')
unfolding pop
pop-PopsFirst q' [] inserted h some_in s p = absurd (some_in (sym (Perm.nil-eq p)))
pop-PopsFirst q' (f ∷ es) inserted h some_in (n, s) p = rw (h, pop) (f, refl, n, s, p)

module _ (q : RequestQueue) where
  -- A push puts the new entry in place of the one of its id, or at the end if there is none.
  -- Under the policy `fcfs` this is the queue; under the priority policy the queue is a
  -- permutation of it in which every entry has a higher priority than each later one, or the same
  -- priority and no later arrival.
  pub push-Holds :
      (e : QueueEntry)
      → (inserted : List QueueEntry) × Inserted e q.entries inserted
        × Holds q.policy inserted (push q e.request_id e.priority e.arrival_time).entries
  unfolding push
  push-Holds e = (
    insert_entry e q.entries,
    insert_entry-Inserted e q.entries,
    arrange-Holds q.policy (insert_entry e q.entries),
  )

  -- Under the priority policy a pop after a push answers the id of an entry that has a higher
  -- priority than each entry left, or the same priority and no later arrival. That entry and the
  -- entries left are those of the queue with the new entry in place of the one of its id, or
  -- added, and those left are sorted in the same way.
  pub push-pop :
      (e : QueueEntry)
      → q.policy ≡ priority_order
      → (inserted : List QueueEntry) × Inserted e q.entries inserted
        × PopsFirst inserted (pop (push q e.request_id e.priority e.arrival_time))
  push-pop e p =
      let (inserted, i, held) = push-Holds e in
      let (s, perm) =
        subst
          (λ policy. Holds policy inserted (push q e.request_id e.priority e.arrival_time).entries)
          p held in
      (
        inserted,
        i,
        pop-PopsFirst (push q e.request_id e.priority e.arrival_time) _ inserted refl
            (λ empty. Inserted-nonempty e q.entries (subst (Inserted e q.entries) empty i)) s perm,
      )

  -- Taking one request out keeps the queue sorted.
  pub pop_request-IsSorted : (id : ℕ) → IsSorted q.entries → IsSorted (pop_request q id).1.entries
  unfolding pop_request
  pop_request-IsSorted id s = remove-IsSorted id q.entries s
