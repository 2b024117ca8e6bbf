-- ===== src/Engine/BatchQueue.antt =====
-- crates/rllm-engine/src/batch_queue.rs, over any type of requests with ids. The `u64` counters
-- wrap, as in a release build. The age of a request plays no part in `drain`.
pub mod Account
use r_llm.Shared.{
  ℕ, zero, suc, ◌+◌, ◌%◌, ◌^◌, min, Bool, true, false, Option, none, some, List, [], ◌∷◌, ◌++◌,
  ◌==◌, ltb, leb, if◌then◌else◌, length, is_empty, take, drop,
}

pub data BatchingStrategy : Type 0 where
  fixed_size : ℕ → BatchingStrategy
  timeout : ℕ → ℕ → BatchingStrategy
  immediate : BatchingStrategy

pub record BatchQueue {ℓ} (R : Type ℓ) : Type ℓ where
  pub pending : List R
  pub max_capacity : ℕ
  pub strategy : BatchingStrategy
  pub total_enqueued : ℕ
  pub total_drained : ℕ

-- `count += n` on a `u64`.
abbrev pub add_u64 : ℕ → ℕ → ℕ
add_u64 count n = (count + n) % 2 ^ 64

-- How many requests `drain` takes from `pending` of them.
unfoldable pub batch_size : BatchingStrategy → ℕ → ℕ
batch_size immediate pending = 1
batch_size (fixed_size n) pending = min n pending
batch_size (timeout max_batch_size max_latency) pending = min max_batch_size pending

module _ {ℓ} {R : Type ℓ} where
  unfoldable with_strategy : BatchingStrategy → BatchQueue R
  with_strategy strategy = record {
    pending = [];
    max_capacity = 4096;
    strategy = strategy;
    total_enqueued = 0;
    total_drained = 0;
  }

  unfoldable set_max_capacity : BatchQueue R → ℕ → BatchQueue R
  set_max_capacity q capacity = record q { max_capacity = capacity }

  unfoldable set_strategy : BatchQueue R → BatchingStrategy → BatchQueue R
  set_strategy q strategy = record q { strategy = strategy }

  unfoldable pub enqueue : BatchQueue R → R → Bool × BatchQueue R
  enqueue q r = if leb q.max_capacity (length q.pending) then (false, q) else (
    true,
    record q { total_enqueued = add_u64 q.total_enqueued 1; pending = q.pending ++ r ∷ [] },
  )

  -- The loop of `enqueue_all`, with the number added so far.
  unfoldable pub enqueue_from : BatchQueue R → List R → ℕ → ℕ × BatchQueue R
  unfolding enqueue
  enqueue_from q [] added = (added, q)
  enqueue_from q (r ∷ rs) added =
      let rest = enqueue_from (enqueue q r).1 rs (added + 1) in
      if (enqueue q r).0 then rest else (added, (enqueue q r).1)

  unfoldable pub enqueue_all : BatchQueue R → List R → ℕ × BatchQueue R
  unfolding enqueue_from
  enqueue_all q rs = enqueue_from q rs 0

  unfoldable pub drain : BatchQueue R → List R × BatchQueue R
  unfolding batch_size
  drain q =
      let n = batch_size q.strategy (length q.pending) in
      if is_empty q.pending then ([], q) else (
        take n q.pending,
        record q {
          pending = drop n q.pending;
          total_drained = add_u64 q.total_drained (length (take n q.pending));
        },
      )

  unfoldable drain_all : BatchQueue R → List R × BatchQueue R
  drain_all q = (
    q.pending,
    record q { pending = []; total_drained = add_u64 q.total_drained (length q.pending) },
  )

  unfoldable pub peek : BatchQueue R → Option R
  peek q = elim q.pending [ [] ↦ none | r ∷ rs ↦ some r ]

  abbrev behind : R → Option (R × List R) → Option (R × List R)
  behind r none = none
  behind r (some (s, ss)) = some (s, r ∷ ss)

  -- `position` and `VecDeque::remove`: the first request with the id, and the others.
  unfoldable pub remove_first : (R → ℕ) → ℕ → List R → Option (R × List R)
  remove_first id_of id [] = none
  remove_first id_of id (r ∷ rs) =
      if id_of r == id then some (r, rs) else behind r (remove_first id_of id rs)

  unfoldable pub remove : (R → ℕ) → BatchQueue R → ℕ → Option R × BatchQueue R
  unfolding remove_first
  remove id_of q id = elim (remove_first id_of id q.pending) [
    | none ↦ (none, q)
    | some (r, rs) ↦ (some r, record q { pending = rs; total_drained = add_u64 q.total_drained 1 })
  ]

  unfoldable clear : BatchQueue R → BatchQueue R
  clear q = record q { total_drained = add_u64 q.total_drained (length q.pending); pending = [] }

  unfoldable is_full : BatchQueue R → Bool
  is_full q = leb q.max_capacity (length q.pending)
