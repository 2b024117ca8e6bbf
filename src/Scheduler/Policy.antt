-- ===== src/Scheduler/Policy.antt =====
-- crates/rllm-scheduler/src/policy.rs, `RequestQueue`: an insertion-ordered map of the waiting
-- requests, sorted on each push under the priority policy. Arrival times are numbers.
pub mod Order
pub mod Members
use r_llm.Shared.{
  ℕ, zero, suc, ◌+◌, Bool, true, false, Option, none, some, List, [], ◌∷◌, ◌==◌, ltb, if◌then◌else◌,
  length, is_empty, map, is_some,
}

-- `negsuc n` is -(n + 1): an `i32` is an integer in its range.
pub data ℤ : Type 0 where
  pos : ℕ → ℤ
  negsuc : ℕ → ℤ

abbrev pos_part : ℤ → ℕ
pos_part (pos n) = n
pos_part (negsuc n) = 0

abbrev neg_part : ℤ → ℕ
neg_part (pos n) = 0
neg_part (negsuc n) = suc n

abbrev pub lt_int : ℤ → ℤ → Bool
lt_int a b = ltb (pos_part a + neg_part b) (pos_part b + neg_part a)

pub record QueueEntry : Type 0 where
  pub request_id : ℕ
  pub priority : ℤ
  pub arrival_time : ℕ

pub data SchedulingPolicy : Type 0 where
  fcfs priority_order : SchedulingPolicy

pub record RequestQueue : Type 0 where
  pub entries : List QueueEntry
  pub policy : SchedulingPolicy

unfoldable pub new : SchedulingPolicy → RequestQueue
new policy = record { entries = []; policy = policy }

-- `IndexMap::insert`: a key that is there keeps its place.
unfoldable pub insert_entry : QueueEntry → List QueueEntry → List QueueEntry
insert_entry e [] = e ∷ []
insert_entry e (f ∷ fs) = if f.request_id == e.request_id then e ∷ fs else f ∷ insert_entry e fs

-- `a` goes before `b`: a higher priority, or the same and an earlier arrival.
unfoldable pub before : QueueEntry → QueueEntry → Bool
before a b =
    if lt_int b.priority a.priority
    then true
    else if lt_int a.priority b.priority
    then false
    else ltb a.arrival_time b.arrival_time

-- The stable `sort_by`.
unfoldable pub place : QueueEntry → List QueueEntry → List QueueEntry
unfolding before
place e [] = e ∷ []
place e (f ∷ fs) = if before f e then f ∷ place e fs else e ∷ f ∷ fs

unfoldable pub sort_by_priority : List QueueEntry → List QueueEntry
unfolding place
sort_by_priority [] = []
sort_by_priority (e ∷ es) = place e (sort_by_priority es)

-- The order that the policy asks for after an insertion.
unfoldable pub arrange : SchedulingPolicy → List QueueEntry → List QueueEntry
unfolding sort_by_priority
arrange fcfs es = es
arrange priority_order es = sort_by_priority es

unfoldable pub push : RequestQueue → ℕ → ℤ → ℕ → RequestQueue
unfolding insert_entry arrange
push q request_id priority arrival_time =
    let e : QueueEntry = record {
      request_id = request_id;
      priority = priority;
      arrival_time = arrival_time;
    } in
    record q { entries = arrange q.policy (insert_entry e q.entries) }

-- `shift_remove`: the entry of the key goes, and the order of the others stays.
unfoldable pub remove_entry : ℕ → List QueueEntry → List QueueEntry
remove_entry id [] = []
remove_entry id (f ∷ fs) = if f.request_id == id then fs else f ∷ remove_entry id fs

unfoldable pub find_entry : ℕ → List QueueEntry → Option QueueEntry
find_entry id [] = none
find_entry id (f ∷ fs) = if f.request_id == id then some f else find_entry id fs

unfoldable pub pop : RequestQueue → Option ℕ × RequestQueue
pop q = elim q.entries [ [] ↦ (none, q) | e ∷ es ↦ (some e.request_id, record q { entries = es }) ]

unfoldable pub peek : RequestQueue → Option ℕ
peek q = elim q.entries [ [] ↦ none | e ∷ es ↦ some e.request_id ]

unfoldable pub remove : RequestQueue → ℕ → Bool × RequestQueue
remove q id = (is_some (find_entry id q.entries), record q { entries = remove_entry id q.entries })

unfoldable pub pop_request : RequestQueue → ℕ → Option ℕ × RequestQueue
pop_request q id = (
  elim (find_entry id q.entries) [ none ↦ none | some e ↦ some id ],
  record q { entries = remove_entry id q.entries },
)

unfoldable pub len : RequestQueue → ℕ
len q = length q.entries

unfoldable pub contains : RequestQueue → ℕ → Bool
contains q id = is_some (find_entry id q.entries)

unfoldable priority_of : RequestQueue → ℕ → Option ℤ
priority_of q id = elim (find_entry id q.entries) [ none ↦ none | some e ↦ some e.priority ]
