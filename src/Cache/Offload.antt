-- ===== src/Cache/Offload.antt =====
-- crates/rllm-cache/src/offload.rs, `CpuKvOffloadStore`. The pinned buffer is a function from
-- addresses to bytes. The free slots are a stack: the head of the list is the end of the vector.
pub mod RoundTrip
use r_llm.Shared.{
  ℕ, zero, suc, ◌+◌, ◌-◌, ◌*◌, Bool, true, false, ◌&&◌, Option, none, some, List, [], ◌∷◌, ◌==◌,
  ltb, if◌then◌else◌, length,
}

abbrev pub Key : Type 0
Key = ℕ × ℕ

unfoldable pub same_key : Key → Key → Bool
same_key (r, b) (s, c) = r == s && b == c

pub record CpuKvOffloadStore : Type 0 where
  pub block_size_bytes : ℕ
  pub capacity_blocks : ℕ
  pub free_slots : List ℕ
  pub slots : List (Key × ℕ)
  pub storage : ℕ → ℕ

-- `(0..capacity_blocks).rev()` as a vector: slot 0 is its end.
unfoldable slots_from : ℕ → ℕ → List ℕ
slots_from first zero = []
slots_from first (suc n) = first ∷ slots_from (suc first) n

unfoldable pub new : ℕ → ℕ → CpuKvOffloadStore
unfolding slots_from
new capacity_blocks block_size_bytes = record {
  block_size_bytes = block_size_bytes;
  capacity_blocks = capacity_blocks;
  free_slots = slots_from 0 capacity_blocks;
  slots = [];
  storage = λ a. 0;
}

unfoldable pub find_slot : Key → List (Key × ℕ) → Option ℕ
unfolding same_key
find_slot k [] = none
find_slot k ((j, slot) ∷ m) = if same_key j k then some slot else find_slot k m

-- `HashMap::insert`: the entry of a key that is there is replaced.
unfoldable pub insert_slot : Key → ℕ → List (Key × ℕ) → List (Key × ℕ)
unfolding same_key
insert_slot k slot [] = (k, slot) ∷ []
insert_slot k slot ((j, old) ∷ m) =
    if same_key j k then (k, slot) ∷ m else (j, old) ∷ insert_slot k slot m

unfoldable remove_slot : Key → List (Key × ℕ) → List (Key × ℕ)
unfolding same_key
remove_slot k [] = []
remove_slot k ((j, slot) ∷ m) = if same_key j k then m else (j, slot) ∷ remove_slot k m

-- `copy_nonoverlapping` of the bytes to the address `offset`.
unfoldable pub write_bytes : ℕ → List ℕ → (ℕ → ℕ) → ℕ → ℕ
write_bytes offset [] storage = storage
write_bytes offset (b ∷ bytes) storage =
    write_bytes (suc offset) bytes (λ a. if a == offset then b else storage a)

-- `from_raw_parts`: as many bytes from the address `offset` on.
unfoldable pub read_bytes : ℕ → ℕ → (ℕ → ℕ) → List ℕ
read_bytes offset zero storage = []
read_bytes offset (suc n) storage = storage offset ∷ read_bytes (suc offset) n storage

pub data PutResult : Type 0 where
  stored : CpuKvOffloadStore → PutResult
  wrong_size : ℕ → ℕ → PutResult
  store_full : PutResult

-- The bytes go to the slot, which the key owns from then on.
unfoldable pub store_at : CpuKvOffloadStore → Key → List ℕ → ℕ → List ℕ → CpuKvOffloadStore
unfolding insert_slot write_bytes
store_at s key bytes slot free = record s {
  free_slots = free;
  slots = insert_slot key slot s.slots;
  storage = write_bytes (slot * s.block_size_bytes) bytes s.storage;
}

unfoldable pub put : CpuKvOffloadStore → ℕ → ℕ → List ℕ → PutResult
unfolding find_slot store_at
put s request_id block_id bytes =
    if length bytes == s.block_size_bytes
    then (elim (find_slot (request_id, block_id) s.slots) [
      | some slot ↦ stored (store_at s (request_id, block_id) bytes slot s.free_slots)
      | none ↦ elim s.free_slots [
        | [] ↦ store_full
        | slot ∷ free ↦ stored (store_at s (request_id, block_id) bytes slot free)
      ]
    ])
    else wrong_size (length bytes) s.block_size_bytes

unfoldable pub get : CpuKvOffloadStore → ℕ → ℕ → Option (List ℕ)
unfolding find_slot read_bytes
get s request_id block_id = elim (find_slot (request_id, block_id) s.slots) [
  | none ↦ none
  | some slot ↦ some (read_bytes (slot * s.block_size_bytes) s.block_size_bytes s.storage)
]

unfoldable pub remove : CpuKvOffloadStore → ℕ → ℕ → Bool × CpuKvOffloadStore
unfolding find_slot remove_slot
remove s request_id block_id = elim (find_slot (request_id, block_id) s.slots) [
  | none ↦ (false, s)
  | some slot ↦ (
    true,
    record s {
      free_slots = slot ∷ s.free_slots;
      slots = remove_slot (request_id, block_id) s.slots;
    },
  )
]

pub record CpuKvOffloadUsage : Type 0 where
  pub capacity_blocks : ℕ
  pub used_blocks : ℕ
  pub free_blocks : ℕ

unfoldable pub usage : CpuKvOffloadStore → CpuKvOffloadUsage
usage s = record {
  capacity_blocks = s.capacity_blocks;
  used_blocks = length s.slots;
  free_blocks = length s.free_slots;
}
