-- ===== src/Cache/FreeQueue.antt =====
-- crates/rllm-cache/src/block_pool.rs, `KvCacheBlock` and `FreeBlockQueue`: the intrusive doubly
-- linked list of free blocks. The blocks' vector is a function from indices, `none` out of range;
-- an operation that answers `none` panics (an index out of range, or a length below 0).
pub mod Chain
pub mod Order
use mathlib.Core.Option
use r_llm.Shared.{ℕ, zero, suc, ◌+◌, Bool, Option, none, some, ◌==◌, if◌then◌else◌, ◌>>=◌}

pub record KvCacheBlock : Type 0 where
  pub id : ℕ
  pub hash : Option ℕ
  pub ref_count : ℕ
  pub prev_free : Option ℕ
  pub next_free : Option ℕ
  pub is_null : Bool

abbrev pub Blocks : Type 0
Blocks = ℕ → Option KvCacheBlock

abbrev pub set_block : Blocks → ℕ → KvCacheBlock → Blocks
set_block c i b j = if i == j then some b else c j

-- `blocks[i] = f(blocks[i])`.
abbrev pub modify : Blocks → ℕ → (KvCacheBlock → KvCacheBlock) → Option Blocks
modify c i f = Option.map (λ b. set_block c i (f b)) (c i)

pub record FreeBlockQueue : Type 0 where
  pub head : Option ℕ
  pub tail : Option ℕ
  pub len : ℕ

abbrev pub new : FreeBlockQueue
new = record { head = none; tail = none; len = 0 }

abbrev pub set_prev : Option ℕ → KvCacheBlock → KvCacheBlock
set_prev v b = record b { prev_free = v }

abbrev pub set_next : Option ℕ → KvCacheBlock → KvCacheBlock
set_next v b = record b { next_free = v }

abbrev pub set_links : Option ℕ → Option ℕ → KvCacheBlock → KvCacheBlock
set_links v w b = record b { prev_free = v; next_free = w }

-- `n -= 1` on a `usize`, which panics at 0.
abbrev pub decrement : ℕ → Option ℕ
decrement zero = none
decrement (suc n) = some n

-- The successor's back link, or the tail where there is none.
unfoldable pub link_prev : Option ℕ → Option ℕ → Option ℕ → Blocks → Option (Option ℕ × Blocks)
link_prev tail none prev c = some (prev, c)
link_prev tail (some n) prev c = Option.map (λ c'. (tail, c')) (modify c n (set_prev prev))

-- The predecessor's forward link, or the head where there is none.
unfoldable pub link_next : Option ℕ → Option ℕ → Option ℕ → Blocks → Option (Option ℕ × Blocks)
link_next head none next c = some (next, c)
link_next head (some p) next c = Option.map (λ c'. (head, c')) (modify c p (set_next next))

unfoldable pub push_front : FreeBlockQueue → Blocks → ℕ → Option (FreeBlockQueue × Blocks)
push_front q c idx = do
  c₁ ← modify c idx (set_links none q.head)
  (tail', c₂) ← link_prev q.tail q.head (some idx) c₁
  some (record { head = some idx; tail = tail'; len = q.len + 1 }, c₂)

unfoldable pub push_back : FreeBlockQueue → Blocks → ℕ → Option (FreeBlockQueue × Blocks)
push_back q c idx = do
  c₁ ← modify c idx (set_links q.tail none)
  (head', c₂) ← link_next q.head q.tail (some idx) c₁
  some (record { head = head'; tail = some idx; len = q.len + 1 }, c₂)

-- The block behind the head loses its back link.
pop_at : FreeBlockQueue → Blocks → ℕ → Option (Option ℕ × FreeBlockQueue × Blocks)
unfolding link_prev
pop_at q c idx = do
  b ← c idx
  (tail', c₁) ← link_prev q.tail b.next_free none c
  c₂ ← modify c₁ idx (set_links none none)
  len' ← decrement q.len
  some (some idx, record { head = b.next_free; tail = tail'; len = len' }, c₂)

unfoldable pub pop_front : FreeBlockQueue → Blocks → Option (Option ℕ × FreeBlockQueue × Blocks)
unfolding pop_at
pop_front q c = elim q.head [ none ↦ some (none, q, c) | some idx ↦ pop_at q c idx ]

unfoldable pub remove : FreeBlockQueue → Blocks → ℕ → Option (FreeBlockQueue × Blocks)
remove q c idx = do
  b ← c idx
  (head', c₁) ← link_next q.head b.prev_free b.next_free c
  (tail', c₂) ← link_prev q.tail b.next_free b.prev_free c₁
  c₃ ← modify c₂ idx (set_links none none)
  len' ← decrement q.len
  some (record { head = head'; tail = tail'; len = len' }, c₃)
