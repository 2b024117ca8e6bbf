-- ===== src/Cache/BlockPool/View.antt =====
-- What the pool's blocks hold besides the links.
use mathlib.Core.Option
use mathlib.Core.Path.{fun_ext}
use r_llm.Shared.{
  ℕ, zero, suc, ◌+◌, Bool, Option, none, some, ◌≡◌, ◌∙◌, ◌≢◌, arith, ◌==◌, if◌then◌else◌,
}
use r_llm.Cache.FreeQueue.{KvCacheBlock, Blocks, set_block}
use r_llm.Cache.FreeQueue.Chain.{payload, SamePayload}

abbrev pub Payload : Type 0
Payload = ℕ × Option ℕ × ℕ × Bool

abbrev pub View : Type 0
View = ℕ → Option Payload

abbrev pub view : Blocks → View
view c i = Option.map payload (c i)

abbrev pub set_view : View → ℕ → Payload → View
set_view v i w j = if i == j then some w else v j

pub view-SamePayload : (c c' : Blocks) → SamePayload c c' → view c' ≡ view c
view-SamePayload c c' h = fun_ext h

view-set_block :
    (c : Blocks) (i : ℕ) (b : KvCacheBlock)
    → view (set_block c i b) ≡ set_view (view c) i (payload b)
view-set_block c i b = fun_ext λ j. ground arith

pub view-set_block_eq :
    (c : Blocks) (i : ℕ) (b : KvCacheBlock) (v : View) (w : Payload)
    → view c ≡ v
    → payload b ≡ w
    → view (set_block c i b) ≡ set_view v i w
view-set_block_eq c i b v w e f = view-set_block c i b ∙ (λ k. set_view (e k) i (f k))

-- A block that the view shows is there.
pub view-block :
    (c : Blocks) (i : ℕ) (w : Payload)
    → view c i ≡ some w
    → (b : KvCacheBlock) × (c i ≡ some b) × (payload b ≡ w)
view-block c i w h = ground arith

abbrev pub used : Option Payload → ℕ
used none = 0
used (some (i, h, r, n)) = if r == 0 then 0 else 1

-- How many of the first `n` blocks have references.
unfoldable pub count_used : View → ℕ → ℕ
count_used v zero = 0
count_used v (suc n) = used (v n) + count_used v n

pub set_view-eq : (v : View) (i : ℕ) (w : Payload) → set_view v i w i ≡ some w
set_view-eq v i w = ground arith

pub set_view-ne : (v : View) (i j : ℕ) (w : Payload) → i ≢ j → set_view v i w j ≡ v j
set_view-ne v i j w h = ground arith

pub set_view-set_view :
    (v : View) (i : ℕ) (w w' : Payload) → set_view (set_view v i w) i w' ≡ set_view v i w'
set_view-set_view v i w w' = fun_ext λ j. ground arith

-- A write of what is there already.
pub set_view-same : (v : View) (i : ℕ) (w : Payload) → v i ≡ some w → set_view v i w ≡ v
set_view-same v i w e = fun_ext λ j. ground arith
