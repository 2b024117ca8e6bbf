-- ===== src/Shared/Numbers.antt =====
-- Products and rounded quotients of numbers.
use Prim.Native.Nat.{ℕ, suc, ◌+◌, ◌-◌, ◌*◌, ◌≤◌, ◌<◌}
use mathlib.Core.Path.{◌≡◌, subst}
use mathlib.Core.Logic.{◌⊎◌, inl, inr}
use native.Mathlib.Omega.{arith}
use r_llm.Shared.Tests.{div_ceil}

mul-le_next : (d i n : ℕ) → i * n + n ≤ (i + suc d) * n
mul-le_next d i n = grind arith

pub mul-lt_next : (i j n : ℕ) → i < j → i * n + n ≤ j * n
mul-lt_next i j n h =
    let e : i + suc (j - suc i) ≡ j = omega (arith, h) in
    subst (λ k. i * n + n ≤ k * n) e (mul-le_next (j - suc i) i n)

pub mul-le : (i j n : ℕ) → i ≤ j → i * n ≤ j * n
mul-le i j n h =
    let e : i + (j - i) ≡ j = omega (arith, h) in subst (λ k. i * n ≤ k * n) e (grind arith)

-- The least number of blocks of `b` that hold `t`.
pub div_ceil-least : (t b : ℕ) → 0 < b → (t ≤ div_ceil t b * b) × (div_ceil t b * b < t + b)
div_ceil-least t b h = (grind arith, grind arith)

-- No more blocks are needed than are held.
pub div_ceil-le : (held b t : ℕ) → 0 < b → t ≤ held * b → div_ceil t b ≤ held
div_ceil-le held b t pos h =
    let (_, high) = div_ceil-least t b pos in
    let order : (div_ceil t b ≤ held) ⊎ (held < div_ceil t b) = ground arith in
    elim order [
      | inl l ↦ l
      | inr g ↦ absurd (omega (arith, mul-lt_next held (div_ceil t b) b g, high, h))
    ]

-- Enough blocks for `t` are enough for what needs no more blocks.
pub div_ceil-covers :
    (held b t u : ℕ) → 0 < b → t ≤ held * b → div_ceil u b ≤ div_ceil t b → u ≤ held * b
div_ceil-covers held b t u pos h few =
    let (low, _) = div_ceil-least u b pos in
    let enough = div_ceil-le held b t pos h in
    omega (arith, low, mul-le (div_ceil u b) held b (omega (arith, few, enough)))
