-- ===== src/Kernels/Metadata/Pages.antt =====
-- crates/rllm-kernels/src/backend/metadata.rs: the numbers of an accepted batch as `i32`, and the
-- last pages of its sequences.
use native.Mathlib.Nat.{div-add-mod', mod-lt}
use r_llm.Shared.{
  ℕ, zero, suc, ◌+◌, ◌-◌, ◌*◌, ◌/◌, ◌≤◌, ◌<◌, ◌%◌, ◌^◌, List, [], ◌∷◌, ◌≡◌, refl, sym, ◌∙◌, ◌⊎◌,
  inl, inr, arith, ◌==◌, ltb, map, Bool-cases,
}
use r_llm.Scheduler.Policy.{ℤ, pos, negsuc}
use r_llm.Kernels.Metadata.{as_i32, last_page_len}

-- The `i32` that is the same as `n` modulo 2^32.
abbrev pub IsI32 : ℕ → ℤ → Type 0
IsI32 n (pos k) = (k < 2 ^ 31) × (n % 2 ^ 32 ≡ k)
IsI32 n (negsuc k) = (k < 2 ^ 31) × ((n + suc k) % 2 ^ 32 ≡ 0)

abbrev pub AreI32 : List ℕ → List ℤ → Type 0
AreI32 [] [] = Unit {0}
AreI32 [] (z ∷ zs) = ⊥
AreI32 (n ∷ ns) [] = ⊥
AreI32 (n ∷ ns) (z ∷ zs) = IsI32 n z × AreI32 ns zs

-- The tokens on the last page of a sequence, behind some full pages.
abbrev pub IsLastPage : ℕ → ℕ → ℤ → Type 0
IsLastPage block_size seq_len z =
    ((seq_len ≡ 0) × (z ≡ pos 0))
    ⊎ ((full last : ℕ) × (seq_len ≡ full * block_size + last)
        × (0 < last)
        × (last ≤ block_size)
        × IsI32 last z)

abbrev pub AreLastPages : ℕ → List ℕ → List ℤ → Type 0
AreLastPages block_size [] [] = Unit {0}
AreLastPages block_size [] (z ∷ zs) = ⊥
AreLastPages block_size (s ∷ lens) [] = ⊥
AreLastPages block_size (s ∷ lens) (z ∷ zs) =
    IsLastPage block_size s z × AreLastPages block_size lens zs

as_i32-IsI32 : (n : ℕ) → IsI32 n (as_i32 n)
unfolding as_i32
as_i32-IsI32 n = elim (Bool-cases (ltb (n % 2 ^ 32) (2 ^ 31))) [
  | inl t ↦ rw t (ground (arith, t), refl)
  | inr t ↦
      let great : 2 ^ 31 ≤ n % 2 ^ 32 = ground (arith, t) in
      rw t (omega (arith, great), omega (arith, great))
]

pub map-AreI32 : (ns : List ℕ) → AreI32 ns (map as_i32 ns)
map-AreI32 [] = tt
map-AreI32 (n ∷ ns) = (as_i32-IsI32 n, map-AreI32 ns)

split_last : (n b : ℕ) → 0 < n * b → (n - 1) * b + b ≡ n * b
split_last zero b h = absurd (omega (arith, h))
split_last (suc n) b h = grind arith

-- A whole number of pages, and at least one.
full_pages :
    (block_size seq_len : ℕ)
    → 0 < seq_len
    → seq_len % block_size ≡ 0
    → seq_len ≡ (seq_len / block_size - 1) * block_size + block_size
full_pages block_size seq_len h e =
    let whole : seq_len ≡ seq_len / block_size * block_size =
      omega (arith, div-add-mod' seq_len block_size, e) in
    whole ∙ sym (split_last (seq_len / block_size) block_size (omega (arith, h, whole)))

last_page_len-IsLastPage :
    (block_size seq_len : ℕ)
    → 0 < block_size
    → IsLastPage block_size seq_len (last_page_len seq_len block_size)
unfolding last_page_len
last_page_len-IsLastPage block_size seq_len h = elim (Bool-cases (seq_len == 0)) [
  | inl t ↦ rw t (inl (ground (arith, t), refl))
  | inr t ↦ elim (Bool-cases (seq_len % block_size == 0)) [
    | inl u ↦
        let some_tokens : 0 < seq_len = ground (arith, t) in
        let whole : seq_len % block_size ≡ 0 = ground (arith, u) in
        rw (t, u)
          (inr (
            seq_len / block_size - 1,
            block_size,
            full_pages block_size seq_len some_tokens whole,
            h,
            omega arith,
            as_i32-IsI32 block_size,
          ))
    | inr u ↦
        rw (t, u)
          (inr (
            seq_len / block_size,
            seq_len % block_size,
            sym (div-add-mod' seq_len block_size),
            ground (arith, u),
            omega (arith, mod-lt seq_len h),
            as_i32-IsI32 (seq_len % block_size),
          ))
  ]
]

pub map-AreLastPages :
    (block_size : ℕ) (lens : List ℕ)
    → 0 < block_size
    → AreLastPages block_size lens (map (λ s. last_page_len s block_size) lens)
map-AreLastPages block_size [] h = tt
map-AreLastPages block_size (s ∷ lens) h =
    (last_page_len-IsLastPage block_size s h, map-AreLastPages block_size lens h)
