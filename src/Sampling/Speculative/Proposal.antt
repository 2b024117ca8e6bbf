-- ===== src/Sampling/Speculative/Proposal.antt =====
-- crates/rllm-sampling/src/speculative.rs: what is proposed, and what is accepted of it.
use mathlib.Core.Path.{ap₂}
use r_llm.Shared.{
  ℕ, zero, suc, ◌+◌, ◌-◌, ◌≤◌, ◌<◌, min, true, false, ◌||◌, some, List, [], ◌∷◌, ◌≡◌, refl, sym,
  ◌∙◌, ap, ◌⊎◌, inl, inr, arith, ◌==◌, ltb, leb, length, take, drop, length-take, length-drop,
  Bool-cases, Option-cases, ◌≢◌, ℕ_discrete,
}
use r_llm.Sampling.Speculative.{
  NGramProposer, same_tokens, slice, continuation, match_at, match_below, match_sizes, propose,
  accept_matching_prefix,
}

same_tokens-eq : (xs ys : List ℕ) → same_tokens xs ys ≡ true → xs ≡ ys
same_tokens-eq [] [] h = refl
same_tokens-eq [] (y ∷ ys) h = cc
same_tokens-eq (x ∷ xs) [] h = cc
same_tokens-eq (x ∷ xs) (y ∷ ys) h = ground (arith, same_tokens-eq xs ys)

-- A proposal repeats the context: behind an earlier occurrence, at `start`, of the last `n` tokens
-- stand the proposed ones.
abbrev pub Repeats : List ℕ → ℕ → ℕ → ℕ → List ℕ → Type 0
Repeats context max_tokens n start out =
    (start + n < length context)
    × (slice context start n ≡ slice context (length context - n) n)
    × (out ≡ slice context (start + n) (length out))
    × (0 < length out)
    × (length out ≤ max_tokens)

slice-length :
    (context : List ℕ) (i n : ℕ) → i + n ≤ length context → length (slice context i n) ≡ n
slice-length context i n h = omega (arith, length-take n (drop i context), length-drop i context)

match_at-Repeats :
    (context : List ℕ) (max_tokens n start : ℕ) (out : List ℕ)
    → match_at context max_tokens n start ≡ some out
    → Repeats context max_tokens n start out
unfolding match_at continuation
match_at-Repeats context max_tokens n start out e =
    let end = min (start + n + max_tokens) (length context) in
    let k = end - (start + n) in
    elim (Bool-cases (same_tokens (slice context start n) (slice context (length context - n) n))) [
      | inr f ↦ absurd (ground arith)
      | inl t ↦ elim (Bool-cases (ltb (start + n) end)) [
        | inr f ↦ absurd (ground arith)
        | inl l ↦
            let same : out ≡ slice context (start + n) k = ground arith in
            let below : start + n < end = ground arith in
            let size : length out ≡ k =
              ap length same ∙ slice-length context (start + n) k (omega arith) in
            (
              omega arith,
              same_tokens-eq _ _ t,
              same ∙ ap (slice context (start + n)) (sym size),
              omega arith,
              omega arith,
            )
      ]
    ]

match_below-Repeats :
    (context : List ℕ) (max_tokens n starts : ℕ) (out : List ℕ)
    → match_below context max_tokens n starts ≡ some out
    → (start : ℕ) × Repeats context max_tokens n start out
unfolding match_below
match_below-Repeats context max_tokens n zero out e = cc
match_below-Repeats context max_tokens n (suc start) out e =
    elim (Option-cases (match_at context max_tokens n start)) [
      | inl none_here ↦ match_below-Repeats context max_tokens n start out (ground arith)
      | inr (a, here) ↦ (start, match_at-Repeats context max_tokens n start out (ground arith))
    ]

match_sizes-Repeats :
    (context : List ℕ) (max_tokens low sizes : ℕ) (out : List ℕ)
    → match_sizes context max_tokens low sizes ≡ some out
    → (n start : ℕ) × (low ≤ n) × (n < low + sizes) × Repeats context max_tokens n start out
unfolding match_sizes
match_sizes-Repeats context max_tokens low zero out e = cc
match_sizes-Repeats context max_tokens low (suc sizes) out e =
    let n = low + sizes in
    elim (Option-cases (match_below context max_tokens n (length context - n))) [
      | inl none_here ↦
          let (m, start, a, b, r) =
            match_sizes-Repeats context max_tokens low sizes out (ground arith) in
          (m, start, a, omega arith, r)
      | inr (o, here) ↦
          let (start, r) =
            match_below-Repeats context max_tokens n (length context - n) out (ground arith) in
          (n, start, omega arith, omega arith, r)
    ]

-- A proposal is empty, or it has at most `max_tokens` tokens and is what stands in the context
-- behind an earlier occurrence of its last `n` tokens, for an `n` between the configured bounds.
pub propose-Repeats :
    (p : NGramProposer) (context : List ℕ) (max_tokens : ℕ)
    → (propose p context max_tokens ≡ [])
      ⊎ ((n start : ℕ) × (p.min_ngram ≤ n)
          × (n ≤ p.max_ngram)
          × Repeats context max_tokens n start (propose p context max_tokens))
unfolding propose
propose-Repeats p context max_tokens =
    let sizes = min p.max_ngram (length context - 1) + 1 - p.min_ngram in
    elim (Bool-cases (max_tokens == 0 || leb (length context) p.min_ngram)) [
      | inl t ↦ inl (rw t refl)
      | inr f ↦ elim (Option-cases (match_sizes context max_tokens p.min_ngram sizes)) [
        | inl e ↦ inl (rw (f, e) refl)
        | inr (out, e) ↦
            let (n, start, a, b, r) =
              match_sizes-Repeats context max_tokens p.min_ngram sizes out e in
            inr (n, start, a, omega arith, rw (f, e) r)
      ]
    ]

-- What is accepted is a prefix of the draft and of the target, and one of them ends behind it, or
-- they differ in the next token.
pub accept_matching_prefix-longest :
    (draft target : List ℕ)
    → let n = length (accept_matching_prefix draft target) in
      (take n draft ≡ accept_matching_prefix draft target)
      × (take n target ≡ accept_matching_prefix draft target)
      × ((drop n draft ≡ [])
          ⊎ (drop n target ≡ [])
          ⊎ ((a b : ℕ) × (as' bs : List ℕ) × (drop n draft ≡ a ∷ as')
              × (drop n target ≡ b ∷ bs)
              × (a ≢ b)))
unfolding accept_matching_prefix
accept_matching_prefix-longest [] target = (refl, refl, inl refl)
accept_matching_prefix-longest (a ∷ draft) [] = (refl, refl, inr (inl refl))
accept_matching_prefix-longest (a ∷ draft) (b ∷ target) = elim (ℕ_discrete a b) [
  | yes q ↦
      let (l, r, s) = accept_matching_prefix-longest draft target in
      let t : (a == b) ≡ true = ground arith in rw t (ap (◌∷◌ a) l, ap₂ ◌∷◌ (sym q) r, s)
  | no q ↦
      let t : (a == b) ≡ false = ground arith in
      rw t (refl, refl, inr (inr (a, b, draft, target, refl, refl, q)))
]
