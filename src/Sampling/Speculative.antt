-- ===== src/Sampling/Speculative.antt =====
-- crates/rllm-sampling/src/speculative.rs: the n-gram proposer and the accepted prefix of a draft.
pub mod Proposal
use r_llm.Shared.{
  ℕ, zero, suc, ◌+◌, ◌-◌, ◌*◌, min, Bool, true, false, ◌&&◌, ◌||◌, Option, none, some, List, [],
  ◌∷◌, ◌==◌, ltb, leb, if◌then◌else◌, length, take, drop, Map, lookup, insert, delete,
}

pub record NGramProposer : Type 0 where
  pub min_ngram : ℕ
  pub max_ngram : ℕ

-- The two assertions; `none` is their failure.
unfoldable pub new : ℕ → ℕ → Option NGramProposer
new min_ngram max_ngram =
    if ltb 0 min_ngram && leb min_ngram max_ngram
    then some (record { min_ngram = min_ngram; max_ngram = max_ngram })
    else none

abbrev pub same_tokens : List ℕ → List ℕ → Bool
same_tokens [] [] = true
same_tokens (x ∷ xs) (y ∷ ys) = x == y && same_tokens xs ys
same_tokens _ _ = false

-- `context[start..start + n]`.
abbrev pub slice : List ℕ → ℕ → ℕ → List ℕ
slice context start n = take n (drop start context)

-- The continuation behind the match at `start`, if there is one.
unfoldable pub continuation : List ℕ → ℕ → ℕ → ℕ → Option (List ℕ)
continuation context max_tokens n start =
    let end = min (start + n + max_tokens) (length context) in
    if ltb (start + n) end then some (slice context (start + n) (end - (start + n))) else none

unfoldable pub match_at : List ℕ → ℕ → ℕ → ℕ → Option (List ℕ)
unfolding continuation
match_at context max_tokens n start =
    if same_tokens (slice context start n) (slice context (length context - n) n)
    then continuation context max_tokens n start
    else none

abbrev or_else : Option (List ℕ) → Option (List ℕ) → Option (List ℕ)
or_else none o = o
or_else (some a) o = some a

-- `for start in (0..starts).rev()`.
unfoldable pub match_below : List ℕ → ℕ → ℕ → ℕ → Option (List ℕ)
unfolding match_at
match_below context max_tokens n zero = none
match_below context max_tokens n (suc start) =
    or_else (match_at context max_tokens n start) (match_below context max_tokens n start)

-- `for n in (min_ngram..min_ngram + sizes).rev()`.
unfoldable pub match_sizes : List ℕ → ℕ → ℕ → ℕ → Option (List ℕ)
unfolding match_below
match_sizes context max_tokens min_ngram zero = none
match_sizes context max_tokens min_ngram (suc sizes) =
    let n = min_ngram + sizes in
    or_else (match_below context max_tokens n (length context - n))
      (match_sizes context max_tokens min_ngram sizes)

abbrev or_empty : Option (List ℕ) → List ℕ
or_empty none = []
or_empty (some ids) = ids

unfoldable pub propose : NGramProposer → List ℕ → ℕ → List ℕ
unfolding match_sizes
propose p context max_tokens =
    if max_tokens == 0 || leb (length context) p.min_ngram
    then []
    else or_empty (
        match_sizes context max_tokens p.min_ngram
          (min p.max_ngram (length context - 1) + 1 - p.min_ngram))

-- `zip`, `take_while` and `map`.
unfoldable pub accept_matching_prefix : List ℕ → List ℕ → List ℕ
accept_matching_prefix (a ∷ draft) (b ∷ target) =
    let rest = accept_matching_prefix draft target in if a == b then a ∷ rest else []
accept_matching_prefix _ _ = []

-- The drafts of the requests.
unfoldable set_draft : Map (List ℕ) → ℕ → List ℕ → Map (List ℕ)
set_draft drafts request_key token_ids = insert request_key token_ids drafts

unfoldable take_draft : Map (List ℕ) → ℕ → Option (List ℕ) × Map (List ℕ)
take_draft drafts request_key = (lookup request_key drafts, delete request_key drafts)
