-- ===== src/Kernels/Metadata/Outcome.antt =====
-- crates/rllm-kernels/src/backend/metadata.rs, `StepMetadata::from_attention_metadata` as a whole.
use r_llm.Shared.{
  ℕ, ◌+◌, ◌≤◌, ◌<◌, true, false, List, [], ◌∷◌, ◌≡◌, refl, sym, ap, subst, ◌⊎◌, ◌↔◌, inl, inr,
  arith, ◌==◌, ltb, length, All, Bool-cases,
}
use r_llm.Kernels.Metadata.{
  AttentionMetadata, StepMetadata, MetadataError, ok, err, descends, starts_at_zero, empty_step,
  from_attention_metadata, num_seqs, invalid_block_size, query_start_loc_length,
  query_start_loc_not_zero, block_tables_length, query_start_loc_not_monotonic,
}
use r_llm.Kernels.Metadata.Csr.{
  Fits, Built, pages, page_ends, queries, greatest, all_one, add_seqs-cases,
}
use r_llm.Kernels.Metadata.Pages.{AreI32, AreLastPages, map-AreI32, map-AreLastPages}

abbrev pub StartsAtZero : List ℕ → Type 0
StartsAtZero loc = (rest : List ℕ) × (loc ≡ 0 ∷ rest)

abbrev pub Ascends : List ℕ → Type 0
Ascends [] = Unit {0}
Ascends (a ∷ []) = Unit {0}
Ascends (a ∷ b ∷ loc) = (a ≤ b) × Ascends (b ∷ loc)

-- A well-formed batch: each sequence has its query's place, its row and its pages.
abbrev pub IsBatch : AttentionMetadata → ℕ → Type 0
IsBatch base block_size =
    (0 < block_size)
    × (length base.query_start_loc ≡ length base.seq_lens + 1)
    × StartsAtZero base.query_start_loc
    × (length base.block_tables ≡ length base.seq_lens)
    × Ascends base.query_start_loc
    × Fits block_size base.seq_lens base.query_start_loc base.block_tables

-- What an accepted batch gets.
pub record IsStep (base : AttentionMetadata) (block_size : ℕ) (out : StepMetadata) : Type 0 where
  pub same_base : out.base ≡ base
  pub kv_indices : out.kv_indices ≡ pages block_size base.seq_lens base.block_tables
  pub kv_indptr : AreI32 (0 ∷ page_ends block_size 0 base.seq_lens) out.kv_indptr
  pub qo_indptr : AreI32 base.query_start_loc out.qo_indptr
  pub kv_last_page_len : AreLastPages block_size base.seq_lens out.kv_last_page_len
  pub max_kv_len : out.max_kv_len ≡ greatest base.seq_lens
  pub max_q_len : out.max_q_len ≡ greatest (queries base.query_start_loc)
  pub pure_decode : (out.is_pure_decode ≡ true) ↔ All (λ q. q ≡ 1) (queries base.query_start_loc)

starts_at_zero-cases :
    (loc : List ℕ)
    → ((starts_at_zero loc ≡ true) × StartsAtZero loc)
      ⊎ ((starts_at_zero loc ≡ false) × ¬ StartsAtZero loc)
unfolding starts_at_zero
starts_at_zero-cases [] = inr (refl, λ (rest, e). ground (arith, e))
starts_at_zero-cases (a ∷ loc) = elim (Bool-cases (a == 0)) [
  | inl t ↦ let e : a ≡ 0 = ground (arith, t) in inl (t, (loc, ap (λ n. n ∷ loc) e))
  | inr t ↦ inr (t, λ (rest, e). ground (arith, e, t))
]

descends-cases :
    (loc : List ℕ)
    → ((descends loc ≡ false) × Ascends loc) ⊎ ((descends loc ≡ true) × ¬ Ascends loc)
unfolding descends
descends-cases [] = inl (refl, tt)
descends-cases (a ∷ []) = inl (refl, tt)
descends-cases (a ∷ b ∷ loc) = elim (Bool-cases (ltb b a)) [
  | inl t ↦ inr (rw t refl, λ h. ground (arith, h.0, t))
  | inr t ↦ elim (descends-cases (b ∷ loc)) [
    | inl (e, up) ↦ inl (rw t e, (ground (arith, t), up))
    | inr (e, down) ↦ inr (rw t e, λ h. down h.1)
  ]
]

all_one-All : (qs : List ℕ) → (all_one qs ≡ true) ↔ All (λ q. q ≡ 1) qs
all_one-All [] = ((λ e. tt), λ h. refl)
all_one-All (q ∷ qs) = (
  (λ e. (ground (arith, e), (all_one-All qs).0 (ground (arith, e)))),
  λ (e, h). ground (arith, e, (all_one-All qs).1 h),
)

Built-IsStep :
    (base : AttentionMetadata) (block_size : ℕ) (out : StepMetadata)
    → 0 < block_size
    → StartsAtZero base.query_start_loc
    → Built block_size base.seq_lens base.query_start_loc base.block_tables 0 (empty_step base) out
    → IsStep base block_size out
unfolding empty_step
Built-IsStep base block_size out h (rest, from_zero) (is, ptr, qo, last, kv, q, decode, same) =
    record {
      same_base = same;
      kv_indices = is;
      kv_indptr =
          subst (AreI32 (0 ∷ page_ends block_size 0 base.seq_lens)) (sym ptr)
            ((omega arith, omega arith), map-AreI32 (page_ends block_size 0 base.seq_lens));
      qo_indptr =
          subst (AreI32 base.query_start_loc) (sym qo)
            (rw from_zero ((omega arith, omega arith), map-AreI32 rest));
      kv_last_page_len =
          subst (AreLastPages block_size base.seq_lens) (sym last)
            (map-AreLastPages block_size base.seq_lens h);
      max_kv_len = omega (arith, kv);
      max_q_len = omega (arith, q);
      pure_decode =
          subst (λ b. (b ≡ true) ↔ All (λ n. n ≡ 1) (queries base.query_start_loc)) (sym decode)
            (all_one-All (queries base.query_start_loc));
    }

-- A batch is accepted exactly when the block size is positive, the query places start at 0, do
-- not descend and are one more than the sequences, each sequence has a row of blocks, no query is
-- longer than its sequence, and each row starts with ids that are not negative for all pages of
-- its sequence; other batches get an error, and no index is out of range. An accepted batch gets
-- the pages of its sequences one after the other, as `i32` the places where the pages and the
-- queries of each sequence start and end and the tokens on each last page, the greatest sequence
-- and query lengths, and the mark of a pure decode exactly if all queries have one token.
pub from_attention_metadata-outcome :
    (base : AttentionMetadata) (block_size : ℕ)
    → (IsBatch base block_size
        × ((out : StepMetadata) × (from_attention_metadata base block_size ≡ ok out)
            × IsStep base block_size out))
      ⊎ ((e : MetadataError) × (from_attention_metadata base block_size ≡ err e)
          × ¬ IsBatch base block_size)
unfolding from_attention_metadata num_seqs
from_attention_metadata-outcome base block_size =
    let loc = base.query_start_loc in
    let n = length base.seq_lens in
    elim (Bool-cases (block_size == 0)) [
      | inl a ↦ inr (invalid_block_size, rw a refl, λ h. ground (arith, a, h.0))
      | inr a ↦ elim (Bool-cases (length loc == n + 1)) [
        | inr b ↦ inr (
          query_start_loc_length (length loc) (n + 1),
          rw (a, b) refl,
          λ h. ground (arith, b, h.1),
        )
        | inl b ↦ elim (starts_at_zero-cases loc) [
          | inr (c, refuted) ↦ inr (query_start_loc_not_zero, rw (a, b, c) refl, λ h. refuted h.2)
          | inl (c, from_zero) ↦ elim (Bool-cases (length base.block_tables == n)) [
            | inr d ↦ inr (
              block_tables_length (length base.block_tables) n,
              rw (a, b, c, d) refl,
              λ h. ground (arith, d, h.3),
            )
            | inl d ↦ elim (descends-cases loc) [
              | inr (e, refuted) ↦
                  inr (query_start_loc_not_monotonic, rw (a, b, c, d, e) refl, λ h. refuted h.4)
              | inl (e, up) ↦
                  let p : 0 < block_size = ground (arith, a) in
                  let l : length loc ≡ n + 1 = ground (arith, b) in
                  let r : length base.block_tables ≡ n = ground (arith, d) in
                  elim (add_seqs-cases block_size 0 base.seq_lens loc base.block_tables 0 0
                    (empty_step base) l r refl) [
                      | inl (fits, (out, f, built)) ↦ inl (
                        (p, l, from_zero, r, up, fits),
                        (
                          out,
                          rw (a, b, c, d, e) f,
                          Built-IsStep base block_size out p from_zero built,
                        ),
                      )
                      | inr (g, f, bad) ↦ inr (g, rw (a, b, c, d, e) f, λ h. bad h.5)
                    ]
            ]
          ]
        ]
      ]
    ]
