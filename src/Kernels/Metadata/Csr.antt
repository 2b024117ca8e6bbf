-- ===== src/Kernels/Metadata/Csr.antt =====
-- crates/rllm-kernels/src/backend/metadata.rs: the loop of `from_attention_metadata` over the
-- sequences.
use mathlib.Core.List.{append-nil, append_assoc}
use r_llm.Shared.{
  ℕ, suc, ◌+◌, ◌-◌, ◌≤◌, ◌%◌, ◌^◌, true, false, none, some, List, [], ◌∷◌, ◌++◌, ◌≡◌, refl, sym,
  ◌∙◌, ap, ◌⊎◌, inl, inr, arith, ◌==◌, ltb, length, take, drop, div_ceil, All, map, Bool, ◌&&◌, max,
  Bool-cases,
}
use r_llm.Scheduler.Policy.{ℤ, pos, negsuc}
use r_llm.Kernels.Metadata.{
  StepMetadata, MetadataError, ok, err, as_i32, find_negative, add_seq, check_seq, add_seqs,
  last_page_len, query_longer_than_seq, not_enough_blocks, negative_block_id,
}

abbrev IsBlockId : ℤ → Type 0
IsBlockId z = (n : ℕ) × (z ≡ pos n)

-- What one sequence needs: its query is no longer than it is, and its row starts with block ids for
-- all its pages.
abbrev SeqFits : ℕ → ℕ → ℕ → List ℤ → Type 0
SeqFits block_size seq_len q_len row =
    (q_len ≤ seq_len)
    × (div_ceil seq_len block_size ≤ length row)
    × All IsBlockId (take (div_ceil seq_len block_size) row)

unfoldable pub Fits : ℕ → List ℕ → List ℕ → List (List ℤ) → Type 0
Fits block_size [] loc rows = Unit
Fits block_size (s ∷ lens) (a ∷ b ∷ loc) (row ∷ rows) =
    SeqFits block_size s (b - a) row × Fits block_size lens (b ∷ loc) rows
Fits block_size (s ∷ lens) _ _ = ⊥

-- The pages that the sequences use, one sequence after the other.
unfoldable pub pages : ℕ → List ℕ → List (List ℤ) → List ℤ
pages block_size [] rows = []
pages block_size (s ∷ lens) [] = []
pages block_size (s ∷ lens) (row ∷ rows) =
    take (div_ceil s block_size) row ++ pages block_size lens rows

-- Where the pages of each sequence end, when the first begins at `start`.
unfoldable pub page_ends : ℕ → ℕ → List ℕ → List ℕ
page_ends block_size start [] = []
page_ends block_size start (s ∷ lens) =
    (start + div_ceil s block_size) ∷ page_ends block_size (start + div_ceil s block_size) lens

-- The lengths of the queries that start at these places.
abbrev pub queries : List ℕ → List ℕ
queries [] = []
queries (a ∷ []) = []
queries (a ∷ b ∷ loc) = (b - a) ∷ queries (b ∷ loc)

abbrev pub greatest : List ℕ → ℕ
greatest [] = 0
greatest (x ∷ xs) = max x (greatest xs)

abbrev pub all_one : List ℕ → Bool
all_one [] = true
all_one (x ∷ xs) = x == 1 && all_one xs

and-true : (a : Bool) → a ≡ a && true
and-true true = refl
and-true false = refl

and_assoc : (a b c : Bool) → (a && b) && c ≡ a && (b && c)
and_assoc true b c = refl
and_assoc false b c = refl

find_negative-cases :
    (k : ℕ) (row : List ℤ)
    → ((find_negative k row ≡ none) × All IsBlockId row)
      ⊎ ((h : ℕ × ℤ) × (find_negative k row ≡ some h) × ¬ All IsBlockId row)
unfolding find_negative
find_negative-cases k [] = inl (refl, tt)
find_negative-cases k (pos n ∷ row) = elim (find_negative-cases (suc k) row) [
  | inl (e, all) ↦ inl (e, ((n, refl), all))
  | inr (h, e, bad) ↦ inr (h, e, λ all. bad all.1)
]
find_negative-cases k (negsuc n ∷ row) = inr ((k, negsuc n), refl, λ all. ground (arith, all.0.1))

check_seq-cases :
    (block_size seq seq_len q_len : ℕ) (row : List ℤ)
    → ((check_seq block_size seq seq_len q_len row ≡ none) × SeqFits block_size seq_len q_len row)
      ⊎ ((e : MetadataError) × (check_seq block_size seq seq_len q_len row ≡ some e)
          × ¬ SeqFits block_size seq_len q_len row)
unfolding check_seq
check_seq-cases block_size seq seq_len q_len row =
    let needed = div_ceil seq_len block_size in
    elim (Bool-cases (ltb seq_len q_len)) [
      | inl t ↦
          inr (query_longer_than_seq seq q_len seq_len, rw t refl, λ f. ground (arith, f.0, t))
      | inr t ↦ elim (Bool-cases (ltb (length row) needed)) [
        | inl u ↦ inr (
          not_enough_blocks seq (length row) needed seq_len,
          rw (t, u) refl,
          λ f. ground (arith, f.1, u),
        )
        | inr u ↦ elim (find_negative-cases 0 (take needed row)) [
          | inl (e, all) ↦ inl (rw (t, u, e) refl, (ground (arith, t), ground (arith, u), all))
          | inr (h, e, bad) ↦ inr (negative_block_id seq h.0 h.1, rw (t, u, e) refl, λ f. bad f.2)
        ]
      ]
    ]

-- What the loop adds to `md` for the sequences that are left.
abbrev pub Built : ℕ → List ℕ → List ℕ → List (List ℤ) → ℕ → StepMetadata → StepMetadata → Type 0
Built block_size lens loc rows total md out =
    (out.kv_indices ≡ md.kv_indices ++ pages block_size lens rows)
    × (out.kv_indptr ≡ md.kv_indptr ++ map as_i32 (page_ends block_size total lens))
    × (out.qo_indptr ≡ md.qo_indptr ++ map as_i32 (drop 1 loc))
    × (out.kv_last_page_len ≡ md.kv_last_page_len ++ map (λ s. last_page_len s block_size) lens)
    × (out.max_kv_len ≡ max md.max_kv_len (greatest lens))
    × (out.max_q_len ≡ max md.max_q_len (greatest (queries loc)))
    × (out.is_pure_decode ≡ md.is_pure_decode && all_one (queries loc))
    × (out.base ≡ md.base)

as_i32-wrap :
    (total n kv_pages : ℕ) → kv_pages ≡ total % 2 ^ 32 → as_i32 (kv_pages + n) ≡ as_i32 (total + n)
unfolding as_i32
as_i32-wrap total n kv_pages h =
    let e : (kv_pages + n) % 2 ^ 32 ≡ (total + n) % 2 ^ 32 = omega (arith, h) in rw e refl

pub add_seqs-cases :
    (block_size seq : ℕ) (lens loc : List ℕ) (rows : List (List ℤ)) (kv_pages total : ℕ)
    (md : StepMetadata)
    → length loc ≡ length lens + 1
    → length rows ≡ length lens
    → kv_pages ≡ total % 2 ^ 32
    → (Fits block_size lens loc rows
        × ((out : StepMetadata) × (add_seqs block_size seq lens loc rows kv_pages md ≡ ok out)
            × Built block_size lens loc rows total md out))
      ⊎ ((e : MetadataError) × (add_seqs block_size seq lens loc rows kv_pages md ≡ err e)
          × ¬ Fits block_size lens loc rows)
unfolding add_seqs Fits pages page_ends add_seq
add_seqs-cases block_size seq [] (a ∷ []) rows kv_pages total md l r h = inl (
  tt,
  (
    md,
    refl,
    (
      sym (append-nil _),
      sym (append-nil _),
      sym (append-nil _),
      sym (append-nil _),
      omega arith,
      omega arith,
      and-true md.is_pure_decode,
      refl,
    ),
  ),
)
add_seqs-cases block_size seq [] [] rows kv_pages total md l r h = absurd (omega (arith, l))
add_seqs-cases block_size seq [] (a ∷ b ∷ loc) rows kv_pages total md l r h =
    absurd (omega (arith, l))
add_seqs-cases block_size seq (s ∷ lens) [] rows kv_pages total md l r h = absurd (omega (arith, l))
add_seqs-cases block_size seq (s ∷ lens) (a ∷ []) rows kv_pages total md l r h =
    absurd (omega (arith, l))
add_seqs-cases block_size seq (s ∷ lens) (a ∷ b ∷ loc) [] kv_pages total md l r h =
    absurd (omega (arith, r))
add_seqs-cases block_size seq (s ∷ lens) (a ∷ b ∷ loc) (row ∷ rows) kv_pages total md l r h =
    let n = div_ceil s block_size in
    elim (check_seq-cases block_size seq s (b - a) row) [
      | inr (e, c, bad) ↦ inr (e, rw (add_seqs, c) refl, λ f. bad f.0)
      | inl (c, fits) ↦
          let next = add_seq block_size s (b - a) b row kv_pages md in
          elim (add_seqs-cases block_size (suc seq) lens (b ∷ loc) rows ((kv_pages + n) % 2 ^ 32)
            (total + n) next (omega (arith, l)) (omega (arith, r)) (omega (arith, h))) [
              | inr (e, f, bad) ↦ inr (e, rw (add_seqs, c) f, λ g. bad g.1)
              | inl (rest, (out, f, (is, ptr, qo, last, kv, q, decode, base))) ↦ inl (
                (fits, rest),
                (
                  out,
                  rw (add_seqs, c) f,
                  (
                    is ∙ append_assoc md.kv_indices (take n row) _,
                    ptr
                        ∙ append_assoc md.kv_indptr _ _
                        ∙ ap
                            (λ z.
                              md.kv_indptr
                              ++ z ∷ map as_i32 (page_ends block_size (total + n) lens))
                            (as_i32-wrap total n kv_pages h),
                    qo ∙ append_assoc md.qo_indptr _ _,
                    last ∙ append_assoc md.kv_last_page_len _ _,
                    omega (arith, kv),
                    omega (arith, q),
                    decode ∙ and_assoc md.is_pure_decode (b - a == 1) (all_one (queries (b ∷ loc))),
                    base,
                  ),
                ),
              )
            ]
    ]
