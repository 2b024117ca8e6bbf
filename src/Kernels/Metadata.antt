-- ===== src/Kernels/Metadata.antt =====
-- crates/rllm-kernels/src/backend/metadata.rs, `StepMetadata::from_attention_metadata`, and the type
-- `AttentionMetadata` of attention.rs. The loop over the sequences walks down the three vectors that
-- it indexes; an index out of range would be a panic.
pub mod Csr
pub mod Pages
pub mod Outcome
use r_llm.Shared.{
  ℕ, zero, suc, ◌+◌, ◌-◌, ◌%◌, ◌^◌, max, Bool, true, false, not, ◌&&◌, ◌||◌, Option, none, some,
  List, [], ◌∷◌, ◌++◌, ◌==◌, ltb, if◌then◌else◌, length, take, div_ceil,
}
use r_llm.Scheduler.Policy.{ℤ, pos, negsuc}

pub record AttentionMetadata : Type 0 where
  pub seq_lens : List ℕ
  pub query_start_loc : List ℕ
  pub block_tables : List (List ℤ)
  pub slot_mapping : List ℤ
  pub num_prefill_tokens : ℕ
  pub num_decode_tokens : ℕ
  pub max_num_blocks_per_seq : ℕ
  pub common_prefix_blocks : ℕ
  pub sliding_window : Option ℕ

unfoldable pub new : AttentionMetadata
new = record {
  seq_lens = [];
  query_start_loc = 0 ∷ [];
  block_tables = [];
  slot_mapping = [];
  num_prefill_tokens = 0;
  num_decode_tokens = 0;
  max_num_blocks_per_seq = 0;
  common_prefix_blocks = 0;
  sliding_window = none;
}

unfoldable pub num_seqs : AttentionMetadata → ℕ
num_seqs base = length base.seq_lens

pub data MetadataError : Type 0 where
  invalid_block_size query_start_loc_not_zero query_start_loc_not_monotonic : MetadataError
  query_start_loc_length : ℕ → ℕ → MetadataError
  block_tables_length : ℕ → ℕ → MetadataError
  query_longer_than_seq : ℕ → ℕ → ℕ → MetadataError
  not_enough_blocks : ℕ → ℕ → ℕ → ℕ → MetadataError
  negative_block_id : ℕ → ℕ → ℤ → MetadataError

pub record StepMetadata : Type 0 where
  pub base : AttentionMetadata
  pub qo_indptr : List ℤ
  pub kv_indptr : List ℤ
  pub kv_indices : List ℤ
  pub kv_last_page_len : List ℤ
  pub max_q_len : ℕ
  pub max_kv_len : ℕ
  pub is_pure_decode : Bool

pub data MetadataResult : Type 0 where
  ok : StepMetadata → MetadataResult
  err : MetadataError → MetadataResult
  panicked : MetadataResult

-- `n as i32`: the low 32 bits in two's complement.
unfoldable pub as_i32 : ℕ → ℤ
as_i32 n =
    let bits = n % 2 ^ 32 in if ltb bits (2 ^ 31) then pos bits else negsuc (2 ^ 32 - 1 - bits)

-- `query_start_loc.windows(2).any(|w| w[1] < w[0])`
unfoldable pub descends : List ℕ → Bool
descends [] = false
descends (a ∷ []) = false
descends (a ∷ b ∷ loc) = ltb b a || descends (b ∷ loc)

-- The first negative id, with its index counted from `index`.
unfoldable pub find_negative : ℕ → List ℤ → Option (ℕ × ℤ)
find_negative index [] = none
find_negative index (pos n ∷ row) = find_negative (suc index) row
find_negative index (negsuc n ∷ row) = some (index, negsuc n)

unfoldable pub last_page_len : ℕ → ℕ → ℤ
unfolding as_i32
last_page_len seq_len block_size =
    if seq_len == 0
    then pos 0
    else if seq_len % block_size == 0
    then as_i32 block_size
    else as_i32 (seq_len % block_size)

-- What one turn of the loop adds. `kv_pages` is the bit pattern of the `i32` counter, which wraps.
unfoldable pub add_seq : ℕ → ℕ → ℕ → ℕ → List ℤ → ℕ → StepMetadata → StepMetadata
unfolding as_i32 last_page_len
add_seq block_size seq_len q_len end row kv_pages md = record md {
  kv_indices = md.kv_indices ++ take (div_ceil seq_len block_size) row;
  kv_last_page_len = md.kv_last_page_len ++ last_page_len seq_len block_size ∷ [];
  max_q_len = max md.max_q_len q_len;
  max_kv_len = max md.max_kv_len seq_len;
  is_pure_decode = md.is_pure_decode && q_len == 1;
  qo_indptr = md.qo_indptr ++ as_i32 end ∷ [];
  kv_indptr = md.kv_indptr ++ as_i32 (kv_pages + div_ceil seq_len block_size) ∷ [];
}

-- The checks of one turn of the loop, in their order.
unfoldable pub check_seq : ℕ → ℕ → ℕ → ℕ → List ℤ → Option MetadataError
unfolding find_negative
check_seq block_size seq seq_len q_len row =
    let needed = div_ceil seq_len block_size in
    if ltb seq_len q_len
    then some (query_longer_than_seq seq q_len seq_len)
    else if ltb (length row) needed
    then some (not_enough_blocks seq (length row) needed seq_len)
    else elim (find_negative 0 (take needed row)) [
      | none ↦ none
      | some (index, block) ↦ some (negative_block_id seq index block)
    ]

-- The loop `for seq in 0..num_seqs` from the sequence `seq` on.
unfoldable pub add_seqs :
    ℕ → ℕ → List ℕ → List ℕ → List (List ℤ) → ℕ → StepMetadata → MetadataResult
unfolding check_seq add_seq
add_seqs block_size seq [] loc rows kv_pages md = ok md
add_seqs block_size seq (seq_len ∷ lens) (start ∷ end ∷ loc) (row ∷ rows) kv_pages md =
    let rest =
      add_seqs block_size (suc seq) lens (end ∷ loc) rows
        ((kv_pages + div_ceil seq_len block_size) % 2 ^ 32)
        (add_seq block_size seq_len (end - start) end row kv_pages md) in
    elim (check_seq block_size seq seq_len (end - start) row) [ some e ↦ err e | none ↦ rest ]
add_seqs block_size seq (seq_len ∷ lens) _ _ kv_pages md = panicked

unfoldable pub starts_at_zero : List ℕ → Bool
starts_at_zero [] = false
starts_at_zero (a ∷ loc) = a == 0

unfoldable pub empty_step : AttentionMetadata → StepMetadata
empty_step base = record {
  base = base;
  qo_indptr = pos 0 ∷ [];
  kv_indptr = pos 0 ∷ [];
  kv_indices = [];
  kv_last_page_len = [];
  max_q_len = 0;
  max_kv_len = 0;
  is_pure_decode = true;
}

unfoldable pub from_attention_metadata : AttentionMetadata → ℕ → MetadataResult
unfolding num_seqs descends starts_at_zero add_seqs empty_step
from_attention_metadata base block_size =
    let loc = base.query_start_loc in
    if block_size == 0
    then err invalid_block_size
    else if not (length loc == num_seqs base + 1)
    then err (query_start_loc_length (length loc) (num_seqs base + 1))
    else if not (starts_at_zero loc)
    then err query_start_loc_not_zero
    else if not (length base.block_tables == num_seqs base)
    then err (block_tables_length (length base.block_tables) (num_seqs base))
    else if descends loc
    then err query_start_loc_not_monotonic
    else add_seqs block_size 0 base.seq_lens loc base.block_tables 0 (empty_step base)
