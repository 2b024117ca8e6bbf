-- ===== src/Kernels/Batch.antt =====
-- crates/rllm-kernels/src/attention.rs: the constructors of `AttentionMetadata` and what is computed
-- from a batch. Sums of `u32` wrap at 32 bits, as in a release build.
use r_llm.Shared.{
  ℕ, zero, suc, ◌+◌, ◌-◌, ◌%◌, ◌^◌, min, Option, none, some, List, [], ◌∷◌, ◌==◌, leb,
  if◌then◌else◌, length, map,
}
use r_llm.Scheduler.Policy.{ℤ, pos, negsuc}
use r_llm.Kernels.Metadata.{AttentionMetadata}

-- `count` numbers from `first` on, as `u32`.
unfoldable count_up : ℕ → ℕ → List ℕ
count_up first zero = []
count_up first (suc count) = first % 2 ^ 32 ∷ count_up (suc first) count

unfoldable for_decode : List ℕ → List (List ℤ) → ℕ → AttentionMetadata
unfolding count_up
for_decode seq_lens block_tables max_num_blocks_per_seq = record {
  seq_lens = seq_lens;
  query_start_loc = count_up 0 (suc (length seq_lens));
  block_tables = block_tables;
  slot_mapping = [];
  num_prefill_tokens = 0;
  num_decode_tokens = length seq_lens;
  max_num_blocks_per_seq = max_num_blocks_per_seq;
  common_prefix_blocks = 0;
  sliding_window = none;
}

unfoldable for_decode_with_options : List ℕ → List (List ℤ) → ℕ → ℕ → Option ℕ → AttentionMetadata
unfolding for_decode
for_decode_with_options seq_lens block_tables max_num_blocks_per_seq common_prefix_blocks window =
    record (for_decode seq_lens block_tables max_num_blocks_per_seq) {
      common_prefix_blocks = common_prefix_blocks;
      sliding_window = window;
    }

-- The running sums that `cumulative` goes through.
unfoldable running_sums : ℕ → List ℕ → List ℕ
running_sums cumulative [] = []
running_sums cumulative (count ∷ counts) =
    (cumulative + count) % 2 ^ 32 ∷ running_sums ((cumulative + count) % 2 ^ 32) counts

unfoldable last_sum : ℕ → List ℕ → ℕ
last_sum cumulative [] = cumulative
last_sum cumulative (count ∷ counts) = last_sum ((cumulative + count) % 2 ^ 32) counts

unfoldable for_prefill : List ℕ → List ℕ → List (List ℤ) → ℕ → AttentionMetadata
unfolding running_sums last_sum
for_prefill seq_lens prompt_tokens_per_seq block_tables max_num_blocks_per_seq = record {
  seq_lens = seq_lens;
  query_start_loc = 0 ∷ running_sums 0 prompt_tokens_per_seq;
  block_tables = block_tables;
  slot_mapping = [];
  num_prefill_tokens = last_sum 0 prompt_tokens_per_seq;
  num_decode_tokens = 0;
  max_num_blocks_per_seq = max_num_blocks_per_seq;
  common_prefix_blocks = 0;
  sliding_window = none;
}

unfoldable pub num_tokens : AttentionMetadata → ℕ
num_tokens base = base.num_prefill_tokens + base.num_decode_tokens

-- How many leading blocks two tables share.
unfoldable count_common : List ℤ → List ℤ → ℕ
count_common [] ys = 0
count_common (x ∷ xs) [] = 0
count_common (pos a ∷ xs) (pos b ∷ ys) =
    let rest = count_common xs ys in if a == b then suc rest else 0
count_common (negsuc a ∷ xs) (negsuc b ∷ ys) =
    let rest = count_common xs ys in if a == b then suc rest else 0
count_common (pos a ∷ xs) (negsuc b ∷ ys) = 0
count_common (negsuc a ∷ xs) (pos b ∷ ys) = 0

unfoldable common_of : List ℤ → ℕ → List (List ℤ) → ℕ
unfolding count_common
common_of first common [] = common
common_of first common (table ∷ tables) =
    common_of first (min common (count_common first table)) tables

unfoldable common_blocks : List (List ℤ) → ℕ
unfolding common_of
common_blocks [] = 0
common_blocks (first ∷ []) = 0
common_blocks (first ∷ table ∷ tables) = common_of first (length first) (table ∷ tables)

unfoldable detect_common_prefix_blocks : AttentionMetadata → AttentionMetadata
unfolding common_blocks
detect_common_prefix_blocks base = record base {
  common_prefix_blocks = common_blocks base.block_tables;
}

-- The range of one sequence for a window, which is cut to a `u32`.
unfoldable window_range : Option ℕ → ℕ → ℕ × ℕ
window_range none len = (0, len)
window_range (some w) len =
    let window = w % 2 ^ 32 in if leb len window then (0, len) else (len - window, len)

unfoldable sliding_window_ranges : AttentionMetadata → List (ℕ × ℕ)
unfolding window_range
sliding_window_ranges base = map (window_range base.sliding_window) base.seq_lens

unfoldable sum_windows : Option ℕ → List ℕ → ℕ
sum_windows window [] = 0
sum_windows none (len ∷ lens) = len + sum_windows none lens
sum_windows (some w) (len ∷ lens) = min len w + sum_windows (some w) lens

unfoldable num_window_tokens : AttentionMetadata → ℕ
unfolding sum_windows
num_window_tokens base = sum_windows base.sliding_window base.seq_lens
