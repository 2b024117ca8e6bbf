-- ===== src/Cache/Spec/Budget.antt =====
-- crates/rllm-cache/src/spec.rs, `num_blocks_from_available_memory` and `bytes_per_block`.
use r_llm.Shared.{ℕ, ◌*◌, div_ceil}
use r_llm.Cache.Spec.{DType, f32, f16, bf16, fp8_e4m3, fp8_e5m2, int8, int4, KvCacheSpec}

-- The bits of a scalar.
abbrev bits : DType → ℕ
bits f32 = 32
bits f16 = 16
bits bf16 = 16
bits fp8_e4m3 = 8
bits fp8_e5m2 = 8
bits int8 = 8
bits int4 = 4

-- The bytes of a block, with no wrap-around: a key and a value for each layer, token and head, of
-- `head_dim` scalars, each in whole bytes.
abbrev pub block_bytes : KvCacheSpec → ℕ
block_bytes s =
    2 * s.num_layers * s.block_size * s.num_kv_heads * s.head_dim * div_ceil (bits s.dtype) 8
