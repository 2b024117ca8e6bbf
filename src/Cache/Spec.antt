-- ===== src/Cache/Spec.antt =====
-- crates/rllm-cache/src/spec.rs, and `DType` of crates/rllm-core/src/dtype.rs. Products and sums of
-- `usize` wrap at 64 bits, as in a release build.
pub mod Budget
use r_llm.Shared.{ℕ, ◌+◌, ◌-◌, ◌*◌, ◌/◌, ◌%◌, ◌^◌, Option, List, [], ◌∷◌, ◌==◌, if◌then◌else◌}

pub data DType : Type 0 where
  f32 f16 bf16 fp8_e4m3 fp8_e5m2 int8 int4 : DType

unfoldable pub bytes_per_scalar : DType → ℕ
bytes_per_scalar f32 = 4
bytes_per_scalar f16 = 2
bytes_per_scalar bf16 = 2
bytes_per_scalar _ = 1

pub data KvLayout : Type 0 where
  nhd hnd : KvLayout

pub record KvCacheSpec : Type 0 where
  pub block_size : ℕ
  pub num_layers : ℕ
  pub num_kv_heads : ℕ
  pub head_dim : ℕ
  pub dtype : DType
  pub sliding_window : Option ℕ

pub record KvCacheConfig : Type 0 where
  pub num_blocks : ℕ
  pub spec : KvCacheSpec

infixl 7 ◌*ᵤ◌
abbrev ◌*ᵤ◌ : ℕ → ℕ → ℕ
a *ᵤ b = a * b % 2 ^ 64

unfoldable pub bytes_per_block : KvCacheSpec → ℕ
unfolding bytes_per_scalar
bytes_per_block s =
    2 *ᵤ s.num_layers *ᵤ s.block_size *ᵤ s.num_kv_heads *ᵤ s.head_dim *ᵤ bytes_per_scalar s.dtype

unfoldable kv_bytes_per_block_per_layer : KvCacheSpec → ℕ
unfolding bytes_per_scalar
kv_bytes_per_block_per_layer s =
    s.block_size *ᵤ s.num_kv_heads *ᵤ s.head_dim *ᵤ bytes_per_scalar s.dtype

-- `utilized total` stands for the floating-point product with the utilization, as a `usize`.
unfoldable pub num_blocks_from_available_memory : KvCacheSpec → (ℕ → ℕ) → ℕ → ℕ → ℕ → ℕ
unfolding bytes_per_block
num_blocks_from_available_memory s utilized total_gpu_bytes model_weight_bytes
      activation_peak_bytes =
    let usable = utilized total_gpu_bytes in
    let reserved = (model_weight_bytes + activation_peak_bytes) % 2 ^ 64 in
    let available = usable - reserved in
    if bytes_per_block s == 0 then 0 else available / bytes_per_block s

unfoldable key_shape : KvCacheSpec → ℕ → KvLayout → List ℕ
key_shape s num_blocks nhd = num_blocks ∷ s.num_kv_heads ∷ s.head_dim ∷ s.block_size ∷ []
key_shape s num_blocks hnd = num_blocks ∷ s.block_size ∷ s.num_kv_heads ∷ s.head_dim ∷ []

unfoldable value_shape : KvCacheSpec → ℕ → KvLayout → List ℕ
value_shape s num_blocks nhd = num_blocks ∷ s.num_kv_heads ∷ s.head_dim ∷ s.block_size ∷ []
value_shape s num_blocks hnd = num_blocks ∷ s.block_size ∷ s.num_kv_heads ∷ s.head_dim ∷ []
