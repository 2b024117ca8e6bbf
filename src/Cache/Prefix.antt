-- ===== src/Cache/Prefix.antt =====
-- crates/rllm-cache/src/prefix.rs: chained hashes of full blocks. The digests of the crates sha2 and
-- xxhash-rust are a record's fields. An outer `none` is the panic of a division by a block size of 0.
pub mod Chaining
use mathlib.Core.List.{reverse}
use r_llm.Shared.{
  ℕ, zero, suc, ◌+◌, ◌*◌, ◌/◌, ◌%◌, Bool, true, false, ◌&&◌, Option, none, some, List, [], ◌∷◌,
  ◌++◌, ◌==◌, ltb, leb, if◌then◌else◌, length, take, drop, is_some, Map, lookup,
}

pub record Digests : Type 0 where
  -- The 32 bytes of SHA-256, and the 64-bit xxh3 hash.
  pub sha256 : List ℕ → List ℕ
  pub xxh3_64 : List ℕ → ℕ

pub data PrefixHashAlgorithm : Type 0 where
  sha256_cbor xx_hash : PrefixHashAlgorithm

pub record BlockHashInput : Type 0 where
  pub parent_hash : ℕ
  pub token_ids : List ℕ
  pub cache_salt : Option (List ℕ)
  pub extra_keys : List (List ℕ × List ℕ)

-- `n.to_le_bytes()` of an integer of `width` bytes.
abbrev to_le_bytes : ℕ → ℕ → List ℕ
to_le_bytes zero n = []
to_le_bytes (suc width) n = n % 256 ∷ to_le_bytes width (n / 256)

abbrev to_be_bytes : ℕ → ℕ → List ℕ
to_be_bytes width n = reverse (to_le_bytes width n)

abbrev from_be_bytes : ℕ → List ℕ → ℕ
from_be_bytes acc [] = acc
from_be_bytes acc (b ∷ bs) = from_be_bytes (acc * 256 + b) bs

abbrev token_bytes : List ℕ → List ℕ
token_bytes [] = []
token_bytes (t ∷ ts) = to_le_bytes 4 t ++ token_bytes ts

-- A field behind its length, which `len_bytes` writes.
abbrev prefixed : (ℕ → List ℕ) → List ℕ → List ℕ
prefixed len_bytes s = len_bytes (length s) ++ s

abbrev salt_bytes : (ℕ → List ℕ) → Option (List ℕ) → List ℕ
salt_bytes len_bytes none = []
salt_bytes len_bytes (some salt) = prefixed len_bytes salt

abbrev extra_bytes : (ℕ → List ℕ) → List (List ℕ × List ℕ) → List ℕ
extra_bytes len_bytes [] = []
extra_bytes len_bytes ((key, value) ∷ rest) =
    prefixed len_bytes key ++ prefixed len_bytes value ++ extra_bytes len_bytes rest

-- The bytes that are hashed, but for the order of the bytes of a length.
unfoldable hashed_bytes : (ℕ → List ℕ) → BlockHashInput → List ℕ
hashed_bytes len_bytes input =
    to_be_bytes 8 input.parent_hash
    ++ (token_bytes input.token_ids
        ++ (salt_bytes len_bytes input.cache_salt ++ extra_bytes len_bytes input.extra_keys))

unfoldable sha256_cbor_hash : Digests → BlockHashInput → ℕ
unfolding hashed_bytes
sha256_cbor_hash d input = from_be_bytes 0 (take 8 (d.sha256 (hashed_bytes (to_le_bytes 8) input)))

unfoldable xxhash_hash : Digests → BlockHashInput → ℕ
unfolding hashed_bytes
xxhash_hash d input = d.xxh3_64 (hashed_bytes (to_be_bytes 8) input)

unfoldable pub hash_input : Digests → PrefixHashAlgorithm → BlockHashInput → ℕ
unfolding sha256_cbor_hash xxhash_hash
hash_input d sha256_cbor input = sha256_cbor_hash d input
hash_input d xx_hash input = xxhash_hash d input

unfoldable compute_block_hash : Digests → PrefixHashAlgorithm → BlockHashInput → ℕ → Option ℕ
unfolding hash_input
compute_block_hash d algo input block_size =
    if ltb (length input.token_ids) block_size then none else some (hash_input d algo input)

-- The input of block `i`: its tokens, behind its parent's hash.
abbrev pub block_input : List ℕ → ℕ → Option (List ℕ) → ℕ → ℕ → BlockHashInput
block_input tokens block_size salt parent i = record {
  parent_hash = parent;
  token_ids = take block_size (drop (i * block_size) tokens);
  cache_salt = salt;
  extra_keys = [];
}

-- `for i in i..` over `left` rounds.
unfoldable pub hash_blocks :
    Digests → PrefixHashAlgorithm → List ℕ → ℕ → Option (List ℕ) → ℕ → ℕ → ℕ → List ℕ
unfolding hash_input
hash_blocks d algo tokens block_size salt zero i parent = []
hash_blocks d algo tokens block_size salt (suc left) i parent =
    let hash = hash_input d algo (block_input tokens block_size salt parent i) in
    hash ∷ hash_blocks d algo tokens block_size salt left (suc i) hash

unfoldable pub compute_block_hashes :
    Digests → PrefixHashAlgorithm → List ℕ → ℕ → Option (List ℕ) → Option (List ℕ)
unfolding hash_blocks
compute_block_hashes d algo tokens block_size salt =
    if block_size == 0
    then none
    else some (hash_blocks d algo tokens block_size salt (length tokens / block_size) 0 0)

unfoldable full_cache_hit_info : ℕ → ℕ → ℕ → ℕ × Bool
full_cache_hit_info prompt_len num_cached_blocks block_size =
    (num_cached_blocks, leb prompt_len (num_cached_blocks * block_size) && ltb 0 num_cached_blocks)

-- The loop of `find_prefix_hit` at index `i`.
unfoldable pub count_hits : List ℕ → Map ℕ → ℕ → ℕ
count_hits [] cached i = i
count_hits (hash ∷ hashes) cached i =
    let rest = count_hits hashes cached (suc i) in if is_some (lookup hash cached) then rest else i

unfoldable pub find_prefix_hit : List ℕ → Map ℕ → ℕ
unfolding count_hits
find_prefix_hit hashes cached = count_hits hashes cached 0
