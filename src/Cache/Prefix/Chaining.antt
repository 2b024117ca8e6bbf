-- ===== src/Cache/Prefix/Chaining.antt =====
-- crates/rllm-cache/src/prefix.rs: what the hashes of a prompt depend on.
use r_llm.Shared.{
  ℕ, zero, suc, ◌+◌, ◌*◌, ◌/◌, ◌<◌, ◌≤◌, true, Option, none, some, List, [], ◌∷◌, ◌++◌, ◌≡◌, refl,
  ◌∙◌, ap, ◌⊎◌, inl, inr, arith, length, take, drop, get_elem?, is_some, Map, lookup, length-append,
  Option-cases, All,
}
use r_llm.Cache.Prefix.{
  Digests, PrefixHashAlgorithm, hash_input, block_input, hash_blocks, compute_block_hashes,
  count_hits, find_prefix_hit,
}

-- A slice that ends inside `xs` is the same slice of `xs ++ ys`.
take-drop-append :
    (n k : ℕ) (xs ys : List ℕ) → k + n ≤ length xs → take n (drop k (xs ++ ys)) ≡ take n (drop k xs)
take-drop-append zero zero xs ys h = refl
take-drop-append (suc n) zero [] ys h = absurd (omega arith)
take-drop-append (suc n) zero (x ∷ xs) ys h =
    ap (◌∷◌ x) (take-drop-append n zero xs ys (omega arith))
take-drop-append n (suc k) [] ys h = absurd (omega arith)
take-drop-append n (suc k) (x ∷ xs) ys h = take-drop-append n k xs ys (omega arith)

module _ (d : Digests) (algo : PrefixHashAlgorithm) (block_size : ℕ) (salt : Option (List ℕ)) where
  hash_blocks-append :
      (xs ys : List ℕ) (left i parent : ℕ)
      → (i + left) * block_size ≤ length xs
      → hash_blocks d algo (xs ++ ys) block_size salt left i parent
        ≡ hash_blocks d algo xs block_size salt left i parent
  unfolding hash_blocks
  hash_blocks-append xs ys zero i parent h = refl
  hash_blocks-append xs ys (suc left) i parent h =
      let same : take block_size (drop (i * block_size) (xs ++ ys))
          ≡ take block_size (drop (i * block_size) xs) =
        take-drop-append block_size (i * block_size) xs ys (grind arith) in
      let hash = hash_input d algo (block_input xs block_size salt parent i) in
      rw same (ap (◌∷◌ hash) (hash_blocks-append xs ys left (suc i) hash (grind arith)))

  take-hash_blocks :
      (tokens : List ℕ) (k left i parent : ℕ)
      → k ≤ left
      → take k (hash_blocks d algo tokens block_size salt left i parent)
        ≡ hash_blocks d algo tokens block_size salt k i parent
  unfolding hash_blocks
  take-hash_blocks tokens zero left i parent h = refl
  take-hash_blocks tokens (suc k) zero i parent h = absurd (omega arith)
  take-hash_blocks tokens (suc k) (suc left) i parent h =
      let hash = hash_input d algo (block_input tokens block_size salt parent i) in
      ap (◌∷◌ hash) (take-hash_blocks tokens k left (suc i) hash (omega arith))

  length-hash_blocks :
      (tokens : List ℕ) (left i parent : ℕ)
      → length (hash_blocks d algo tokens block_size salt left i parent) ≡ left
  unfolding hash_blocks
  length-hash_blocks tokens zero i parent = refl
  length-hash_blocks tokens (suc left) i parent = ap suc (
      length-hash_blocks tokens left (suc i)
        (hash_input d algo (block_input tokens block_size salt parent i)))

  -- For a positive block size, a prompt of `k` full blocks has `k` hashes, and they are the first
  -- `k` hashes of every prompt that extends it.
  pub compute_block_hashes-append :
      (xs ys : List ℕ) (k : ℕ)
      → 0 < block_size
      → length xs ≡ k * block_size
      → (hs hs' : List ℕ) × (compute_block_hashes d algo xs block_size salt ≡ some hs)
        × (compute_block_hashes d algo (xs ++ ys) block_size salt ≡ some hs')
        × (length hs ≡ k)
        × (take k hs' ≡ hs)
  unfolding compute_block_hashes
  compute_block_hashes-append xs ys k pos full =
      let blocks : length xs / block_size ≡ k = grind arith in
      let more : k ≤ length (xs ++ ys) / block_size = grind (arith, length-append xs ys) in
      (
        hash_blocks d algo xs block_size salt k 0 0,
        hash_blocks d algo (xs ++ ys) block_size salt (length (xs ++ ys) / block_size) 0 0,
        rw blocks (ground arith),
        ground arith,
        length-hash_blocks xs k 0 0,
        take-hash_blocks (xs ++ ys) k _ 0 0 more
            ∙ hash_blocks-append xs ys k 0 0 (omega (arith, full)),
      )

-- The number of hits is the length of the longest prefix of cached hashes.
count_hits-longest :
    (hashes : List ℕ) (cached : Map ℕ) (i : ℕ)
    → (n : ℕ) × (count_hits hashes cached i ≡ i + n)
      × All (λ h. is_some (lookup h cached) ≡ true) (take n hashes)
      × ((n ≡ length hashes) ⊎ ((h : ℕ) × (get_elem? hashes n ≡ some h) × (lookup h cached ≡ none)))
unfolding count_hits
count_hits-longest [] cached i = (0, omega arith, tt, inl refl)
count_hits-longest (hash ∷ hashes) cached i = elim (Option-cases (lookup hash cached)) [
  | inl e ↦ (0, rw e (omega arith), tt, inr (hash, refl, e))
  | inr (v, e) ↦
      let (n, c, all, stop) = count_hits-longest hashes cached (suc i) in
      (
        suc n,
        rw (e, c) (omega arith),
        (rw e refl, all),
        elim stop [ inl q ↦ inl (ap suc q) | inr (h, g, l) ↦ inr (h, g, l) ],
      )
]

-- All the hashes that are counted as hits are cached, and the first hash behind them, if there is
-- one, is not.
pub find_prefix_hit-longest :
    (hashes : List ℕ) (cached : Map ℕ)
    → let n = find_prefix_hit hashes cached in
      All (λ h. is_some (lookup h cached) ≡ true) (take n hashes)
      × ((n ≡ length hashes) ⊎ ((h : ℕ) × (get_elem? hashes n ≡ some h) × (lookup h cached ≡ none)))
unfolding find_prefix_hit
find_prefix_hit-longest hashes cached =
    let (n, c, all, stop) = count_hits-longest hashes cached 0 in
    let e : count_hits hashes cached 0 ≡ n = omega arith in rw e (all, stop)
