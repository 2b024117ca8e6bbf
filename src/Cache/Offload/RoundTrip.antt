-- ===== src/Cache/Offload/RoundTrip.antt =====
-- crates/rllm-cache/src/offload.rs: what is put is got back, and no other block is touched.
use r_llm.Shared.{
  mul-lt_next, ℕ, zero, suc, ◌+◌, ◌*◌, ◌≤◌, ◌<◌, true, false, none, some, List, [], ◌∷◌, ◌≡◌, refl,
  sym, ◌∙◌, ap, subst, ◌≢◌, ◌⊎◌, inl, inr, arith, ◌==◌, if◌then◌else◌, length, Bool-cases,
  Option-cases, NotIn, Distinct,
}
use r_llm.Cache.Offload.{
  CpuKvOffloadStore, Key, same_key, find_slot, insert_slot, write_bytes, read_bytes, stored,
  wrong_size, store_full, store_at, put, get,
}

List-cases {ℓ} : {A : Type ℓ} (xs : List A) → (xs ≡ []) ⊎ ((x : A) × (ys : List A) × (xs ≡ x ∷ ys))
List-cases [] = inl refl
List-cases (x ∷ xs) = inr (x, xs, refl)

read-same :
    (n offset : ℕ) (f g : ℕ → ℕ)
    → ((a : ℕ) → offset ≤ a → a < offset + n → f a ≡ g a)
    → read_bytes offset n f ≡ read_bytes offset n g
unfolding read_bytes
read-same zero offset f g same = refl
read-same (suc n) offset f g same =
    let h = same offset (omega arith) (omega arith) in
    let rest =
      read-same n (suc offset) f g (λ a l u. same a (omega (arith, l)) (omega (arith, u))) in
    rw (h, rest) refl

write-outside :
    (bytes : List ℕ) (offset a : ℕ) (f : ℕ → ℕ)
    → (a < offset) ⊎ (offset + length bytes ≤ a)
    → write_bytes offset bytes f a ≡ f a
unfolding write_bytes
write-outside [] offset a f h = refl
write-outside (b ∷ bytes) offset a f h =
    let rest =
      write-outside bytes (suc offset) a (λ c. if c == offset then b else f c)
        (ground (arith, h)) in
    ground (arith, rest, h)

read-write :
    (bytes : List ℕ) (offset : ℕ) (f : ℕ → ℕ)
    → read_bytes offset (length bytes) (write_bytes offset bytes f) ≡ bytes
unfolding read_bytes write_bytes
read-write [] offset f = refl
read-write (b ∷ bytes) offset f =
    let g : ℕ → ℕ = λ a. if a == offset then b else f a in
    let e = write-outside bytes (suc offset) offset g (inl (omega arith)) in
    let v : g offset ≡ b = ground arith in rw (e, v, read-write bytes (suc offset) g) refl

find-insert :
    (k j : Key) (slot : ℕ) (m : List (Key × ℕ))
    → find_slot j (insert_slot k slot m) ≡ (if same_key k j then some slot else find_slot j m)
unfolding find_slot insert_slot same_key
find-insert k j slot [] = refl
find-insert k j slot ((i, old) ∷ m) = ground (arith, find-insert k j slot m)

-- Each key has its own slot, and no slot of a key is free.
abbrev pub IsStore : CpuKvOffloadStore → Type 0
IsStore s =
    ((k j : Key) (slot : ℕ)
      → find_slot k s.slots ≡ some slot
      → find_slot j s.slots ≡ some slot
      → same_key k j ≡ true)
    × ((k : Key) (slot : ℕ) → find_slot k s.slots ≡ some slot → NotIn slot s.free_slots)
    × Distinct s.free_slots

apart-blocks : (i j n a : ℕ) → i ≢ j → i * n ≤ a → a < i * n + n → (a < j * n) ⊎ (j * n + n ≤ a)
apart-blocks i j n a h l u =
    let order : (i < j) ⊎ (j < i) = ground (arith, h) in
    elim order [
      | inl b ↦ inl (omega (arith, u, mul-lt_next i j n b))
      | inr b ↦ inr (omega (arith, l, mul-lt_next j i n b))
    ]

get-found :
    (s : CpuKvOffloadStore) (r b k : ℕ)
    → find_slot (r, b) s.slots ≡ some k
    → get s r b ≡ some (read_bytes (k * s.block_size_bytes) s.block_size_bytes s.storage)
unfolding get
get-found s r b k e = rw (get, e) refl

get-missing : (s : CpuKvOffloadStore) (r b : ℕ) → find_slot (r, b) s.slots ≡ none → get s r b ≡ none
unfolding get
get-missing s r b e = rw (get, e) refl

-- Storing the bytes at a slot that no other key has: they are read back, the other keys read what
-- they read before, and every slot is still in one place.
abbrev Stores : CpuKvOffloadStore → Key → List ℕ → CpuKvOffloadStore → Type 0
Stores s (r, b) bytes s' =
    (get s' r b ≡ some bytes)
    × ((q c : ℕ) → same_key (r, b) (q, c) ≡ false → get s' q c ≡ get s q c)
    × IsStore s'

module _ (s : CpuKvOffloadStore) (key : Key) (bytes : List ℕ) (slot : ℕ) (free : List ℕ) where
  get-same :
      (q c : ℕ)
      → ((i : Key) → find_slot i s.slots ≡ some slot → same_key key i ≡ true)
      → length bytes ≡ s.block_size_bytes
      → same_key key (q, c) ≡ false
      → get (store_at s key bytes slot free) q c ≡ get s q c
  unfolding store_at
  get-same q c owned len other =
      let n = s.block_size_bytes in
      let s' = store_at s key bytes slot free in
      let e = find-insert key (q, c) slot s.slots in
      elim (Option-cases (find_slot (q, c) s.slots)) [
        | inl f ↦
            let g : find_slot (q, c) s'.slots ≡ none = ground (arith, e, other, f) in
            get-missing s' q c g ∙ sym (get-missing s q c f)
        | inr (k, f) ↦
            let g : find_slot (q, c) s'.slots ≡ some k = ground (arith, e, other, f) in
            let apart : k ≢ slot = λ h. ground (arith, owned (q, c), h, f, other) in
            get-found s' q c k g
            ∙ ap some (
                read-same n (k * n) (write_bytes (slot * n) bytes s.storage) s.storage (λ a l u.
                  write-outside bytes (slot * n) a s.storage
                    (rw len (apart-blocks k slot n a apart l u))))
            ∙ sym (get-found s q c k f)
      ]

  get-stored :
      (r b : ℕ)
      → key ≡ (r, b)
      → length bytes ≡ s.block_size_bytes
      → get (store_at s key bytes slot free) r b ≡ some bytes
  unfolding store_at same_key
  get-stored r b same len =
      let s' = store_at s key bytes slot free in
      let e = find-insert key (r, b) slot s.slots in
      let g : find_slot (r, b) s'.slots ≡ some slot = ground (arith, e, same) in
      get-found s' r b slot g
      ∙ ap some (
          subst
            (λ n.
              read_bytes (slot * s.block_size_bytes) n
                (write_bytes (slot * s.block_size_bytes) bytes s.storage)
              ≡ bytes)
            len (read-write bytes (slot * s.block_size_bytes) s.storage))

  store_at-IsStore :
      ((i : Key) → find_slot i s.slots ≡ some slot → same_key key i ≡ true)
      → ((k : Key) (n : ℕ) → find_slot k s.slots ≡ some n → same_key key k ≡ false → NotIn n free)
      → IsStore s
      → NotIn slot free
      → Distinct free
      → IsStore (store_at s key bytes slot free)
  unfolding store_at same_key
  store_at-IsStore owned out (own, apart, distinct) fresh distinct' = (
    (λ k j n f g. ground (
      arith,
      find-insert key k slot s.slots,
      find-insert key j slot s.slots,
      owned k,
      owned j,
      own k j n,
      f,
      g,
    )),
    (λ k n f. ground (arith, find-insert key k slot s.slots, out k n, fresh, f)),
    distinct',
  )

-- `put` in all its branches.
abbrev pub PutOutcome : CpuKvOffloadStore → ℕ → ℕ → List ℕ → Type 0
PutOutcome s r b bytes =
    ((length bytes ≢ s.block_size_bytes)
      × (put s r b bytes ≡ wrong_size (length bytes) s.block_size_bytes))
    ⊎ (((get s r b ≡ none) × (s.free_slots ≡ []) × (put s r b bytes ≡ store_full))
        ⊎ ((s' : CpuKvOffloadStore) × (put s r b bytes ≡ stored s') × Stores s (r, b) bytes s'))

module _ (s : CpuKvOffloadStore) (r b : ℕ) (bytes : List ℕ) (valid : IsStore s) where
  put-old :
      (slot : ℕ)
      → length bytes ≡ s.block_size_bytes
      → find_slot (r, b) s.slots ≡ some slot
      → Stores s (r, b) bytes (store_at s (r, b) bytes slot s.free_slots)
  put-old slot len f =
      let key : Key = (r, b) in
      let owned : (i : Key) → find_slot i s.slots ≡ some slot → same_key key i ≡ true =
        λ i. valid.0 key i slot f in
      (
        get-stored s key bytes slot s.free_slots r b refl len,
        λ q c. get-same s key bytes slot s.free_slots q c owned len,
        store_at-IsStore s key bytes slot s.free_slots owned (λ k n g o. valid.1 k n g) valid
            (valid.1 key slot f) valid.2,
      )

  put-fresh :
      (slot : ℕ) (free : List ℕ)
      → length bytes ≡ s.block_size_bytes
      → s.free_slots ≡ slot ∷ free
      → Stores s (r, b) bytes (store_at s (r, b) bytes slot free)
  put-fresh slot free len e =
      let key : Key = (r, b) in
      let out : (k : Key) (n : ℕ) → find_slot k s.slots ≡ some n → NotIn n (slot ∷ free) =
        λ k n g. subst (NotIn n) e (valid.1 k n g) in
      let distinct : Distinct (slot ∷ free) = subst Distinct e valid.2 in
      let owned : (i : Key) → find_slot i s.slots ≡ some slot → same_key key i ≡ true =
        λ i g. absurd ((out i slot g).0 refl) in
      (
        get-stored s key bytes slot free r b refl len,
        λ q c. get-same s key bytes slot free q c owned len,
        store_at-IsStore s key bytes slot free owned (λ k n g o. (out k n g).1) valid distinct.0
            distinct.1,
      )

  -- In a store whose keys have slots of their own, bytes of another size than the block's are
  -- refused, and so is a new key when no slot is free. Otherwise the bytes are stored: `get`
  -- answers them for this key, and for every other key what it answered before; and keys still
  -- have slots of their own.
  pub put-PutOutcome : PutOutcome s r b bytes
  unfolding put
  put-PutOutcome = elim (Bool-cases (length bytes == s.block_size_bytes)) [
    | inr t ↦ inl (ground (arith, t), rw t refl)
    | inl t ↦
        let len : length bytes ≡ s.block_size_bytes = ground (arith, t) in
        elim (Option-cases (find_slot (r, b) s.slots)) [
          | inr (slot, f) ↦
              inr (
                inr (store_at s (r, b) bytes slot s.free_slots, rw (t, f) refl, put-old slot len f))
          | inl f ↦ elim (List-cases s.free_slots) [
            | inl e ↦ inr (inl (get-missing s r b f, e, rw (t, f, e) refl))
            | inr (slot, free, e) ↦ inr (
                inr
                  (store_at s (r, b) bytes slot free, rw (t, f, e) refl, put-fresh slot free len e))
          ]
        ]
  ]
