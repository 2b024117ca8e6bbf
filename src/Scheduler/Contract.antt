-- ===== src/Scheduler/Contract.antt =====
-- What the scheduler relies on in the manager of the KV cache: its operations do not panic, they leave
-- the other requests alone, and they give a request the blocks that its tokens need.
use r_llm.Shared.{ℕ, ◌+◌, ◌-◌, ◌*◌, ◌≤◌, Bool, true, false, some, List, ◌≡◌, ◌≢◌, ◌⊎◌, length}
use r_llm.Scheduler.State.{ManagerOps}

module _ {M : Type 0} (ops : ManagerOps M) (block_size : ℕ) where
  pub record Contract : Type 1 where
    -- The manager is in order, and `k` more references to any block fit in a `u32`.
    pub Valid : ℕ → M → Type 0
    -- What the manager knows of one request.
    pub Entry : Type 0
    pub entry : M → ℕ → Entry
    -- The number of blocks in the request's table.
    pub held : Entry → ℕ
    -- No block of the table is beyond the tokens that count as computed.
    pub Ready : Entry → Type 0
    -- The request's full blocks can get their hashes.
    pub Cacheable : M → ℕ → Type 0
    pub weaken : (j k : ℕ) (m : M) → Valid (j + k) m → Valid k m
    pub get :
        (k : ℕ) (m : M) (id : ℕ) (prompt : List ℕ) (skip : Bool)
        → Valid (length prompt + k) m
        → (ids : List ℕ) × (cached : ℕ) × (m' : M) × (ops.get_computed_blocks m id prompt skip
            ≡ some ((ids, cached), m'))
          × Valid k m'
          × ((j : ℕ) → id ≢ j → entry m' j ≡ entry m j)
          × (cached ≤ held (entry m' id) * block_size)
          × (Ready (entry m id) → Ready (entry m' id))
    pub allocate :
        (k : ℕ) (m : M) (id total computed : ℕ)
        → Valid k m
        → (granted : Bool) × (m' : M) × (ops.allocate_slots m id total computed
            ≡ some (granted, m'))
          × Valid k m'
          × ((j : ℕ) → id ≢ j → entry m' j ≡ entry m j)
          × (((granted ≡ false) × (entry m' id ≡ entry m id))
              ⊎ ((granted ≡ true)
                  × (total - computed + held (entry m id) * block_size
                      ≤ held (entry m' id) * block_size)
                  × (Ready (entry m id) → Cacheable m' id)))
    pub release :
        (k : ℕ) (m : M) (id : ℕ)
        → Valid k m
        → (m' : M) × (ops.free m id ≡ some m')
          × Valid k m'
          × ((j : ℕ) → id ≢ j → entry m' j ≡ entry m j)
          × Ready (entry m' id)
          × (held (entry m' id) ≡ 0)
    pub cache :
        (k : ℕ) (m : M) (id total : ℕ)
        → Valid k m
        → Cacheable m id
        → (m' : M) × (ops.cache_blocks m id total ≡ some m')
          × Valid k m'
          × ((j : ℕ) → id ≢ j → entry m' j ≡ entry m j)
          × (held (entry m' id) ≡ held (entry m id))
