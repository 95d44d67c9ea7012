-- ===== src/Tier/Pinned.antt =====
-- `PinnedTier` of src/kvstore-node/src/tier/pinned_tier.{h,cpp}, without the mapping of memory and its
-- registration: the top of the free stack is the front of the list.
use agent_state_storage.Base.{
  ℕ, zero, suc, ◌+◌, ◌-◌, ◌/◌, ◌%◌, List, [], ◌∷◌, ltb, leb, ◌==◌, if◌then◌else◌, ◌||◌, not, Option,
  some, none,
}
use agent_state_storage.Base.Bytes.{u32_mod}

pub record PinnedTier : Type 0 where
  pub slot_bytes : ℕ
  pub slot_count : ℕ
  pub free_stack : List ℕ
  pub in_use : ℕ

-- The loop pushes the slots from the last to the first, so slot 0 comes out on top.
unfoldable pub slots_from : (left : ℕ) → ℕ → List ℕ
slots_from zero next = []
slots_from (suc left) next = next ∷ slots_from left (suc next)

abbrev count_of : ℕ → ℕ → ℕ
count_of pool slot = pool / slot % u32_mod

unfoldable pub create : ℕ → ℕ → Option PinnedTier
unfolding slots_from
create pool_bytes slot_bytes =
    if (pool_bytes == 0) || (slot_bytes == 0) || ltb pool_bytes slot_bytes
    then none
    else if not (pool_bytes % slot_bytes == 0)
    then none
    else some (record {
      slot_bytes = slot_bytes;
      slot_count = count_of pool_bytes slot_bytes;
      free_stack = slots_from (count_of pool_bytes slot_bytes) 0;
      in_use = 0;
    })

abbrev pub pop : List ℕ → PinnedTier → PinnedTier × Option ℕ
pop [] t = (t, none)
pop (i ∷ stack) t = (record t { free_stack = stack; in_use = (t.in_use + 1) % u32_mod }, some i)

-- The slot's index; its address is `base + idx * slot_bytes`.
unfoldable pub acquire : PinnedTier → PinnedTier × Option ℕ
acquire t = pop t.free_stack t

unfoldable pub release : ℕ → PinnedTier → PinnedTier
release i t =
    if (i == u32_mod - 1) || leb t.slot_count i
    then t
    else record t { free_stack = i ∷ t.free_stack; in_use = (t.in_use + u32_mod - 1) % u32_mod }
