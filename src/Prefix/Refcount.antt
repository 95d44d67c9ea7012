-- ===== src/Prefix/Refcount.antt =====
-- `Refcount` of src/kvstore-node/src/prefix/refcount.h: a uint32_t that wraps. Each method is one
-- atomic operation, so threads are a list of operations.
use agent_state_storage.Base.{
  ℕ, suc, ◌+◌, ◌-◌, ◌%◌, ◌≤◌, ◌<◌, ◌≡◌, ◌≢◌, Bool, true, false, List, [], ◌∷◌, ◌==◌, if◌then◌else◌,
  arith, ◌⊎◌, inl, inr,
}
use agent_state_storage.Base.Bytes.{u32_mod}

-- The new value, which is also what the method returns.
unfoldable pub acquire : ℕ → ℕ
acquire v = (v + 1) % u32_mod

unfoldable pub release : ℕ → ℕ
release v = (v + u32_mod - 1) % u32_mod

-- The new value, and whether the reference was taken.
unfoldable pub try_acquire_if_non_zero : ℕ → ℕ × Bool
unfolding acquire
try_acquire_if_non_zero v = if v == 0 then (v, false) else (acquire v, true)

-- `compare_exchange_strong` of 1 by 0.
unfoldable pub try_evict : ℕ → ℕ × Bool
try_evict v = if v == 1 then (0, true) else (v, false)

-- What threads do with a sealed leaf: look it up, let go of a reference that they hold, or try to
-- evict it.
pub data Operation : Type 0 where
  looks_up lets_go evicts : Operation

-- The counter, and how many references lookups hold.
pub record Leaf : Type 0 where
  pub count : ℕ
  pub holders : ℕ

unfoldable pub step : Leaf → Operation → Leaf
unfolding try_acquire_if_non_zero release try_evict
step l looks_up =
    if (try_acquire_if_non_zero l.count).1
    then record l { count = (try_acquire_if_non_zero l.count).0; holders = l.holders + 1 }
    else l
step l lets_go =
    if l.holders == 0 then l else record l { count = release l.count; holders = l.holders - 1 }
step l evicts = record l { count = (try_evict l.count).0 }

unfoldable pub run : Leaf → List Operation → Leaf
unfolding step
run l [] = l
run l (o ∷ os) = run (step l o) os

-- In the index, with the baseline reference beside those of the holders.
abbrev pub IsLive : Leaf → Type 0
IsLive l = l.count ≡ l.holders + 1

-- Claimed by the evictor, with no holder.
abbrev pub IsEvicted : Leaf → Type 0
IsEvicted l = (l.count ≡ 0) × (l.holders ≡ 0)

step_cases :
    (l : Leaf) (o : Operation)
    → l.holders + 2 < u32_mod
    → IsLive l ⊎ IsEvicted l
    → IsLive (step l o) ⊎ IsEvicted (step l o)
unfolding step
step_cases l looks_up h (inl live) = inl (ground arith)
step_cases l looks_up h (inr gone) = inr (ground arith)
step_cases l lets_go h (inl live) = inl (ground arith)
step_cases l lets_go h (inr gone) = inr (ground arith)
step_cases l evicts h (inl live) = ground arith
step_cases l evicts h (inr gone) = inr (ground arith)

step_holders : (l : Leaf) (o : Operation) → (step l o).holders ≤ l.holders + 1
unfolding step
step_holders l looks_up = ground arith
step_holders l lets_go = ground arith
step_holders l evicts = ground arith

abbrev pub count_ops : List Operation → ℕ
count_ops [] = 0
count_ops (o ∷ os) = suc (count_ops os)

-- Under any interleaving of lookups, releases and evictions, which together with the references held
-- are fewer than 2 ^ 32 - 2, the count is one more than the references held, or the leaf is evicted
-- and nobody holds it.
pub run_cases :
    (os : List Operation) (l : Leaf)
    → l.holders + count_ops os + 2 < u32_mod
    → IsLive l ⊎ IsEvicted l
    → IsLive (run l os) ⊎ IsEvicted (run l os)
unfolding run
run_cases [] l h c = c
run_cases (o ∷ os) l h c =
    run_cases os (step l o) (omega (arith, step_holders l o)) (step_cases l o (omega arith) c)

step-IsEvicted : (l : Leaf) (o : Operation) → IsEvicted l → IsEvicted (step l o)
unfolding step
step-IsEvicted l looks_up h = ground arith
step-IsEvicted l lets_go h = ground arith
step-IsEvicted l evicts h = ground arith

-- An evicted leaf is never resurrected.
pub run-IsEvicted : (os : List Operation) (l : Leaf) → IsEvicted l → IsEvicted (run l os)
unfolding run
run-IsEvicted [] l h = h
run-IsEvicted (o ∷ os) l h = run-IsEvicted os (step l o) (step-IsEvicted l o h)

-- The evictor claims a leaf in the index exactly when no lookup holds it.
pub try_evict_iff :
    (l : Leaf)
    → IsLive l
    → ((l.holders ≡ 0) × ((try_evict l.count).1 ≡ true))
      ⊎ ((l.holders ≢ 0) × (try_evict l.count ≡ (l.count, false)))
unfolding try_evict
try_evict_iff l h = ground arith
