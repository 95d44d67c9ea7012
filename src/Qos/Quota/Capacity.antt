-- ===== src/Qos/Quota/Capacity.antt =====
-- What a reservation does to the counter of a tenant.
use agent_state_storage.Base.{ℕ, ◌^◌, ◌<◌, ◌≡◌, arith, ◌≢◌}
use agent_state_storage.Base.Bytes.{u64_mod}
use agent_state_storage.Qos.Quota.{
  ReserveRequest, granted, Counter, roll_window, reserve_capacity, reserve_window, reserve_counter,
  give_back,
}

-- A refused reservation leaves the capacity in use as it was, whatever dimension refused it.
pub reserve_counter-refused :
    (window now : ℕ) (req : ReserveRequest) (c : Counter)
    → c.capacity_used < u64_mod
    → req.bytes < u64_mod
    → (reserve_counter window now req c).1 ≢ granted
    → (reserve_counter window now req c).0.capacity_used ≡ c.capacity_used
unfolding reserve_counter reserve_capacity reserve_window roll_window give_back
reserve_counter-refused window now req c hc hb h = ground arith

-- Limits for which the code's `n * 1.5` in double precision is exactly `n * 3 / 2` before its cast.
abbrev pub max_exact : ℕ
max_exact = 2 ^ 51
