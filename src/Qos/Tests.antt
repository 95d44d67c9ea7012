-- ===== src/Qos/Tests.antt =====
-- Quotas on concrete requests.
use agent_state_storage.Base.{
  ℕ, ◌≡◌, ◌≢◌, true, List, [], ◌∷◌, arith, some, none, ◌==◌, if◌then◌else◌, is_some,
}
use agent_state_storage.Qos.Quota.{
  QuotaLimits, ReserveRequest, granted, Counter, reserve_counter, inflate,
}
use agent_state_storage.Qos.Tenant.{tenant_hash, get, upsert, remove, get-upsert}

abbrev limits : QuotaLimits
limits = record { capacity_bytes = 1000; qps = 5; bandwidth_bps = 200; inflated = true }

abbrev counter : Counter
counter = record {
  limits = limits;
  capacity_used = 700;
  window_start = 0;
  qps_count = 2;
  bw_bytes = 150;
}

abbrev small : ReserveRequest
small = record { bytes = 600; requests = 1; bandwidth_bytes = 10 }

abbrev wide : ReserveRequest
wide = record { bytes = 600; requests = 1; bandwidth_bytes = 900 }

refused : (reserve_counter 1000 50 wide counter).1 ≢ granted
unfolding reserve_counter inflate
refused h = ground arith

abbrev one : List ℕ
one = 1 ∷ []

abbrev two : List ℕ
two = 2 ∷ []

get-upsert_example :
    (get {C = ℕ} one (upsert one 9 []) ≡ some 9)
    × (get {C = ℕ} two (upsert one 9 [])
        ≡ (if tenant_hash one == tenant_hash two then some 9 else get two []))
    × (get {C = ℕ} one (remove one []).0 ≡ none)
    × ((remove {C = ℕ} one []).1 ≡ is_some (get {C = ℕ} one []))
get-upsert_example = get-upsert one two 9 []
