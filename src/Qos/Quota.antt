-- ===== src/Qos/Quota.antt =====
-- `QuotaManager` of src/kvstore-node/src/qos/quota.{h,cpp}. The clock is an argument, in the unit of the
-- window. The multiplier 1.5 is `n * 3 / 2`, which is what the code's doubles compute for limits below
-- 2 ^ 51; the other numbers wrap as uint64_t and uint32_t do. A call is modelled without others in
-- between: a reservation is a compare_exchange of the capacity and then the windowed part under a lock,
-- and other calls may come between the two.
pub mod Capacity
use agent_state_storage.Base.{
  ℕ, ◌+◌, ◌-◌, ◌*◌, ◌/◌, ◌%◌, ◌≡◌, Bool, true, false, List, [], ◌∷◌, ltb, leb, if◌then◌else◌, ◌&&◌,
  Option, some, none, is_some,
}
use agent_state_storage.Base.Bytes.{u32_mod, u64_mod}
use agent_state_storage.Base.Map.{find, assign, erase}

pub record QuotaLimits : Type 0 where
  pub capacity_bytes : ℕ
  pub qps : ℕ
  pub bandwidth_bps : ℕ
  pub inflated : Bool

abbrev no_limits : QuotaLimits
no_limits = record { capacity_bytes = 0; qps = 0; bandwidth_bps = 0; inflated = false }

pub record ReserveRequest : Type 0 where
  pub bytes : ℕ
  pub requests : ℕ
  pub bandwidth_bytes : ℕ

pub data QuotaResult : Type 0 where
  granted capacity_exceeded qps_exceeded bandwidth_exceeded unknown_tenant : QuotaResult

pub record Counter : Type 0 where
  pub limits : QuotaLimits
  pub capacity_used : ℕ
  pub window_start : ℕ
  pub qps_count : ℕ
  pub bw_bytes : ℕ

abbrev pub Tenants : Type 0
Tenants = List (ℕ × Counter)

abbrev set_or_add : ℕ → QuotaLimits → ℕ → Option Counter → Tenants → Tenants
set_or_add t limits now none m =
    assign t
      (record {
        limits = limits;
        capacity_used = 0;
        window_start = now;
        qps_count = 0;
        bw_bytes = 0;
      })
      m
set_or_add t limits now (some c) m = assign t (record c { limits = limits }) m

unfoldable pub set_limits : ℕ → QuotaLimits → ℕ → Tenants → Tenants
set_limits t limits now m = set_or_add t limits now (find t m) m

unfoldable pub remove_tenant : ℕ → Tenants → Tenants × Bool
remove_tenant t m = (erase t m, is_some (find t m))

abbrev limits_of : Option Counter → QuotaLimits
limits_of none = no_limits
limits_of (some c) = c.limits

unfoldable pub get_limits : ℕ → Tenants → QuotaLimits
get_limits t m = limits_of (find t m)

unfoldable pub inflate : QuotaLimits → ℕ → ℕ
inflate l n = if l.inflated then n * 3 / 2 else n

unfoldable pub roll_window : ℕ → ℕ → Counter → Counter
roll_window window now c =
    if leb window (now - c.window_start)
    then record c { window_start = now; qps_count = 0; bw_bytes = 0 }
    else c

-- The capacity dimension: the counter after the reservation, or nothing when it is refused.
unfoldable pub reserve_capacity : ReserveRequest → Counter → Option Counter
unfolding inflate
reserve_capacity req c =
    let cap_limit = inflate c.limits c.limits.capacity_bytes % u64_mod in
    if ltb 0 cap_limit
    then if leb ((c.capacity_used + req.bytes) % u64_mod) cap_limit
      then some (record c { capacity_used = (c.capacity_used + req.bytes) % u64_mod })
      else none
    else if ltb 0 req.bytes
    then none
    else some c

-- `fetch_sub`
unfoldable pub give_back : ℕ → Counter → Counter
give_back bytes c = record c { capacity_used = (c.capacity_used + u64_mod - bytes) % u64_mod }

-- The windowed dimensions, after the window was rolled.
unfoldable pub reserve_window : ReserveRequest → Counter → Counter × QuotaResult
unfolding inflate give_back
reserve_window req c =
    let qps_limit = inflate c.limits c.limits.qps % u32_mod in
    let bw_limit = inflate c.limits c.limits.bandwidth_bps % u64_mod in
    if ltb 0 qps_limit && ltb qps_limit ((c.qps_count + req.requests) % u32_mod)
    then (give_back req.bytes c, qps_exceeded)
    else if ltb 0 bw_limit && ltb bw_limit ((c.bw_bytes + req.bandwidth_bytes) % u64_mod)
    then (give_back req.bytes c, bandwidth_exceeded)
    else (
      record c {
        qps_count = (c.qps_count + req.requests) % u32_mod;
        bw_bytes = (c.bw_bytes + req.bandwidth_bytes) % u64_mod;
      },
      granted,
    )

abbrev windowed : ℕ → ℕ → ReserveRequest → Counter → Option Counter → Counter × QuotaResult
windowed window now req c none = (c, capacity_exceeded)
windowed window now req c (some d) = reserve_window req (roll_window window now d)

unfoldable pub reserve_counter : ℕ → ℕ → ReserveRequest → Counter → Counter × QuotaResult
unfolding reserve_capacity reserve_window roll_window
reserve_counter window now req c = windowed window now req c (reserve_capacity req c)

abbrev reserve_found : ℕ → ℕ → ℕ → ReserveRequest → Tenants → Option Counter → Tenants × QuotaResult
reserve_found window now t req m none = (m, unknown_tenant)
reserve_found window now t req m (some c) =
    let r = reserve_counter window now req c in (assign t r.0 m, r.1)

unfoldable pub reserve : ℕ → ℕ → ℕ → ReserveRequest → Tenants → Tenants × QuotaResult
unfolding reserve_counter
reserve window now t req m = reserve_found window now t req m (find t m)

unfoldable pub release_counter : ℕ → Counter → Counter
release_counter bytes c = record c {
  capacity_used = c.capacity_used - (if ltb c.capacity_used bytes then c.capacity_used else bytes);
}

abbrev release_found : ℕ → ℕ → Tenants → Option Counter → Tenants
release_found t bytes m none = m
release_found t bytes m (some c) = assign t (release_counter bytes c) m

unfoldable pub release : ℕ → ℕ → Tenants → Tenants
unfolding release_counter
release t bytes m = release_found t bytes m (find t m)

abbrev used_of : Option Counter → ℕ
used_of none = 0
used_of (some c) = c.capacity_used

unfoldable pub capacity_used_by : ℕ → Tenants → ℕ
capacity_used_by t m = used_of (find t m)

abbrev qps_of : Option Counter → ℕ
qps_of none = 0
qps_of (some c) = c.qps_count

unfoldable pub qps_window : ℕ → Tenants → ℕ
qps_window t m = qps_of (find t m)

abbrev bandwidth_of : Option Counter → ℕ
bandwidth_of none = 0
bandwidth_of (some c) = c.bw_bytes

unfoldable pub bandwidth_window : ℕ → Tenants → ℕ
bandwidth_window t m = bandwidth_of (find t m)
