-- ===== src/Security/Tests.antt =====
-- Decisions on concrete requests.
use agent_state_storage.Base.{◌≡◌, refl, true, false, ◌↔◌, ◌⊎◌, [], none, arith}
use agent_state_storage.Security.Rbac.{
  publishes, Identity, tenant, allow, evaluate, Rbac, check, fresh, lookup, key_of,
}
use agent_state_storage.Security.Rbac.Decisions.{IsPermitted, IsWriting, evaluate_iff}
use agent_state_storage.Security.Rbac.Cache.{check-repeats}

abbrev peer : Identity
peer = record { kind = tenant; common_name = 5; tenant_hash = 77 }

evaluate_iff_example :
    (evaluate peer publishes 77 true ≡ allow)
    ↔ (IsPermitted peer publishes 77 × ((¬ IsWriting publishes) ⊎ (true ≡ false)))
evaluate_iff_example = evaluate_iff peer publishes 77 true

abbrev rbac : Rbac
rbac = record { cache = []; ttl = 1000; cache_hits = 0; cache_misses = 0; denials = 0 }

nothing_cached : fresh 50 (lookup (key_of peer publishes 77) rbac.cache) ≡ none
unfolding lookup
nothing_cached = refl

check-repeats_example :
    ((check peer publishes 77 false 50 rbac).0 ≡ evaluate peer publishes 77 false)
    × ((check peer publishes 77 true 900 (check peer publishes 77 false 50 rbac).1).0
        ≡ evaluate peer publishes 77 false)
check-repeats_example =
    check-repeats peer publishes 77 false true 50 900 rbac nothing_cached (omega arith)
