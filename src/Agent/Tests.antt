-- ===== src/Agent/Tests.antt =====
-- A cache of two routes.
use agent_state_storage.Base.{◌≡◌, refl, ◌≤◌, ◌+◌, [], ◌∷◌, arith, some, none, if◌then◌else◌, ltb}
use agent_state_storage.Agent.RoutingCache.{
  Cache, put, get, size, run, step, puts_route, entry_of, without,
}
use agent_state_storage.Agent.RoutingCache.Lifetime.{get-put}

abbrev cache : Cache
cache = record {
  lru =
      record { key = 1; node_id = 10; expires_at = 90 }
      ∷ record { key = 2; node_id = 20; expires_at = 95 }
      ∷ [];
  capacity = 2;
  ttl = 30;
  puts = 2;
  hits = 0;
  misses = 0;
  expirations = 0;
  evictions = 0;
}

cache_size : size cache ≤ 2
unfolding size
cache_size = omega arith

-- One other route in between, in a cache of two.
get-put_example :
    (get 3 100 (run (puts_route 4 40 80 ∷ []) (put 3 30 70 cache))).1
    ≡ (if ltb (70 + 30) 100 then none else some 30)
get-put_example = get-put 3 30 70 100 (puts_route 4 40 80 ∷ []) cache (refl, tt) (omega arith)

evicted :
    (get 3 100 (run (puts_route 4 40 80 ∷ puts_route 5 50 80 ∷ []) (put 3 30 70 cache))).1 ≡ none
unfolding run step put get entry_of without
evicted = refl
