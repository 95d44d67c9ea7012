-- ===== src/Agent/RoutingCache.antt =====
-- `RoutingCache` of src/kvagent/src/routing_cache/routing_cache.{h,cpp}: the least recently used list
-- with an index. The index maps a key to its entry, so the list is searched by key; keys and node ids
-- are numbers, and the clock is an argument.
pub mod Bounds
pub mod Lifetime
use agent_state_storage.Base.{
  ℕ, zero, suc, ◌+◌, ◌-◌, ◌≡◌, Bool, true, false, List, [], ◌∷◌, ltb, ◌==◌, if◌then◌else◌, Option,
  some, none, length, take,
}

pub record Entry : Type 0 where
  pub key : ℕ
  pub node_id : ℕ
  pub expires_at : ℕ

pub record Cache : Type 0 where
  pub lru : List Entry
  pub capacity : ℕ
  pub ttl : ℕ
  pub puts : ℕ
  pub hits : ℕ
  pub misses : ℕ
  pub expirations : ℕ
  pub evictions : ℕ

unfoldable pub entry_of : ℕ → List Entry → Option Entry
entry_of k [] = none
entry_of k (e ∷ es) = if e.key == k then some e else entry_of k es

unfoldable pub without : ℕ → List Entry → List Entry
without k [] = []
without k (e ∷ es) = if e.key == k then es else e ∷ without k es

abbrev stored : Entry → Option Entry → Cache → Cache
stored e (some old) c = record c { lru = e ∷ without e.key c.lru; puts = c.puts + 1 }
stored e none c = record c {
  lru = take c.capacity (e ∷ c.lru);
  puts = c.puts + 1;
  evictions = c.evictions + (length (e ∷ c.lru) - c.capacity);
}

-- `Put`; the loop at its end pops the back until the size is within the capacity.
unfoldable pub put : ℕ → ℕ → ℕ → Cache → Cache
unfolding entry_of without
put k node now c =
    stored (record { key = k; node_id = node; expires_at = now + c.ttl }) (entry_of k c.lru) c

abbrev found : ℕ → Option Entry → Cache → Cache × Option ℕ
found now none c = (record c { misses = c.misses + 1 }, none)
found now (some e) c =
    if ltb e.expires_at now
    then (
      record c {
        lru = without e.key c.lru;
        expirations = c.expirations + 1;
        misses = c.misses + 1;
      },
      none,
    )
    else (record c { lru = e ∷ without e.key c.lru; hits = c.hits + 1 }, some e.node_id)

unfoldable pub get : ℕ → ℕ → Cache → Cache × Option ℕ
unfolding entry_of without
get k now c = found now (entry_of k c.lru) c

unfoldable pub invalidate : ℕ → Cache → Cache
unfolding without
invalidate k c = record c { lru = without k c.lru }

unfoldable pub clear : Cache → Cache
clear c = record c { lru = [] }

unfoldable pub size : Cache → ℕ
size c = length c.lru

pub data Operation : Type 0 where
  puts_route : ℕ → ℕ → ℕ → Operation
  gets_route : ℕ → ℕ → Operation
  invalidates : ℕ → Operation
  clears : Operation

unfoldable pub step : Operation → Cache → Cache
unfolding put get invalidate clear
step (puts_route k node now) c = put k node now c
step (gets_route k now) c = (get k now c).0
step (invalidates k) c = invalidate k c
step clears c = clear c

unfoldable pub run : List Operation → Cache → Cache
unfolding step
run [] c = c
run (o ∷ os) c = run os (step o c)
