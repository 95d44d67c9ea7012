-- ===== src/Security/Rbac/Cache.antt =====
-- What a sequence of checks answers.
use agent_state_storage.Base.{ℕ, ◌+◌, ◌<◌, ◌≡◌, refl, Bool, true, List, some, none, ltb, arith}
use agent_state_storage.Security.Rbac.{
  Action, Identity, Rbac, CacheKey, CacheEntry, same_key, lookup, insert, key_of, evaluate, decide,
  check, fresh,
}

same_key_self : (k : CacheKey) → same_key k k ≡ true
unfolding same_key
same_key_self k = ground arith

lookup-insert :
    (k : CacheKey) (e : CacheEntry) (es : List (CacheKey × CacheEntry))
    → lookup k (insert k e es) ≡ some e
unfolding lookup insert
lookup-insert k e es = rw (same_key_self k) refl

fresh-some : (now : ℕ) (e : CacheEntry) → now < e.expiry → fresh now (some e) ≡ some e
fresh-some now e h = let t : ltb now e.expiry ≡ true = ground arith in rw t refl

decide-cached :
    (peer : Identity) (a : Action) (t : ℕ) (d : Bool) (now : ℕ) (r : Rbac)
    → lookup (key_of peer a t) (decide peer a t d now r).1.cache
      ≡ some (record { decision = evaluate peer a t d; expiry = now + r.ttl })
unfolding decide
decide-cached peer a t d now r =
    lookup-insert (key_of peer a t)
      (record { decision = evaluate peer a t d; expiry = now + r.ttl }) r.cache

decide-answer :
    (peer : Identity) (a : Action) (t : ℕ) (d : Bool) (now : ℕ) (r : Rbac)
    → (decide peer a t d now r).0 ≡ evaluate peer a t d
unfolding decide
decide-answer peer a t d now r = refl

-- A decision that is not in the cache is the one that `Evaluate` gives. It is repeated for the whole
-- time to live, whatever the deletion flag of the later request: a write that was allowed stays
-- allowed after the tenant's deletion became pending.
pub check-repeats :
    (peer : Identity) (a : Action) (t : ℕ) (before after : Bool) (now later : ℕ) (r : Rbac)
    → fresh now (lookup (key_of peer a t) r.cache) ≡ none
    → later < now + r.ttl
    → ((check peer a t before now r).0 ≡ evaluate peer a t before)
      × ((check peer a t after later (check peer a t before now r).1).0 ≡ evaluate peer a t before)
unfolding check
check-repeats peer a t before after now later r miss soon =
    let e : CacheEntry = record { decision = evaluate peer a t before; expiry = now + r.ttl } in
    rw (miss, check)
      (
        decide-answer peer a t before now r,
        rw (decide-cached peer a t before now r, check) (rw (fresh-some later e soon, check) refl),
      )
