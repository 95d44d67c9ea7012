-- ===== src/Security/Rbac.antt =====
-- `Rbac` of src/kvstore-node/src/security/rbac.{h,cpp}. `tenant_hash` is the hash of the peer's tenant
-- id (`qos::TenantHash` of Qos/Tenant). The clock is an argument, in the unit of the time to live, and
-- a common name is a number.
pub mod Decisions
pub mod Cache
use agent_state_storage.Base.{
  ℕ, ◌+◌, ◌≡◌, Bool, true, false, List, [], ◌∷◌, ltb, ◌==◌, if◌then◌else◌, not, ◌&&◌, ◌||◌, Option,
  some, none,
}

pub data Action : Type 0 where
  looks_up reserves publishes fetches seals releases admin_reads admin_writes cluster_admin : Action

pub data IdentityKind : Type 0 where
  unknown tenant admin internal : IdentityKind

pub data Decision : Type 0 where
  allow deny : Decision

pub record Identity : Type 0 where
  pub kind : IdentityKind
  pub common_name : ℕ
  pub tenant_hash : ℕ

abbrev pub code : Action → ℕ
code looks_up = 1
code reserves = 2
code publishes = 3
code fetches = 4
code seals = 5
code releases = 6
code admin_reads = 7
code admin_writes = 8
code cluster_admin = 9

abbrev pub is_unknown : IdentityKind → Bool
is_unknown unknown = true
is_unknown _ = false

abbrev pub is_tenant : IdentityKind → Bool
is_tenant tenant = true
is_tenant _ = false

abbrev pub is_admin : IdentityKind → Bool
is_admin admin = true
is_admin _ = false

abbrev pub is_internal : IdentityKind → Bool
is_internal internal = true
is_internal _ = false

unfoldable pub is_data_op : Action → Bool
is_data_op looks_up = true
is_data_op reserves = true
is_data_op publishes = true
is_data_op fetches = true
is_data_op seals = true
is_data_op releases = true
is_data_op admin_reads = false
is_data_op admin_writes = false
is_data_op cluster_admin = false

unfoldable pub is_write : Action → Bool
is_write reserves = true
is_write publishes = true
is_write seals = true
is_write looks_up = false
is_write fetches = false
is_write releases = false
is_write admin_reads = false
is_write admin_writes = false
is_write cluster_admin = false

-- Step 2.
unfoldable pub is_eligible : IdentityKind → Action → Bool
unfolding is_data_op
is_eligible kind a = if is_data_op a then is_tenant kind || is_internal kind else is_admin kind

unfoldable pub evaluate : Identity → Action → ℕ → Bool → Decision
unfolding is_eligible is_write
evaluate peer a target deletion_pending =
    if is_unknown peer.kind
    then deny
    else if not (is_eligible peer.kind a)
    then deny
    else if is_tenant peer.kind && not (target == peer.tenant_hash)
    then deny
    else if deletion_pending && is_write a
    then deny
    else allow

pub record CacheKey : Type 0 where
  pub name : ℕ
  pub action : ℕ
  pub target : ℕ

pub record CacheEntry : Type 0 where
  pub decision : Decision
  pub expiry : ℕ

unfoldable pub same_key : CacheKey → CacheKey → Bool
same_key k l = (k.action == l.action) && (k.target == l.target) && (k.name == l.name)

pub record Rbac : Type 0 where
  pub cache : List (CacheKey × CacheEntry)
  pub ttl : ℕ
  pub cache_hits : ℕ
  pub cache_misses : ℕ
  pub denials : ℕ

unfoldable pub lookup : CacheKey → List (CacheKey × CacheEntry) → Option CacheEntry
unfolding same_key
lookup k [] = none
lookup k ((l, e) ∷ es) = if same_key k l then some e else lookup k es

-- An insertion puts the newest entry of a key in front of the older ones.
unfoldable pub insert :
    CacheKey → CacheEntry → List (CacheKey × CacheEntry) → List (CacheKey × CacheEntry)
insert k e es = (k, e) ∷ es

abbrev pub is_deny : Decision → Bool
is_deny allow = false
is_deny deny = true

abbrev pub fresh : ℕ → Option CacheEntry → Option CacheEntry
fresh now none = none
fresh now (some e) = if ltb now e.expiry then some e else none

abbrev pub key_of : Identity → Action → ℕ → CacheKey
key_of peer a target = record { name = peer.common_name; action = code a; target = target }

-- `Check` on a miss.
unfoldable pub decide : Identity → Action → ℕ → Bool → ℕ → Rbac → Decision × Rbac
unfolding evaluate insert
decide peer a target deletion_pending now r =
    let d = evaluate peer a target deletion_pending in
    (
      d,
      record r {
        cache =
            insert (key_of peer a target) (record { decision = d; expiry = now + r.ttl }) r.cache;
        cache_misses = r.cache_misses + 1;
        denials = if is_deny d then r.denials + 1 else r.denials;
      },
    )

unfoldable pub check : Identity → Action → ℕ → Bool → ℕ → Rbac → Decision × Rbac
unfolding lookup decide
check peer a target deletion_pending now r =
    elim (fresh now (lookup (key_of peer a target) r.cache)) [
      | some e ↦ (e.decision, record r { cache_hits = r.cache_hits + 1 })
      | none ↦ decide peer a target deletion_pending now r
    ]
