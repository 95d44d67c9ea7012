-- ===== src/Session/Service.antt =====
-- `AgentStateServiceImpl` of src/kvstore-node/src/session/agent_state_service.cpp over the ordered
-- log store: keys, tenants, and the replies. A handler holds its session's mutex, so it is one step.
-- A tenant is what the request names or what the client's certificate resolves to.
pub mod Items
pub mod Records
pub mod Digits
pub mod Keys
pub mod Tenants
mod Tests
use agent_state_storage.Base.{
  ℕ, ◌+◌, ◌*◌, ◌/◌, ◌%◌, ◌^◌, Bool, true, false, not, ◌&&◌, ◌||◌, List, [], ◌∷◌, ◌++◌, length,
  if◌then◌else◌, is_empty, Option, none, some,
}
use agent_state_storage.Base.Bytes.{u32_mod, u64_mod}
use agent_state_storage.Session.Key.{key_eq}
use agent_state_storage.Session.Store.{Store, AppendIo, CompactIo}

-- Big-endian words, the loops unrolled.
unfoldable pub put_u32_be : ℕ → List ℕ
put_u32_be v = (v / 2 ^ 24 % 256) ∷ (v / 2 ^ 16 % 256) ∷ (v / 2 ^ 8 % 256) ∷ (v % 256) ∷ []

unfoldable pub put_u64_be : ℕ → List ℕ
put_u64_be v =
    (v / 2 ^ 56 % 256)
    ∷ (v / 2 ^ 48 % 256)
    ∷ (v / 2 ^ 40 % 256)
    ∷ (v / 2 ^ 32 % 256)
    ∷ (v / 2 ^ 24 % 256)
    ∷ (v / 2 ^ 16 % 256)
    ∷ (v / 2 ^ 8 % 256)
    ∷ (v % 256)
    ∷ []

-- The loop of `GetU64BE`, with `v` so far; `|` of a byte and a multiple of 256 is `+`.
unfoldable pub get_u64_from : ℕ → List ℕ → ℕ
get_u64_from v [] = v
get_u64_from v (c ∷ s) = get_u64_from (v * 256 % u64_mod + c) s

unfoldable pub get_u64_be : List ℕ → ℕ
unfolding get_u64_from
get_u64_be s = get_u64_from 0 s

-- `EncodeKey`
unfoldable pub encode_key : List ℕ → ℕ → List ℕ → List ℕ
unfolding put_u32_be
encode_key tenant kind rest = put_u32_be (length tenant % u32_mod) ++ (tenant ++ (kind ∷ rest))

-- 'I' and 'R'
abbrev pub item_kind : ℕ
item_kind = 0x49

abbrev pub record_kind : ℕ
record_kind = 0x52

-- `ItemPrefix`
unfoldable pub item_prefix : List ℕ → List ℕ → List ℕ
unfolding encode_key put_u32_be
item_prefix tenant session =
    encode_key tenant item_kind (put_u32_be (length session % u32_mod) ++ session)

abbrev pub max_value_bytes : ℕ
max_value_bytes = 2 ^ 22

abbrev pub max_page_bytes : ℕ
max_page_bytes = 2 ^ 22

abbrev pub max_scan_page : ℕ
max_scan_page = 1000

pub data Status : Type 0 where
  invalid_argument unauthenticated permission_denied failed_precondition internal cancelled
        not_found :
      Status

-- The response of a call that ends with `Status::OK`, or the other status it ends with.
pub data Reply {ℓ} (A : Type ℓ) : Type ℓ where
  answered : A → Reply A
  refused : Status → Reply A

-- Whether tenants come from certificates, and what the client's resolves to.
pub record Caller : Type 0 where
  pub cert_tenant : Bool
  pub from_cert : Option (List ℕ)

-- `ResolveTenant` at what the certificate resolves to.
abbrev pub of_cert : Option (List ℕ) → List ℕ → Reply (List ℕ)
of_cert none requested = refused unauthenticated
of_cert (some tenant) requested =
    if is_empty tenant
    then refused unauthenticated
    else if not (is_empty requested) && not (key_eq requested tenant)
    then refused permission_denied
    else answered tenant

unfoldable pub resolve_tenant : Caller → List ℕ → Reply (List ℕ)
resolve_tenant caller requested =
    if caller.cert_tenant
    then of_cert caller.from_cert requested
    else if is_empty requested
    then refused invalid_argument
    else answered requested

-- What the operating system answers to the calls of one write.
pub record Io : Type 0 where
  pub append_io : AppendIo
  pub compact_io : CompactIo

-- A handler after its call of `ResolveTenant`.
abbrev pub as_tenant {ℓ} :
    {A : Type ℓ} → Reply (List ℕ) → (List ℕ → Reply A × Store) → Store → Reply A × Store
as_tenant (answered tenant) handler s = handler tenant
as_tenant (refused status) handler s = (refused status, s)
