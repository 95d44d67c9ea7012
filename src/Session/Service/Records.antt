-- ===== src/Session/Service/Records.antt =====
-- The records of a tenant: `WriteRecords`, `GetRecords`, `ScanRecords` and `DeleteRecordPrefix` of
-- src/kvstore-node/src/session/agent_state_service.cpp.
use agent_state_storage.Base.{
  ℕ, Bool, false, ◌||◌, List, [], ◌∷◌, ◌++◌, length, drop, map, ltb, ◌==◌, if◌then◌else◌, is_empty,
  Option, none, some,
}
use agent_state_storage.Session.Codec.{Mutation, put, del}
use agent_state_storage.Session.Scan.{ScanOptions, scan}
use agent_state_storage.Session.Store.{Store, apply, get}
use agent_state_storage.Session.Service.{
  encode_key, record_kind, max_value_bytes, max_page_bytes, max_scan_page, invalid_argument,
  internal, Reply, answered, refused, Caller, resolve_tenant, Io, as_tenant,
}
use agent_state_storage.Session.Service.Items.{delete_under}

-- A record of a request or a response: its key and its value.
abbrev pub Record : Type 0
Record = List ℕ × List ℕ

abbrev pub record_key : List ℕ → List ℕ → List ℕ
record_key tenant key = encode_key tenant record_kind key

-- The guards of the loop over the puts.
abbrev pub any_invalid : List Record → Bool
any_invalid [] = false
any_invalid ((k, v) ∷ puts) = is_empty k || (ltb max_value_bytes (length v) || any_invalid puts)

-- The loops over the puts and over the deletes.
abbrev pub put_batch : List ℕ → List Record → List Mutation
put_batch tenant puts =
    map (λ r. record { op = put; key = record_key tenant r.0; value = r.1 }) puts

abbrev pub del_batch : List ℕ → List (List ℕ) → List Mutation
del_batch tenant deletes =
    map (λ k. record { op = del; key = record_key tenant k; value = [] }) deletes

abbrev pub record_batch : List ℕ → List Record → List (List ℕ) → List Mutation
record_batch tenant puts deletes = put_batch tenant puts ++ del_batch tenant deletes

unfoldable pub write_records :
    Io → Caller → List ℕ → List Record → List (List ℕ) → Store → Reply (Unit {0}) × Store
unfolding resolve_tenant
write_records io caller tenant puts deletes s =
    as_tenant (resolve_tenant caller tenant)
      (λ t.
        let (ok, s') = apply io.append_io io.compact_io s (record_batch t puts deletes) in
        if any_invalid puts
        then (refused invalid_argument, s)
        else (if ok then answered tt else refused internal, s'))
      s

-- The loop of `GetRecords`.
abbrev pub found_at : List ℕ → Option (List ℕ) → List Record → List Record
found_at k none rest = rest
found_at k (some v) rest = (k, v) ∷ rest

unfoldable pub found_records : List ℕ → List (List ℕ) → Store → List Record
found_records tenant [] s = []
found_records tenant (k ∷ keys) s =
    found_at k (get s (record_key tenant k)) (found_records tenant keys s)

unfoldable pub get_records : Caller → List ℕ → List (List ℕ) → Store → Reply (List Record) × Store
unfolding found_records resolve_tenant
get_records caller tenant keys s =
    as_tenant (resolve_tenant caller tenant) (λ t. (answered (found_records t keys s), s)) s

pub record ScanRequest : Type 0 where
  pub prefix : List ℕ
  pub start_after : List ℕ
  pub end_before : List ℕ
  pub limit : ℕ
  pub reverse : Bool

-- An absent bound stays absent.
abbrev pub bound_under : List ℕ → List ℕ → List ℕ
bound_under base bound = if is_empty bound then [] else base ++ bound

unfoldable pub scan_options : List ℕ → ScanRequest → ScanOptions
scan_options base req = record {
  prefix = base ++ req.prefix;
  start_after = bound_under base req.start_after;
  end_before = bound_under base req.end_before;
  limit = if req.limit == 0 || ltb max_scan_page req.limit then max_scan_page else req.limit;
  max_bytes = max_page_bytes;
  reverse = req.reverse;
}

-- `ScanRecords`: the page, and `has_more`.
unfoldable pub scan_records :
    Caller → List ℕ → ScanRequest → Store → Reply (List Record × Bool) × Store
unfolding scan_options resolve_tenant
scan_records caller tenant req s =
    as_tenant (resolve_tenant caller tenant)
      (λ t.
        let base = record_key t [] in
        let (kvs, more) = scan (scan_options base req) s.live.table in
        (answered (map (λ e. (drop (length base) e.0, e.1)) kvs, more), s))
      s

unfoldable pub delete_record_prefix : Io → Caller → List ℕ → List ℕ → Store → Reply ℕ × Store
unfolding delete_under resolve_tenant
delete_record_prefix io caller tenant prefix s =
    as_tenant (resolve_tenant caller tenant) (λ t. delete_under io (record_key t prefix) s) s
