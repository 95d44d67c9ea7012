-- ===== src/Session/Service/Items.antt =====
-- The items of a session: `AppendItems`, `GetItems`, `PopItem`, `ClearSession` and `ForkSession` of
-- src/kvstore-node/src/session/agent_state_service.cpp.
pub mod Listing
pub mod Appends
pub mod Pops
use agent_state_storage.Base.{
  ℕ, ◌+◌, ◌%◌, Bool, true, false, not, ◌&&◌, ◌||◌, List, [], ◌∷◌, ◌++◌, length, drop, map, reverse,
  ltb, ◌==◌, if◌then◌else◌, is_empty, Option, none, some,
}
use agent_state_storage.Base.Bytes.{u64_mod}
use agent_state_storage.Session.Codec.{Mutation, put, del}
use agent_state_storage.Session.Key.{key_eq}
use agent_state_storage.Session.Table.{Table}
use agent_state_storage.Session.Scan.{ScanOptions, scan, prefix_keys}
use agent_state_storage.Session.Store.{Store, apply, delete_prefix}
use agent_state_storage.Session.Service.{
  put_u64_be, get_u64_be, item_prefix, max_value_bytes, max_page_bytes, Status, invalid_argument,
  failed_precondition, internal, Reply, answered, refused, Caller, resolve_tenant, Io, as_tenant,
}

-- The options of the scans below: no limit, no bound.
abbrev pub whole : List ℕ → ScanOptions
whole prefix = record {
  prefix = prefix;
  start_after = [];
  end_before = [];
  limit = 0;
  max_bytes = 0;
  reverse = false;
}

abbrev pub newest : List ℕ → ScanOptions
newest prefix = record (whole prefix) { limit = 1; reverse = true }

abbrev pub any_too_big : List (List ℕ) → Bool
any_too_big [] = false
any_too_big (item ∷ items) = ltb max_value_bytes (length item) || any_too_big items

-- The sequence number in a key under the prefix.
abbrev pub seq_of : List ℕ → List ℕ → ℕ
seq_of prefix key = get_u64_be (drop (length prefix) key)

-- The number of the first new item, from the last one.
abbrev pub next_seq : List ℕ → Table → ℕ
next_seq prefix [] = 1
next_seq prefix (e ∷ m) = (seq_of prefix e.0 + 1) % u64_mod

-- The loop over the request's items.
abbrev pub item_puts : List ℕ → ℕ → List (List ℕ) → List Mutation
item_puts prefix seq [] = []
item_puts prefix seq (item ∷ items) =
    record { op = put; key = prefix ++ put_u64_be seq; value = item }
    ∷ item_puts prefix ((seq + 1) % u64_mod) items

abbrev pub seq_after : ℕ → List (List ℕ) → ℕ
seq_after seq [] = seq
seq_after seq (item ∷ items) = seq_after ((seq + 1) % u64_mod) items

-- `AppendItems` from `ItemPrefix` on.
unfoldable pub append_under : Io → List ℕ → List (List ℕ) → Store → Reply ℕ × Store
append_under io prefix items s =
    let seq = next_seq prefix (scan (newest prefix) s.live.table).0 in
    let (ok, s') = apply io.append_io io.compact_io s (item_puts prefix seq items) in
    (if ok then answered (seq_after seq items) else refused internal, s')

unfoldable pub append_items :
    Io → Caller → List ℕ → List ℕ → List (List ℕ) → Store → Reply ℕ × Store
unfolding append_under resolve_tenant
append_items io caller tenant session items s =
    as_tenant (resolve_tenant caller tenant)
      (λ t.
        if is_empty session || any_too_big items
        then (refused invalid_argument, s)
        else append_under io (item_prefix t session) items s)
      s

pub record ItemsPage : Type 0 where
  pub first_seq : ℕ
  pub has_more : Bool
  pub items : List (List ℕ)

abbrev pub first_seq_of : List ℕ → Table → ℕ
first_seq_of prefix [] = 0
first_seq_of prefix (e ∷ m) = seq_of prefix e.0

-- `GetItems` from `ItemPrefix` on.
unfoldable pub get_under : List ℕ → ℕ → ℕ → Store → ItemsPage
get_under prefix limit before_seq s =
    let (kvs, more) =
      scan
        (record (whole prefix) {
          limit = limit;
          max_bytes = max_page_bytes;
          reverse = true;
          end_before = if before_seq == 0 then [] else prefix ++ put_u64_be before_seq;
        })
        s.live.table in
    record {
      first_seq = first_seq_of prefix (reverse kvs);
      has_more = more;
      items = map (λ e. e.1) (reverse kvs);
    }

unfoldable pub get_items : Caller → List ℕ → List ℕ → ℕ → ℕ → Store → Reply ItemsPage × Store
unfolding get_under resolve_tenant
get_items caller tenant session limit before_seq s =
    as_tenant (resolve_tenant caller tenant)
      (λ t.
        if is_empty session
        then (refused invalid_argument, s)
        else (answered (get_under (item_prefix t session) limit before_seq s), s))
      s

-- `PopItem` at the newest entry, if there is one.
abbrev pub pop_at : Io → Table → Store → Reply (Option (List ℕ)) × Store
pop_at io [] s = (answered none, s)
pop_at io (e ∷ m) s =
    let (ok, s') =
      apply io.append_io io.compact_io s (record { op = del; key = e.0; value = [] } ∷ []) in
    (if ok then answered (some e.1) else refused internal, s')

unfoldable pub pop_under : Io → List ℕ → Store → Reply (Option (List ℕ)) × Store
pop_under io prefix s = pop_at io (scan (newest prefix) s.live.table).0 s

unfoldable pub pop_item : Io → Caller → List ℕ → List ℕ → Store → Reply (Option (List ℕ)) × Store
unfolding pop_under resolve_tenant
pop_item io caller tenant session s =
    as_tenant (resolve_tenant caller tenant)
      (λ t.
        if is_empty session
        then (refused invalid_argument, s)
        else pop_under io (item_prefix t session) s)
      s

-- `DeletePrefix` with its error: it sets one when there are keys to delete and the append fails, and
-- then counts none.
unfoldable pub delete_under : Io → List ℕ → Store → Reply ℕ × Store
delete_under io prefix s =
    let (n, s') = delete_prefix io.append_io io.compact_io s prefix in
    let failed = not (is_empty (prefix_keys prefix s.live.table)) && n == 0 in
    (if failed then refused internal else answered n, s')

unfoldable pub clear_session : Io → Caller → List ℕ → List ℕ → Store → Reply ℕ × Store
unfolding delete_under resolve_tenant
clear_session io caller tenant session s =
    as_tenant (resolve_tenant caller tenant)
      (λ t.
        if is_empty session
        then (refused invalid_argument, s)
        else delete_under io (item_prefix t session) s)
      s

-- The copies of a session's entries.
abbrev pub copies : List ℕ → List ℕ → Table → List Mutation
copies src dst m = map (λ e. record { op = put; key = dst ++ drop (length src) e.0; value = e.1 }) m

-- `ForkSession` once both mutexes are held.
unfoldable pub fork_under : Io → List ℕ → List ℕ → Store → Reply ℕ × Store
fork_under io src dst s =
    let batch = copies src dst (scan (whole src) s.live.table).0 in
    let (ok, s') = apply io.append_io io.compact_io s batch in
    if not (is_empty (scan (record (whole dst) { limit = 1 }) s.live.table).0)
    then (refused failed_precondition, s)
    else (if ok then answered (length batch) else refused internal, s')

unfoldable pub fork_session : Io → Caller → List ℕ → List ℕ → List ℕ → Store → Reply ℕ × Store
unfolding fork_under resolve_tenant
fork_session io caller tenant source target s =
    as_tenant (resolve_tenant caller tenant)
      (λ t.
        if is_empty source || (is_empty target || key_eq source target)
        then (refused invalid_argument, s)
        else fork_under io (item_prefix t source) (item_prefix t target) s)
      s
