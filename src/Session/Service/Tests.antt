-- ===== src/Session/Service/Tests.antt =====
-- A tenant with a session and a record on a fresh durable store.
use agent_state_storage.Base.{
  ℕ, ◌+◌, ◌<◌, ◌≤◌, ◌≡◌, refl, true, false, none, some, List, [], ◌∷◌, ◌++◌, length, reverse,
  select, if◌then◌else◌, All, ◌⊎◌, arith,
}
use agent_state_storage.Base.Bytes.{u32_mod, put_u32, get_u32}
use agent_state_storage.Session.Crc.{crc32}
use agent_state_storage.Session.Codec.{encode_record, stored_value}
use agent_state_storage.Session.Key.{prefix_matches, key_lt, key_eq}
use agent_state_storage.Session.Table.{IsSorted, find, assign, erase, table_bytes, apply_to_map}
use agent_state_storage.Session.Log.{empty_live}
use agent_state_storage.Session.Log.Recovery.{log_of, apply_all}
use agent_state_storage.Session.File.{write_all, write_at, truncate_to}
use agent_state_storage.Session.Scan.{
  lower_bound, ScanOptions, scan, scan_down, scan_end, skip_matching, is_lower, walk_down, cut,
}
use agent_state_storage.Session.Scan.Range.{in_range, take_page}
use agent_state_storage.Session.Scan.Backward.{scan-backward}
use agent_state_storage.Session.Store.{
  Store, append, flush_all, next_writes, compact_chunks, maybe_compact, apply, get,
}
use agent_state_storage.Session.Store.Invariant.{IsDurable}
use agent_state_storage.Session.Store.Durability.{Fits, apply-Commits}
use agent_state_storage.Session.Service.{
  put_u32_be, put_u64_be, get_u64_be, encode_key, item_prefix, record_kind, invalid_argument,
  internal, answered, refused, Caller, resolve_tenant, Io,
}
use agent_state_storage.Session.Service.Keys.{encode_key-isolated}
use agent_state_storage.Session.Service.Records.{Record, record_key, record_batch, write_records}
use agent_state_storage.Session.Service.Tenants.{after_puts, after_deletes, write_records-cases}
use agent_state_storage.Session.Service.Items.{newest, next_seq, item_puts, append_under, pop_under}
use agent_state_storage.Session.Service.Items.Listing.{under, items_of, IsListing}
use agent_state_storage.Session.Service.Items.Appends.{append_under-appends}
use agent_state_storage.Session.Service.Items.Pops.{deletion, pop_under-pops}

-- What a run of the program unfolds.
program : Unit {0}
unfolding put_u32 get_u32 crc32 encode_record apply_to_map find assign erase write_all write_at
    truncate_to append compact_chunks flush_all next_writes maybe_compact apply get lower_bound scan
    scan_down scan_end skip_matching is_lower walk_down cut prefix_matches key_lt key_eq log_of
    apply_all table_bytes stored_value put_u32_be put_u64_be get_u64_be encode_key item_prefix
    resolve_tenant append_under pop_under
program = tt

abbrev io : Io
io = record {
  append_io = record { writes = []; fsync_ok = true; ftruncate_ok = true; lseek_ok = true };
  compact_io = record {
    open_ok = true;
    flock_ok = true;
    flushes = [];
    tmp_fsync_ok = true;
    rename_ok = true;
  };
}

abbrev fresh : Store
fresh = record {
  live = empty_live;
  durable = true;
  file = [];
  pos = 0;
  log_bytes = 0;
  compact_min_bytes = 4096;
}

fresh-IsDurable : IsDurable fresh
unfolding log_of apply_all
fresh-IsDurable = record {
  log = [];
  fits = tt;
  contents = refl;
  at_end = refl;
  counted = refl;
  replayed = refl;
}

abbrev acme : List ℕ
acme = 97 ∷ 99 ∷ []

abbrev globex : List ℕ
globex = 103 ∷ []

abbrev prefix : List ℕ
prefix = item_prefix acme (49 ∷ [])

abbrev two_items : List (List ℕ)
two_items = (10 ∷ []) ∷ (20 ∷ 21 ∷ []) ∷ []

append-Fits :
    Fits fresh
      (item_puts prefix (next_seq prefix (scan (newest prefix) fresh.live.table).0) two_items)
unfolding program
append-Fits = record { batch_fits = omega arith; chunks_fit = omega arith }

append_under-appends_example :
    let r = append_under io prefix two_items fresh in
    ((seq : ℕ) × (r.0 ≡ answered seq)
      × (items_of prefix r.1.live.table ≡ items_of prefix fresh.live.table ++ two_items)
      × IsListing prefix seq r.1.live.table
      × (seq ≤ 1 + length two_items)
      × IsDurable r.1
      × ((q : List ℕ) → prefix_matches q prefix ≡ false → get r.1 q ≡ get fresh q))
    ⊎ ((r.0 ≡ refused internal) × (r.1 ≡ fresh))
append_under-appends_example =
    append_under-appends io prefix two_items 1 fresh refl fresh-IsDurable append-Fits refl refl
      (omega arith) tt (omega arith)

-- The store after that.
abbrev appended : Store
appended = (append_under io prefix two_items fresh).1

appended_seq : (append_under io prefix two_items fresh).0 ≡ answered 3
unfolding program
appended_seq = refl

appended_durable : appended.durable ≡ true
unfolding program
appended_durable = refl

appended-IsDurable : IsDurable appended
unfolding append_under
appended-IsDurable =
    (apply-Commits io.append_io io.compact_io fresh
      (item_puts prefix (next_seq prefix (scan (newest prefix) fresh.live.table).0) two_items) refl
      fresh-IsDurable append-Fits refl refl).durable_after

appended-IsListing : IsListing prefix 3 appended.live.table
unfolding program
appended-IsListing = ((1, omega arith, refl), ((2, omega arith, refl), tt))

pop-Fits :
    All (λ (e : List ℕ × List ℕ). Fits appended (deletion e.0)) (under prefix appended.live.table)
unfolding program
pop-Fits = (
  record { batch_fits = omega arith; chunks_fit = omega arith },
  (record { batch_fits = omega arith; chunks_fit = omega arith }, tt),
)

pop_under-pops_example :
    let r = pop_under io prefix appended in
    ((items_of prefix appended.live.table ≡ []) × (r.0 ≡ answered none) × (r.1 ≡ appended))
    ⊎ ((item : List ℕ) × (r.0 ≡ answered (some item))
        × (items_of prefix appended.live.table ≡ items_of prefix r.1.live.table ++ (item ∷ []))
        × IsListing prefix 3 r.1.live.table
        × IsDurable r.1)
    ⊎ ((r.0 ≡ refused internal) × (r.1 ≡ appended))
pop_under-pops_example =
    pop_under-pops io prefix 3 appended appended_durable appended-IsDurable pop-Fits refl refl
      appended-IsListing

popped : (pop_under io prefix appended).0 ≡ answered (some (20 ∷ 21 ∷ []))
unfolding program
popped = refl

abbrev backward : ScanOptions
backward = record (newest prefix) { limit = 0; end_before = prefix ++ put_u64_be 2 }

appended-IsSorted : IsSorted appended.live.table
unfolding program
appended-IsSorted = ((refl, tt), (tt, tt))

scan-backward_example :
    scan backward appended.live.table
    ≡ take_page backward 0 0 (reverse (select (in_range backward) appended.live.table))
scan-backward_example = scan-backward backward appended.live.table appended-IsSorted refl

encode_key-isolated_example :
    (acme ≡ acme) × (record_kind ≡ record_kind) × (prefix_matches (1 ∷ 2 ∷ []) (1 ∷ []) ≡ true)
encode_key-isolated_example =
    encode_key-isolated acme acme record_kind record_kind (1 ∷ 2 ∷ []) (1 ∷ []) (omega arith)
      (omega arith) (unfold program in refl)

-- The request names its tenant.
abbrev plain : Caller
plain = record { cert_tenant = false; from_cert = none }

abbrev puts : List Record
puts = (1 ∷ [], 5 ∷ []) ∷ (2 ∷ [], 6 ∷ []) ∷ []

abbrev deletes : List (List ℕ)
deletes = (2 ∷ []) ∷ []

write-Fits : Fits fresh (record_batch acme puts deletes)
unfolding program
write-Fits = record { batch_fits = omega arith; chunks_fit = omega arith }

write_records-cases_example :
    let r = write_records io plain acme puts deletes fresh in
    ((r.0 ≡ answered tt)
      × IsDurable r.1
      × ((other q : List ℕ)
          → length other < u32_mod
          → get r.1 (record_key other q) ≡ (
              if key_eq other acme
              then after_deletes q (after_puts q (get fresh (record_key other q)) puts) deletes
              else get fresh (record_key other q))))
    ⊎ (((r.0 ≡ refused invalid_argument) ⊎ (r.0 ≡ refused internal)) × (r.1 ≡ fresh))
write_records-cases_example =
    write_records-cases io plain acme acme puts deletes fresh (unfold program in refl) (omega arith)
      refl fresh-IsDurable write-Fits refl refl
