-- ===== src/Session/Tests.antt =====
-- Runs of the session store and instances of its theorems.
use agent_state_storage.Base.{
  ℕ, ◌+◌, ◌≡◌, refl, true, false, none, List, [], ◌∷◌, ◌++◌, length, take, arith, if◌then◌else◌,
  All, select, ◌≤◌, ◌<◌,
}
use agent_state_storage.Base.Bytes.{put_u32, get_u32}
use agent_state_storage.Session.Crc.{crc32}
use agent_state_storage.Session.Codec.{stored_value, Mutation, put, del, encode_record, decode_body}
use agent_state_storage.Session.Codec.RoundTrip.{Fits}
use agent_state_storage.Session.Key.{prefix_matches, key_lt, key_eq}
use agent_state_storage.Session.Table.{
  Table, IsSorted, find, assign, erase, table_bytes, apply_to_map,
}
use agent_state_storage.Session.Table.Apply.{IsValid, written}
use agent_state_storage.Session.Log.{replay, replay_file, kept, empty_live, all_zero}
use agent_state_storage.Session.Log.Records.{RecordFits}
use agent_state_storage.Session.Log.Recovery.{log_of, apply_all}
use agent_state_storage.Session.Log.Reopen.{replay_file-take}
use agent_state_storage.Session.File.{write_all, write_at, truncate_to, interrupted, wrote}
use agent_state_storage.Session.Scan.{lower_bound, matching, ScanOptions, scan, prefix_keys}
use agent_state_storage.Session.Scan.Range.{in_range, take_page}
use agent_state_storage.Session.Scan.Forward.{scan-forward}
use agent_state_storage.Session.Store.{
  Store, AppendIo, CompactIo, append, flush_all, next_writes, compact_chunks, maybe_compact, apply,
  get, delete_prefix, open_file, opened,
}
use agent_state_storage.Session.Store.Invariant.{IsDurable}
use agent_state_storage.Session.Store.Durability as Durability
use agent_state_storage.Session.Store.Durability.{Commits, apply-Commits}
use agent_state_storage.Session.Store.Restart.{
  good_open, open_file-restart, open_file-crash, open_file-short_read,
}
use agent_state_storage.Session.Store.Deletion.{get-apply, get-delete_prefix, deletions}

-- What a run of the program unfolds.
program : Unit {0}
unfolding put_u32 get_u32 crc32 encode_record decode_body replay replay_file apply_to_map find
    assign erase write_all write_at truncate_to append compact_chunks flush_all next_writes
    maybe_compact apply get delete_prefix prefix_keys lower_bound matching scan open_file
    prefix_matches key_lt key_eq log_of apply_all all_zero table_bytes stored_value
program = tt

abbrev batch : List Mutation
batch =
    record { op = put; key = 1 ∷ 2 ∷ []; value = 9 ∷ [] }
    ∷ record { op = put; key = 3 ∷ []; value = 7 ∷ 7 ∷ [] }
    ∷ record { op = del; key = 4 ∷ []; value = [] }
    ∷ []

abbrev entries : Table
entries = (1 ∷ 2 ∷ [], 9 ∷ []) ∷ (3 ∷ [], 7 ∷ 7 ∷ []) ∷ []

abbrev good_append : AppendIo
good_append = record {
  writes = wrote 3 ∷ interrupted ∷ [];
  fsync_ok = true;
  ftruncate_ok = true;
  lseek_ok = true;
}

abbrev good_compact : CompactIo
good_compact = record {
  open_ok = true;
  flock_ok = true;
  flushes = [];
  tmp_fsync_ok = true;
  rename_ok = true;
}

-- An empty log, compacted from the first write on.
abbrev fresh : Store
fresh = record {
  live = empty_live;
  durable = true;
  file = [];
  pos = 0;
  log_bytes = 0;
  compact_min_bytes = 0;
}

fresh-IsDurable : IsDurable fresh
unfolding log_of apply_all
fresh-IsDurable = record {
  log = [];
  fits = tt;
  contents = refl;
  at_end = refl;
  counted = refl;
  replayed = refl;
}

batch_after : (apply_to_map empty_live batch).table ≡ entries
unfolding program
batch_after = refl

batch-RecordFits : RecordFits batch
unfolding program
batch-RecordFits = omega arith

fresh-Fits : Durability.Fits fresh batch
unfolding program
fresh-Fits = record { batch_fits = batch-RecordFits; chunks_fit = omega arith }

apply-Commits_example :
    Commits fresh batch
      (apply good_append good_compact fresh batch).0
      (apply good_append good_compact fresh batch).1
apply-Commits_example =
    apply-Commits good_append good_compact fresh batch refl fresh-IsDurable fresh-Fits refl refl

-- The store after that write; compaction ran, and rewrote the log without the deletion.
abbrev stored : Store
stored = (apply good_append good_compact fresh batch).1

stored-IsDurable : IsDurable stored
stored-IsDurable = apply-Commits_example.durable_after

stored_entries : stored.live.table ≡ entries
unfolding program
stored_entries = refl

stored_durable : stored.durable ≡ true
unfolding program
stored_durable = refl

open_file-restart_example :
    open_file (good_open stored.file) stored.compact_min_bytes stored.file ≡ opened stored
open_file-restart_example = open_file-restart stored stored_durable stored-IsDurable

batch_size : 20 < length (encode_record batch)
unfolding program
batch_size = omega arith

open_file-crash_example :
    open_file
      (good_open (stored.file ++ take 20 (encode_record batch)))
      stored.compact_min_bytes
      (stored.file ++ take 20 (encode_record batch))
    ≡ opened stored
open_file-crash_example =
    open_file-crash stored batch 20 stored_durable stored-IsDurable batch-RecordFits batch_size

open_file-short_read_example :
    open_file
      (record (good_open (stored.file ++ encode_record batch)) { got = length stored.file + 20 })
      stored.compact_min_bytes
      (stored.file ++ encode_record batch)
    ≡ opened stored
open_file-short_read_example =
    open_file-short_read stored batch 20 stored_durable stored-IsDurable batch-RecordFits
      (omega arith) batch_size

apply_ok : (apply good_append good_compact fresh batch).0 ≡ true
unfolding program
apply_ok = refl

get-apply_example : get stored (3 ∷ []) ≡ written (3 ∷ []) (get fresh (3 ∷ [])) batch
get-apply_example =
    get-apply good_append good_compact fresh batch (3 ∷ []) refl fresh-IsDurable fresh-Fits refl
      refl apply_ok

deletion-Fits : Durability.Fits stored (deletions (prefix_keys (1 ∷ []) stored.live.table))
unfolding program
deletion-Fits = record { batch_fits = omega arith; chunks_fit = omega arith }

deletion_ok :
    (apply good_append good_compact stored (deletions (prefix_keys (1 ∷ []) stored.live.table))).0
    ≡ true
unfolding program
deletion_ok = refl

get-delete_prefix_example :
    get (delete_prefix good_append good_compact stored (1 ∷ [])).1 (1 ∷ 2 ∷ [])
    ≡ (if prefix_matches (1 ∷ 2 ∷ []) (1 ∷ []) then none else get stored (1 ∷ 2 ∷ []))
get-delete_prefix_example =
    get-delete_prefix good_append good_compact stored (1 ∷ []) (1 ∷ 2 ∷ []) stored_durable
      stored-IsDurable deletion-Fits refl refl deletion_ok

stored_chunks : All RecordFits (compact_chunks stored.live.table [] 0)
unfolding program
stored_chunks = omega arith

batch-Fits : All Fits batch
unfolding program
batch-Fits = omega arith

empty-IsValid : IsValid empty_live
unfolding program
empty-IsValid = record { sorted = tt; counted = refl }

zeros_test : all_zero (0 ∷ 0 ∷ []) ≡ true
unfolding program
zeros_test = refl

abbrev torn : List ℕ
torn = encode_record batch ++ (99 ∷ 0 ∷ 0 ∷ 0 ∷ 5 ∷ [])

torn-kept : replay_file torn ≡ kept (apply_to_map empty_live batch) (length (encode_record batch))
unfolding program
torn-kept = refl

replay_file-take_example :
    (length (encode_record batch) ≤ length torn)
    × (replay_file (take (length (encode_record batch)) torn)
        ≡ kept (apply_to_map empty_live batch) (length (encode_record batch)))
replay_file-take_example =
    replay_file-take torn (apply_to_map empty_live batch) (length (encode_record batch)) torn-kept

abbrev options : ScanOptions
options = record {
  prefix = 1 ∷ [];
  start_after = [];
  end_before = 3 ∷ [];
  limit = 1;
  max_bytes = 0;
  reverse = false;
}

entries-IsSorted : IsSorted entries
unfolding program
entries-IsSorted = ((refl, tt), (tt, tt))

scan-forward_example :
    scan options entries ≡ take_page options 0 0 (select (in_range options) entries)
scan-forward_example = scan-forward options entries entries-IsSorted refl
