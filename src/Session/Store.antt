-- ===== src/Session/Store.antt =====
-- `OrderedLogStore` of src/kvstore-node/src/session/ordered_log_store.cpp. What the operating system
-- answers to a call is an argument. The mutex makes each method one step.
pub mod Invariant
pub mod Compaction
pub mod Durability
pub mod Restart
pub mod Deletion
use agent_state_storage.Base.{
  ℕ, zero, suc, ◌+◌, ◌-◌, ◌*◌, ◌≤◌, ◌^◌, ◌≡◌, Bool, true, false, ◌&&◌, ◌||◌, not, Option, none,
  some, List, [], ◌∷◌, ◌++◌, length, take, drop, min, max, arith, ltb, leb, ◌==◌, if◌then◌else◌,
  is_empty, map,
}
use agent_state_storage.Session.Codec.{Mutation, put, del, encode_record}
use agent_state_storage.Session.Table.{Table, Live, find, apply_to_map}
use agent_state_storage.Session.Log.{Replayed, kept, corrupt, out_of_fuel, replay_file, empty_live}
use agent_state_storage.Session.File.{WriteResult, write_all, truncate_to, write_at}
use agent_state_storage.Session.Scan.{prefix_keys}

-- The fields, with the file behind `fd_` and its offset. `durable` is `fd_ >= 0`.
pub record Store : Type 0 where
  pub live : Live
  pub durable : Bool
  pub file : List ℕ
  pub pos : ℕ
  pub log_bytes : ℕ
  pub compact_min_bytes : ℕ

-- The answers to the calls that `AppendLocked` makes.
pub record AppendIo : Type 0 where
  pub writes : List WriteResult
  pub fsync_ok : Bool
  pub ftruncate_ok : Bool
  pub lseek_ok : Bool

-- The answers to the calls that `MaybeCompactLocked` makes; `flushes` are those of its writes.
pub record CompactIo : Type 0 where
  pub open_ok : Bool
  pub flock_ok : Bool
  pub flushes : List (List WriteResult)
  pub tmp_fsync_ok : Bool
  pub rename_ok : Bool

-- `AppendLocked`
unfoldable pub append : AppendIo → Store → List Mutation → Bool × Store
append io s batch =
    if not s.durable
    then (true, s)
    else (let rec = encode_record batch in
        let (ok, n) = write_all io.writes (length rec) in
        let file' = write_at s.pos (take n rec) s.file in
        if ok && io.fsync_ok
        then (
          true,
          record s { file = file'; pos = s.pos + n; log_bytes = s.log_bytes + length rec },
        )
        else if io.ftruncate_ok
        then (
          false,
          record s {
            file = truncate_to s.log_bytes file';
            pos = if io.lseek_ok then s.log_bytes else s.pos + n;
          },
        )
        else (false, record s { file = file'; pos = s.pos + n }))

-- The batches that compaction flushes: a chunk is written once it holds 1 MiB of keys and values.
unfoldable pub compact_chunks : Table → List Mutation → ℕ → List (List Mutation)
compact_chunks [] chunk bytes = if is_empty chunk then [] else chunk ∷ []
compact_chunks ((k, v) ∷ m) chunk bytes =
    let chunk' = chunk ++ (record { op = put; key = k; value = v } ∷ []) in
    let bytes' = bytes + (length k + length v) in
    let full = compact_chunks m [] 0 in
    let more = compact_chunks m chunk' bytes' in if leb (2 ^ 20) bytes' then chunk' ∷ full else more

-- The answers to the next flush; where the list ends, every write succeeds.
unfoldable pub next_writes : List (List WriteResult) → List WriteResult × List (List WriteResult)
next_writes [] = ([], [])
next_writes (x ∷ xs) = (x, xs)

-- The calls of `flush`: `ok`, `written` and what is in the temporary file.
unfoldable pub flush_all :
    List (List Mutation) → List (List WriteResult) → Bool → ℕ → List ℕ → Bool × ℕ × List ℕ
flush_all [] ws ok written tmp = (ok, written, tmp)
flush_all (c ∷ cs) ws ok written tmp =
    let rec = encode_record c in
    let (w, ws') = next_writes ws in
    let (sent, n) = write_all w (length rec) in
    flush_all cs ws' (ok && sent) (written + length rec) (if ok then tmp ++ take n rec else tmp)

-- `MaybeCompactLocked`
unfoldable pub maybe_compact : CompactIo → Store → Bool × Store
maybe_compact io s =
    if not s.durable || leb s.log_bytes (max s.compact_min_bytes (2 * s.live.bytes))
    then (true, s)
    else if not (io.open_ok && io.flock_ok)
    then (false, s)
    else (let (ok, written, tmp) =
          flush_all (compact_chunks s.live.table [] 0) io.flushes true 0 [] in
        if ok && (io.tmp_fsync_ok && io.rename_ok)
        then (true, record s { file = tmp; pos = written; log_bytes = written })
        else (false, s))

-- `Apply`: the result of compaction is dropped.
unfoldable pub apply : AppendIo → CompactIo → Store → List Mutation → Bool × Store
apply aio cio s batch =
    if is_empty batch
    then (true, s)
    else (let (ok, s') = append aio s batch in
        if ok
        then (true, (maybe_compact cio (record s' { live = apply_to_map s'.live batch })).1)
        else (false, s'))

-- `Get`
unfoldable pub get : Store → List ℕ → Option (List ℕ)
get s key = find key s.live.table

-- `DeletePrefix`: the count of deleted keys.
unfoldable pub delete_prefix : AppendIo → CompactIo → Store → List ℕ → ℕ × Store
delete_prefix aio cio s prefix =
    let batch =
      map (λ k. record { op = del; key = k; value = [] }) (prefix_keys prefix s.live.table) in
    if is_empty batch
    then (0, s)
    else (let (ok, s') = append aio s batch in
        if ok
        then (length batch, (maybe_compact cio (record s' { live = apply_to_map s'.live batch })).1)
        else (0, s'))

pub data OpenError : Type 0 where
  cannot_open in_use cannot_stat cannot_truncate cannot_seek : OpenError
  corrupt_at : ℕ → OpenError

-- `Open` returns a store, or an error with what is left in the file.
pub data Opened : Type 0 where
  opened : Store → Opened
  refused : OpenError → List ℕ → Opened

-- The answers to the calls of `Open`. `got` is how many bytes the `pread` loop delivered before it
-- ended.
pub record OpenIo : Type 0 where
  pub open_ok : Bool
  pub flock_ok : Bool
  pub fstat_ok : Bool
  pub got : ℕ
  pub ftruncate_ok : Bool
  pub lseek_ok : Bool

-- `Open("")`
unfoldable pub open_memory : ℕ → Store
open_memory compact_min = record {
  live = empty_live;
  durable = false;
  file = [];
  pos = 0;
  log_bytes = 0;
  compact_min_bytes = compact_min;
}

-- The end of `Open`, with the file truncated if need be, and the replayed map.
unfoldable pub open_at : OpenIo → ℕ → List ℕ → Live → ℕ → Opened
open_at io compact_min file live off =
    if io.lseek_ok
    then opened (record {
      live = live;
      durable = true;
      file = file;
      pos = off;
      log_bytes = off;
      compact_min_bytes = compact_min;
    })
    else refused cannot_seek file

-- `Open` at a path whose file holds `file` (nothing, if it was created).
unfoldable pub open_file : OpenIo → ℕ → List ℕ → Opened
open_file io compact_min file =
    if not io.open_ok
    then refused cannot_open file
    else if not io.flock_ok
    then refused in_use file
    else if not io.fstat_ok
    then refused cannot_stat file
    else (let buf = take io.got file in
        elim (replay_file buf) [
          | kept live off ↦
              if ltb off (length buf)
              then (if io.ftruncate_ok
                  then open_at io compact_min (truncate_to off file) live off
                  else refused cannot_truncate file)
              else open_at io compact_min file live off
          | corrupt off ↦ refused (corrupt_at off) file
          | out_of_fuel ↦ refused cannot_open file
        ])
