-- ===== src/Session/Blobs.antt =====
-- `BlobStore` of src/kvstore-node/src/session/blob_store.{h,cpp}, and the blob calls of
-- src/kvstore-node/src/session/agent_state_service.cpp on it. A directory is its files by name, a
-- store in memory its blobs by key; what system calls, the stream and the random name answer are
-- arguments, and `hash` is a parameter: the 32 bytes of `Hasher::Finalize256`.
pub mod Upload
pub mod Memory
mod Tests
use agent_state_storage.Base.{
  ℕ, zero, suc, ◌+◌, ◌-◌, ◌/◌, ◌%◌, ◌^◌, min, ltb, ◌==◌, Bool, true, false, not, ◌&&◌, ◌||◌, List,
  [], ◌∷◌, ◌++◌, length, take, drop, select, if◌then◌else◌, is_empty, is_some, Option, none, some,
}
use agent_state_storage.Base.Bytes.{u32_mod, put_u32}
use agent_state_storage.Session.Key.{prefix_matches}
use agent_state_storage.Session.Table.{Table, find, assign, erase}
use agent_state_storage.Session.File.{WriteResult, write_all}
use agent_state_storage.Session.Service.{
  Reply, answered, refused, Status, invalid_argument, internal, cancelled, not_found,
}

abbrev pub max_blob_bytes : ℕ
max_blob_bytes = 2 ^ 32

abbrev pub chunk_bytes : ℕ
chunk_bytes = 2 ^ 20

-- ".tmp-"
abbrev pub tmp_prefix : List ℕ
tmp_prefix = 46 ∷ 116 ∷ 109 ∷ 112 ∷ 45 ∷ []

unfoldable pub mem_key : List ℕ → List ℕ → List ℕ
mem_key tenant name = put_u32 (length tenant % u32_mod) ++ (tenant ++ name)

-- `kHex[d]`
abbrev pub hex_digit : ℕ → ℕ
hex_digit d = if ltb d 10 then 48 + d else 87 + d

abbrev pub hex_of : List ℕ → List ℕ
hex_of [] = []
hex_of (b ∷ d) = hex_digit (b / 16) ∷ hex_digit (b % 16) ∷ hex_of d

-- `PathFor`, within the directory.
unfoldable pub path_for : (List ℕ → List ℕ) → List ℕ → List ℕ → List ℕ
unfolding mem_key
path_for hash tenant name = hex_of (hash (mem_key tenant name))

-- `Open` of a directory: temporary files are removed.
unfoldable pub open_dir : Table → Table
open_dir files = select (λ e. not (prefix_matches e.0 tmp_prefix)) files

pub record DiskWriter : Type 0 where
  pub fd_open : Bool
  pub tmp : List ℕ
  pub final : List ℕ
  pub size : ℕ
  pub committed : Bool

-- `Create` on disk; `O_EXCL` refuses a file that is there.
unfoldable pub create : Bool → List ℕ → List ℕ → Table → Option (DiskWriter × Table)
create open_ok tmp final files =
    if open_ok && not (is_some (find tmp files))
    then some (
      record { fd_open = true; tmp = tmp; final = final; size = 0; committed = false },
      assign tmp [] files,
    )
    else none

abbrev pub content_at : Option (List ℕ) → List ℕ
content_at none = []
content_at (some bytes) = bytes

-- What `write` appends to the file.
abbrev pub grow : List ℕ → List ℕ → Table → Table
grow name bytes files = assign name (content_at (find name files) ++ bytes) files

-- `DiskWriter::Write`
unfoldable pub write : List WriteResult → List ℕ → DiskWriter → Table → Bool × DiskWriter × Table
write rs bytes w files =
    let (ok, n) = write_all rs (length bytes) in
    if not w.fd_open
    then (false, w, files)
    else if ltb max_blob_bytes (w.size + length bytes)
    then (false, record w { fd_open = false }, files)
    else (ok, record w { fd_open = ok; size = w.size + n }, grow w.tmp (take n bytes) files)

-- `rename(tmp, final)`
abbrev pub rename_at : Option (List ℕ) → List ℕ → List ℕ → Table → Table
rename_at none tmp final files = files
rename_at (some bytes) tmp final files = assign final bytes (erase tmp files)

-- `DiskWriter::Commit`
unfoldable pub commit : Bool → Bool → DiskWriter → Table → Bool × DiskWriter × Table
commit fsync_ok rename_ok w files =
    if not w.fd_open
    then (false, w, files)
    else if not (fsync_ok && rename_ok)
    then (false, record w { fd_open = false }, files)
    else (
      true,
      record w { fd_open = false; committed = true },
      rename_at (find w.tmp files) w.tmp w.final files,
    )

-- `~DiskWriter`, with the answer of `unlink`.
unfoldable pub destroy : Bool → DiskWriter → Table → Table
destroy unlink_ok w files = if w.committed || not unlink_ok then files else erase w.tmp files

-- The loop of `PutBlob` over the stream's chunks, each with the answers to its writes: `some` of the
-- status it returns with, or `none` at the end of the stream, and the size.
unfoldable pub write_chunks :
    List (List WriteResult × List ℕ)
    → ℕ
    → DiskWriter
    → Table
    → Option Status × ℕ × DiskWriter × Table
unfolding write
write_chunks [] size w files = (none, size, w, files)
write_chunks ((rs, bytes) ∷ chunks) size w files =
    let r = write rs bytes w files in
    let rest = write_chunks chunks (size + length bytes) r.1 r.2 in
    if r.0 then rest else (
      some (if ltb max_blob_bytes (size + length bytes) then invalid_argument else internal),
      size,
      r.1,
      r.2,
    )

-- The answers to the other calls of an upload.
pub record UploadIo : Type 0 where
  pub open_ok : Bool
  pub is_cancelled : Bool
  pub fsync_ok : Bool
  pub rename_ok : Bool
  pub unlink_ok : Bool

-- `PutBlob` after its loop.
abbrev pub finish : UploadIo → Option Status × ℕ × DiskWriter × Table → Reply ℕ × Table
finish io (some status, size, w, files) = (refused status, destroy io.unlink_ok w files)
finish io (none, size, w, files) =
    let r = commit io.fsync_ok io.rename_ok w files in
    if io.is_cancelled
    then (refused cancelled, destroy io.unlink_ok w files)
    else if r.0
    then (answered size, destroy io.unlink_ok r.1 r.2)
    else (refused internal, destroy io.unlink_ok r.1 r.2)

-- `PutBlob` for a resolved tenant and a name, with the file name of its blob and a temporary one.
abbrev pub upload_at :
    UploadIo
    → List (List WriteResult × List ℕ)
    → Option (DiskWriter × Table)
    → Table
    → Reply ℕ × Table
upload_at io chunks none files = (refused internal, files)
upload_at io chunks (some (w, files')) files = finish io (write_chunks chunks 0 w files')

unfoldable pub upload :
    UploadIo → List ℕ → List ℕ → List (List WriteResult × List ℕ) → Table → Reply ℕ × Table
unfolding create write_chunks commit destroy
upload io tmp final chunks files = upload_at io chunks (create io.open_ok tmp final files) files

-- One call of `read`.
pub data ReadResult : Type 0 where
  interrupted failed : ReadResult
  got : ℕ → ReadResult

-- The loop of `Read` on disk, with the answers of `read` and of the sink: whether it succeeded, and
-- what the sink was given. Where the answers end, one call gives the rest of the file.
unfoldable pub read_file : List (ReadResult × Bool) → List ℕ → Bool × List ℕ
read_file [] bytes = (true, bytes)
read_file ((interrupted, sink) ∷ rs) bytes = read_file rs bytes
read_file ((failed, sink) ∷ rs) bytes = (false, [])
read_file ((got n, sink) ∷ rs) bytes =
    let part = take (min n chunk_bytes) bytes in
    let rest = read_file rs (drop (min n chunk_bytes) bytes) in
    if is_empty part then (true, []) else if sink then (rest.0, part ++ rest.1) else (false, part)

-- `GetBlob` for a file name.
abbrev pub download_at : Option (List ℕ) → List (ReadResult × Bool) → Reply (Unit {0}) × List ℕ
download_at none rs = (refused not_found, [])
download_at (some bytes) rs =
    let r = read_file rs bytes in (if r.0 then answered tt else refused internal, r.1)

unfoldable pub download : List ℕ → List (ReadResult × Bool) → Table → Reply (Unit {0}) × List ℕ
unfolding read_file
download final rs files = download_at (find final files) rs

abbrev pub size_at : Option (List ℕ) → Option ℕ
size_at none = none
size_at (some bytes) = some (length bytes)

-- `Size` and `Delete` on disk
unfoldable pub size : List ℕ → Table → Option ℕ
size final files = size_at (find final files)

unfoldable pub delete : List ℕ → Table → Table × Bool
delete final files = (erase final files, is_some (find final files))

pub record MemWriter : Type 0 where
  pub key : List ℕ
  pub buf : List ℕ
  pub is_done : Bool

-- `MemWriter::Write`
unfoldable pub mem_write : List ℕ → MemWriter → Bool × MemWriter
mem_write bytes w =
    if w.is_done
    then (false, w)
    else if ltb max_blob_bytes (length w.buf + length bytes)
    then (false, record w { is_done = true })
    else (true, record w { buf = w.buf ++ bytes })

-- `MemWriter::Commit`: the buffer is moved out.
unfoldable pub mem_commit : MemWriter → Table → Bool × MemWriter × Table
mem_commit w mem =
    if w.is_done
    then (false, w, mem)
    else (true, record w { is_done = true; buf = [] }, assign w.key w.buf mem)

abbrev pub next_sink : List Bool → Bool × List Bool
next_sink [] = (true, [])
next_sink (sink ∷ sinks) = (sink, sinks)

-- The loop of `Read` in memory in chunks of a size, with the answers of the sink, which then accepts. `fuel` bounds the
-- chunks: one more than the bytes is enough.
unfoldable pub send_chunks : ℕ → ℕ → List Bool → List ℕ → Bool × List ℕ
send_chunks chunk zero sinks bytes = (true, [])
send_chunks chunk (suc fuel) sinks bytes =
    let part = take chunk bytes in
    let (sink, sinks') = next_sink sinks in
    let rest = send_chunks chunk fuel sinks' (drop chunk bytes) in
    if is_empty part then (true, []) else if sink then (rest.0, part ++ rest.1) else (false, part)

abbrev pub mem_read_at : List Bool → Option (List ℕ) → Bool × List ℕ
mem_read_at sinks none = (false, [])
mem_read_at sinks (some bytes) = send_chunks chunk_bytes (suc (length bytes)) sinks bytes

unfoldable pub mem_read : List Bool → List ℕ → Table → Bool × List ℕ
unfolding send_chunks
mem_read sinks key mem = mem_read_at sinks (find key mem)
