-- ===== src/Session/Blobs/Tests.antt =====
-- A blob on disk replaced by an upload of two chunks, and one in memory.
use agent_state_storage.Base.{ℕ, ◌≡◌, refl, true, false, none, List, [], ◌∷◌, arith}
use agent_state_storage.Session.Key.{key_eq, key_lt}
use agent_state_storage.Session.Table.{Table, IsSorted, find, assign, erase}
use agent_state_storage.Session.File.{WriteResult, interrupted, wrote, write_all}
use agent_state_storage.Session.Service.{answered}
use agent_state_storage.Session.Blobs.{
  UploadIo, create, write, commit, destroy, write_chunks, upload, mem_commit, mem_read,
}
use agent_state_storage.Session.Blobs.Upload.{stream_bytes, Uploaded, upload_cases}
use agent_state_storage.Session.Blobs.Memory.{
  mem_writer, mem_write_all, joined, mem_read-mem_commit,
}

program : Unit {0}
unfolding key_eq key_lt find assign erase write_all create write commit destroy write_chunks upload
program = tt

abbrev good : UploadIo
good = record {
  open_ok = true;
  is_cancelled = false;
  fsync_ok = true;
  rename_ok = true;
  unlink_ok = true;
}

abbrev final : List ℕ
final = 97 ∷ []

abbrev tmp : List ℕ
tmp = 46 ∷ 116 ∷ []

abbrev files : Table
files = (97 ∷ [], 1 ∷ 2 ∷ []) ∷ (98 ∷ [], 3 ∷ []) ∷ []

files-IsSorted : IsSorted files
unfolding program
files-IsSorted = ((refl, tt), (tt, tt))

abbrev chunks : List (List WriteResult × List ℕ)
chunks = (wrote 1 ∷ interrupted ∷ [], 7 ∷ 8 ∷ []) ∷ ([], 9 ∷ []) ∷ []

no_tmp : find tmp files ≡ none
unfolding program
no_tmp = refl

upload_cases_example :
    Uploaded true tmp final (stream_bytes chunks) files (upload good tmp final chunks files)
upload_cases_example = upload_cases good tmp final chunks files files-IsSorted no_tmp

uploaded :
    upload good tmp final chunks files
    ≡ (answered 3, (97 ∷ [], 7 ∷ 8 ∷ 9 ∷ []) ∷ (98 ∷ [], 3 ∷ []) ∷ [])
unfolding program
uploaded = refl

abbrev parts : List (List ℕ)
parts = (1 ∷ 2 ∷ []) ∷ (3 ∷ []) ∷ []

mem_read-mem_commit_example :
    let r = mem_commit (mem_write_all parts (mem_writer final [])) files in
    (r.0 ≡ true) × (mem_read [] final r.2 ≡ (true, joined parts))
mem_read-mem_commit_example = mem_read-mem_commit final parts files (omega arith)
