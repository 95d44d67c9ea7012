-- ===== src/Ingest/Seal.antt =====
-- `SealCommitter::Commit` of src/kvstore-node/src/ingest/seal.{h,cpp} over the watermarks, the buffer
-- pool and the rows, leaves and events that were written. What RocksDB and the radix tree answer are
-- arguments; a locator is a number, and `has_deps` says that no collaborator is null.
pub mod Order
use agent_state_storage.Base.{
  ℕ, zero, suc, ◌+◌, ◌≡◌, Bool, true, false, List, [], ◌∷◌, ◌==◌, if◌then◌else◌, not, ◌&&◌, select,
}
use agent_state_storage.Ingest.Watermark.{Marks, read, drop_mark}
use agent_state_storage.Ingest.Buffer.{Pool, release_handle}

pub record Row : Type 0 where
  pub locator : ℕ
  pub sealed_at : ℕ
  pub bytes_total : ℕ
  pub residency : ℕ
  pub epoch : ℕ

-- A leaf, with its reference count.
pub record Leaf : Type 0 where
  pub path : List ℕ
  pub leaf_locator : ℕ
  pub leaf_bytes : ℕ
  pub refcount : ℕ

pub data InsertResult : Type 0 where
  inserted replaced path_conflict : InsertResult

pub record Node : Type 0 where
  pub marks : Marks
  pub pool : Pool
  pub current_epoch : ℕ
  pub rows : List Row
  pub leaves : List Leaf
  pub events : List ℕ

pub record Request : Type 0 where
  pub handle : ℕ
  pub locator : ℕ
  pub chunk_path : List ℕ
  pub residency : ℕ

pub data Result : Type 0 where
  incomplete_deps empty_path no_bytes not_persisted conflict : Result
  sealed : (new_epoch sealed_bytes : ℕ) → Result

abbrev pub is_empty_path : List ℕ → Bool
is_empty_path [] = true
is_empty_path (c ∷ cs) = false

abbrev pub is_conflict : InsertResult → Bool
is_conflict inserted = false
is_conflict replaced = false
is_conflict path_conflict = true

-- Step 2: the row and the epoch are one write.
unfoldable pub persist : Request → ℕ → Node → Node
unfolding read
persist req now n = record n {
  rows =
      record {
        locator = req.locator;
        sealed_at = now;
        bytes_total = read req.handle n.marks;
        residency = req.residency;
        epoch = n.current_epoch + 1;
      }
      ∷ n.rows;
  current_epoch = n.current_epoch + 1;
}

abbrev pub same_path : List ℕ → List ℕ → Bool
same_path [] [] = true
same_path [] (d ∷ ds) = false
same_path (c ∷ cs) [] = false
same_path (c ∷ cs) (d ∷ ds) = (c == d) && same_path cs ds

abbrev pub without_path : List ℕ → List Leaf → List Leaf
without_path path leaves = select (λ x. not (same_path x.path path)) leaves

-- What the tree drops when it answers `replaced`: the leaf that the path had.
abbrev pub remaining : InsertResult → List ℕ → List Leaf → List Leaf
remaining inserted path leaves = leaves
remaining replaced path leaves = without_path path leaves
remaining path_conflict path leaves = leaves

-- Step 3, for an answer that is no conflict.
unfoldable pub index_leaf : InsertResult → Request → Node → Node
unfolding read
index_leaf answer req n = record n {
  leaves =
      record {
        path = req.chunk_path;
        leaf_locator = req.locator;
        leaf_bytes = read req.handle n.marks;
        refcount = 1;
      }
      ∷ remaining answer req.chunk_path n.leaves;
}

-- Steps 4 and 5.
unfoldable pub publish_and_release : Request → Node → Node
publish_and_release req n = record n {
  events = req.locator ∷ n.events;
  marks = (drop_mark req.handle n.marks).0;
  pool = (release_handle req.handle n.pool).0;
}

-- From step 2 on.
unfoldable pub write_out : (persisted : Bool) → InsertResult → ℕ → Request → Node → Node × Result
unfolding persist index_leaf publish_and_release
write_out persisted answer now req n =
    if not persisted
    then (n, not_persisted)
    else if is_conflict answer
    then (persist req now n, conflict)
    else (
      publish_and_release req (index_leaf answer req (persist req now n)),
      sealed (n.current_epoch + 1) (read req.handle n.marks),
    )

unfoldable pub commit :
    (has_deps persisted : Bool) → InsertResult → ℕ → Request → Node → Node × Result
unfolding write_out
commit has_deps persisted answer now req n =
    if not has_deps
    then (n, incomplete_deps)
    else if is_empty_path req.chunk_path
    then (n, empty_path)
    else if read req.handle n.marks == 0
    then (n, no_bytes)
    else write_out persisted answer now req n
