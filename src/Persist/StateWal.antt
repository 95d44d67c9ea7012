-- ===== src/Persist/StateWal.antt =====
-- `StateWal` of src/kvstore-node/src/persist/state_wal.{h,cpp}. The file is the list of its bytes; the
-- results of the system calls are arguments. The 16 bytes of a key are read as one number. A round of
-- the replay consumes 157 bytes at least, so as much fuel as there are bytes is enough.
pub mod Torn
use agent_state_storage.Base.{
  ℕ, zero, suc, ◌+◌, ◌-◌, ◌*◌, ◌≡◌, Bool, true, false, List, [], ◌∷◌, ◌++◌, ltb, leb, ◌==◌,
  if◌then◌else◌, Option, some, none, length, take, drop, not,
}
use agent_state_storage.Base.Bytes.{u32_mod, put_u32, get_u32, byte_at}
use agent_state_storage.Base.Map.{find, assign}
use agent_state_storage.Session.Crc.{crc32}

unfoldable pub key_number : List ℕ → ℕ
key_number [] = 0
key_number (b ∷ bs) = b + 256 * key_number bs

abbrev pub Blobs : Type 0
Blobs = List (ℕ × List ℕ)

-- The length, the operation, the key, the identity, the length of the blob, the blob.
unfoldable pub record_body : List ℕ → List ℕ → List ℕ → List ℕ
record_body key id blob = 1 ∷ key ++ id ++ put_u32 (length blob) ++ blob

unfoldable pub record_length : List ℕ → ℕ
record_length blob = 4 + 1 + 16 + 128 + 4 + length blob + 4

unfoldable pub encode_record : List ℕ → List ℕ → List ℕ → List ℕ
unfolding record_body record_length
encode_record key id blob =
    put_u32 (record_length blob)
    ++ record_body key id blob
    ++ put_u32 (crc32 (record_body key id blob))

-- The tests that stop the replay, on the buffer from `off` on; otherwise the body of the record.
unfoldable pub read_record : List ℕ → Option (List ℕ)
read_record rest =
    let rec_len = get_u32 rest in
    let body = take (rec_len - 8) (drop 4 rest) in
    if ltb (length rest) 4
    then none
    else if ltb rec_len 157
    then none
    else if ltb (length rest) rec_len
    then none
    else if crc32 body == get_u32 (drop (rec_len - 4) rest)
    then some body
    else none

-- The map after the body, or nothing when the length of the blob does not fit the record.
unfoldable pub apply_body : List ℕ → Blobs → Option Blobs
unfolding key_number
apply_body body m =
    if not (byte_at 0 body == 1)
    then some m
    else if not (get_u32 (drop 145 body) == length body - 149)
    then none
    else some (assign (key_number (take 16 (drop 1 body))) (drop 149 body) m)

-- The map, and the end of the last valid record.
unfoldable pub replay : ℕ → ℕ → List ℕ → Blobs → Blobs × ℕ
unfolding read_record apply_body
replay zero off rest m = (m, off)
replay (suc fuel) off rest m = elim (read_record rest) [
  | none ↦ (m, off)
  | some body ↦ elim (apply_body body m) [
    | none ↦ (m, off)
    | some n ↦ replay fuel (off + get_u32 rest) (drop (get_u32 rest) rest) n
  ]
]

unfoldable pub replay_file : List ℕ → Blobs × ℕ
unfolding replay
replay_file buf = replay (length buf) 0 buf []

pub data Opened : Type 0 where
  opened : Blobs → (file : List ℕ) → Opened
  failed : (file : List ℕ) → Opened

-- `open(O_RDONLY)`: the file's descriptor, ENOENT, or another error.
pub data OpenResult : Type 0 where
  descriptor missing refused : OpenResult

abbrev reopened : Bool → Blobs → List ℕ → Opened
reopened appendable m file = if appendable then opened m file else failed file

-- `Open`: `buf` is what the reads gave, up to the end of the file or an error of `read`.
unfoldable pub open_wal :
    OpenResult → (buf : List ℕ) → (truncates appendable : Bool) → List ℕ → Opened
unfolding replay_file
open_wal missing buf truncates appendable file = reopened appendable [] []
open_wal refused buf truncates appendable file = failed file
open_wal descriptor buf truncates appendable file =
    let r = replay_file buf in
    if ltb r.1 (length buf)
    then (if truncates then reopened appendable r.0 (take r.1 file) else failed file)
    else reopened appendable r.0 file

-- `Append`: `written` is the result of `::write`, nothing for an error.
abbrev written_bytes : Option ℕ → ℕ
written_bytes none = 0
written_bytes (some n) = n

abbrev wrote_all : Option ℕ → ℕ → Bool
wrote_all none size = false
wrote_all (some n) size = n == size

unfoldable pub append :
    (key id blob : List ℕ)
    → (written : Option ℕ) → (synced : Bool) → Blobs × List ℕ
    → (Blobs × List ℕ) × Bool
unfolding encode_record record_length key_number
append key id blob written synced (m, file) =
    let bytes = encode_record key id blob in
    let left = file ++ take (written_bytes written) bytes in
    if leb u32_mod (record_length blob)
    then ((m, file), false)
    else if not (wrote_all written (length bytes))
    then ((m, left), false)
    else if not synced
    then ((m, left), false)
    else ((assign (key_number key) blob m, left), true)

unfoldable pub get : List ℕ → Blobs → Option (List ℕ)
get key m = find (key_number key) m

unfoldable pub size : Blobs → ℕ
size m = length m
