-- ===== src/Session/Store/Invariant.antt =====
-- The log on disk always replays to the map in memory.
use mathlib.Core.List.{append_assoc, append-nil}
use agent_state_storage.Base.{
  ℕ, ◌+◌, ◌%◌, ◌≡◌, refl, sym, ap, ◌∙◌, Bool, true, false, ◌&&◌, List, [], ◌∷◌, ◌++◌, length, take,
  arith, if◌then◌else◌, All, length-append, take_all, ◌⊎◌,
}
use agent_state_storage.Base.Bytes.{u64_mod}
use agent_state_storage.Session.Codec.{Mutation, encode_record}
use agent_state_storage.Session.Table.{Live, table_bytes, apply_to_map}
use agent_state_storage.Session.Table.Apply.{IsValid, apply_to_map-IsValid}
use agent_state_storage.Session.Log.{empty_live}
use agent_state_storage.Session.Log.Records.{RecordFits}
use agent_state_storage.Session.Log.Recovery.{log_of, apply_all}
use agent_state_storage.Session.File.{
  WriteResult, write_all, write_all_lem, truncate_to, write_at, write_at_end, truncate_to-append,
}
use agent_state_storage.Session.Store.{Store, AppendIo, append, next_writes, flush_all}

-- The file is a log of whole records, the offset and the size are its end, and replaying the log
-- gives the map and the counter in memory.
pub record IsDurable (s : Store) : Type 0 where
  pub log : List (List Mutation)
  pub fits : All RecordFits log
  pub contents : s.file ≡ log_of log
  pub at_end : s.pos ≡ length s.file
  pub counted : s.log_bytes ≡ length s.file
  pub replayed : apply_all empty_live log ≡ s.live

pub apply_all-IsValid :
    (bs : List (List Mutation)) (s : Live) → IsValid s → IsValid (apply_all s bs)
unfolding apply_all
apply_all-IsValid [] s h = h
apply_all-IsValid (b ∷ bs) s h =
    apply_all-IsValid bs (apply_to_map s b) (apply_to_map-IsValid b s h)

pub empty_live-IsValid : IsValid empty_live
unfolding table_bytes
empty_live-IsValid = record { sorted = tt; counted = refl }

pub live-IsValid : {s : Store} → IsDurable s → IsValid s.live
live-IsValid d = rw (← d.replayed) (apply_all-IsValid d.log empty_live empty_live-IsValid)

-- Two valid states with the same entries are the same.
pub Live-eq : (s t : Live) → IsValid s → IsValid t → s.table ≡ t.table → s ≡ t
Live-eq s t hs ht e =
    let b : s.bytes ≡ t.bytes = hs.counted ∙ ap (λ m. table_bytes m % u64_mod) e ∙ sym ht.counted in
    λ i. record { table = e i; bytes = b i }

-- The store after a batch was appended to the file.
abbrev pub appended : Store → List Mutation → Store
appended s batch = record s {
  file = s.file ++ encode_record batch;
  pos = length (s.file ++ encode_record batch);
  log_bytes = length (s.file ++ encode_record batch);
}

-- A failed append leaves the store as it was, file included, if `ftruncate` and `lseek` work.
pub append_cases :
    (io : AppendIo) (s : Store) (batch : List Mutation)
    → s.durable ≡ true
    → IsDurable s
    → io.ftruncate_ok ≡ true
    → io.lseek_ok ≡ true
    → (append io s batch ≡ (true, appended s batch)) ⊎ (append io s batch ≡ (false, s))
unfolding append
append_cases io s batch live d t l =
    let rec = encode_record batch in
    let n = (write_all io.writes (length rec)).1 in
    let (most, full) = write_all_lem io.writes (length rec) in
    let size = length-append s.file rec in
    let written : write_at s.pos (take n rec) s.file ≡ s.file ++ take n rec =
      ap (λ p. write_at p (take n rec) s.file) d.at_end ∙ write_at_end (take n rec) s.file in
    let undone : truncate_to s.log_bytes (s.file ++ take n rec) ≡ s.file =
      ap (λ p. truncate_to p (s.file ++ take n rec)) d.counted
      ∙ truncate_to-append s.file (take n rec) in
    let whole = take_all n rec in ground (arith, written, undone, whole, full, most, size)

pub flush_all_lem :
    (cs : List (List Mutation)) (ws : List (List WriteResult)) (ok : Bool) (written : ℕ)
    (tmp : List ℕ)
    → (flush_all cs ws ok written tmp).0 ≡ true
    → (ok ≡ true)
      × ((flush_all cs ws ok written tmp).1 ≡ written + length (log_of cs))
      × ((flush_all cs ws ok written tmp).2 ≡ tmp ++ log_of cs)
unfolding flush_all log_of
flush_all_lem [] ws ok written tmp h = (h, omega arith, sym (append-nil tmp))
flush_all_lem (c ∷ cs) ws ok written tmp h =
    let rec = encode_record c in
    let w = (next_writes ws).0 in
    let n = (write_all w (length rec)).1 in
    let (most, full) = write_all_lem w (length rec) in
    let (sent, size, content) =
      flush_all_lem cs (next_writes ws).1 (ok && (write_all w (length rec)).0)
        (written + length rec) (if ok then tmp ++ take n rec else tmp) h in
    let whole = take_all n rec in
    let both = length-append rec (log_of cs) in
    let good : ok ≡ true = ground arith in
    let all : take n rec ≡ rec = whole (ground arith) in
    let joined = append_assoc tmp rec (log_of cs) in
    (good, omega arith, content ∙ ground (arith, joined))
