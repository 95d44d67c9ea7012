-- ===== src/Session/Store/Compaction.antt =====
-- Compaction rewrites the log from the live map, in records of about 1 MiB.
use mathlib.Core.List.{append_assoc, append-nil}
use agent_state_storage.Base.{
  ℕ, ◌+◌, ◌^◌, ◌≡◌, refl, sym, ap, ◌∙◌, true, Option, none, some, List, [], ◌∷◌, ◌++◌, length,
  arith, leb, map, All, ◌⊎◌, inl, inr, Bool-cases,
}
use agent_state_storage.Session.Codec.{Mutation, put}
use agent_state_storage.Session.Key.{key_lt}
use agent_state_storage.Session.Table.{
  Table, Live, Above, IsSorted, find, assign, apply_at, apply_mutation, apply_to_map,
}
use agent_state_storage.Session.Table.Laws.{Below, assign-append}
use agent_state_storage.Session.Table.Apply.{IsValid, apply_to_map-append}
use agent_state_storage.Session.Log.{empty_live}
use agent_state_storage.Session.Log.Records.{RecordFits}
use agent_state_storage.Session.Log.Recovery.{log_of, apply_all}
use agent_state_storage.Session.Store.{Store, CompactIo, compact_chunks, maybe_compact}
use agent_state_storage.Session.Store.Invariant.{
  IsDurable, live-IsValid, Live-eq, apply_all-IsValid, empty_live-IsValid, flush_all_lem,
}

abbrev pub put_entry : List ℕ × List ℕ → Mutation
put_entry (k, v) = record { op = put; key = k; value = v }

-- The chunks hold the pending mutations and the entries, in order.
apply_all-compact_chunks :
    (m : Table) (chunk : List Mutation) (bytes : ℕ) (s : Live)
    → apply_all s (compact_chunks m chunk bytes) ≡ apply_to_map s (chunk ++ map put_entry m)
unfolding apply_all compact_chunks
apply_all-compact_chunks [] [] bytes s = unfold apply_to_map in refl
apply_all-compact_chunks [] (c ∷ chunk) bytes s = rw append-nil
apply_all-compact_chunks ((k, v) ∷ m) chunk bytes s =
    let chunk' = chunk ++ (put_entry (k, v) ∷ []) in
    let bytes' = bytes + (length k + length v) in
    let joined = append_assoc chunk (put_entry (k, v) ∷ []) (map put_entry m) in
    elim (Bool-cases (leb (2 ^ 20) bytes')) [
      | inl full ↦
          rw (full, compact_chunks)
            (apply_all-compact_chunks m [] 0 (apply_to_map s chunk')
              ∙ sym (apply_to_map-append chunk' (map put_entry m) s)
              ∙ ap (apply_to_map s) joined)
      | inr more ↦
          rw (more, compact_chunks)
            (apply_all-compact_chunks m chunk' bytes' s ∙ ap (apply_to_map s) joined)
    ]

table-put :
    (s : Live) (k v : List ℕ) → (apply_mutation s (put_entry (k, v))).table ≡ assign k v s.table
unfolding apply_mutation
table-put s k v = go (find k s.table)
  where
    go : (o : Option (List ℕ)) → (apply_at put o k v s).table ≡ assign k v s.table
    go none = refl
    go (some old) = refl

IsSorted-Below :
    (m : Table) (e : List ℕ × List ℕ) (rest : Table) → IsSorted (m ++ e ∷ rest) → Below e.0 m
IsSorted-Below [] e rest h = tt
IsSorted-Below (x ∷ m) e rest h = (head m h.0, IsSorted-Below m e rest h.1)
  where
    head : (n : Table) → Above x.0 (n ++ e ∷ rest) → key_lt x.0 e.0 ≡ true
    head [] a = a.0
    head (y ∷ n) a = head n a.1

-- Putting sorted entries back, in order, after entries that precede them.
rebuild :
    (m : Table) (s : Live)
    → IsSorted (s.table ++ m)
    → (apply_to_map s (map put_entry m)).table ≡ s.table ++ m
unfolding apply_to_map
rebuild [] s h = sym (append-nil s.table)
rebuild ((k, v) ∷ m) s h =
    let s' = apply_mutation s (put_entry (k, v)) in
    let added : s'.table ≡ s.table ++ ((k, v) ∷ []) =
      table-put s k v ∙ assign-append k v s.table (IsSorted-Below s.table (k, v) m h) in
    let joined : s'.table ++ m ≡ s.table ++ ((k, v) ∷ m) =
      ap (λ t. t ++ m) added ∙ append_assoc s.table ((k, v) ∷ []) m in
    rebuild m s' (rw joined h) ∙ joined

-- The records that compaction writes replay to the map and the counter that they were written from.
pub apply_all-chunks :
    (s : Live) → IsValid s → apply_all empty_live (compact_chunks s.table [] 0) ≡ s
apply_all-chunks s h =
    Live-eq (apply_all empty_live (compact_chunks s.table [] 0)) s
      (apply_all-IsValid (compact_chunks s.table [] 0) empty_live empty_live-IsValid) h
      (ap (λ (t : Live). t.table) (apply_all-compact_chunks s.table [] 0 empty_live)
        ∙ rebuild s.table empty_live h.sorted)

abbrev pub compacted : Store → Store
compacted s =
    let log = log_of (compact_chunks s.live.table [] 0) in
    record s { file = log; pos = length log; log_bytes = length log }

-- The store is left alone, or its file is replaced by the rewritten log.
pub maybe_compact_cases :
    (io : CompactIo) (s : Store)
    → ((maybe_compact io s).1 ≡ s) ⊎ ((maybe_compact io s).1 ≡ compacted s)
unfolding maybe_compact
maybe_compact_cases io s =
    let chunks = compact_chunks s.live.table [] 0 in
    ground (arith, flush_all_lem chunks io.flushes true 0 [])

compacted-IsDurable :
    (s : Store)
    → All RecordFits (compact_chunks s.live.table [] 0)
    → IsDurable s
    → IsDurable (compacted s)
compacted-IsDurable s fits d = record {
  log = compact_chunks s.live.table [] 0;
  fits = fits;
  contents = refl;
  at_end = refl;
  counted = refl;
  replayed = apply_all-chunks s.live (live-IsValid d);
}

-- Compaction, done or not, failed or not, keeps the log replaying to the map, and the map as it is.
pub maybe_compact-IsDurable :
    (io : CompactIo) (s : Store)
    → All RecordFits (compact_chunks s.live.table [] 0)
    → IsDurable s
    → IsDurable (maybe_compact io s).1 × ((maybe_compact io s).1.live ≡ s.live)
maybe_compact-IsDurable io s fits d = elim (maybe_compact_cases io s) [
  | inl same ↦ rw same (d, refl)
  | inr new ↦ rw new (compacted-IsDurable s fits d, refl)
]
