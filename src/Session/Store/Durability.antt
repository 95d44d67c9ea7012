-- ===== src/Session/Store/Durability.antt =====
-- `Apply` and `DeletePrefix` against the log, and what a restart finds.
use mathlib.Core.List.{append-nil}
use agent_state_storage.Base.{
  ◌≡◌, refl, sym, ap, ◌∙◌, Bool, true, false, List, [], ◌∷◌, ◌++◌, All, All-append, inl, inr,
}
use agent_state_storage.Session.Codec.{Mutation, encode_record}
use agent_state_storage.Session.Table.{apply_to_map}
use agent_state_storage.Session.Log.{empty_live}
use agent_state_storage.Session.Log.Records.{RecordFits}
use agent_state_storage.Session.Log.Recovery.{log_of, apply_all, log_of-append, apply_all-append}
use agent_state_storage.Session.Store.{Store, AppendIo, CompactIo, compact_chunks, apply}
use agent_state_storage.Session.Store.Invariant.{IsDurable, appended, append_cases}
use agent_state_storage.Session.Store.Compaction.{maybe_compact-IsDurable}

-- The store right after the batch is in the file and in the map.
abbrev pub committed : Store → List Mutation → Store
committed s batch = record (appended s batch) { live = apply_to_map s.live batch }

log_of_one : (batch : List Mutation) → log_of (batch ∷ []) ≡ encode_record batch
unfolding log_of
log_of_one batch = append-nil (encode_record batch)

replay_one :
    (s : Store) (batch : List Mutation) (d : IsDurable s)
    → apply_all empty_live (d.log ++ (batch ∷ [])) ≡ apply_to_map s.live batch
unfolding apply_all
replay_one s batch d =
    apply_all-append d.log (batch ∷ []) empty_live ∙ ap (λ t. apply_to_map t batch) d.replayed

committed-IsDurable :
    (s : Store) (batch : List Mutation)
    → RecordFits batch
    → IsDurable s
    → IsDurable (committed s batch)
committed-IsDurable s batch fits d = record {
  log = d.log ++ (batch ∷ []);
  fits = All-append RecordFits d.log (batch ∷ []) d.fits (fits, tt);
  contents =
      ap (λ f. f ++ encode_record batch) d.contents
      ∙ ap (◌++◌ (log_of d.log)) (sym (log_of_one batch))
      ∙ sym (log_of-append d.log (batch ∷ []));
  at_end = refl;
  counted = refl;
  replayed = replay_one s batch d;
}

-- What a write through the log may leave: the batch committed, or the store untouched.
pub record Commits (s : Store) (batch : List Mutation) (ok : Bool) (s' : Store) : Type 0 where
  pub durable_after : IsDurable s'
  pub on_success : ok ≡ true → s'.live ≡ apply_to_map s.live batch
  pub on_failure : ok ≡ false → s' ≡ s

-- The sizes that the log format needs: the batch, and the map after it when it is compacted.
pub record Fits (s : Store) (batch : List Mutation) : Type 0 where
  pub batch_fits : RecordFits batch
  pub chunks_fit : All RecordFits (compact_chunks (apply_to_map s.live batch).table [] 0)

-- `Apply` is all or nothing, and the log keeps replaying to the map: on success the map holds the
-- batch, on failure nothing changed, file included. It needs sizes that fit the record format, and
-- the `ftruncate` and `lseek` of the error path to work.
pub apply-Commits :
    (aio : AppendIo) (cio : CompactIo) (s : Store) (batch : List Mutation)
    → s.durable ≡ true
    → IsDurable s
    → Fits s batch
    → aio.ftruncate_ok ≡ true
    → aio.lseek_ok ≡ true
    → Commits s batch (apply aio cio s batch).0 (apply aio cio s batch).1
unfolding apply
apply-Commits aio cio s [] live d f t l = record {
  durable_after = d;
  on_success = λ h. unfold apply_to_map in refl;
  on_failure = λ h. cc;
}
apply-Commits aio cio s (m ∷ ms) live d f t l = elim (append_cases aio s (m ∷ ms) live d t l) [
  | inl e ↦
      let (after, same) =
        maybe_compact-IsDurable cio (committed s (m ∷ ms)) f.chunks_fit
          (committed-IsDurable s (m ∷ ms) f.batch_fits d) in
      rw (e, apply) (record { durable_after = after; on_success = λ h. same; on_failure = λ h. cc })
  | inr e ↦
      rw (e, apply) (record { durable_after = d; on_success = λ h. cc; on_failure = λ h. refl })
]
