-- ===== src/Session/Service/Tenants.antt =====
-- What a write of records does to what every tenant reads.
use agent_state_storage.Base.{
  ℕ, ◌<◌, ◌≡◌, refl, ap, subst, ◌∙◌, true, false, ◌⊎◌, List, [], ◌∷◌, ◌++◌, length, if◌then◌else◌,
  Option, none, some, Bool-cases, inl, inr,
}
use agent_state_storage.Base.Bytes.{u32_mod}
use agent_state_storage.Session.Codec.{Mutation}
use agent_state_storage.Session.Key.{key_eq, key_eq→eq}
use agent_state_storage.Session.Table.Apply.{outcome, written}
use agent_state_storage.Session.Store.{Store, apply, get}
use agent_state_storage.Session.Store.Invariant.{IsDurable}
use agent_state_storage.Session.Store.Durability.{Fits, apply-Commits}
use agent_state_storage.Session.Store.Deletion.{get-apply}
use agent_state_storage.Session.Service.{
  record_kind, invalid_argument, internal, answered, refused, Caller, resolve_tenant, Io,
}
use agent_state_storage.Session.Service.Keys.{encode_key-eq, encode_key-ne}
use agent_state_storage.Session.Service.Records.{
  Record, record_key, any_invalid, put_batch, del_batch, record_batch, write_records,
}

-- A tenant's records as a map: the puts in order, then the deletes.
unfoldable pub after_puts : List ℕ → Option (List ℕ) → List Record → Option (List ℕ)
after_puts q old [] = old
after_puts q old ((k, v) ∷ puts) = after_puts q (if key_eq q k then some v else old) puts

unfoldable pub after_deletes : List ℕ → Option (List ℕ) → List (List ℕ) → Option (List ℕ)
after_deletes q old [] = old
after_deletes q old (k ∷ deletes) = after_deletes q (if key_eq q k then none else old) deletes

written-append :
    (q : List ℕ) (ms ns : List Mutation) (old : Option (List ℕ))
    → written q old (ms ++ ns) ≡ written q (written q old ms) ns
unfolding written
written-append q [] ns old = refl
written-append q (m ∷ ms) ns old =
    written-append q ms ns (if key_eq q m.key then outcome m.op m.value else old)

module _ (tenant : List ℕ) where
  written-puts :
      (q : List ℕ) (puts : List Record) (old : Option (List ℕ))
      → written (record_key tenant q) old (put_batch tenant puts) ≡ after_puts q old puts
  unfolding written after_puts
  written-puts q [] old = refl
  written-puts q ((k, v) ∷ puts) old =
      rw (encode_key-eq tenant record_kind q k, written)
        (written-puts q puts (if key_eq q k then some v else old))

  written-deletes :
      (q : List ℕ) (deletes : List (List ℕ)) (old : Option (List ℕ))
      → written (record_key tenant q) old (del_batch tenant deletes) ≡ after_deletes q old deletes
  unfolding written after_deletes
  written-deletes q [] old = refl
  written-deletes q (k ∷ deletes) old =
      rw (encode_key-eq tenant record_kind q k, written)
        (written-deletes q deletes (if key_eq q k then none else old))

  written-record_batch :
      (q : List ℕ) (puts : List Record) (deletes : List (List ℕ)) (old : Option (List ℕ))
      → written (record_key tenant q) old (record_batch tenant puts deletes)
        ≡ after_deletes q (after_puts q old puts) deletes
  written-record_batch q puts deletes old =
      written-append (record_key tenant q) (put_batch tenant puts) (del_batch tenant deletes) old
      ∙ ap (λ o. written (record_key tenant q) o (del_batch tenant deletes))
          (written-puts q puts old)
      ∙ written-deletes q deletes (after_puts q old puts)

  module _ (other : List ℕ) (st : length tenant < u32_mod) (so : length other < u32_mod)
      (ne : key_eq other tenant ≡ false) where
    written_other :
        (q : List ℕ) (puts : List Record) (deletes : List (List ℕ)) (old : Option (List ℕ))
        → written (record_key other q) old (record_batch tenant puts deletes) ≡ old
    unfolding written
    written_other q [] [] old = refl
    written_other q [] (k ∷ deletes) old =
        rw (encode_key-ne other tenant record_kind q k so st ne, written)
          (written_other q [] deletes old)
    written_other q ((k, v) ∷ puts) deletes old =
        rw (encode_key-ne other tenant record_kind q k so st ne, written)
          (written_other q puts deletes old)

-- `WriteRecords` for a resolved tenant, on a sound durable store whose error path works: it answers,
-- and then every key of the tenant reads as after the puts and then the deletes, and every key of any
-- other tenant as before; or it reports an error, and the store is as it was.
pub write_records-cases :
    (io : Io) (caller : Caller) (requested tenant : List ℕ) (puts : List Record)
    (deletes : List (List ℕ)) (s : Store)
    → resolve_tenant caller requested ≡ answered tenant
    → length tenant < u32_mod
    → s.durable ≡ true
    → IsDurable s
    → Fits s (record_batch tenant puts deletes)
    → io.append_io.ftruncate_ok ≡ true
    → io.append_io.lseek_ok ≡ true
    → let r = write_records io caller requested puts deletes s in
      ((r.0 ≡ answered tt)
        × IsDurable r.1
        × ((other q : List ℕ)
            → length other < u32_mod
            → get r.1 (record_key other q) ≡ (
                if key_eq other tenant
                then after_deletes q (after_puts q (get s (record_key other q)) puts) deletes
                else get s (record_key other q))))
      ⊎ (((r.0 ≡ refused invalid_argument) ⊎ (r.0 ≡ refused internal)) × (r.1 ≡ s))
unfolding write_records
write_records-cases io caller requested tenant puts deletes s res st live d f t l =
    let batch = record_batch tenant puts deletes in
    let c = apply-Commits io.append_io io.compact_io s batch live d f t l in
    elim (Bool-cases (any_invalid puts)) [
      | inl bad ↦ rw (res, bad) (inr (inl refl, refl))
      | inr good ↦ elim (Bool-cases (apply io.append_io io.compact_io s batch).0) [
        | inr failed ↦ rw (res, good, failed, c.on_failure failed) (inr (inr refl, refl))
        | inl ok ↦
            rw (res, good, ok)
              (inl (
                refl,
                c.durable_after,
                λ other q so.
                    get-apply io.append_io io.compact_io s batch (record_key other q) live d f t l
                      ok
                    ∙ reads other q so,
              ))
      ]
    ]
  where
    reads :
        (other q : List ℕ)
        → length other < u32_mod
        → written
            (record_key other q)
            (get s (record_key other q))
            (record_batch tenant puts deletes)
          ≡ (if key_eq other tenant
              then after_deletes q (after_puts q (get s (record_key other q)) puts) deletes
              else get s (record_key other q))
    reads other q so = elim (Bool-cases (key_eq other tenant)) [
      | inl same ↦ rw same (
          subst
            (λ u.
              written (record_key other q) (get s (record_key other q))
                (record_batch u puts deletes)
              ≡ after_deletes q (after_puts q (get s (record_key other q)) puts) deletes)
            (key_eq→eq other tenant same)
            (written-record_batch other q puts deletes (get s (record_key other q))))
      | inr ne ↦
          rw ne (written_other tenant other st so ne q puts deletes (get s (record_key other q)))
    ]
