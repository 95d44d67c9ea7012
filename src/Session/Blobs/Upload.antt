-- ===== src/Session/Blobs/Upload.antt =====
-- An upload replaces its blob whole, or leaves every blob as it was.
use agent_state_storage.Base.{
  ℕ, ◌+◌, ltb, ◌≡◌, refl, sym, ap, subst, ◌∙◌, Bool, true, false, not, ◌&&◌, List, [], ◌∷◌, ◌++◌,
  length, take, take_all, if◌then◌else◌, Option, none, some, Bool-cases, length-append, ◌⊎◌, inl,
  inr, arith,
}
use mathlib.Core.List.{append_assoc, append-nil}
use agent_state_storage.Session.Key.{key_eq, key_eq_iff, key_eq_self}
use agent_state_storage.Session.Table.{Table, IsSorted, find, assign, erase}
use agent_state_storage.Session.Table.Laws.{find-assign, find-erase, assign-IsSorted}
use agent_state_storage.Session.File.{WriteResult, write_all, write_all_lem}
use agent_state_storage.Session.Service.{
  Reply, answered, refused, Status, internal, invalid_argument, cancelled,
}
use agent_state_storage.Session.Blobs.{
  max_blob_bytes, DiskWriter, create, content_at, grow, write, rename_at, commit, destroy,
  write_chunks, UploadIo, finish, upload,
}

-- The bytes of the stream.
abbrev pub stream_bytes : List (List WriteResult × List ℕ) → List ℕ
stream_bytes [] = []
stream_bytes ((rs, more) ∷ chunks) = more ++ stream_bytes chunks

-- The directory as it was, but for one file.
pub record Holds (tmp bytes : List ℕ) (files files' : Table) : Type 0 where
  pub sorted : IsSorted files'
  pub reads :
      (name : List ℕ) → find name files' ≡ (if key_eq name tmp then some bytes else find name files)

abbrev Same : Table → Table → Type 0
Same files files' = (name : List ℕ) → find name files' ≡ find name files

grow-Holds :
    (tmp bytes more : List ℕ) (files files' : Table)
    → Holds tmp bytes files files'
    → Holds tmp (bytes ++ more) files (grow tmp more files')
grow-Holds tmp bytes more files files' h =
    let here : find tmp files' ≡ some bytes = h.reads tmp ∙ rw (key_eq_self tmp) refl in
    let whole : content_at (find tmp files') ++ more ≡ bytes ++ more =
      ap (λ o. content_at o ++ more) here in
    record {
      sorted = assign-IsSorted tmp (content_at (find tmp files') ++ more) files' h.sorted;
      reads = λ name.
          find-assign tmp name (content_at (find tmp files') ++ more) files'
          ∙ ap (λ v. if key_eq name tmp then some v else find name files') whole
          ∙ elim (Bool-cases (key_eq name tmp)) [
            | inl same ↦ rw same refl
            | inr other ↦ rw other (h.reads name ∙ rw other refl)
          ];
    }

erase-Same :
    (tmp bytes : List ℕ) (files files' : Table)
    → find tmp files ≡ none
    → Holds tmp bytes files files'
    → Same files (erase tmp files')
erase-Same tmp bytes files files' fresh h name =
    find-erase tmp name files' h.sorted ∙ elim (Bool-cases (key_eq name tmp)) [
      | inl same ↦ rw same (sym (ap (λ k. find k files) ((key_eq_iff name tmp).0 same) ∙ fresh))
      | inr other ↦ rw other (h.reads name ∙ rw other refl)
    ]

rename-reads :
    (tmp final bytes : List ℕ) (files files' : Table)
    → find tmp files ≡ none
    → Holds tmp bytes files files'
    → (name : List ℕ)
    → find name (rename_at (find tmp files') tmp final files')
      ≡ (if key_eq name final then some bytes else find name files)
rename-reads tmp final bytes files files' fresh h name =
    let here : find tmp files' ≡ some bytes = h.reads tmp ∙ rw (key_eq_self tmp) refl in
    ap (λ o. find name (rename_at o tmp final files')) here
    ∙ find-assign final name bytes (erase tmp files')
    ∙ ap (λ o. if key_eq name final then some bytes else o)
        (erase-Same tmp bytes files files' fresh h name)

-- A writer that has written `n` bytes.
abbrev writer : List ℕ → List ℕ → ℕ → DiskWriter
writer tmp final n = record {
  fd_open = true;
  tmp = tmp;
  final = final;
  size = n;
  committed = false;
}

-- A writer that is done for, and the file that it leaves for its destructor.
abbrev Fails : List ℕ → Table → DiskWriter → Table → Type 0
Fails tmp files w files' =
    (w.tmp ≡ tmp) × (w.committed ≡ false) × ((left : List ℕ) × Holds tmp left files files')

-- A chunk is written whole, or the writer is done for.
write_cases :
    (tmp final bytes more : List ℕ) (rs : List WriteResult) (files files' : Table)
    → Holds tmp bytes files files'
    → let r = write rs more (writer tmp final (length bytes)) files' in
      ((r.0 ≡ true)
        × (r.1 ≡ writer tmp final (length (bytes ++ more)))
        × Holds tmp (bytes ++ more) files r.2)
      ⊎ ((r.0 ≡ false) × Fails tmp files r.1 r.2)
unfolding write
write_cases tmp final bytes more rs files files' h =
    let n = (write_all rs (length more)).1 in
    elim (Bool-cases (ltb max_blob_bytes (length bytes + length more))) [
      | inl big ↦ rw big (inr (refl, (refl, refl, (bytes, h))))
      | inr fits ↦ elim (Bool-cases (write_all rs (length more)).0) [
        | inr failed ↦
            rw (fits, failed)
              (inr (
                refl,
                (
                  refl,
                  refl,
                  (bytes ++ take n more, grow-Holds tmp bytes (take n more) files files' h),
                ),
              ))
        | inl ok ↦
            let all : n ≡ length more = (write_all_lem rs (length more)).1 ok in
            let whole : take n more ≡ more = take_all n more (omega arith) in
            let size : length bytes + n ≡ length (bytes ++ more) =
              omega (arith, length-append bytes more) in
            rw (fits, ok)
              (inl (
                refl,
                ap (writer tmp final) size,
                subst (λ x. Holds tmp (bytes ++ x) files (grow tmp (take n more) files')) whole
                    (grow-Holds tmp bytes (take n more) files files' h),
              ))
      ]
    ]

-- All the bytes are in the file, or the writer is done for.
abbrev Written : List ℕ → List ℕ → List ℕ → Table → Option Status × ℕ × DiskWriter × Table → Type 0
Written tmp final all files r =
    ((r.0 ≡ none)
      × (r.1 ≡ length all)
      × (r.2 ≡ writer tmp final (length all))
      × Holds tmp all files r.3)
    ⊎ ((status : Status) × (r.0 ≡ some status) × Fails tmp files r.2 r.3)

-- The same for the chunks of a stream.
write_chunks_cases :
    (tmp final bytes : List ℕ) (chunks : List (List WriteResult × List ℕ)) (files files' : Table)
    → Holds tmp bytes files files'
    → Written tmp final
        (bytes ++ stream_bytes chunks)
        files
        (write_chunks chunks (length bytes) (writer tmp final (length bytes)) files')
unfolding write_chunks
write_chunks_cases tmp final bytes [] files files' h =
    let same = append-nil bytes in rw same (inl (refl, refl, refl, h))
write_chunks_cases tmp final bytes ((rs, more) ∷ chunks) files files' h =
    elim (write_cases tmp final bytes more rs files files' h) [
      | inr (failed, rest) ↦ rw failed (
          inr (
            (if ltb max_blob_bytes (length bytes + length more)
                then invalid_argument
                else internal),
            refl,
            rest,
          ))
      | inl (ok, w, holds) ↦
          let size : length bytes + length more ≡ length (bytes ++ more) =
            omega (arith, length-append bytes more) in
          let joined = append_assoc bytes more (stream_bytes chunks) in
          let r = write rs more (writer tmp final (length bytes)) files' in
          let all = bytes ++ (more ++ stream_bytes chunks) in
          let later : Written tmp final all files (
              write_chunks chunks (length (bytes ++ more))
                (writer tmp final (length (bytes ++ more))) r.2) =
            subst
              (λ b. Written tmp final b files (
                write_chunks chunks (length (bytes ++ more))
                  (writer tmp final (length (bytes ++ more))) r.2))
              joined (write_chunks_cases tmp final (bytes ++ more) chunks files r.2 holds) in
          rw ok (
            subst (λ k. Written tmp final all files (write_chunks chunks k r.1 r.2)) (sym size)
              (subst
                (λ v.
                  Written tmp final all files (write_chunks chunks (length (bytes ++ more)) v r.2))
                (sym w) later))
    ]

created : (tmp : List ℕ) (files : Table) → IsSorted files → Holds tmp [] files (assign tmp [] files)
created tmp files sorted = record {
  sorted = assign-IsSorted tmp [] files sorted;
  reads = λ name. find-assign tmp name [] files;
}

-- The blob replaced, or nothing changed but for a temporary file that could not be removed.
abbrev pub Uploaded : Bool → List ℕ → List ℕ → List ℕ → Table → Reply ℕ × Table → Type 0
Uploaded unlink_ok tmp final all files r =
    ((r.0 ≡ answered (length all))
      × ((name : List ℕ)
          → find name r.1 ≡ (if key_eq name final then some all else find name files)))
    ⊎ ((status : Status) × (r.0 ≡ refused status)
        × ((name : List ℕ)
            → find name r.1
              ≡ (if key_eq name tmp && not unlink_ok then find name r.1 else find name files)))

dropped :
    (unlink_ok : Bool) (tmp : List ℕ) (w : DiskWriter) (files files' : Table)
    → find tmp files ≡ none
    → Fails tmp files w files'
    → (name : List ℕ)
    → find name (destroy unlink_ok w files') ≡ (
        if key_eq name tmp && not unlink_ok
        then find name (destroy unlink_ok w files')
        else find name files)
unfolding destroy
dropped unlink_ok tmp w files files' fresh (same, uncommitted, (left, holds)) name =
    elim (Bool-cases unlink_ok) [
      | inl ok ↦
          rw (uncommitted, ok, same)
            (elim (Bool-cases (key_eq name tmp)) [
              | inl here ↦ rw here (erase-Same tmp left files files' fresh holds name)
              | inr other ↦ rw other (erase-Same tmp left files files' fresh holds name)
            ])
      | inr bad ↦ elim (Bool-cases (key_eq name tmp)) [
        | inl here ↦ rw (here, bad) refl
        | inr other ↦ rw (uncommitted, bad, other) (holds.reads name ∙ rw other refl)
      ]
    ]

finish_cases :
    (io : UploadIo) (tmp final all : List ℕ) (files : Table)
    (r : Option Status × ℕ × DiskWriter × Table)
    → find tmp files ≡ none
    → Written tmp final all files r
    → Uploaded io.unlink_ok tmp final all files (finish io r)
unfolding commit destroy
finish_cases io tmp final all files (some status, size, w, files') fresh (inl (e, a, b, c)) =
    absurd cc
finish_cases io tmp final all files (some status, size, w, files') fresh (inr (other, e, fails)) =
    inr (status, refl, dropped io.unlink_ok tmp w files files' fresh fails)
finish_cases io tmp final all files (none, size, w, files') fresh (inr (other, e, fails)) =
    absurd cc
finish_cases io tmp final all files (none, size, w, files') fresh (inl (e, count, same, holds)) =
    subst (λ v. Uploaded io.unlink_ok tmp final all files (finish io (none, size, v, files')))
      (sym same)
      (subst
        (λ k.
          Uploaded io.unlink_ok tmp final all files
            (finish io (none, k, writer tmp final (length all), files')))
        (sym count) (ends io))
  where
    lost : Fails tmp files (writer tmp final (length all)) files'
    lost = (refl, refl, (all, holds))

    ends :
        (io : UploadIo)
        → Uploaded io.unlink_ok tmp final all files
            (finish io (none, length all, writer tmp final (length all), files'))
    ends io = elim (Bool-cases io.is_cancelled) [
      | inl stops ↦ rw stops (
          inr (
            cancelled,
            refl,
            dropped io.unlink_ok tmp (writer tmp final (length all)) files files' fresh lost,
          ))
      | inr goes ↦ elim (Bool-cases (io.fsync_ok && io.rename_ok)) [
        | inl ok ↦ rw (goes, ok) (inl (refl, rename-reads tmp final all files files' fresh holds))
        | inr bad ↦
            rw (goes, bad)
              (inr (
                internal,
                refl,
                dropped io.unlink_ok tmp (writer tmp final (length all)) files files' fresh lost,
              ))
      ]
    ]

unchanged {ℓ} : {A : Type ℓ} (b : Bool) (x : A) → x ≡ (if b then x else x)
unchanged true x = refl
unchanged false x = refl

-- `PutBlob` on disk, with a temporary name that no file has: either it answers the size of the
-- stream, the blob holds the stream's bytes, and every other file is as it was, the temporary one being
-- gone; or it is refused, and once it returns every file is as it was, except that the temporary
-- file may be left where its `unlink` fails.
pub upload_cases :
    (io : UploadIo) (tmp final : List ℕ) (chunks : List (List WriteResult × List ℕ)) (files : Table)
    → IsSorted files
    → find tmp files ≡ none
    → Uploaded io.unlink_ok tmp final (stream_bytes chunks) files (upload io tmp final chunks files)
unfolding upload create
upload_cases io tmp final chunks files sorted fresh = elim (Bool-cases io.open_ok) [
  | inr stays_shut ↦ rw stays_shut (
      inr
        (internal, refl, λ name. unchanged (key_eq name tmp && not io.unlink_ok) (find name files)))
  | inl opens ↦
      rw (opens, fresh)
        (finish_cases io tmp final (stream_bytes chunks) files
          (write_chunks chunks 0 (writer tmp final 0) (assign tmp [] files)) fresh
          (write_chunks_cases tmp final [] chunks files (assign tmp [] files)
            (created tmp files sorted)))
]
