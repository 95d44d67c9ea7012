-- ===== src/Session/Store/Restart.antt =====
-- What a restart finds: `Open` on the file that a store left, whole or cut short.
use mathlib.Core.List.{append-nil}
use agent_state_storage.Base.{
  ℕ, zero, suc, ◌+◌, ◌≤◌, ◌<◌, ◌≡◌, refl, sym, ap, ◌∙◌, Bool, true, false, List, [], ◌∷◌, ◌++◌,
  length, arith, ltb, if◌then◌else◌, length-append, inl, inr, Bool-cases, take, take_all,
  length-take,
}
use agent_state_storage.Session.Codec.{Mutation, encode_record}
use agent_state_storage.Session.Table.{Live}
use agent_state_storage.Session.Log.{replay_file, kept}
use agent_state_storage.Session.Log.Records.{RecordFits}
use agent_state_storage.Session.Log.Recovery.{log_of, replay_file-whole, replay_file-torn}
use agent_state_storage.Session.File.{truncate_to, truncate_to-append}
use agent_state_storage.Session.Store.{Store, OpenIo, opened, open_at, open_file}
use agent_state_storage.Session.Store.Invariant.{IsDurable}

-- Every answer of the operating system to `Open` is a success, and the whole file is read.
abbrev pub good_open : List ℕ → OpenIo
good_open file = record {
  open_ok = true;
  flock_ok = true;
  fstat_ok = true;
  got = length file;
  ftruncate_ok = true;
  lseek_ok = true;
}

abbrev same_store : Live → ℕ → List ℕ → ℕ → Store
same_store live off file compact_min = record {
  live = live;
  durable = true;
  file = file;
  pos = off;
  log_bytes = off;
  compact_min_bytes = compact_min;
}

-- `Open` on answers that are all successes, `got` bytes of the file being read.
open_file-kept :
    (file : List ℕ) (got compact_min off : ℕ) (live : Live)
    → replay_file (take got file) ≡ kept live off
    → off ≤ length file
    → open_file (record (good_open file) { got = got }) compact_min file
      ≡ opened (
          same_store live off
            (if ltb off (length (take got file)) then truncate_to off file else file)
            compact_min)
unfolding open_file open_at
open_file-kept file got compact_min off live h fits =
    rw (h, open_file)
      (elim (Bool-cases (ltb off (length (take got file)))) [ inl e ↦ rw e | inr e ↦ rw e ])

same_store-eq :
    (s : Store)
    → s.durable ≡ true
    → IsDurable s
    → same_store s.live (length s.file) s.file s.compact_min_bytes ≡ s
same_store-eq s live d = ground arith

replay_file-store : (s : Store) → IsDurable s → replay_file s.file ≡ kept s.live (length s.file)
replay_file-store s d =
    ap replay_file d.contents
    ∙ replay_file-whole d.log d.fits
    ∙ ap (λ t. kept t (length (log_of d.log))) d.replayed
    ∙ ap (λ p. kept s.live (length p)) (sym d.contents)

-- A restart: opening the file that the store left gives the same map, counter and log.
pub open_file-restart :
    (s : Store)
    → s.durable ≡ true
    → IsDurable s
    → open_file (good_open s.file) s.compact_min_bytes s.file ≡ opened s
open_file-restart s live d =
    let whole = take_all (length s.file) s.file (omega arith) in
    let replayed : replay_file (take (length s.file) s.file) ≡ kept s.live (length s.file) =
      ap replay_file whole ∙ replay_file-store s d in
    let same : ltb (length s.file) (length (take (length s.file) s.file)) ≡ false =
      ground (arith, ap length whole) in
    open_file-kept s.file (length s.file) s.compact_min_bytes (length s.file) s.live replayed
      (omega arith)
    ∙ ap
        (λ (b : Bool). opened (
          same_store s.live (length s.file)
            (if b then truncate_to (length s.file) s.file else s.file) s.compact_min_bytes))
        same
    ∙ ap opened (same_store-eq s live d)

take-append_add {ℓ} :
    {A : Type ℓ} (xs ys : List A) (k : ℕ) → take (length xs + k) (xs ++ ys) ≡ xs ++ take k ys
take-append_add [] ys k = let e : 0 + k ≡ k = omega arith in rw e
take-append_add (x ∷ xs) ys k =
    let e : suc (length xs) + k ≡ suc (length xs + k) = omega arith in
    rw e (ap (◌∷◌ x) (take-append_add xs ys k))

-- Opening when what is read ends within a record: the store from before the record, and the file
-- truncated to match.
open_file-partial :
    (s : Store) (batch : List Mutation) (k : ℕ) (more : List ℕ)
    → s.durable ≡ true
    → IsDurable s
    → RecordFits batch
    → 0 < k
    → k < length (encode_record batch)
    → take k more ≡ take k (encode_record batch)
    → open_file
        (record (good_open (s.file ++ more)) { got = length s.file + k })
        s.compact_min_bytes
        (s.file ++ more)
      ≡ opened s
open_file-partial s batch k more live d f some_bytes short same =
    let rec = encode_record batch in
    let n = length s.file in
    let buf : take (n + k) (s.file ++ more) ≡ s.file ++ take k rec =
      take-append_add s.file more k ∙ ap (◌++◌ s.file) same in
    let replayed : replay_file (take (n + k) (s.file ++ more)) ≡ kept s.live n =
      ap replay_file buf
      ∙ ap (λ p. replay_file (p ++ take k rec)) d.contents
      ∙ replay_file-torn d.log batch k d.fits f short
      ∙ sym (replay_file-whole d.log d.fits)
      ∙ ap replay_file (sym d.contents)
      ∙ replay_file-store s d in
    let size = ap length buf ∙ length-append s.file (take k rec) in
    let cut = length-take k rec in
    let total = length-append s.file more in
    let longer : ltb n (length (take (n + k) (s.file ++ more))) ≡ true = ground arith in
    open_file-kept (s.file ++ more) (n + k) s.compact_min_bytes n s.live replayed (omega arith)
    ∙ ap
        (λ (b : Bool). opened (
          same_store s.live n (if b then truncate_to n (s.file ++ more) else s.file ++ more)
            s.compact_min_bytes))
        longer
    ∙ ap (λ p. opened (same_store s.live n p s.compact_min_bytes)) (truncate_to-append s.file more)
    ∙ ap opened (same_store-eq s live d)

-- A crash while a batch is being appended, any number `k` of its record's bytes short of all having
-- reached the file: the restart gives the store exactly as it was before the batch.
pub open_file-crash :
    (s : Store) (batch : List Mutation) (k : ℕ)
    → s.durable ≡ true
    → IsDurable s
    → RecordFits batch
    → k < length (encode_record batch)
    → let file = s.file ++ take k (encode_record batch) in
      open_file (good_open file) s.compact_min_bytes file ≡ opened s
open_file-crash s batch zero live d f short =
    ap (λ p. open_file (good_open p) s.compact_min_bytes p) (append-nil s.file)
    ∙ open_file-restart s live d
open_file-crash s batch (suc k) live d f short =
    let torn = take (suc k) (encode_record batch) in
    let cut = length-take (suc k) (encode_record batch) in
    let size = length-append s.file torn in
    let n : length (s.file ++ torn) ≡ length s.file + suc k = omega arith in
    ap
      (λ g.
        open_file (record (good_open (s.file ++ torn)) { got = g }) s.compact_min_bytes
          (s.file ++ torn))
      n
    ∙ open_file-partial s batch (suc k) torn live d f (omega arith) short
        (take_all (suc k) torn (omega arith))

-- An error of `pread` inside the last record is taken for the end of the file: `Open` succeeds with
-- the store from before that record, and its truncation removes the record, which was acknowledged,
-- from the file.
pub open_file-short_read :
    (s : Store) (batch : List Mutation) (k : ℕ)
    → s.durable ≡ true
    → IsDurable s
    → RecordFits batch
    → 0 < k
    → k < length (encode_record batch)
    → let file = s.file ++ encode_record batch in
      open_file (record (good_open file) { got = length s.file + k }) s.compact_min_bytes file
      ≡ opened s
open_file-short_read s batch k live d f some_bytes short =
    open_file-partial s batch k (encode_record batch) live d f some_bytes short refl
