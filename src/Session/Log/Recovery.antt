-- ===== src/Session/Log/Recovery.antt =====
-- Replaying a log that `Apply` wrote, whole or cut short by a crash.
use mathlib.Core.List.{append_assoc, append-nil}
use agent_state_storage.Base.{
  ℕ, suc, ◌+◌, ◌-◌, ◌≤◌, ◌<◌, ◌≡◌, refl, sym, ap, ◌∙◌, true, false, none, List, [], ◌∷◌, ◌++◌,
  length, take, ltb, arith, All, length-append, length-take, Bool-cases, inl, inr, dec_lt,
  drop-append_length,
}
use agent_state_storage.Base.Bytes.{get_u32}
use agent_state_storage.Session.Codec.{Mutation, encode_record}
use agent_state_storage.Session.Table.{Live, apply_to_map}
use agent_state_storage.Session.Table.Apply.{apply_to_map-canonical}
use agent_state_storage.Session.Log.{
  read_record, torn_tail, all_zero, kept, replay, empty_live, replay_file,
}
use agent_state_storage.Session.Log.Records.{
  RecordFits, length-encode_record_ge, get_u32-encode_record, read_record-encode_record,
  torn_record,
}

-- The file after the batches, one record for each.
unfoldable pub log_of : List (List Mutation) → List ℕ
log_of [] = []
log_of (b ∷ bs) = encode_record b ++ log_of bs

unfoldable pub apply_all : Live → List (List Mutation) → Live
apply_all s [] = s
apply_all s (b ∷ bs) = apply_all (apply_to_map s b) bs

pub log_of-append : (bs cs : List (List Mutation)) → log_of (bs ++ cs) ≡ log_of bs ++ log_of cs
unfolding log_of
log_of-append [] cs = refl
log_of-append (b ∷ bs) cs =
    ap (◌++◌ (encode_record b)) (log_of-append bs cs)
    ∙ sym (append_assoc (encode_record b) (log_of bs) (log_of cs))

pub apply_all-append :
    (bs cs : List (List Mutation)) (s : Live)
    → apply_all s (bs ++ cs) ≡ apply_all (apply_all s bs) cs
unfolding apply_all
apply_all-append [] cs s = refl
apply_all-append (b ∷ bs) cs s = apply_all-append bs cs (apply_to_map s b)

-- One round of the loop at a whole record.
replay_step :
    (fuel off : ℕ) (b : List Mutation) (rest : List ℕ) (s : Live)
    → RecordFits b
    → replay (suc fuel) off (encode_record b ++ rest) s
      ≡ replay fuel (off + length (encode_record b)) rest (apply_to_map s b)
unfolding replay
replay_step fuel off b rest s h =
    let size = length-encode_record_ge b in
    let total = length-append (encode_record b) rest in
    let long : ltb (length (encode_record b ++ rest)) 12 ≡ false = ground arith in
    rw (long, replay)
      (rw (read_record-encode_record b rest h, replay)
        (rw (get_u32-encode_record b rest h, drop-append_length)
          (ap (replay fuel (off + length (encode_record b)) rest) (apply_to_map-canonical b s))))

-- The loop goes through the whole records of a log and is left at what follows them.
replay-log_of :
    (bs : List (List Mutation)) (fuel off : ℕ) (tail : List ℕ) (s : Live)
    → All RecordFits bs
    → replay (length bs + fuel) off (log_of bs ++ tail) s
      ≡ replay fuel (off + length (log_of bs)) tail (apply_all s bs)
unfolding log_of apply_all
replay-log_of [] fuel off tail s h =
    let e : 0 + fuel ≡ fuel = omega arith in let d : off + 0 ≡ off = omega arith in rw (e, d)
replay-log_of (b ∷ bs) fuel off tail s h =
    let e : suc (length bs) + fuel ≡ suc (length bs + fuel) = omega arith in
    let size = length (encode_record b) in
    let d : off + size + length (log_of bs) ≡ off + length (encode_record b ++ log_of bs) =
      omega (arith, length-append (encode_record b) (log_of bs)) in
    ap (λ n. replay n off ((encode_record b ++ log_of bs) ++ tail) s) e
    ∙ ap (λ r. replay (suc (length bs + fuel)) off r s)
        (append_assoc (encode_record b) (log_of bs) tail)
    ∙ replay_step (length bs + fuel) off b (log_of bs ++ tail) s h.0
    ∙ replay-log_of bs fuel (off + size) tail (apply_to_map s b) h.1
    ∙ ap (λ o. replay fuel o tail (apply_all (apply_to_map s b) bs)) d

length-log_of : (bs : List (List Mutation)) → length bs ≤ length (log_of bs)
unfolding log_of
length-log_of [] = omega arith
length-log_of (b ∷ bs) = omega (
  arith,
  length-append (encode_record b) (log_of bs),
  length-encode_record_ge b,
  length-log_of bs,
)

-- Whatever follows the records decides how the replay ends, with fuel to spare.
pub replay_file-log_of :
    (bs : List (List Mutation)) (tail : List ℕ)
    → All RecordFits bs
    → (fuel : ℕ) × (replay_file (log_of bs ++ tail)
        ≡ replay (suc fuel) (length (log_of bs)) tail (apply_all empty_live bs))
      × (length tail ≤ fuel)
unfolding replay_file
replay_file-log_of bs tail h =
    let total = length (log_of bs ++ tail) in
    let fuel = total - length bs in
    let size = length-append (log_of bs) tail in
    let few = length-log_of bs in
    let e : suc total ≡ length bs + suc fuel = omega arith in
    (
      fuel,
      ap (λ n. replay n 0 (log_of bs ++ tail) empty_live) e
          ∙ replay-log_of bs (suc fuel) 0 tail empty_live h
          ∙ ap (λ o. replay (suc fuel) o tail (apply_all empty_live bs)) (omega arith),
      omega arith,
    )

replay_short :
    (fuel off : ℕ) (tail : List ℕ) (s : Live)
    → length tail < 12
    → replay (suc fuel) off tail s ≡ kept s off
unfolding replay
replay_short fuel off tail s h =
    let e : ltb (length tail) 12 ≡ true = ground arith in rw (e, replay)

replay_torn :
    (fuel off : ℕ) (tail : List ℕ) (s : Live)
    → read_record tail ≡ none
    → torn_tail tail ≡ true
    → replay (suc fuel) off tail s ≡ kept s off
unfolding replay
replay_torn fuel off tail s h t = elim (Bool-cases (ltb (length tail) 12)) [
  | inl e ↦ rw (e, replay)
  | inr e ↦ rw (e, replay) (rw (h, replay) (rw t))
]

-- Replaying a log of whole records gives the batches applied in order, and keeps the whole file.
pub replay_file-whole :
    (bs : List (List Mutation))
    → All RecordFits bs
    → replay_file (log_of bs) ≡ kept (apply_all empty_live bs) (length (log_of bs))
replay_file-whole bs h =
    let (fuel, e, _) = replay_file-log_of bs [] h in
    ap replay_file (sym (append-nil (log_of bs)))
    ∙ e
    ∙ replay_short fuel (length (log_of bs)) [] (apply_all empty_live bs) (omega arith)

-- A crash that leaves only part of the last record behind loses that batch and nothing else: the
-- replay applies every batch before it, and keeps the file up to the torn record.
pub replay_file-torn :
    (bs : List (List Mutation)) (b : List Mutation) (k : ℕ)
    → All RecordFits bs
    → RecordFits b
    → k < length (encode_record b)
    → replay_file (log_of bs ++ take k (encode_record b))
      ≡ kept (apply_all empty_live bs) (length (log_of bs))
replay_file-torn bs b k h hb short =
    let tail = take k (encode_record b) in
    let size = length-take k (encode_record b) in
    let (fuel, e, _) = replay_file-log_of bs tail h in
    let s = apply_all empty_live bs in
    e ∙ elim (dec_lt k 12) [
      | yes few ↦ replay_short fuel (length (log_of bs)) tail s (omega arith)
      | no more ↦
          let (unread, torn) = torn_record b k hb (omega arith) short in
          replay_torn fuel (length (log_of bs)) tail s unread torn
    ]

get_u32-all_zero : (p : List ℕ) → all_zero p ≡ true → get_u32 p ≡ 0
unfolding get_u32 all_zero
get_u32-all_zero [] h = refl
get_u32-all_zero (a ∷ []) h = ground arith
get_u32-all_zero (a ∷ b ∷ []) h = ground arith
get_u32-all_zero (a ∷ b ∷ c ∷ []) h = ground arith
get_u32-all_zero (a ∷ b ∷ c ∷ d ∷ p) h = ground arith

zero_tail : (p : List ℕ) → all_zero p ≡ true → (read_record p ≡ none) × (torn_tail p ≡ true)
unfolding read_record torn_tail
zero_tail p h = let z = get_u32-all_zero p h in (rw z, rw z (ground arith))

-- A tail of zero bytes, which a crash can leave of an extended file, is dropped as well.
pub replay_file-zeros :
    (bs : List (List Mutation)) (tail : List ℕ)
    → All RecordFits bs
    → all_zero tail ≡ true
    → replay_file (log_of bs ++ tail) ≡ kept (apply_all empty_live bs) (length (log_of bs))
replay_file-zeros bs tail h z =
    let (fuel, e, _) = replay_file-log_of bs tail h in
    let (unread, torn) = zero_tail tail z in
    e ∙ replay_torn fuel (length (log_of bs)) tail (apply_all empty_live bs) unread torn
