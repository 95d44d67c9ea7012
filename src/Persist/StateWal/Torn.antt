-- ===== src/Persist/StateWal/Torn.antt =====
-- A failed append, and what it does to the records that follow it.
use agent_state_storage.Base.{
  ℕ, zero, suc, ◌+◌, ◌≤◌, ◌<◌, ◌≡◌, refl, ◌∙◌, Bool, true, false, List, [], ◌∷◌, ◌++◌, leb, ◌==◌,
  arith, ◌⊎◌, inl, inr, Option, some, none, length, take, length-append, length-take, take_all,
  Bool-cases, ap, ==_iff,
}
use agent_state_storage.Base.Bytes.{
  u32_mod, put_u32, get_u32, get_u32-put_u32, length-put_u32, get_u32-take,
}
use agent_state_storage.Base.Map.{assign, find-assign_self}
use agent_state_storage.Persist.StateWal.{
  record_length, encode_record, read_record, replay, replay_file, append, get, Blobs, record_body,
  key_number,
}

-- A failed append leaves the map alone, whatever it left in the file; a successful one is one whose
-- whole record reached the file, and its blob is what `Get` returns from then on.
pub append_cases :
    (key id blob : List ℕ) (written : Option ℕ) (synced : Bool) (m : Blobs) (file : List ℕ)
    → let r = append key id blob written synced (m, file) in
      ((r.1 ≡ false) × (r.0.0 ≡ m))
      ⊎ ((r.1 ≡ true) × (get key r.0.0 ≡ some blob) × (r.0.1 ≡ file ++ encode_record key id blob))
unfolding append get
append_cases key id blob none synced m file = elim (Bool-cases (leb u32_mod (record_length blob))) [
  | inl big ↦ rw big (inl (refl, refl))
  | inr fits ↦ rw fits (inl (refl, refl))
]
append_cases key id blob (some n) false m file =
    elim (Bool-cases (leb u32_mod (record_length blob))) [
      | inl big ↦ rw big (inl (refl, refl))
      | inr fits ↦ elim (Bool-cases (n == length (encode_record key id blob))) [
        | inl whole ↦ rw fits (rw whole (inl (refl, refl)))
        | inr part ↦ rw fits (rw part (inl (refl, refl)))
      ]
    ]
append_cases key id blob (some n) true m file =
    elim (Bool-cases (leb u32_mod (record_length blob))) [
      | inl big ↦ rw big (inl (refl, refl))
      | inr fits ↦ elim (Bool-cases (n == length (encode_record key id blob))) [
        | inr part ↦ rw fits (rw part (inl (refl, refl)))
        | inl whole ↦
            let all =
              take_all n (encode_record key id blob)
                (omega (arith, (==_iff n (length (encode_record key id blob))).0 whole)) in
            rw fits (
              rw whole
                (inr (refl, find-assign_self (key_number key) blob m, ap (λ x. file ++ x) all)))
      ]
    ]

get_u32-append : (p q : List ℕ) → 4 ≤ length p → get_u32 (p ++ q) ≡ get_u32 p
unfolding get_u32
get_u32-append (a ∷ b ∷ c ∷ d ∷ p) q h = refl
get_u32-append p q h = absurd (omega arith)

get_u32-encode_record :
    (key id blob : List ℕ)
    → record_length blob < u32_mod
    → get_u32 (encode_record key id blob) ≡ record_length blob
unfolding encode_record put_u32
get_u32-encode_record key id blob h = get_u32-put_u32 (record_length blob) _ h

pub length-encode_record :
    (key id blob : List ℕ)
    → length key ≡ 16
    → length id ≡ 128
    → length (encode_record key id blob) ≡ record_length blob
unfolding encode_record record_length record_body
length-encode_record key id blob hk hi = simp (length-append, length-put_u32) (omega arith)

-- A partial record at the start of the buffer, with less behind it than the record lacks, stops the
-- replay there.
read_record_torn :
    (key id blob rest : List ℕ) (k : ℕ)
    → record_length blob < u32_mod
    → 4 ≤ k
    → k ≤ length (encode_record key id blob)
    → k + length rest < record_length blob
    → read_record (take k (encode_record key id blob) ++ rest) ≡ none
unfolding read_record
read_record_torn key id blob rest k fits few short less =
    let r = encode_record key id blob in
    let size = length-take k r in
    let len : get_u32 (take k r ++ rest) ≡ record_length blob =
      get_u32-append (take k r) rest (omega arith)
      ∙ get_u32-take k r few
      ∙ get_u32-encode_record key id blob fits in
    let total = length-append (take k r) rest in rw len (ground (arith, total, size))

replay-none :
    (fuel : ℕ) (rest : List ℕ) (m : Blobs) → read_record rest ≡ none → replay fuel 0 rest m ≡ (m, 0)
unfolding replay
replay-none zero rest m h = refl
replay-none (suc fuel) rest m h = rw (h, replay) refl

append_short :
    (key id blob : List ℕ) (k : ℕ) (m : Blobs) (file : List ℕ)
    → record_length blob < u32_mod
    → k < length (encode_record key id blob)
    → append key id blob (some k) true (m, file)
      ≡ ((m, file ++ take k (encode_record key id blob)), false)
unfolding append
append_short key id blob k m file fits part =
    let big : leb u32_mod (record_length blob) ≡ false = ground arith in
    let whole : (k == length (encode_record key id blob)) ≡ false = ground arith in
    rw big (rw whole refl)

append_whole :
    (key id blob : List ℕ) (m : Blobs) (file : List ℕ)
    → record_length blob < u32_mod
    → append key id blob (some (length (encode_record key id blob))) true (m, file)
      ≡ ((assign (key_number key) blob m, file ++ encode_record key id blob), true)
unfolding append
append_whole key id blob m file fits =
    let bytes = encode_record key id blob in
    let big : leb u32_mod (record_length blob) ≡ false = ground arith in
    let whole : (length bytes == length bytes) ≡ true = ground arith in
    rw big (
      rw whole (
        ap (λ x. ((assign (key_number key) blob m, file ++ x), true))
          (take_all (length bytes) bytes (omega arith))))

-- A record that is acknowledged after a failed append can be lost. On a new log, let an append leave
-- part of its record behind, 4 bytes at least, and let a second record be written whole, synced and
-- acknowledged, where both together are shorter than the first record was to be: the next replay
-- finds no record at all and keeps nothing of the file.
pub replay_file-append_torn :
    (key id blob key2 id2 blob2 : List ℕ) (k : ℕ)
    → length key ≡ 16
    → length id ≡ 128
    → record_length blob < u32_mod
    → record_length blob2 < u32_mod
    → 4 ≤ k
    → k + length (encode_record key2 id2 blob2) < record_length blob
    → let first = append key id blob (some k) true ([], []) in
      let second =
        append key2 id2 blob2 (some (length (encode_record key2 id2 blob2))) true first.0 in
      (second.1 ≡ true) × (get key2 second.0.0 ≡ some blob2) × (replay_file second.0.1 ≡ ([], 0))
unfolding get replay_file
replay_file-append_torn key id blob key2 id2 blob2 k hk hi fits fits2 few less =
    let r2 = encode_record key2 id2 blob2 in
    let size = length-encode_record key id blob hk hi in
    rw (append_short key id blob k [] [] fits (omega (arith, size, less))) (
      rw (append_whole key2 id2 blob2 [] (take k (encode_record key id blob)) fits2) (
        refl,
        find-assign_self (key_number key2) blob2 [],
        replay-none _ _ []
            (read_record_torn key id blob r2 k fits few (omega (arith, size, less)) less),
      ))
