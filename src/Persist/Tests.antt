-- ===== src/Persist/Tests.antt =====
-- A log of one torn and one whole record.
use agent_state_storage.Base.{
  ℕ, zero, suc, ◌≡◌, ◌++◌, refl, true, false, List, [], ◌∷◌, ◌⊎◌, arith, some, length,
}
use agent_state_storage.Persist.StateWal.{append, get, replay_file, encode_record, record_length}
use agent_state_storage.Persist.StateWal.Torn.{
  append_cases, length-encode_record, replay_file-append_torn,
}

abbrev fill : ℕ → ℕ → List ℕ
fill zero b = []
fill (suc n) b = b ∷ fill n b

abbrev key : List ℕ
key = 7 ∷ fill 15 0

abbrev id : List ℕ
id = fill 128 1

abbrev long_blob : List ℕ
long_blob = fill 400 9

append_cases_example :
    let r = append key id (5 ∷ []) (some 158) true ([], []) in
    ((r.1 ≡ false) × (r.0.0 ≡ []))
    ⊎ ((r.1 ≡ true)
        × (get key r.0.0 ≡ some (5 ∷ []))
        × (r.0.1 ≡ [] ++ encode_record key id (5 ∷ [])))
append_cases_example = append_cases key id (5 ∷ []) (some 158) true [] []

lengths :
    (record_length long_blob ≡ 557)
    × (record_length [] ≡ 157)
    × (length (encode_record key id []) ≡ 157)
unfolding record_length
lengths = (refl, refl, length-encode_record key id [] refl refl)

replay_file-append_torn_example :
    let first = append key id long_blob (some 100) true ([], []) in
    let second = append key id [] (some (length (encode_record key id []))) true first.0 in
    (second.1 ≡ true) × (get key second.0.0 ≡ some []) × (replay_file second.0.1 ≡ ([], 0))
replay_file-append_torn_example =
    replay_file-append_torn key id long_blob key id [] 100 refl refl (omega (arith, lengths))
      (omega (arith, lengths)) (omega arith) (omega (arith, lengths))
