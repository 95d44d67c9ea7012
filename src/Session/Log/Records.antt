-- ===== src/Session/Log/Records.antt =====
-- Reading back a record that `EncodeRecord` wrote, whole or torn.
use mathlib.Core.List.{append_assoc, append-nil}
use agent_state_storage.Base.{
  ℕ, suc, ◌+◌, ◌-◌, ◌≤◌, ◌<◌, ◌≡◌, sym, ap, ◌∙◌, true, none, some, List, [], ◌∷◌, ◌++◌, map, length,
  take, drop, arith, All, length-append, length-take, take-append_length, drop-append_length,
}
use agent_state_storage.Base.Bytes.{
  put_u32, get_u32, u32_mod, get_u32-put_u32, length-put_u32, drop-put_u32, length-put_u32_append,
  get_u32-take,
}
use agent_state_storage.Session.Crc.{crc32, crc32-lt}
use agent_state_storage.Session.Codec.{
  Mutation, stored_value, encode_mutation, encode_mutations, encode_body, encode_record,
  decode_body,
}
use agent_state_storage.Session.Codec.RoundTrip.{Fits, canonical, decode_body-encode_body}
use agent_state_storage.Session.Log.{read_record, torn_tail}

-- The record's total length fits its length field.
abbrev pub RecordFits : List Mutation → Type 0
RecordFits batch = length (encode_record batch) < u32_mod

-- The record is its length, its body and the checksum of its body.
pub encode_record_parts :
    (batch : List Mutation)
    → encode_record batch
      ≡ put_u32 (length (encode_body batch) + 8)
        ++ (encode_body batch ++ put_u32 (crc32 (encode_body batch)))
unfolding encode_record
encode_record_parts batch =
    let size = length (encode_mutations batch) in
    let e : size + 4 + 4 + 4 ≡ size + 4 + 8 = omega arith in
    simp (append_assoc, drop-put_u32, length-put_u32_append, length-append, length-put_u32) (rw e)

length-encode_mutation :
    (m : Mutation)
    → length (encode_mutation m) ≡ length m.key + length (stored_value m.op m.value) + 9
unfolding encode_mutation
length-encode_mutation m = simp (length-put_u32_append, length-append) (omega arith)

length-encode_mutations : (ms : List Mutation) → length ms ≤ length (encode_mutations ms)
unfolding encode_mutations
length-encode_mutations [] = omega arith
length-encode_mutations (m ∷ ms) = omega (
  arith,
  length-append (encode_mutation m) (encode_mutations ms),
  length-encode_mutation m,
  length-encode_mutations ms,
)

Fits-of_size : (ms : List Mutation) → length (encode_mutations ms) < u32_mod → All Fits ms
unfolding encode_mutations
Fits-of_size [] h = tt
Fits-of_size (m ∷ ms) h =
    let total = length-append (encode_mutation m) (encode_mutations ms) in
    let one = length-encode_mutation m in
    (record { key_fits = omega arith; value_fits = omega arith }, Fits-of_size ms (omega arith))

length-encode_body :
    (batch : List Mutation) → length (encode_body batch) ≡ length (encode_mutations batch) + 4
unfolding encode_body
length-encode_body batch = length-put_u32_append (length batch) (encode_mutations batch)

pub length-encode_record :
    (batch : List Mutation) → length (encode_record batch) ≡ length (encode_body batch) + 8
length-encode_record batch =
    rw (encode_record_parts batch)
      (simp (length-put_u32_append, length-append, length-put_u32) (omega arith))

pub length-encode_record_ge : (batch : List Mutation) → 12 ≤ length (encode_record batch)
length-encode_record_ge batch = omega (arith, length-encode_record batch, length-encode_body batch)

decode_encoded :
    (batch : List Mutation)
    → RecordFits batch
    → decode_body (encode_body batch) ≡ some (map canonical batch)
decode_encoded batch h =
    let size = length-encode_record batch in
    let body = length-encode_body batch in
    let count = length-encode_mutations batch in
    decode_body-encode_body batch (omega arith) (Fits-of_size batch (omega arith))

-- The length field of a record that fits is the record's length.
pub get_u32-encode_record :
    (batch : List Mutation) (rest : List ℕ)
    → RecordFits batch
    → get_u32 (encode_record batch ++ rest) ≡ length (encode_record batch)
get_u32-encode_record batch rest h =
    let size = length-encode_record batch in
    ap (λ r. get_u32 (r ++ rest)) (encode_record_parts batch)
    ∙ ap get_u32 (append_assoc (put_u32 (length (encode_body batch) + 8)) _ rest)
    ∙ get_u32-put_u32 (length (encode_body batch) + 8) _ (omega arith)
    ∙ sym size

abbrev crc_of : List Mutation → List ℕ
crc_of batch = put_u32 (crc32 (encode_body batch))

drop-encode_record :
    (batch : List Mutation) (rest : List ℕ)
    → drop 4 (encode_record batch ++ rest) ≡ encode_body batch ++ (crc_of batch ++ rest)
drop-encode_record batch rest = rw (encode_record_parts batch) (simp (append_assoc, drop-put_u32))

take-body :
    (batch : List Mutation) (rest : List ℕ)
    → take (length (encode_body batch) + 8 - 8) (encode_body batch ++ rest) ≡ encode_body batch
take-body batch rest =
    let body = encode_body batch in
    let e : length body + 8 - 8 ≡ length body = omega arith in rw e (take-append_length body rest)

drop-body :
    (batch : List Mutation) (rest : List ℕ)
    → drop (length (encode_body batch) + 8 - 4) (encode_record batch ++ rest) ≡ crc_of batch ++ rest
drop-body batch rest =
    let body = encode_body batch in
    let e : length body + 8 - 4 ≡ suc (suc (suc (suc (length body)))) = omega arith in
    ap (λ r. drop (length body + 8 - 4) (r ++ rest)) (encode_record_parts batch)
    ∙ ap (λ n. drop n ((put_u32 (length body + 8) ++ (body ++ crc_of batch)) ++ rest)) e
    ∙ unfold put_u32 in
      (ap (drop (length body)) (append_assoc body (crc_of batch) rest)
        ∙ drop-append_length body (crc_of batch ++ rest))

-- A whole record at the front of the buffer is read back, whatever follows it.
pub read_record-encode_record :
    (batch : List Mutation) (rest : List ℕ)
    → RecordFits batch
    → read_record (encode_record batch ++ rest) ≡ some (map canonical batch)
unfolding read_record
read_record-encode_record batch rest h =
    simp
      (
        get_u32-encode_record batch rest h,
        length-append,
        length-encode_record,
        drop-encode_record,
        drop-body,
        take-body,
        get_u32-put_u32 (crc32 (encode_body batch)) rest (crc32-lt (encode_body batch)),
        decode_encoded batch h,
      )
      (ground (arith, length-encode_body batch))

-- A record cut short has its length field beyond the end of the buffer.
get_u32-take_record :
    (batch : List Mutation) (k : ℕ)
    → RecordFits batch
    → 4 ≤ k
    → get_u32 (take k (encode_record batch)) ≡ length (encode_record batch)
get_u32-take_record batch k h hk =
    get_u32-take k (encode_record batch) hk
    ∙ ap get_u32 (sym (append-nil (encode_record batch)))
    ∙ get_u32-encode_record batch [] h

-- It is not read as a record, and it counts as a torn tail.
pub torn_record :
    (batch : List Mutation) (k : ℕ)
    → RecordFits batch
    → 4 ≤ k
    → k < length (encode_record batch)
    → (read_record (take k (encode_record batch)) ≡ none)
      × (torn_tail (take k (encode_record batch)) ≡ true)
unfolding read_record torn_tail
torn_record batch k h hk short =
    let len = get_u32-take_record batch k h hk in
    let size = length-take k (encode_record batch) in (rw len (ground arith), rw len (ground arith))
