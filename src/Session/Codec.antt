-- ===== src/Session/Codec.antt =====
-- The record format of src/kvstore-node/src/session/ordered_log_store.cpp: `Mutation`,
-- `EncodeRecord` and `DecodeBody`. A std::string is the list of its bytes; a pointer `p + off` with
-- the bytes left, `n - off`, is the list of those bytes.
pub mod RoundTrip
use agent_state_storage.Base.{
  ℕ, zero, suc, ◌+◌, ◌-◌, ◌≡◌, refl, Bool, true, false, ◌||◌, Option, none, some, List, [], ◌∷◌,
  ◌++◌, length, take, drop, is_empty, ltb, ◌==◌, if◌then◌else◌, ◌>>=◌,
}
use agent_state_storage.Base.Bytes.{put_u32, get_u32, byte_at}
use agent_state_storage.Session.Crc.{crc32}

-- The underlying values are `kPut = 1` and `kDel = 2`.
pub data Op : Type 0 where
  put del : Op

pub record Mutation : Type 0 where
  pub op : Op
  pub key : List ℕ
  pub value : List ℕ

unfoldable pub op_code : Op → ℕ
op_code put = 1
op_code del = 2

unfoldable pub op_of_code : ℕ → Option Op
op_of_code c = if c == 1 then some put else if c == 2 then some del else none

-- The value bytes that a record carries: `vlen` is 0 for a deletion.
unfoldable pub stored_value : Op → List ℕ → List ℕ
stored_value put v = v
stored_value del v = []

-- One round of the loop of `EncodeRecord`.
unfoldable pub encode_mutation : Mutation → List ℕ
unfolding op_code stored_value
encode_mutation m =
    let v = stored_value m.op m.value in
    op_code m.op ∷ (put_u32 (length m.key) ++ (m.key ++ (put_u32 (length v) ++ v)))

unfoldable pub encode_mutations : List Mutation → List ℕ
unfolding encode_mutation
encode_mutations [] = []
encode_mutations (m ∷ ms) = encode_mutation m ++ encode_mutations ms

-- What the record holds between its length and its checksum.
unfoldable pub encode_body : List Mutation → List ℕ
unfolding encode_mutations
encode_body batch = put_u32 (length batch) ++ encode_mutations batch

-- The length field is written as 0 and patched at the end.
unfoldable pub encode_record : List Mutation → List ℕ
unfolding encode_body
encode_record batch =
    let rec = put_u32 0 ++ encode_body batch in
    let rec' = rec ++ put_u32 (crc32 (drop 4 rec)) in put_u32 (length rec') ++ drop 4 rec'

-- One round of the loop of `DecodeBody`: a mutation, and the bytes that follow it.
unfoldable pub decode_mutation : List ℕ → Option (Mutation × List ℕ)
unfolding op_of_code
decode_mutation p =
    if ltb (length p) (1 + 4)
    then none
    else (op_of_code (byte_at 0 p) >>= λ op.
        let klen = get_u32 (drop 1 p) in
        let p1 = drop 4 (drop 1 p) in
        if ltb (length p1) klen || ltb (length p1 - klen) 4
        then none
        else (let p2 = drop klen p1 in
            let vlen = get_u32 p2 in
            let p3 = drop 4 p2 in
            if ltb (length p3) vlen
            then none
            else some (record { op = op; key = take klen p1; value = take vlen p3 }, drop vlen p3)))

-- The loop runs `count` times, and must end at the end of the body.
unfoldable pub decode_mutations : ℕ → List ℕ → Option (List Mutation)
unfolding decode_mutation
decode_mutations zero p = if is_empty p then some [] else none
decode_mutations (suc i) p =
    decode_mutation p >>= λ (m, rest). decode_mutations i rest >>= λ ms. some (m ∷ ms)

unfoldable pub decode_body : List ℕ → Option (List Mutation)
unfolding decode_mutations
decode_body p = if ltb (length p) 4 then none else decode_mutations (get_u32 p) (drop 4 p)

abbrev sample : List Mutation
sample =
    record { op = put; key = 1 ∷ 2 ∷ []; value = 9 ∷ [] }
    ∷ record { op = del; key = 3 ∷ []; value = 7 ∷ [] }
    ∷ []

sample_round_trip :
    decode_body (encode_body sample)
    ≡ some (
        record { op = put; key = 1 ∷ 2 ∷ []; value = 9 ∷ [] }
        ∷ record { op = del; key = 3 ∷ []; value = [] }
        ∷ [])
unfolding decode_body encode_body put_u32 get_u32
sample_round_trip = refl
