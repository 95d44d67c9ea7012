-- ===== src/Session/Codec/RoundTrip.antt =====
-- Decoding what `EncodeRecord` wrote.
use mathlib.Core.List.{append_assoc}
use agent_state_storage.Base.{
  ℕ, ◌<◌, ◌≡◌, refl, ap, ◌∙◌, some, List, [], ◌∷◌, ◌++◌, map, length, arith, All, length-append,
  take-append_length, drop-append_length,
}
use agent_state_storage.Base.Bytes.{
  put_u32, u32_mod, get_u32-put_u32, drop-put_u32, length-put_u32_append,
}
use agent_state_storage.Session.Codec.{
  Op, put, del, Mutation, op_code, op_of_code, stored_value, encode_mutation, encode_mutations,
  encode_body, decode_mutation, decode_mutations, decode_body,
}

-- The sizes that the record stores fit its 32-bit fields.
pub record Fits (m : Mutation) : Type 0 where
  pub key_fits : length m.key < u32_mod
  pub value_fits : length (stored_value m.op m.value) < u32_mod

-- What decoding gives back: a deletion carries no value.
abbrev pub canonical : Mutation → Mutation
unfolding stored_value
canonical m = record m { value = stored_value m.op m.value }

op_of_code-op_code : (op : Op) → op_of_code (op_code op) ≡ some op
unfolding op_of_code op_code
op_of_code-op_code put = refl
op_of_code-op_code del = refl

-- The step on an operation and a length-prefixed key and value.
decode_mutation-fields :
    (op : Op) (key value rest : List ℕ)
    → length key < u32_mod
    → length value < u32_mod
    → decode_mutation (
        op_code op ∷ (put_u32 (length key) ++ (key ++ (put_u32 (length value) ++ (value ++ rest)))))
      ≡ some (record { op = op; key = key; value = value }, rest)
unfolding decode_mutation
decode_mutation-fields op key value rest hk hv =
    let tail = put_u32 (length value) ++ (value ++ rest) in
    rw (op_of_code-op_code op) (
      simp
        (
          drop-put_u32,
          get_u32-put_u32 (length key) (key ++ tail) hk,
          drop-append_length,
          take-append_length,
          length-put_u32_append,
          length-append,
          get_u32-put_u32 (length value) (value ++ rest) hv,
        )
        (ground arith))

-- Decoding reads one mutation back, whatever follows it.
decode_mutation-encode_mutation :
    (m : Mutation) (rest : List ℕ)
    → Fits m
    → decode_mutation (encode_mutation m ++ rest) ≡ some (canonical m, rest)
unfolding encode_mutation
decode_mutation-encode_mutation m rest h =
    let v = stored_value m.op m.value in
    let klen = put_u32 (length m.key) in
    let vlen = put_u32 (length v) in
    ap decode_mutation (
      ap (◌∷◌ (op_code m.op)) (
        append_assoc klen (m.key ++ (vlen ++ v)) rest
        ∙ ap (◌++◌ klen)
            (append_assoc m.key (vlen ++ v) rest ∙ ap (◌++◌ m.key) (append_assoc vlen v rest))))
    ∙ decode_mutation-fields m.op m.key v rest h.key_fits h.value_fits

decode_mutations-encode_mutations :
    (ms : List Mutation)
    → All Fits ms
    → decode_mutations (length ms) (encode_mutations ms) ≡ some (map canonical ms)
unfolding decode_mutations encode_mutations
decode_mutations-encode_mutations [] h = refl
decode_mutations-encode_mutations (m ∷ ms) h =
    rw (decode_mutation-encode_mutation m (encode_mutations ms) h.0)
      (rw (decode_mutations-encode_mutations ms h.1))

-- A batch reads back from its body, in order, each deletion with no value.
pub decode_body-encode_body :
    (batch : List Mutation)
    → length batch < u32_mod
    → All Fits batch
    → decode_body (encode_body batch) ≡ some (map canonical batch)
unfolding decode_body encode_body
decode_body-encode_body batch h fits =
    simp
      (
        drop-put_u32,
        length-put_u32_append,
        get_u32-put_u32 (length batch) (encode_mutations batch) h,
      )
      (ground (arith, decode_mutations-encode_mutations batch fits))
