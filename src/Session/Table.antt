-- ===== src/Session/Table.antt =====
-- The `std::map<std::string, std::string>` of src/kvstore-node/src/session/ordered_log_store.cpp as
-- the list of its entries in key order, and `ApplyToMapLocked` with the running `live_bytes_`, a
-- size_t.
pub mod Laws
pub mod Apply
use agent_state_storage.Base.{
  ℕ, ◌+◌, ◌-◌, ◌%◌, ◌≡◌, Bool, true, Option, none, some, List, [], ◌∷◌, length, if◌then◌else◌, All,
}
use agent_state_storage.Base.Bytes.{u64_mod}
use agent_state_storage.Session.Key.{key_lt, key_eq}
use agent_state_storage.Session.Codec.{Op, put, del, Mutation}

abbrev pub Table : Type 0
Table = List (List ℕ × List ℕ)

-- Every key comes after `k`.
abbrev pub Above : List ℕ → Table → Type 0
Above k = All (λ e. key_lt k e.0 ≡ true)

abbrev pub IsSorted : Table → Type 0
IsSorted [] = Unit {0}
IsSorted (e ∷ m) = Above e.0 m × IsSorted m

-- `map_.find(k)`
unfoldable pub find : List ℕ → Table → Option (List ℕ)
find k [] = none
find k ((j, w) ∷ m) = if key_eq k j then some w else find k m

-- Assigns to the entry of the key, or inserts one at its place in the order.
unfoldable pub assign : List ℕ → List ℕ → Table → Table
assign k v [] = (k, v) ∷ []
assign k v ((j, w) ∷ m) =
    if key_lt k j
    then (k, v) ∷ (j, w) ∷ m
    else if key_eq k j
    then (k, v) ∷ m
    else (j, w) ∷ assign k v m

-- `map_.erase(it)` at the entry of the key.
unfoldable pub erase : List ℕ → Table → Table
erase k [] = []
erase k ((j, w) ∷ m) = if key_eq k j then m else (j, w) ∷ erase k m

-- The sum of key and value sizes.
unfoldable pub table_bytes : Table → ℕ
table_bytes [] = 0
table_bytes ((k, v) ∷ m) = length k + length v + table_bytes m

abbrev pub add64 : ℕ → ℕ → ℕ
add64 a b = (a + b) % u64_mod

abbrev pub sub64 : ℕ → ℕ → ℕ
sub64 a b = (a + u64_mod - b % u64_mod) % u64_mod

-- The map and `live_bytes_`.
pub record Live : Type 0 where
  pub table : Table
  pub bytes : ℕ

-- The body of the loop of `ApplyToMapLocked`, at the operation and what `find` returned.
unfoldable pub apply_at : Op → Option (List ℕ) → List ℕ → List ℕ → Live → Live
apply_at put (some old) k v s = record {
  table = assign k v s.table;
  bytes = add64 (sub64 s.bytes (length k + length old)) (length k + length v);
}
apply_at del (some old) k v s = record {
  table = erase k s.table;
  bytes = sub64 s.bytes (length k + length old);
}
apply_at put none k v s = record {
  table = assign k v s.table;
  bytes = add64 s.bytes (length k + length v);
}
apply_at del none k v s = s

unfoldable pub apply_mutation : Live → Mutation → Live
unfolding apply_at
apply_mutation s m = apply_at m.op (find m.key s.table) m.key m.value s

unfoldable pub apply_to_map : Live → List Mutation → Live
unfolding apply_mutation
apply_to_map s [] = s
apply_to_map s (m ∷ ms) = apply_to_map (apply_mutation s m) ms
