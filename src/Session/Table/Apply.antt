-- ===== src/Session/Table/Apply.antt =====
-- What `ApplyToMapLocked` does to the map and to `live_bytes_`.
use agent_state_storage.Base.{
  ℕ, ◌%◌, ◌≡◌, refl, ap, ◌∙◌, Option, none, some, List, [], ◌∷◌, ◌++◌, map, if◌then◌else◌, arith,
}
use agent_state_storage.Base.Bytes.{u64_mod}
use agent_state_storage.Session.Key.{key_eq, key_eq_iff}
use agent_state_storage.Session.Codec.{Op, put, del, Mutation}
use agent_state_storage.Session.Codec.RoundTrip.{canonical}
use agent_state_storage.Session.Codec.{stored_value}
use agent_state_storage.Session.Table.{
  IsSorted, Live, find, table_bytes, apply_at, apply_mutation, apply_to_map,
}
use agent_state_storage.Session.Table.Laws.{
  find-assign, find-erase, assign-IsSorted, erase-IsSorted, table_bytes-assign-some,
  table_bytes-assign-none, table_bytes-erase,
}

-- The entries are in key order, no key twice, and the counter is their size.
pub record IsValid (s : Live) : Type 0 where
  pub sorted : IsSorted s.table
  pub counted : s.bytes ≡ table_bytes s.table % u64_mod

apply_at-IsValid :
    (op : Op) (o : Option (List ℕ)) (k v : List ℕ) (s : Live)
    → find k s.table ≡ o
    → IsValid s
    → IsValid (apply_at op o k v s)
unfolding apply_at
apply_at-IsValid put none k v s e h = record {
  sorted = assign-IsSorted k v s.table h.sorted;
  counted = omega (arith, h.counted, table_bytes-assign-none k v s.table e);
}
apply_at-IsValid put (some old) k v s e h = record {
  sorted = assign-IsSorted k v s.table h.sorted;
  counted = omega (arith, h.counted, table_bytes-assign-some k v old s.table h.sorted e);
}
apply_at-IsValid del none k v s e h = h
apply_at-IsValid del (some old) k v s e h = record {
  sorted = erase-IsSorted k s.table h.sorted;
  counted = omega (arith, h.counted, table_bytes-erase k old s.table e);
}

pub apply_mutation-IsValid : (s : Live) (m : Mutation) → IsValid s → IsValid (apply_mutation s m)
unfolding apply_mutation
apply_mutation-IsValid s m h = apply_at-IsValid m.op (find m.key s.table) m.key m.value s refl h

-- A batch keeps the order of the map, and `live_bytes_` stays the sum of the sizes, modulo 2 ^ 64.
pub apply_to_map-IsValid : (ms : List Mutation) (s : Live) → IsValid s → IsValid (apply_to_map s ms)
unfolding apply_to_map
apply_to_map-IsValid [] s h = h
apply_to_map-IsValid (m ∷ ms) s h =
    apply_to_map-IsValid ms (apply_mutation s m) (apply_mutation-IsValid s m h)

-- What a mutation writes to its key.
abbrev pub outcome : Op → List ℕ → Option (List ℕ)
outcome put v = some v
outcome del v = none

-- The value under `q` after a batch: the last mutation of `q` decides.
unfoldable pub written : List ℕ → Option (List ℕ) → List Mutation → Option (List ℕ)
written q old [] = old
written q old (m ∷ ms) = written q (if key_eq q m.key then outcome m.op m.value else old) ms

find-apply_at :
    (op : Op) (o : Option (List ℕ)) (k v q : List ℕ) (s : Live)
    → IsSorted s.table
    → find k s.table ≡ o
    → find q (apply_at op o k v s).table ≡ (if key_eq q k then outcome op v else find q s.table)
unfolding apply_at
find-apply_at put none k v q s h e = find-assign k q v s.table
find-apply_at put (some old) k v q s h e = find-assign k q v s.table
find-apply_at del none k v q s h e = ground (arith, key_eq_iff q k)
find-apply_at del (some old) k v q s h e = find-erase k q s.table h

pub find-apply_mutation :
    (s : Live) (m : Mutation) (q : List ℕ)
    → IsSorted s.table
    → find q (apply_mutation s m).table
      ≡ (if key_eq q m.key then outcome m.op m.value else find q s.table)
unfolding apply_mutation
find-apply_mutation s m q h = find-apply_at m.op (find m.key s.table) m.key m.value q s h refl

-- After a batch every key holds what the last mutation of it wrote, and the others are unchanged.
pub find-apply_to_map :
    (ms : List Mutation) (s : Live) (q : List ℕ)
    → IsValid s
    → find q (apply_to_map s ms).table ≡ written q (find q s.table) ms
unfolding apply_to_map written
find-apply_to_map [] s q h = refl
find-apply_to_map (m ∷ ms) s q h =
    find-apply_to_map ms (apply_mutation s m) q (apply_mutation-IsValid s m h)
    ∙ ap (λ o. written q o ms) (find-apply_mutation s m q h.sorted)

apply_mutation-canonical :
    (s : Live) (m : Mutation) → apply_mutation s (canonical m) ≡ apply_mutation s m
unfolding apply_mutation stored_value
apply_mutation-canonical s m = go m.op (find m.key s.table) m.key m.value
  where
    go :
        (op : Op) (o : Option (List ℕ)) (k v : List ℕ)
        → apply_at op o k (stored_value op v) s ≡ apply_at op o k v s
    go put none k v = refl
    go put (some old) k v = refl
    go del none k v = refl
    go del (some old) k v = refl

-- Replaying what a record stores is replaying the batch.
pub apply_to_map-canonical :
    (ms : List Mutation) (s : Live) → apply_to_map s (map canonical ms) ≡ apply_to_map s ms
unfolding apply_to_map
apply_to_map-canonical [] s = refl
apply_to_map-canonical (m ∷ ms) s =
    ap (λ t. apply_to_map t (map canonical ms)) (apply_mutation-canonical s m)
    ∙ apply_to_map-canonical ms (apply_mutation s m)

pub apply_to_map-append :
    (ms ns : List Mutation) (s : Live)
    → apply_to_map s (ms ++ ns) ≡ apply_to_map (apply_to_map s ms) ns
unfolding apply_to_map
apply_to_map-append [] ns s = refl
apply_to_map-append (m ∷ ms) ns s = apply_to_map-append ms ns (apply_mutation s m)
