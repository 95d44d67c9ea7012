-- ===== src/Session/Table/Laws.antt =====
-- The laws of the sorted entries: look-up, order and size.
use agent_state_storage.Base.{
  ℕ, ◌+◌, ◌≡◌, refl, true, none, some, List, [], ◌∷◌, ◌++◌, length, if◌then◌else◌, All, arith,
}
use agent_state_storage.Session.Key.{
  key_lt, key_eq, key_eq→eq, key_eq_iff, key_lt_irrefl, key_lt_trans, key_lt-total, key_eq_of_lt,
  key_lt-asymm,
}
use agent_state_storage.Session.Table.{Table, Above, IsSorted, find, assign, erase, table_bytes}

-- What a look-up sees of an assignment.
pub find-assign :
    (k q v : List ℕ) (m : Table) → find q (assign k v m) ≡ (if key_eq q k then some v else find q m)
unfolding find assign
find-assign k q v [] = refl
find-assign k q v ((j, w) ∷ m) = ground (arith, find-assign k q v m, key_eq_iff k j, key_eq_iff q k)

pub Above-trans : (k j : List ℕ) (m : Table) → key_lt k j ≡ true → Above j m → Above k m
Above-trans k j [] h a = tt
Above-trans k j (e ∷ m) h a = (key_lt_trans k j e.0 h a.0, Above-trans k j m h a.1)

pub find-Above : (k : List ℕ) (m : Table) → Above k m → find k m ≡ none
unfolding find
find-Above k [] a = refl
find-Above k (e ∷ m) a = rw (key_eq_of_lt k e.0 a.0) (find-Above k m a.1)

-- What a look-up sees of an erasure.
pub find-erase :
    (k q : List ℕ) (m : Table)
    → IsSorted m
    → find q (erase k m) ≡ (if key_eq q k then none else find q m)
unfolding find erase
find-erase k q [] s = ground arith
find-erase k q ((j, w) ∷ m) s = ground (
  arith,
  find-erase k q m,
  key_eq_iff k j,
  key_eq_iff q k,
  key_eq_iff q j,
  find-Above j m,
  s.0,
  s.1,
)

assign-Above : (j k v : List ℕ) (m : Table) → Above j m → key_lt j k ≡ true → Above j (assign k v m)
unfolding assign
assign-Above j k v [] a h = (h, tt)
assign-Above j k v ((i, w) ∷ m) a h = ground (arith, assign-Above j k v m a.1 h, key_eq_iff k i)

pub assign-IsSorted : (k v : List ℕ) (m : Table) → IsSorted m → IsSorted (assign k v m)
unfolding assign
assign-IsSorted k v [] s = (tt, tt)
assign-IsSorted k v ((j, w) ∷ m) s = ground (
  arith,
  assign-IsSorted k v m s.1,
  assign-Above j k v m s.0,
  key_eq→eq k j,
  key_lt-total k j,
  Above-trans k j m,
)

erase-Above : (j k : List ℕ) (m : Table) → Above j m → Above j (erase k m)
unfolding erase
erase-Above j k [] a = tt
erase-Above j k ((i, w) ∷ m) a = ground (arith, erase-Above j k m a.1)

pub erase-IsSorted : (k : List ℕ) (m : Table) → IsSorted m → IsSorted (erase k m)
unfolding erase
erase-IsSorted k [] s = tt
erase-IsSorted k ((j, w) ∷ m) s = ground (arith, erase-IsSorted k m s.1, erase-Above j k m s.0)

-- The sizes after an assignment to a key that is there, or is not.
pub table_bytes-assign-some :
    (k v old : List ℕ) (m : Table)
    → IsSorted m
    → find k m ≡ some old
    → table_bytes (assign k v m) + length old ≡ table_bytes m + length v
unfolding find assign table_bytes
table_bytes-assign-some k v old [] s h = cc
table_bytes-assign-some k v old ((j, w) ∷ m) s h = ground (
  arith,
  table_bytes-assign-some k v old m s.1,
  key_eq_iff k j,
  find-Above k m,
  Above-trans k j m,
  key_eq_of_lt k j,
  s.0,
)

pub table_bytes-assign-none :
    (k v : List ℕ) (m : Table)
    → find k m ≡ none
    → table_bytes (assign k v m) ≡ table_bytes m + length k + length v
unfolding find assign table_bytes
table_bytes-assign-none k v [] h = omega arith
table_bytes-assign-none k v ((j, w) ∷ m) h = ground (arith, table_bytes-assign-none k v m)

pub table_bytes-erase :
    (k old : List ℕ) (m : Table)
    → find k m ≡ some old
    → table_bytes (erase k m) + length k + length old ≡ table_bytes m
unfolding find erase table_bytes
table_bytes-erase k old [] h = cc
table_bytes-erase k old ((j, w) ∷ m) h = ground (arith, table_bytes-erase k old m, key_eq_iff k j)

-- An assignment beyond the last key adds the entry at the end.
abbrev pub Below : List ℕ → Table → Type 0
Below k = All (λ e. key_lt e.0 k ≡ true)

pub assign-append : (k v : List ℕ) (m : Table) → Below k m → assign k v m ≡ m ++ ((k, v) ∷ [])
unfolding assign
assign-append k v [] b = refl
assign-append k v (e ∷ m) b =
    ground
      (arith, key_lt-asymm e.0 k b.0, key_eq_iff k e.0, key_lt_irrefl k, assign-append k v m b.1)
