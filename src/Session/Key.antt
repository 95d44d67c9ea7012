-- ===== src/Session/Key.antt =====
-- The order of std::string, by which `std::map` sorts: bytes compared from the left as unsigned
-- numbers, a proper prefix first. `PrefixMatches` of
-- src/kvstore-node/src/session/ordered_log_store.cpp.
pub mod Prefix
use agent_state_storage.Base.{
  ℕ, ◌≡◌, refl, ap, ap₂, ◌↔◌, Bool, true, false, ◌&&◌, ◌||◌, List, [], ◌∷◌, ◌++◌, arith, ltb, ◌==◌,
  length, take, leb,
}

-- `a < b`
unfoldable pub key_lt : List ℕ → List ℕ → Bool
key_lt [] [] = false
key_lt [] (y ∷ ys) = true
key_lt (x ∷ xs) [] = false
key_lt (x ∷ xs) (y ∷ ys) = ltb x y || (x == y && key_lt xs ys)

-- `a == b`
unfoldable pub key_eq : List ℕ → List ℕ → Bool
key_eq [] [] = true
key_eq [] (y ∷ ys) = false
key_eq (x ∷ xs) [] = false
key_eq (x ∷ xs) (y ∷ ys) = x == y && key_eq xs ys

-- `key.size() >= prefix.size() && key.compare(0, prefix.size(), prefix) == 0`
unfoldable pub prefix_matches : List ℕ → List ℕ → Bool
prefix_matches key prefix =
    leb (length prefix) (length key) && key_eq (take (length prefix) key) prefix

pub key_eq→eq : (a b : List ℕ) → key_eq a b ≡ true → a ≡ b
unfolding key_eq
key_eq→eq [] [] h = refl
key_eq→eq [] (y ∷ ys) h = cc
key_eq→eq (x ∷ xs) [] h = cc
key_eq→eq (x ∷ xs) (y ∷ ys) h = ground (arith, key_eq→eq xs ys)

pub key_eq_self : (a : List ℕ) → key_eq a a ≡ true
unfolding key_eq
key_eq_self [] = refl
key_eq_self (x ∷ xs) = ground (arith, key_eq_self xs)

pub key_eq_iff : (a b : List ℕ) → (key_eq a b ≡ true) ↔ (a ≡ b)
key_eq_iff a b = (key_eq→eq a b, λ e. rw e (key_eq_self b))

pub key_lt_irrefl : (a : List ℕ) → key_lt a a ≡ false
unfolding key_lt
key_lt_irrefl [] = refl
key_lt_irrefl (x ∷ xs) = ground (arith, key_lt_irrefl xs)

pub key_lt_trans : (a b c : List ℕ) → key_lt a b ≡ true → key_lt b c ≡ true → key_lt a c ≡ true
unfolding key_lt
key_lt_trans [] [] c h k = cc
key_lt_trans [] (y ∷ ys) [] h k = cc
key_lt_trans [] (y ∷ ys) (z ∷ zs) h k = refl
key_lt_trans (x ∷ xs) [] c h k = cc
key_lt_trans (x ∷ xs) (y ∷ ys) [] h k = cc
key_lt_trans (x ∷ xs) (y ∷ ys) (z ∷ zs) h k = ground (arith, key_lt_trans xs ys zs)

-- Of two keys that are neither equal nor in order, the second is the smaller.
pub key_lt-total : (a b : List ℕ) → key_lt a b ≡ false → key_eq a b ≡ false → key_lt b a ≡ true
unfolding key_lt key_eq
key_lt-total [] [] h k = cc
key_lt-total [] (y ∷ ys) h k = cc
key_lt-total (x ∷ xs) [] h k = refl
key_lt-total (x ∷ xs) (y ∷ ys) h k = ground (arith, key_lt-total xs ys)

pub key_lt-asymm : (a b : List ℕ) → key_lt a b ≡ true → key_lt b a ≡ false
unfolding key_lt
key_lt-asymm [] [] h = cc
key_lt-asymm [] (y ∷ ys) h = refl
key_lt-asymm (x ∷ xs) [] h = cc
key_lt-asymm (x ∷ xs) (y ∷ ys) h = ground (arith, key_lt-asymm xs ys)

pub key_eq_of_lt : (a b : List ℕ) → key_lt a b ≡ true → key_eq a b ≡ false
unfolding key_lt key_eq
key_eq_of_lt [] [] h = cc
key_eq_of_lt [] (y ∷ ys) h = refl
key_eq_of_lt (x ∷ xs) [] h = cc
key_eq_of_lt (x ∷ xs) (y ∷ ys) h = ground (arith, key_eq_of_lt xs ys)
