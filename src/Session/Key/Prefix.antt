-- ===== src/Session/Key/Prefix.antt =====
-- The keys under a prefix are one interval of the key order.
use agent_state_storage.Base.{ℕ, ◌≡◌, refl, true, false, ◌&&◌, List, [], ◌∷◌, arith, ◌==◌}
use agent_state_storage.Session.Key.{key_lt, key_eq, prefix_matches}

pub matches_nil : (k : List ℕ) → prefix_matches k [] ≡ true
unfolding prefix_matches key_eq
matches_nil k = ground arith

pub matches_cons :
    (x : ℕ) (k : List ℕ) (y : ℕ) (p : List ℕ)
    → prefix_matches (x ∷ k) (y ∷ p) ≡ (x == y && prefix_matches k p)
unfolding prefix_matches key_eq
matches_cons x k y p = ground arith

nil_matches : (y : ℕ) (p : List ℕ) → prefix_matches [] (y ∷ p) ≡ false
unfolding prefix_matches
nil_matches y p = ground arith

-- A key under the prefix does not come before it.
pub matches_ge : (k p : List ℕ) → prefix_matches k p ≡ true → key_lt k p ≡ false
unfolding key_lt
matches_ge [] [] h = refl
matches_ge (x ∷ k) [] h = refl
matches_ge [] (y ∷ p) h = cc (nil_matches y p)
matches_ge (x ∷ k) (y ∷ p) h = ground (arith, matches_cons x k y p, matches_ge k p)

-- From the prefix on, a key before a key under the prefix is under it too.
pub matches_between :
    (a b p : List ℕ)
    → key_lt a p ≡ false
    → key_lt a b ≡ true
    → prefix_matches b p ≡ true
    → prefix_matches a p ≡ true
unfolding key_lt
matches_between a b [] h l m = matches_nil a
matches_between [] b (z ∷ p) h l m = cc
matches_between (x ∷ a) [] (z ∷ p) h l m = cc
matches_between (x ∷ a) (y ∷ b) (z ∷ p) h l m =
    ground (arith, matches_cons x a z p, matches_cons y b z p, matches_between a b p)
