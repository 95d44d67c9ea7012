-- ===== src/Base/Map.antt =====
-- A map with numeric keys (`std::unordered_map<uint64_t, V>`) as an association list. Only look-up,
-- insertion, erasure and size are used by the code, so the order of the entries is never seen.
use Prim.Native.Nat.{ℕ}
use mathlib.Core.Path.{◌≡◌, refl}
use mathlib.Core.List.{List, [], ◌∷◌}
use mathlib.Core.Option.{Option, none, some}
use native.Mathlib.Omega.{arith}
use agent_state_storage.Base.Tests.{◌==◌, if◌then◌else◌}

module _ {ℓ} {V : Type ℓ} where
  unfoldable pub erase : ℕ → List (ℕ × V) → List (ℕ × V)
  erase key [] = []
  erase key (e ∷ m) = let rest = erase key m in if e.0 == key then rest else e ∷ rest

  unfoldable pub find : ℕ → List (ℕ × V) → Option V
  find key [] = none
  find key (e ∷ m) = if e.0 == key then some e.1 else find key m

  -- Assigns to the entry of the key, or adds one.
  unfoldable pub assign : ℕ → V → List (ℕ × V) → List (ℕ × V)
  assign key v [] = (key, v) ∷ []
  assign key v (e ∷ m) = if e.0 == key then (key, v) ∷ m else e ∷ assign key v m

  pub find-assign :
      (k j : ℕ) (v : V) (m : List (ℕ × V))
      → find j (assign k v m) ≡ (if k == j then some v else find j m)
  unfolding find assign
  find-assign k j v [] = refl
  find-assign k j v (e ∷ m) = ground (arith, find-assign k j v m)

  pub find-erase :
      (k j : ℕ) (m : List (ℕ × V)) → find j (erase k m) ≡ (if k == j then none else find j m)
  unfolding find erase
  find-erase k j [] = ground arith
  find-erase k j (e ∷ m) = ground (arith, find-erase k j m)

  pub find-assign_self : (k : ℕ) (v : V) (m : List (ℕ × V)) → find k (assign k v m) ≡ some v
  find-assign_self k v m = ground (arith, find-assign k k v m)

  pub find-erase_self : (k : ℕ) (m : List (ℕ × V)) → find k (erase k m) ≡ none
  find-erase_self k m = ground (arith, find-erase k k m)
