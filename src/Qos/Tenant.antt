-- ===== src/Qos/Tenant.antt =====
-- `TenantHash` and `TenantRegistry` of src/kvstore-node/src/qos/tenant.cpp. `C` stands for the
-- configuration's fields beside the tenant's id.
use agent_state_storage.Base.{
  ℕ, ◌*◌, ◌%◌, ◌≡◌, refl, Bool, List, [], ◌∷◌, Option, some, none, length, is_some, if◌then◌else◌,
  ◌==◌,
}
use agent_state_storage.Base.Bytes.{u64_mod}
use agent_state_storage.Base.Map.{
  find, assign, erase, find-assign_self, find-erase_self, find-assign,
}
use Prim.Native.Nat.{bit_xor}

abbrev fnv_prime : ℕ
fnv_prime = 1099511628211

abbrev fnv_offset : ℕ
fnv_offset = 14695981039346656037

-- FNV-1a on the bytes that are left, from the hash so far.
unfoldable hash_from : ℕ → List ℕ → ℕ
hash_from h [] = h
hash_from h (b ∷ bs) = hash_from (bit_xor h b * fnv_prime % u64_mod) bs

unfoldable pub tenant_hash : List ℕ → ℕ
unfolding hash_from
tenant_hash id = hash_from fnv_offset id

module _ {ℓ} {C : Type ℓ} where
  unfoldable pub upsert : List ℕ → C → List (ℕ × C) → List (ℕ × C)
  upsert id cfg by_hash = assign (tenant_hash id) cfg by_hash

  unfoldable pub remove : List ℕ → List (ℕ × C) → List (ℕ × C) × Bool
  remove id by_hash = (erase (tenant_hash id) by_hash, is_some (find (tenant_hash id) by_hash))

  unfoldable pub get : List ℕ → List (ℕ × C) → Option C
  get id by_hash = find (tenant_hash id) by_hash

  unfoldable pub get_by_hash : ℕ → List (ℕ × C) → Option C
  get_by_hash hash by_hash = find hash by_hash

  unfoldable pub size : List (ℕ × C) → ℕ
  size by_hash = length by_hash

  -- After an upsert the tenant's configuration is found by the id and by the hash, and an id with
  -- another hash keeps what it had; after a removal it is not found, and the result says whether it
  -- was.
  pub get-upsert :
      (id other : List ℕ) (cfg : C) (m : List (ℕ × C))
      → (get id (upsert id cfg m) ≡ some cfg)
        × (get other (upsert id cfg m)
            ≡ (if tenant_hash id == tenant_hash other then some cfg else get other m))
        × (get id (remove id m).0 ≡ none)
        × ((remove id m).1 ≡ is_some (get id m))
  unfolding get upsert remove
  get-upsert id other cfg m = (
    find-assign_self (tenant_hash id) cfg m,
    find-assign (tenant_hash id) (tenant_hash other) cfg m,
    find-erase_self (tenant_hash id) m,
    refl,
  )
