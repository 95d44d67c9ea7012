-- ===== src/Tier/Tests.antt =====
-- A tier of twelve bytes.
use agent_state_storage.Base.{
  ℕ, ◌≡◌, ◌≤◌, ◌+◌, ◌⊎◌, All, ◌==◌, refl, Bool, true, false, List, [], ◌∷◌, arith,
}
use agent_state_storage.Tier.Dram.{
  Entry, DramTier, insert, erase, lookup, entry_of, used_bytes, in_ghost, evict_to_fit,
}
use agent_state_storage.Tier.Dram.Bytes.{IsCounted, bytes_of}
use agent_state_storage.Tier.Dram.Insert.{
  insert-IsCounted, erase-IsCounted, lookup-IsCounted, insert-capacity,
}
use agent_state_storage.Tier.Dram.Evict.{evict_to_fit-fits}

abbrev entry : ℕ → List ℕ → Entry
entry k content = record { key = k; content = content; state_kind = 1 }

abbrev evictable : Entry → Bool
evictable e = false

-- One entry in each queue, and one ghost.
abbrev tier : DramTier
tier = record {
  capacity_bytes = 12;
  a1in_capacity = 3;
  a1out_max = 2;
  a1in = entry 1 (10 ∷ 11 ∷ []) ∷ [];
  am = entry 2 (20 ∷ 21 ∷ 22 ∷ []) ∷ [];
  a1out = 3 ∷ [];
  a1in_bytes_used = 2;
  am_bytes_used = 3;
  evictions = [];
}

tier-IsCounted : IsCounted tier
unfolding bytes_of
tier-IsCounted = record { a1in_counted = refl; am_counted = refl; ghosts_within = omega arith }

-- A new entry goes to A1in, whose budget then lets the old one go to the ghosts.
demoted : (lookup 1 (insert evictable (entry 4 (40 ∷ 41 ∷ [])) tier)).1 ≡ in_ghost
unfolding lookup insert
demoted = refl

insert-IsCounted_example : IsCounted (insert evictable (entry 3 (30 ∷ [])) tier)
insert-IsCounted_example = insert-IsCounted evictable (entry 3 (30 ∷ [])) tier tier-IsCounted

erase-IsCounted_example : IsCounted (erase 2 tier).0
erase-IsCounted_example = erase-IsCounted 2 tier tier-IsCounted

lookup-IsCounted_example : IsCounted (lookup 2 tier).0
lookup-IsCounted_example = lookup-IsCounted 2 tier tier-IsCounted

insert-capacity_example : used_bytes (insert (λ e. false) (entry 4 (40 ∷ [])) tier) ≤ 12
unfolding entry_of
insert-capacity_example =
    insert-capacity (entry 4 (40 ∷ [])) tier tier-IsCounted refl refl (omega arith)

-- Entry 2 may not go.
abbrev keeps_two : Entry → Bool
keeps_two e = e.key == 2

evict_to_fit-fits_example :
    let u = evict_to_fit keeps_two 11 tier in
    (u.capacity_bytes ≡ 12)
    × ((used_bytes u + 11 ≤ 12)
        ⊎ (All (λ e. keeps_two e ≡ true) u.am × All (λ e. keeps_two e ≡ true) u.a1in))
evict_to_fit-fits_example = evict_to_fit-fits keeps_two 11 tier
