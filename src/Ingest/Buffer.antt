-- ===== src/Ingest/Buffer.antt =====
-- `MutableBufferPool` of src/kvstore-node/src/ingest/mutable_buffer.{h,cpp} on the pinned tier, which
-- `TierManager` passes on. The clock is an argument, and the sweeper thread is a sequence of sweeps. A
-- call takes the locks of the pool and of the pinned tier one after the other, so it is several steps.
pub mod Counts
pub mod Slots
pub mod Runs
use agent_state_storage.Base.{
  ℕ, ◌+◌, ◌%◌, Bool, true, false, List, [], ◌∷◌, leb, ◌==◌, if◌then◌else◌, Option, some, none,
  length,
}
use agent_state_storage.Base.Bytes.{u64_mod}
use agent_state_storage.Base.Map.{find, assign, erase}
use agent_state_storage.Tier.Pinned.{PinnedTier, acquire, release}

pub record Entry : Type 0 where
  pub slot : ℕ
  pub deadline : ℕ

pub record Pool : Type 0 where
  pub pinned : PinnedTier
  pub active : List (ℕ × Entry)
  pub next_handle : ℕ
  pub default_ttl : ℕ

-- The constructor, on a pinned tier.
unfoldable pub new_pool : ℕ → PinnedTier → Pool
new_pool default_ttl pinned = record {
  pinned = pinned;
  active = [];
  next_handle = 1;
  default_ttl = default_ttl;
}

-- The steps of `Reserve`: a slot of the pinned tier, a handle, and the entry under the lock.
unfoldable pub take_slot : Pool → Pool × Option ℕ
take_slot p = let r = acquire p.pinned in (record p { pinned = r.0 }, r.1)

unfoldable pub draw_handle : Pool → Pool × ℕ
draw_handle p = (record p { next_handle = (p.next_handle + 1) % u64_mod }, p.next_handle)

unfoldable pub enter : ℕ → ℕ → ℕ → ℕ → Pool → Pool
enter h slot ttl now p = record p {
  active =
      assign h (record { slot = slot; deadline = now + (if ttl == 0 then p.default_ttl else ttl) })
        p.active;
}

abbrev pub after_taking : ℕ → ℕ → Pool × Option ℕ → Pool × ℕ
after_taking ttl now (p, none) = (p, 0)
after_taking ttl now (p, some slot) = let r = draw_handle p in (enter r.1 slot ttl now r.0, r.1)

-- `Reserve` with no other call in between: the handle, or 0 (`kInvalidIngestHandle`).
unfoldable pub reserve : ℕ → ℕ → Pool → Pool × ℕ
unfolding take_slot draw_handle enter
reserve ttl now p = after_taking ttl now (take_slot p)

abbrev pub slot_of : Option Entry → Option ℕ
slot_of none = none
slot_of (some e) = some e.slot

unfoldable pub get_slot : ℕ → Pool → Option ℕ
get_slot h p = slot_of (find h p.active)

-- The steps of `Release`: the entry under the lock, and the slot after it.
unfoldable pub leave : ℕ → Pool → Pool × Option ℕ
leave h p = (record p { active = erase h p.active }, slot_of (find h p.active))

unfoldable pub give_back : ℕ → Pool → Pool
give_back slot p = record p { pinned = release slot p.pinned }

abbrev pub after_leaving : Pool × Option ℕ → Pool × Bool
after_leaving (p, none) = (p, false)
after_leaving (p, some slot) = (give_back slot p, true)

-- `Release` with no other call in between.
unfoldable pub release_handle : ℕ → Pool → Pool × Bool
unfolding leave give_back
release_handle h p = after_leaving (leave h p)

unfoldable pub active_count : Pool → ℕ
active_count p = length p.active

-- The entries that the sweep keeps, and the slots that it frees.
unfoldable pub expire : ℕ → List (ℕ × Entry) → List (ℕ × Entry) × List ℕ
expire now [] = ([], [])
expire now (e ∷ es) =
    let rest = expire now es in
    if leb e.1.deadline now then (rest.0, e.1.slot ∷ rest.1) else (e ∷ rest.0, rest.1)

-- The part of `SweepOnce` under the lock.
unfoldable pub leave_expired : ℕ → Pool → Pool × List ℕ
unfolding expire
leave_expired now p = let r = expire now p.active in (record p { active = r.0 }, r.1)

unfoldable pub give_back_all : List ℕ → Pool → Pool
unfolding give_back
give_back_all [] p = p
give_back_all (slot ∷ slots) p = give_back_all slots (give_back slot p)

-- `SweepOnce` with no other call in between.
unfoldable pub sweep_once : ℕ → Pool → Pool
unfolding leave_expired give_back_all
sweep_once now p = let r = leave_expired now p in give_back_all r.1 r.0
