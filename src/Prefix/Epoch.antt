-- ===== src/Prefix/Epoch.antt =====
-- `EpochManager` of src/kvstore-node/src/prefix/epoch.{h,cpp}. A thread is its slot; its deferred
-- destructors are nodes, known by number. `EnterRead` is two steps, the load of the global epoch and
-- the store of the witness.
pub mod Sweep
mod Tests
use agent_state_storage.Base.{
  ℕ, zero, suc, ◌+◌, ◌-◌, ◌%◌, ◌≤◌, ◌<◌, ◌==◌, ltb, leb, min, not, ◌≡◌, Bool, true, false, List, [],
  ◌∷◌, ◌++◌, map, length, if◌then◌else◌, Option, none, some,
}
use agent_state_storage.Base.Bytes.{u64_mod}

abbrev pub max_reader_threads : ℕ
max_reader_threads = 256

abbrev pub quiescent : ℕ
quiescent = u64_mod - 1

-- `retired` pairs a node with the epoch that it was retired at.
pub record Manager : Type 0 where
  pub global_epoch : ℕ
  pub entries : ℕ → ℕ
  pub next_slot : ℕ
  pub retired : List (ℕ × ℕ)

unfoldable pub new_manager : Manager
new_manager = record { global_epoch = 1; entries = λ i. quiescent; next_slot = 0; retired = [] }

abbrev pub set_entry : (ℕ → ℕ) → ℕ → ℕ → ℕ → ℕ
set_entry entries slot v i = if i == slot then v else entries i

-- `MyEntry` for a thread without a slot; none is where it aborts.
unfoldable pub claim_slot : Manager → Option (Manager × ℕ)
claim_slot m =
    if leb max_reader_threads m.next_slot
    then none
    else some (record m { next_slot = m.next_slot + 1 }, m.next_slot)

-- The second half of `EnterRead`, with the epoch that the first half loaded.
unfoldable pub publish_witness : ℕ → ℕ → Manager → Manager
publish_witness slot cur m = record m { entries = set_entry m.entries slot cur }

unfoldable pub exit_read : ℕ → Manager → Manager
exit_read slot m = record m { entries = set_entry m.entries slot quiescent }

unfoldable pub retire : ℕ → Manager → Manager
retire node m =
    let e = (m.global_epoch + 1) % u64_mod in
    record m { global_epoch = e; retired = m.retired ++ ((e, node) ∷ []) }

-- The loop of `MinActiveEpochLocked` over the first `n` slots.
unfoldable pub min_entry : (ℕ → ℕ) → ℕ → ℕ
min_entry entries zero = quiescent
min_entry entries (suc n) =
    let rest = min_entry entries n in if ltb (entries n) rest then entries n else rest

unfoldable pub min_active_epoch : Manager → ℕ
unfolding min_entry
min_active_epoch m = min_entry m.entries (min m.next_slot max_reader_threads)

-- `retired_[i] = std::move(retired_[last - 1]); --last;` for what follows index `i`.
abbrev pub last_of : (ℕ × ℕ) → List (ℕ × ℕ) → ℕ × ℕ
last_of y [] = y
last_of y (z ∷ rest) = last_of z rest

abbrev pub init_of : (ℕ × ℕ) → List (ℕ × ℕ) → List (ℕ × ℕ)
init_of y [] = []
init_of y (z ∷ rest) = y ∷ init_of z rest

abbrev pub refill : List (ℕ × ℕ) → List (ℕ × ℕ)
refill [] = []
refill (y ∷ rest) = last_of y rest ∷ init_of y rest

-- The loop of `Reclaim` from index `i` on: what is left there, and the nodes whose destructors ran.
unfoldable pub sweep : ℕ → ℕ → List (ℕ × ℕ) → List (ℕ × ℕ) × List ℕ
sweep zero safe items = (items, [])
sweep (suc fuel) safe [] = ([], [])
sweep (suc fuel) safe (x ∷ rest) =
    let freeing = sweep fuel safe (refill rest) in
    let keeping = sweep fuel safe rest in
    if leb x.0 safe then (freeing.0, x.1 ∷ freeing.1) else (x ∷ keeping.0, keeping.1)

-- `Reclaim` from the lock of `retired_mu_` on: the manager, and the nodes freed.
unfoldable pub sweep_retired : ℕ → Manager → Manager × List ℕ
unfolding sweep
sweep_retired safe m =
    let r = sweep (length m.retired) safe m.retired in (record m { retired = r.0 }, r.1)

-- `Reclaim`, with nothing between its reading of the witnesses and its lock.
unfoldable pub reclaim : Manager → Manager × List ℕ
unfolding min_active_epoch sweep_retired
reclaim m = sweep_retired (min_active_epoch m) m

unfoldable pub force_reclaim_all : Manager → Manager × List ℕ
force_reclaim_all m = (record m { retired = [] }, map (λ r. r.1) m.retired)

unfoldable pub pending_retires : Manager → ℕ
pending_retires m = length m.retired

-- The loop of `ActiveReaders` over the first `n` slots.
unfoldable pub count_active : (ℕ → ℕ) → ℕ → ℕ
count_active entries zero = 0
count_active entries (suc n) =
    let rest = count_active entries n in if entries n == quiescent then rest else rest + 1

unfoldable pub active_readers : Manager → ℕ
unfolding count_active
active_readers m = count_active m.entries (min m.next_slot max_reader_threads)
