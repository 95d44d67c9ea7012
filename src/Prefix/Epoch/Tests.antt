-- ===== src/Prefix/Epoch/Tests.antt =====
-- A reader before and after the reading of the witnesses.
use agent_state_storage.Base.{
  ℕ, ◌==◌, ◌<◌, ◌≡◌, refl, [], ◌∷◌, some, leb, ◌&&◌, if◌then◌else◌, arith,
}
use agent_state_storage.Prefix.Epoch.{
  Manager, new_manager, claim_slot, publish_witness, exit_read, retire, min_entry, min_active_epoch,
  sweep, sweep_retired, reclaim, active_readers, count_active,
}
use agent_state_storage.Prefix.Epoch.Sweep.{count_if, is_entry, sweep_retired_cases}

program : Unit {0}
unfolding new_manager claim_slot publish_witness exit_read retire min_entry min_active_epoch sweep
    sweep_retired reclaim count_active active_readers
program = tt

-- A thread with a slot that does not read.
abbrev claimed : Manager
claimed = record new_manager { next_slot = 1 }

claims : claim_slot new_manager ≡ some (claimed, 0)
unfolding program
claims = refl

abbrev reading : Manager
reading = publish_witness 0 1 claimed

abbrev retired : Manager
retired = retire 7 reading

claimed_one : 0 < reading.next_slot
unfolding program
claimed_one = omega arith

early : reading.entries 0 < 2
unfolding program
early = omega arith

-- The reader came before the reading of the witnesses, so node 7 stays.
sweep_retired_cases_example :
    let safe = min_active_epoch reading in
    let r = sweep_retired safe retired in
    (count_if (is_entry 2 7) r.0.retired ≡ count_if (is_entry 2 7) retired.retired)
    × ((epoch k : ℕ)
        → count_if (is_entry epoch k) r.0.retired
          ≡ (if leb epoch safe then 0 else count_if (is_entry epoch k) retired.retired))
    × ((k : ℕ)
        → count_if (λ j. j == k) r.1
          ≡ count_if (λ (x : ℕ × ℕ). leb x.0 safe && (x.1 == k)) retired.retired)
sweep_retired_cases_example =
    sweep_retired_cases reading retired 0 2 7 claimed_one (omega arith) early

kept : (reclaim retired).1 ≡ []
unfolding program
kept = refl

freed : (reclaim (exit_read 0 retired)).1 ≡ 7 ∷ []
unfolding program
freed = refl

-- The reader came after the reading and before the lock: the node is freed under it.
freed_under_reader : (sweep_retired (min_active_epoch claimed) retired).1 ≡ 7 ∷ []
unfolding program
freed_under_reader = refl

one_reader : active_readers reading ≡ 1
unfolding program
one_reader = refl
