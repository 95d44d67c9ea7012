-- ===== src/Ingest/Tests.antt =====
-- Handles and marks.
use agent_state_storage.Base.{◌≡◌, refl, true, List, [], ◌∷◌, arith, some}
use agent_state_storage.Base.Map.{find}
use agent_state_storage.Tier.Pinned.{PinnedTier, create, slots_from, acquire}
use agent_state_storage.Ingest.Watermark.{Marks}
use agent_state_storage.Ingest.Buffer.{Pool, new_pool, reserve, take_slot, draw_handle, enter}
use agent_state_storage.Ingest.Buffer.Slots.{
  IsValid, Step, takes, draws, enters, leaves, expires, gives_back,
}
use agent_state_storage.Ingest.Buffer.Runs.{run_steps, new_world, run_steps-IsValid}
use agent_state_storage.Ingest.Seal.{Node, Request, inserted, path_conflict, commit}
use agent_state_storage.Ingest.Seal.Order.{IsDurable, Outcome, commit-IsDurable, commit-Outcome}

abbrev marks : Marks
marks = (1, 40) ∷ []

marked : find 1 marks ≡ some 40
unfolding find
marked = refl

-- Two slots, one of them held.
abbrev pool : Pool
pool = record {
  pinned = record { slot_bytes = 16; slot_count = 2; free_stack = 1 ∷ []; in_use = 1 };
  active = (1, record { slot = 0; deadline = 300 }) ∷ [];
  next_handle = 2;
  default_ttl = 300;
}

abbrev tier : PinnedTier
tier = record { slot_bytes = 16; slot_count = 2; free_stack = 0 ∷ 1 ∷ []; in_use = 0 }

tier_made : create 32 16 ≡ some tier
unfolding create slots_from
tier_made = refl

-- A release and a sweep take the slots out, and a reservation comes before the first is back.
abbrev steps : List Step
steps =
    takes
    ∷ draws
    ∷ enters 0 0 0 10
    ∷ takes
    ∷ leaves 1
    ∷ draws
    ∷ enters 1 0 5 10
    ∷ expires 20
    ∷ gives_back 1
    ∷ takes
    ∷ []

run_steps-IsValid_example : IsValid (run_steps steps (new_world 300 tier))
run_steps-IsValid_example = run_steps-IsValid 32 16 300 tier steps tier_made (omega arith)

reserved_first : (reserve 0 10 (new_pool 300 tier)).1 ≡ 1
unfolding reserve take_slot acquire draw_handle enter new_pool
reserved_first = refl

abbrev node : Node
node = record { marks = marks; pool = pool; current_epoch = 4; rows = []; leaves = []; events = [] }

abbrev request : Request
request = record { handle = 1; locator = 77; chunk_path = 5 ∷ 6 ∷ []; residency = 1 }

node-IsDurable : IsDurable node
node-IsDurable = record { leaves_persisted = λ l h. ground (arith, h); events_persisted = tt }

commit-IsDurable_example : IsDurable (commit true true path_conflict 9 request node).0
commit-IsDurable_example = commit-IsDurable true true path_conflict 9 request node node-IsDurable

commit-Outcome_example :
    Outcome true true inserted request 9 node (commit true true inserted 9 request node)
commit-Outcome_example = commit-Outcome true true inserted 9 request node
