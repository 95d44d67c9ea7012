-- ===== src/Cluster/Tests.antt =====
-- A node that joins, serves, drains and is lost.
use agent_state_storage.Base.{ℕ, ◌≡◌, refl, true, false, List, [], ◌∷◌}
use agent_state_storage.Cluster.Membership.{
  joining, active, draining, terminated, MembershipFsm, init, set_state_change_callback, Trigger,
  starts, activates, drains, lease_lost, lease_recovered, terminates, step, run, transition_to,
}
use agent_state_storage.Cluster.Drain.{Watcher}

abbrev node : MembershipFsm
node = record { state = joining; joined_at = 100; warmup = 30; has_callback = true }

node_start : set_state_change_callback (init 30 100) ≡ node
unfolding init set_state_change_callback
node_start = refl

abbrev life : List (Trigger × ℕ)
life =
    (starts, 101)
    ∷ (activates, 130)
    ∷ (activates, 131)
    ∷ (lease_lost, 140)
    ∷ (lease_recovered, 150)
    ∷ (drains, 151)
    ∷ []

life_state : (run life node []).0.state ≡ joining
unfolding run step transition_to
life_state = refl

ended : run ((activates, 1) ∷ (drains, 2) ∷ (terminates, 3) ∷ []) node [] ≡ (
  record node { state = terminated },
  (draining, terminated) ∷ (active, draining) ∷ (joining, active) ∷ [],
)
unfolding run step transition_to
ended = refl

abbrev watcher : Watcher
watcher = record { draining = false; watching = true }
