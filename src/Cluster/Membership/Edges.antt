-- ===== src/Cluster/Membership/Edges.antt =====
-- The transition diagram, as a relation, against the code.
use agent_state_storage.Base.{
  ℕ, ◌≡◌, refl, true, false, List, [], ◌∷◌, arith, ◌⊎◌, inl, inr, ◌≢◌, if◌then◌else◌, Bool-cases,
  none, some,
}
use agent_state_storage.Cluster.Membership.{
  NodeState, joining, active, draining, unreachable, terminated, done, illegal_transition,
  already_in_state, MembershipFsm, is_legal, is_target, same_state, transition_to, start, Trigger,
  step, run,
}

infix 40 ◌⟶◌
pub data ◌⟶◌ : NodeState → NodeState → Type 0 where
  activate : joining ⟶ active
  lose_joining : joining ⟶ unreachable
  drain : active ⟶ draining
  lose_active : active ⟶ unreachable
  lose_draining : draining ⟶ unreachable
  finish : draining ⟶ terminated
  rejoin : unreachable ⟶ joining
  give_up : unreachable ⟶ terminated

ruleset edges = (activate, lose_joining, drain, lose_active, lose_draining, finish, rejoin, give_up)

is_legal-⟶ : (a b : NodeState) → is_legal a b ≡ true → a ⟶ b
unfolding is_legal
is_legal-⟶ a b h = grind (arith, edges)

is_legal_of_⟶ : {a b : NodeState} → a ⟶ b → (is_legal a b ≡ true) × (same_state a b ≡ false)
unfolding is_legal
is_legal_of_⟶ activate = (refl, refl)
is_legal_of_⟶ lose_joining = (refl, refl)
is_legal_of_⟶ drain = (refl, refl)
is_legal_of_⟶ lose_active = (refl, refl)
is_legal_of_⟶ lose_draining = (refl, refl)
is_legal_of_⟶ finish = (refl, refl)
is_legal_of_⟶ rejoin = (refl, refl)
is_legal_of_⟶ give_up = (refl, refl)

same_state→eq : (a b : NodeState) → same_state a b ≡ true → a ≡ b
unfolding same_state
same_state→eq a b h = ground arith

not_same : {a b : NodeState} → a ≡ b → same_state a b ≡ false → ⊥
unfolding same_state
not_same {a} {b} e h = ground arith

-- The state after a transition along an edge.
abbrev pub moved : MembershipFsm → NodeState → ℕ → MembershipFsm
unfolding same_state
moved f target now = record f {
  state = target;
  joined_at = if same_state target joining then now else f.joined_at;
}

-- `TransitionTo` succeeds exactly along the edges of the diagram, and then sets the state, restarts
-- the warm-up on entering JOINING and calls for the callback with the old and the new state; from
-- the target itself and off the diagram it changes nothing and says which of the two it was.
pub transition_to_cases :
    (target : NodeState) (now : ℕ) (f : MembershipFsm)
    → ((f.state ⟶ target)
        × (transition_to target now f
            ≡ (moved f target now, done, if f.has_callback then some (f.state, target) else none)))
      ⊎ ((f.state ≡ target) × (transition_to target now f ≡ (f, already_in_state, none)))
      ⊎ ((¬ (f.state ⟶ target))
          × (f.state ≢ target)
          × (transition_to target now f ≡ (f, illegal_transition, none)))
unfolding transition_to
transition_to_cases target now f = elim (Bool-cases (same_state f.state target)) [
  | inl h ↦ inr (inl (same_state→eq _ _ h, ground arith))
  | inr h ↦ elim (Bool-cases (is_legal f.state target)) [
    | inl k ↦ inl (is_legal-⟶ _ _ k, ground arith)
    | inr k ↦ inr (inr (λ e. ground (arith, is_legal_of_⟶ e), λ e. not_same e h, ground arith))
  ]
]

-- Calls of the callback, newest first, that follow the diagram from `init`'s JOINING to the state.
pub data Route : List (NodeState × NodeState) → NodeState → Type 0 where
  begin : Route [] joining
  along :
      {cs : List (NodeState × NodeState)} {a b : NodeState}
      → Route cs a
      → a ⟶ b
      → Route ((a, b) ∷ cs) b

-- The node has a callback, and the calls led to its state.
abbrev IsOnRoute : MembershipFsm → List (NodeState × NodeState) → Type 0
IsOnRoute f calls = (f.has_callback ≡ true) × Route calls f.state

step-terminated :
    (t : Trigger) (now : ℕ) (f : MembershipFsm)
    → f.state ≡ terminated
    → ((step t now f).0 ≡ f) × ((step t now f).2 ≡ none)
unfolding step transition_to start is_legal is_target same_state
step-terminated t now f h = ground arith

-- TERMINATED is absorbing: no trigger, a lost lease included, changes the node or runs the callback
-- after it.
pub run-terminated :
    (ts : List (Trigger × ℕ)) (f : MembershipFsm) (calls : List (NodeState × NodeState))
    → f.state ≡ terminated
    → run ts f calls ≡ (f, calls)
unfolding run
run-terminated [] f calls h = refl
run-terminated ((t, now) ∷ ts) f calls h =
    let (same, silent) = step-terminated t now f h in
    rw (same, silent) (run-terminated ts f calls h)
