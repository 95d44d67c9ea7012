-- ===== src/Cluster/Membership.antt =====
-- `MembershipFsm` of src/kvstore-node/src/cluster/membership_fsm.{h,cpp}. The clock is an argument of
-- each call, in seconds. What a call does under the mutex is one step; a transition gives its caller the
-- arguments of the callback, which the caller runs after the mutex is released, so that the callbacks
-- of two callers may run in either order. Traffic weights are in tenths.
pub mod Edges
use agent_state_storage.Base.{
  ℕ, ◌+◌, ◌≡◌, Bool, true, false, List, [], ◌∷◌, ltb, if◌then◌else◌, not, ◌||◌, Option, none, some,
}

pub data NodeState : Type 0 where
  joining active draining unreachable terminated : NodeState

pub data TransitionResult : Type 0 where
  done illegal_transition already_in_state : TransitionResult

pub record MembershipFsm : Type 0 where
  pub state : NodeState
  pub joined_at : ℕ
  pub warmup : ℕ
  pub has_callback : Bool

unfoldable pub init : ℕ → ℕ → MembershipFsm
init warmup now = record { state = joining; joined_at = now; warmup = warmup; has_callback = false }

unfoldable pub same_state : NodeState → NodeState → Bool
same_state joining joining = true
same_state active active = true
same_state draining draining = true
same_state unreachable unreachable = true
same_state terminated terminated = true
same_state _ _ = false

unfoldable pub in_warmup : MembershipFsm → ℕ → Bool
unfolding same_state
in_warmup f now =
    if not (same_state f.state joining) then false else ltb now (f.joined_at + f.warmup)

abbrev weight_of : NodeState → ℕ
weight_of joining = 1
weight_of active = 10
weight_of draining = 0
weight_of unreachable = 0
weight_of terminated = 0

unfoldable pub traffic_weight : MembershipFsm → ℕ
traffic_weight f = weight_of f.state

-- The `switch` of `IsLegalLocked`.
unfoldable pub is_target : NodeState → NodeState → Bool
unfolding same_state
is_target joining to = same_state to active || same_state to unreachable
is_target active to = same_state to draining || same_state to unreachable
is_target draining to = same_state to unreachable || same_state to terminated
is_target unreachable to = same_state to joining || same_state to terminated
is_target terminated to = false

unfoldable pub is_legal : NodeState → NodeState → Bool
unfolding is_target
is_legal from to = if same_state from to then false else is_target from to

-- The new state, the answer, and the arguments of the callback that is run after the mutex is
-- released.
abbrev pub Transition : Type 0
Transition = MembershipFsm × TransitionResult × Option (NodeState × NodeState)

-- `TransitionTo`
unfoldable pub transition_to : NodeState → ℕ → MembershipFsm → Transition
unfolding is_legal
transition_to target now f =
    if same_state f.state target
    then (f, already_in_state, none)
    else if not (is_legal f.state target)
    then (f, illegal_transition, none)
    else (
      record f {
        state = target;
        joined_at = if same_state target joining then now else f.joined_at;
      },
      done,
      if f.has_callback then some (f.state, target) else none,
    )

unfoldable pub start : ℕ → MembershipFsm → Transition
unfolding same_state
start now f =
    if not (same_state f.state joining)
    then (f, illegal_transition, none)
    else (record f { joined_at = now }, already_in_state, none)

unfoldable pub set_state_change_callback : MembershipFsm → MembershipFsm
set_state_change_callback f = record f { has_callback = true }

-- The triggers.
pub data Trigger : Type 0 where
  starts activates drains lease_lost lease_recovered terminates : Trigger

unfoldable pub step : Trigger → ℕ → MembershipFsm → Transition
unfolding start transition_to
step starts = start
step activates = transition_to active
step drains = transition_to draining
step lease_lost = transition_to unreachable
step lease_recovered = transition_to joining
step terminates = transition_to terminated

abbrev pub and_call :
    Option (NodeState × NodeState) → List (NodeState × NodeState) → List (NodeState × NodeState)
and_call none calls = calls
and_call (some c) calls = c ∷ calls

-- Triggers one after the other: the node, and the callbacks that the transitions called for, the
-- latest transition first.
unfoldable pub run :
    List (Trigger × ℕ)
    → MembershipFsm
    → List (NodeState × NodeState)
    → MembershipFsm × List (NodeState × NodeState)
unfolding step
run [] f calls = (f, calls)
run ((t, now) ∷ ts) f calls = let r = step t now f in run ts r.0 (and_call r.2 calls)
