-- ===== src/Prefix/Events/Tests.antt =====
-- A stream with one slow subscriber.
use agent_state_storage.Base.{
  ◌+◌, ◌%◌, leb, not, ◌≡◌, refl, ◌⊎◌, List, [], ◌∷◌, ◌++◌, length, if◌then◌else◌, none, some, arith,
}
use agent_state_storage.Base.Bytes.{u64_mod}
use agent_state_storage.Prefix.Events.{
  Event, no_event, Ring, Stream, roundup, new_ring, try_push, try_pop, new_stream, subscribe,
  publish, draw_epoch, deliver, push_all, unsubscribe, erase_first, poll, poll_first,
}
use agent_state_storage.Prefix.Events.Queues
use agent_state_storage.Prefix.Events.Queues.{contents, try_push_refines, try_pop_refines}
use agent_state_storage.Prefix.Events.Order.{IsValid}
use agent_state_storage.Prefix.Events.Runs.{
  Call, draws, delivers, subscribes, unsubscribes, run, run-IsValid, new_world,
}

abbrev small : Ring
small = record { capacity = 2; buf = λ i. no_event; head = 7; tail = 6; overflow = 0 }

small-IsValid : Queues.IsValid small
small-IsValid = record { in_order = omega arith; fits = omega arith; no_wrap = omega arith }

abbrev added : Event
added = record { etype = 1; tier = 3; locator = 42; epoch = 9; unix_nanos = 100 }

try_push_refines_example :
    Queues.IsValid (try_push added small).0
    × ((try_push added small).1 ≡ not (leb 2 (length (contents small))))
    × (contents (try_push added small).0 ≡ (
        if leb 2 (length (contents small)) then contents small else contents small ++ (added ∷ [])))
    × ((try_push added small).0.overflow ≡ (
        if leb 2 (length (contents small)) then (small.overflow + 1) % u64_mod else small.overflow))
try_push_refines_example = try_push_refines added small small-IsValid (omega arith)

try_pop_refines_example :
    Queues.IsValid (try_pop small).0
    × (((contents small ≡ []) × (try_pop small ≡ (small, none)))
        ⊎ ((ev : Event) × ((try_pop small).1 ≡ some ev)
            × (contents small ≡ ev ∷ contents (try_pop small).0)))
try_pop_refines_example = try_pop_refines small small-IsValid

-- Two producers draw their epochs and deliver in the other order.
abbrev calls : List Call
calls =
    subscribes 4
    ∷ draws 100 added
    ∷ draws 200 added
    ∷ delivers 0
    ∷ delivers 0
    ∷ subscribes 0
    ∷ draws 300 no_event
    ∷ unsubscribes 2
    ∷ delivers 0
    ∷ []

run-IsValid_example : IsValid (run calls new_world)
run-IsValid_example = run-IsValid calls (omega arith)

out_of_order : (poll 1 (run calls new_world).stream).1 ≡ some (record added { epoch = 2 })
unfolding run draw_epoch deliver poll poll_first push_all try_push try_pop subscribe unsubscribe
    erase_first new_ring new_stream roundup
out_of_order = refl

-- Two events are two epochs, in order, whatever epoch they came with.
abbrev two_events : Stream
two_events = publish 200 no_event (publish 100 added (subscribe 4 new_stream).0)

second_event :
    (poll 1 (poll 1 two_events).0).1 ≡ some (record no_event { epoch = 2; unix_nanos = 200 })
unfolding poll poll_first publish draw_epoch deliver push_all try_push try_pop subscribe new_ring
    new_stream roundup
second_event = refl

roundup_1000 : roundup 1000 ≡ 1024
unfolding roundup
roundup_1000 = refl

-- Past 2 ^ 31 the capacity wraps to 0, and the ring refuses every event.
roundup_wraps : roundup 2147483649 ≡ 0
unfolding roundup
roundup_wraps = refl
