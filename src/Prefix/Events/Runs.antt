-- ===== src/Prefix/Events/Runs.antt =====
-- The stream after any sequence of steps of its callers.
use agent_state_storage.Base.{
  ℕ, zero, suc, ◌+◌, ◌%◌, ◌<◌, ◌==◌, ◌≡◌, ◌≢◌, List, [], ◌∷◌, ◌++◌, length, All, All-imp,
  All-append, arith, Bool-cases, Option-cases, inl, inr, Option, none, some, pick,
}
use agent_state_storage.Base.Bytes.{u64_mod}
use agent_state_storage.Prefix.Events.{
  Event, Ring, Stream, try_pop, new_ring, draw_epoch, deliver, subscribe, erase_first, unsubscribe,
  poll_first, poll, new_stream,
}
use agent_state_storage.Prefix.Events.Order.{
  World, Subscribed, Subscribed-try_pop, AreDistinct, IsValid, count_epoch, draw_epoch-IsValid,
  deliver-IsValid,
}

Apart : ℕ → List (ℕ × Ring) → Type 0
Apart k = All (λ (x : ℕ × Ring). k ≢ x.0)

erase_first-All :
    (P : ℕ × Ring → Type 0) (h : ℕ) (subs : List (ℕ × Ring))
    → All P subs
    → All P (erase_first h subs)
unfolding erase_first
erase_first-All P h [] a = tt
erase_first-All P h (s ∷ subs) a = elim (Bool-cases (s.0 == h)) [
  | inl e ↦ rw e a.1
  | inr e ↦ rw e (a.0, erase_first-All P h subs a.1)
]

erase_first-AreDistinct :
    (h : ℕ) (subs : List (ℕ × Ring)) → AreDistinct subs → AreDistinct (erase_first h subs)
unfolding erase_first
erase_first-AreDistinct h [] d = tt
erase_first-AreDistinct h (s ∷ subs) d = elim (Bool-cases (s.0 == h)) [
  | inl e ↦ rw e d.1
  | inr e ↦
      rw e (
        erase_first-All (λ (x : ℕ × Ring). s.0 ≢ x.0) h subs d.0,
        erase_first-AreDistinct h subs d.1,
      )
]

-- The same events wait for another stream.
abbrev with_stream : Stream → World → World
with_stream s w = record w { stream = s }

unsubscribe-IsValid :
    (h : ℕ) (w : World) → IsValid w → IsValid (with_stream (unsubscribe h w.stream) w)
unfolding unsubscribe
unsubscribe-IsValid h w v = record {
  subscribed =
      erase_first-All (Subscribed w.stream.next_handle w.stream.epoch w.waiting) h w.stream.subs
        v.subscribed;
  distinct = erase_first-AreDistinct h w.stream.subs v.distinct;
  waiting_once = v.waiting_once;
  waiting_few = v.waiting_few;
}

-- What holds of a subscriber, and still does with an event popped, holds after a poll.
poll_first-All :
    (P : ℕ × Ring → Type 0) (h : ℕ) (subs : List (ℕ × Ring))
    → ((s : ℕ × Ring) → P s → P (s.0, (try_pop s.1).0))
    → All P subs
    → All P (poll_first h subs).0
unfolding poll_first
poll_first-All P h [] pop a = tt
poll_first-All P h (s ∷ subs) pop a = elim (Bool-cases (s.0 == h)) [
  | inl e ↦ rw e (pop s a.0, a.1)
  | inr e ↦ rw e (a.0, poll_first-All P h subs pop a.1)
]

poll_first-AreDistinct :
    (h : ℕ) (subs : List (ℕ × Ring)) → AreDistinct subs → AreDistinct (poll_first h subs).0
unfolding poll_first
poll_first-AreDistinct h [] d = tt
poll_first-AreDistinct h (s ∷ subs) d = elim (Bool-cases (s.0 == h)) [
  | inl e ↦ rw e d
  | inr e ↦ rw e (
    poll_first-All (λ (x : ℕ × Ring). s.0 ≢ x.0) h subs (λ x ne. ne) d.0,
    poll_first-AreDistinct h subs d.1,
  )
]

poll-IsValid : (h : ℕ) (w : World) → IsValid w → IsValid (with_stream (poll h w.stream).0 w)
unfolding poll
poll-IsValid h w v = record {
  subscribed =
      poll_first-All (Subscribed w.stream.next_handle w.stream.epoch w.waiting) h w.stream.subs
        (λ x. Subscribed-try_pop w.stream.next_handle w.stream.epoch w.waiting x) v.subscribed;
  distinct = poll_first-AreDistinct h w.stream.subs v.distinct;
  waiting_once = v.waiting_once;
  waiting_few = v.waiting_few;
}

Subscribed-later :
    (next epoch : ℕ) (waiting : List Event) (s : ℕ × Ring)
    → Subscribed next epoch waiting s
    → Subscribed (next + 1) epoch waiting s
Subscribed-later next epoch waiting s h =
    let b = h.below in
    record { valid = h.valid; below = omega arith; pushed = h.pushed; once = h.once }

new_ring-Subscribed :
    (cap : ℕ) (w : World)
    → IsValid w
    → Subscribed
        (w.stream.next_handle + 1)
        w.stream.epoch
        w.waiting
        (w.stream.next_handle, new_ring cap)
unfolding new_ring
new_ring-Subscribed cap w v = record {
  valid = record { in_order = omega arith; fits = omega arith; no_wrap = omega arith };
  below = omega arith;
  pushed = omega (arith, v.waiting_few);
  once = λ k. omega (arith, v.waiting_once k);
}

append-AreDistinct :
    (next epoch : ℕ) (waiting : List Event) (subs : List (ℕ × Ring)) (r : Ring)
    → All (Subscribed next epoch waiting) subs
    → AreDistinct subs
    → AreDistinct (subs ++ ((next, r) ∷ []))
append-AreDistinct next epoch waiting [] r a d = (tt, tt)
append-AreDistinct next epoch waiting (s ∷ subs) r a d =
    let b = a.0.below in
    (
      All-append (λ (x : ℕ × Ring). s.0 ≢ x.0) subs ((next, r) ∷ []) d.0 (omega arith, tt),
      append-AreDistinct next epoch waiting subs r a.1 d.1,
    )

subscribe-IsValid :
    (cap : ℕ) (w : World)
    → w.stream.next_handle + 1 < u64_mod
    → IsValid w
    → IsValid (with_stream (subscribe cap w.stream).0 w)
unfolding subscribe
subscribe-IsValid cap w room v =
    let s = w.stream in
    let next : (s.next_handle + 1) % u64_mod ≡ s.next_handle + 1 = omega arith in
    rw next (record {
      subscribed =
          All-append (Subscribed (s.next_handle + 1) s.epoch w.waiting) s.subs
            ((s.next_handle, new_ring cap) ∷ [])
            (All-imp (Subscribed s.next_handle s.epoch w.waiting)
              (Subscribed (s.next_handle + 1) s.epoch w.waiting) s.subs
              (λ x. Subscribed-later s.next_handle s.epoch w.waiting x) v.subscribed)
            (new_ring-Subscribed cap w v, tt);
      distinct =
          append-AreDistinct s.next_handle s.epoch w.waiting s.subs (new_ring cap) v.subscribed
            v.distinct;
      waiting_once = v.waiting_once;
      waiting_few = v.waiting_few;
    })

pick-some :
    (i : ℕ) (es rest : List Event) (ev : Event)
    → pick i es ≡ some (ev, rest)
    → ((k : ℕ) → count_epoch k es ≡ count_epoch k (ev ∷ rest)) × (length es ≡ suc (length rest))
pick-some i [] rest ev h = absurd cc
pick-some zero (e ∷ es) rest ev h = (λ k. ground (arith, h), ground (arith, h))
pick-some (suc i) (e ∷ es) rest ev h = elim (Option-cases (pick i es)) [
  | inl missing ↦ ground (arith, missing, h)
  | inr ((x, others), found) ↦
      let (same, longer) = pick-some i es others x found in
      (λ k. ground (arith, found, h, same k), ground (arith, found, h, longer))
]

-- A step: a producer draws its epoch, with the reading of the clock, or a producer that waits gets the
-- mutex, or one of the other calls is made.
pub data Call : Type 0 where
  draws : (now : ℕ) → Event → Call
  delivers : (waiting_index : ℕ) → Call
  subscribes : (ring_capacity_pow2 : ℕ) → Call
  unsubscribes polls : (handle : ℕ) → Call

abbrev pub delivered : Option (Event × List Event) → World → World
delivered none w = w
delivered (some (ev, rest)) w = record { stream = deliver ev w.stream; waiting = rest }

abbrev pub step : Call → World → World
step (draws now ev) w =
    let r = draw_epoch now ev w.stream in record { stream = r.0; waiting = r.1 ∷ w.waiting }
step (delivers i) w = delivered (pick i w.waiting) w
step (subscribes cap) w = record w { stream = (subscribe cap w.stream).0 }
step (unsubscribes h) w = record w { stream = unsubscribe h w.stream }
step (polls h) w = record w { stream = (poll h w.stream).0 }

unfoldable pub run : List Call → World → World
run [] w = w
run (c ∷ cs) w = run cs (step c w)

abbrev IsBelow : ℕ → World → Type 0
IsBelow n w = (w.stream.epoch + n < u64_mod) × (w.stream.next_handle + n < u64_mod)

step-counters : (c : Call) (n : ℕ) (w : World) → IsBelow (suc n) w → IsBelow n (step c w)
unfolding draw_epoch deliver subscribe unsubscribe poll
step-counters (draws now ev) n w b = omega arith
step-counters (delivers i) n w b = elim (Option-cases (pick i w.waiting)) [
  | inl e ↦ rw e (omega arith)
  | inr (x, e) ↦ rw e (omega arith)
]
step-counters (subscribes cap) n w b = omega arith
step-counters (unsubscribes h) n w b = omega arith
step-counters (polls h) n w b = omega arith

step-IsValid : (c : Call) (n : ℕ) (w : World) → IsBelow (suc n) w → IsValid w → IsValid (step c w)
step-IsValid (draws now ev) n w b v = draw_epoch-IsValid now ev w (omega arith) v
step-IsValid (delivers i) n w b v = elim (Option-cases (pick i w.waiting)) [
  | inl e ↦ rw e v
  | inr ((ev, rest), e) ↦
      let (same, shorter) = pick-some i w.waiting rest ev e in
      rw e (deliver-IsValid ev rest w (omega arith) same shorter v)
]
step-IsValid (subscribes cap) n w b v = subscribe-IsValid cap w (omega arith) v
step-IsValid (unsubscribes h) n w b v = unsubscribe-IsValid h w v
step-IsValid (polls h) n w b v = poll-IsValid h w v

run_from : (cs : List Call) (w : World) → IsBelow (length cs) w → IsValid w → IsValid (run cs w)
unfolding run
run_from [] w b v = v
run_from (c ∷ cs) w b v =
    run_from cs (step c w) (step-counters c (length cs) w b) (step-IsValid c (length cs) w b v)

abbrev pub new_world : World
new_world = record { stream = new_stream; waiting = [] }

-- After fewer than 2 ^ 64 - 1 steps from a new stream, where any number of producers have drawn their
-- epochs and get the mutex in any order, the handles of its subscribers are distinct, no ring holds
-- more events than it has slots, and each epoch that a ring's event has was drawn and stands once there,
-- and not among the events that still wait.
pub run-IsValid : (cs : List Call) → 1 + length cs < u64_mod → IsValid (run cs new_world)
unfolding new_stream
run-IsValid cs room = run_from cs new_world (omega arith) (record {
  subscribed = tt;
  distinct = tt;
  waiting_once = λ k. omega arith;
  waiting_few = omega arith;
})
