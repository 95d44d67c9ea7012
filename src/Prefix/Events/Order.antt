-- ===== src/Prefix/Events/Order.antt =====
-- The events of a stream's rings, and of the producers that wait for its mutex.
use agent_state_storage.Base.{
  ℕ, suc, ◌+◌, ◌%◌, ◌≤◌, ◌<◌, ◌==◌, ltb, leb, ◌≡◌, ◌≢◌, refl, subst, List, [], ◌∷◌, ◌++◌, length,
  All, All-imp, arith, Bool-cases, inl, inr, if◌then◌else◌, ◌&&◌,
}
use agent_state_storage.Base.Bytes.{u64_mod}
use agent_state_storage.Prefix.Events.{
  Event, Ring, Stream, stamp, try_push, try_pop, push_all, draw_epoch, deliver,
}
use agent_state_storage.Prefix.Events.Queues
use agent_state_storage.Prefix.Events.Queues.{
  contents, length-contents, try_push_refines, try_pop_refines,
}

-- How many events have an epoch.
abbrev pub count_epoch : ℕ → List Event → ℕ
count_epoch k [] = 0
count_epoch k (e ∷ es) = let rest = count_epoch k es in if e.epoch == k then suc rest else rest

-- 1 for an epoch that was drawn.
abbrev pub drawn : ℕ → ℕ → ℕ
drawn k epoch = if ltb 0 k && leb k epoch then 1 else 0

count_epoch-append :
    (k : ℕ) (es : List Event) (ev : Event)
    → count_epoch k (es ++ (ev ∷ [])) ≡ count_epoch k es + (if ev.epoch == k then 1 else 0)
count_epoch-append k [] ev = ground arith
count_epoch-append k (e ∷ es) ev = ground (arith, count_epoch-append k es ev)

-- A stream, and the events whose epoch was drawn and that were not delivered yet.
pub record World : Type 0 where
  pub stream : Stream
  pub waiting : List Event

-- A subscriber's ring has had at most one event for each epoch that was drawn.
pub record Subscribed (next epoch : ℕ) (waiting : List Event) (s : ℕ × Ring) : Type 0 where
  pub valid : Queues.IsValid s.1
  pub below : s.0 < next
  pub pushed : s.1.head + length waiting ≤ epoch
  pub once : (k : ℕ) → count_epoch k (contents s.1) + count_epoch k waiting ≤ drawn k epoch

abbrev pub AreDistinct : List (ℕ × Ring) → Type 0
AreDistinct [] = Unit
AreDistinct (s ∷ subs) = All (λ (x : ℕ × Ring). s.0 ≢ x.0) subs × AreDistinct subs

-- The handles are distinct, no ring holds more events than it has slots, and no epoch stands twice
-- among a ring's events and those that wait, or was not drawn.
pub record IsValid (w : World) : Type 0 where
  pub subscribed : All (Subscribed w.stream.next_handle w.stream.epoch w.waiting) w.stream.subs
  pub distinct : AreDistinct w.stream.subs
  pub waiting_once : (k : ℕ) → count_epoch k w.waiting ≤ drawn k w.stream.epoch
  pub waiting_few : length w.waiting ≤ w.stream.epoch

Subscribed-drawn :
    (next epoch : ℕ) (waiting : List Event) (ev : Event) (s : ℕ × Ring)
    → ev.epoch ≡ epoch + 1
    → Subscribed next epoch waiting s
    → Subscribed next (epoch + 1) (ev ∷ waiting) s
Subscribed-drawn next epoch waiting ev s e h =
    let p = h.pushed in
    record {
      valid = h.valid;
      below = h.below;
      pushed = omega arith;
      once = λ k. ground (arith, h.once k, e);
    }

-- A producer draws its epoch.
pub draw_epoch-IsValid :
    (now : ℕ) (ev : Event) (w : World)
    → w.stream.epoch + 1 < u64_mod
    → IsValid w
    → let r = draw_epoch now ev w.stream in
      IsValid (record { stream = r.0; waiting = r.1 ∷ w.waiting })
unfolding draw_epoch
draw_epoch-IsValid now ev w room v =
    let epoch = w.stream.epoch in
    let next : (epoch + 1) % u64_mod ≡ epoch + 1 = omega arith in
    let few = v.waiting_few in
    rw next (record {
      subscribed =
          All-imp (Subscribed w.stream.next_handle epoch w.waiting)
            (Subscribed w.stream.next_handle (epoch + 1) (stamp (epoch + 1) now ev ∷ w.waiting))
            w.stream.subs
            (λ s.
              Subscribed-drawn w.stream.next_handle epoch w.waiting (stamp (epoch + 1) now ev) s
                refl)
            v.subscribed;
      distinct = v.distinct;
      waiting_once = λ k. ground (arith, v.waiting_once k);
      waiting_few = omega arith;
    })

head-try_push : (ev : Event) (r : Ring) → r.head + 1 < u64_mod → (try_push ev r).0.head ≤ r.head + 1
unfolding try_push
head-try_push ev r room = ground arith

-- An event goes from the waiting ones into a ring, or is dropped there.
Subscribed-try_push :
    (next epoch : ℕ) (waiting rest : List Event) (ev : Event) (s : ℕ × Ring)
    → epoch < u64_mod
    → ((k : ℕ) → count_epoch k waiting ≡ count_epoch k (ev ∷ rest))
    → length waiting ≡ suc (length rest)
    → Subscribed next epoch waiting s
    → Subscribed next epoch rest (s.0, (try_push ev s.1).0)
Subscribed-try_push next epoch waiting rest ev s room same shorter h =
    let p = h.pushed in
    let r = try_push_refines ev s.1 h.valid (omega arith) in
    record {
      valid = r.0;
      below = h.below;
      pushed = omega (arith, head-try_push ev s.1 (omega arith));
      once = λ k. rw r.2 (elim (Bool-cases (leb s.1.capacity (length (contents s.1)))) [
        | inl full ↦ rw full (ground (arith, h.once k, same k))
        | inr free ↦
            rw free (ground (arith, count_epoch-append k (contents s.1) ev, h.once k, same k))
      ]);
    }

head-try_pop : (r : Ring) → (try_pop r).0.head ≡ r.head
unfolding try_pop
head-try_pop r = ground arith

pub Subscribed-try_pop :
    (next epoch : ℕ) (waiting : List Event) (s : ℕ × Ring)
    → Subscribed next epoch waiting s
    → Subscribed next epoch waiting (s.0, (try_pop s.1).0)
Subscribed-try_pop next epoch waiting s h =
    let p = h.pushed in
    let r = try_pop_refines s.1 h.valid in
    record {
      valid = r.0;
      below = h.below;
      pushed = omega (arith, head-try_pop s.1);
      once = λ k. elim r.1 [
        | inl (c, same) ↦ rw same (h.once k)
        | inr (ev, got, c) ↦
            let all : count_epoch k (ev ∷ contents (try_pop s.1).0) + count_epoch k waiting
                ≤ drawn k epoch =
              subst (λ es. count_epoch k es + count_epoch k waiting ≤ drawn k epoch) c (h.once k) in
            ground (arith, all)
      ];
    }

Subscribed-push_all :
    (next epoch : ℕ) (waiting rest : List Event) (ev : Event) (subs : List (ℕ × Ring))
    → epoch < u64_mod
    → ((k : ℕ) → count_epoch k waiting ≡ count_epoch k (ev ∷ rest))
    → length waiting ≡ suc (length rest)
    → All (Subscribed next epoch waiting) subs
    → All (Subscribed next epoch rest) (push_all ev subs)
unfolding push_all
Subscribed-push_all next epoch waiting rest ev [] room same shorter h = tt
Subscribed-push_all next epoch waiting rest ev (s ∷ subs) room same shorter h = (
  Subscribed-try_push next epoch waiting rest ev s room same shorter h.0,
  Subscribed-push_all next epoch waiting rest ev subs room same shorter h.1,
)

apart-push_all :
    (k : ℕ) (ev : Event) (subs : List (ℕ × Ring))
    → All (λ (x : ℕ × Ring). k ≢ x.0) subs
    → All (λ (x : ℕ × Ring). k ≢ x.0) (push_all ev subs)
unfolding push_all
apart-push_all k ev [] h = tt
apart-push_all k ev (s ∷ subs) h = (h.0, apart-push_all k ev subs h.1)

AreDistinct-push_all :
    (ev : Event) (subs : List (ℕ × Ring)) → AreDistinct subs → AreDistinct (push_all ev subs)
unfolding push_all
AreDistinct-push_all ev [] d = tt
AreDistinct-push_all ev (s ∷ subs) d =
    (apart-push_all s.0 ev subs d.0, AreDistinct-push_all ev subs d.1)

-- A producer that got the mutex delivers its event, whenever the others drew theirs.
pub deliver-IsValid :
    (ev : Event) (rest : List Event) (w : World)
    → w.stream.epoch < u64_mod
    → ((k : ℕ) → count_epoch k w.waiting ≡ count_epoch k (ev ∷ rest))
    → length w.waiting ≡ suc (length rest)
    → IsValid w
    → IsValid (record { stream = deliver ev w.stream; waiting = rest })
unfolding deliver
deliver-IsValid ev rest w room same shorter v =
    let few = v.waiting_few in
    record {
      subscribed =
          Subscribed-push_all w.stream.next_handle w.stream.epoch w.waiting rest ev w.stream.subs
            room same shorter v.subscribed;
      distinct = AreDistinct-push_all ev w.stream.subs v.distinct;
      waiting_once = λ k. ground (arith, v.waiting_once k, same k);
      waiting_few = omega arith;
    }
