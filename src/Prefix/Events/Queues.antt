-- ===== src/Prefix/Events/Queues.antt =====
-- A subscriber's ring is a bounded queue.
use native.Mathlib.Nat.{mod-add-mod, mod-eq_of_lt, mod-eq-sub-mod}
use native.Mathlib.Decide.{dec_lt}
use agent_state_storage.Base.{
  ℕ, zero, suc, ◌+◌, ◌-◌, ◌%◌, ◌≤◌, ◌<◌, ◌==◌, leb, ◌≡◌, ◌≢◌, refl, ap, ◌∙◌, true, false, not, ◌⊎◌,
  List, [], ◌∷◌, ◌++◌, length, if◌then◌else◌, none, some, arith, Bool-cases, inl, inr,
}
use agent_state_storage.Base.Bytes.{u64_mod}
use agent_state_storage.Prefix.Events.{Event, Ring, distance, store, try_push, try_pop}

-- The `n` events from counter `t` on.
abbrev pub window : (ℕ → Event) → ℕ → ℕ → ℕ → List Event
window buf cap t zero = []
window buf cap t (suc n) = buf (t % cap) ∷ window buf cap (t + 1) n

abbrev pub contents : Ring → List Event
contents r = window r.buf r.capacity r.tail (r.head - r.tail)

-- The head is at most the capacity past the tail; no counter has wrapped.
pub record IsValid (r : Ring) : Type 0 where
  pub in_order : r.tail ≤ r.head
  pub fits : r.head - r.tail ≤ r.capacity
  pub no_wrap : r.head < u64_mod

length-window : (buf : ℕ → Event) (cap t n : ℕ) → length (window buf cap t n) ≡ n
length-window buf cap t zero = refl
length-window buf cap t (suc n) = ap suc (length-window buf cap (t + 1) n)

pub length-contents : (r : Ring) → length (contents r) ≡ r.head - r.tail
length-contents r = length-window r.buf r.capacity r.tail (r.head - r.tail)

-- Fewer than `cap` counters on is another slot.
mod_ne : (cap t k : ℕ) → suc k < cap → (t % cap == (t + suc k) % cap) ≡ false
mod_ne cap t k small =
    let r : t % cap < cap = omega arith in
    let sum : (t % cap + suc k) % cap ≡ (t + suc k) % cap = mod-add-mod t cap (suc k) in
    elim (dec_lt (t % cap + suc k) cap) [
      | yes in_turn ↦ ground (arith, mod-eq_of_lt in_turn)
      | no next_turn ↦ ground (
        arith,
        mod-eq-sub-mod {n = t % cap + suc k} {m = cap} (omega arith),
        mod-eq_of_lt {n = t % cap + suc k - cap} {m = cap} (omega arith),
      )
    ]

-- A store just past a window extends it.
window-store :
    (buf : ℕ → Event) (cap t n i : ℕ) (ev : Event)
    → n < cap
    → i ≡ t + n
    → window (store buf (i % cap) ev) cap t (suc n) ≡ window buf cap t n ++ (ev ∷ [])
window-store buf cap t zero i ev small e =
    let at_t : i ≡ t = omega arith in
    let here : (t % cap == i % cap) ≡ true = ground (arith, ap (λ k. k % cap) at_t) in rw here refl
window-store buf cap t (suc n) i ev small e =
    let there : (t % cap == i % cap) ≡ false =
      ap (λ k. t % cap == k % cap) e ∙ mod_ne cap t n small in
    rw there
      (ap (◌∷◌ (buf (t % cap))) (window-store buf cap (t + 1) n i ev (omega arith) (omega arith)))

-- A push appends the event, or drops it and counts it when the queue has as many events as the ring
-- has slots.
pub try_push_refines :
    (ev : Event) (r : Ring)
    → IsValid r
    → r.head + 1 < u64_mod
    → IsValid (try_push ev r).0
      × ((try_push ev r).1 ≡ not (leb r.capacity (length (contents r))))
      × (contents (try_push ev r).0
          ≡ (if leb r.capacity (length (contents r)) then contents r else contents r ++ (ev ∷ [])))
      × ((try_push ev r).0.overflow ≡ (
          if leb r.capacity (length (contents r)) then (r.overflow + 1) % u64_mod else r.overflow))
unfolding try_push
try_push_refines ev r v room =
    let used : distance r.head r.tail ≡ r.head - r.tail = omega arith in
    let len = length-contents r in
    elim (Bool-cases (leb r.capacity (distance r.head r.tail))) [
      | inl full ↦
          let full' : leb r.capacity (length (contents r)) ≡ true = ground arith in
          rw (full, full')
            (record { in_order = v.in_order; fits = v.fits; no_wrap = v.no_wrap }, refl, refl, refl)
      | inr free ↦
          let free' : leb r.capacity (length (contents r)) ≡ false = ground arith in
          let one_more : (r.head + 1) % u64_mod - r.tail ≡ suc (r.head - r.tail) = omega arith in
          rw (free, free')
            (
              record { in_order = omega arith; fits = ground arith; no_wrap = omega arith },
              refl,
              ap (window (store r.buf (r.head % r.capacity) ev) r.capacity r.tail) one_more
                  ∙ window-store r.buf r.capacity r.tail (r.head - r.tail) r.head ev (ground arith)
                      (omega arith),
              refl,
            )
    ]

-- A pop takes the oldest event.
pub try_pop_refines :
    (r : Ring)
    → IsValid r
    → IsValid (try_pop r).0
      × (((contents r ≡ []) × (try_pop r ≡ (r, none)))
          ⊎ ((ev : Event) × ((try_pop r).1 ≡ some ev) × (contents r ≡ ev ∷ contents (try_pop r).0)))
unfolding try_pop
try_pop_refines r v = elim (Bool-cases (r.tail == r.head)) [
  | inl none_left ↦
      let n : r.head - r.tail ≡ 0 = ground arith in
      rw none_left (v, inl (ap (window r.buf r.capacity r.tail) n, refl))
  | inr some_left ↦
      let ne : r.tail ≢ r.head = ground arith in
      let t : (r.tail + 1) % u64_mod ≡ r.tail + 1 = omega arith in
      let n : r.head - r.tail ≡ suc (r.head - (r.tail + 1)) = omega arith in
      rw (some_left, t)
        (
          record { in_order = omega arith; fits = omega arith; no_wrap = omega arith },
          inr (r.buf (r.tail % r.capacity), refl, ap (window r.buf r.capacity r.tail) n),
        )
]
