-- ===== src/Transport/Scheduler/Dequeue.antt =====
-- What one pass over the rotation of a class does.
use mathlib.Core.List.{append-nil}
use agent_state_storage.Base.{
  ℕ, zero, suc, ◌+◌, ◌-◌, ◌%◌, ◌==◌, ◌≡◌, refl, ◌∙◌, sym, subst, Bool, true, false, List, [], ◌∷◌,
  ◌++◌, Option, some, none, inl, inr, arith, length, take, All, Bool-cases, List-cases,
  if◌then◌else◌,
}
use agent_state_storage.Base.Bytes.{u64_mod}
use agent_state_storage.Base.Map.{assign, erase}
use agent_state_storage.Transport.Scheduler.{
  WorkItem, Queue, tenant_queue, admissible, is_forced, take_head, rotate, try_dequeue, is_nil,
}

-- A tenant whose queue is empty, or has an item in front that is not admissible.
abbrev pub IsBlocked : ℕ → ℕ → Queue → ℕ → Type 0
IsBlocked max_skips lent c t =
    (w : WorkItem) (rest : List WorkItem)
    → tenant_queue t c.tenant_queues ≡ w ∷ rest
    → admissible max_skips lent c w ≡ false

-- No tenant of the rotation had an admissible item, and nothing but the order of the rotation and the
-- count of skips changed.
abbrev pub Skipped : ℕ → ℕ → ℕ → Queue → Queue → Type 0
Skipped n max_skips lent c d =
    All (IsBlocked max_skips lent c) (take n c.rr_order)
    × (d.tenant_queues ≡ c.tenant_queues)
    × (d.total_depth ≡ c.total_depth)
    × (d.in_flight ≡ c.in_flight)
    × (d.reservation ≡ c.reservation)
    × (d.consecutive_skips ≡ c.consecutive_skips + 1)

-- The item was at the head of the queue of tenant `t`, and left it; the other queues are as before.
abbrev pub Admits : ℕ → ℕ → Queue → Queue → WorkItem → Bool → Type 0
Admits max_skips lent c d w forced =
    (t : ℕ) × (rest : List WorkItem) × (tenant_queue t c.tenant_queues ≡ w ∷ rest)
    × (admissible max_skips lent c w ≡ true)
    × (forced ≡ is_forced max_skips c w)
    × ((u : ℕ)
        → tenant_queue u d.tenant_queues
          ≡ (if t == u then rest else tenant_queue u c.tenant_queues))
    × (d.total_depth ≡ c.total_depth - 1)
    × (d.in_flight ≡ (c.in_flight + w.bytes) % u64_mod)
    × (d.reservation ≡ c.reservation)
    × (d.consecutive_skips ≡ 0)

abbrev pub Outcome : ℕ → ℕ → ℕ → Queue → Queue × Option (WorkItem × Bool) → Type 0
Outcome n max_skips lent c (d, none) = Skipped n max_skips lent c d
Outcome n max_skips lent c (d, some (w, forced)) = Admits max_skips lent c d w forced

tenant_queue-assign :
    (t u : ℕ) (q : List WorkItem) (m : List (ℕ × List WorkItem))
    → tenant_queue u (assign t q m) ≡ (if t == u then q else tenant_queue u m)
unfolding tenant_queue assign
tenant_queue-assign t u q [] = ground arith
tenant_queue-assign t u q (e ∷ m) = ground (arith, tenant_queue-assign t u q m)

tenant_queue-erase :
    (t u : ℕ) (m : List (ℕ × List WorkItem))
    → tenant_queue u (erase t m) ≡ (if t == u then [] else tenant_queue u m)
unfolding tenant_queue erase
tenant_queue-erase t u [] = ground arith
tenant_queue-erase t u (e ∷ m) = ground (arith, tenant_queue-erase t u m)

-- The queues after the head of tenant `t` has left.
left_by :
    (t u : ℕ) (rest : List WorkItem) (m : List (ℕ × List WorkItem))
    → tenant_queue u (if is_nil rest then erase t m else assign t rest m)
      ≡ (if t == u then rest else tenant_queue u m)
left_by t u [] m = tenant_queue-erase t u m
left_by t u (w ∷ rest) m = tenant_queue-assign t u (w ∷ rest) m

-- A tenant that was skipped leaves the others where they were, or goes to the back.
All-take_front {κ} :
    (P : ℕ → Type κ) (n : ℕ) (xs ys : List ℕ) → All P (take n (xs ++ ys)) → All P (take n xs)
All-take_front P zero xs ys h = tt
All-take_front P (suc n) [] ys h = tt
All-take_front P (suc n) (x ∷ xs) ys h = (h.0, All-take_front P n xs ys h.1)

passed_on :
    (n max_skips lent t : ℕ) (order back : List ℕ) (c : Queue)
    (r : Queue × Option (WorkItem × Bool))
    → IsBlocked max_skips lent c t
    → Outcome n max_skips lent (record c { rr_order = order ++ back }) r
    → Outcome (suc n) max_skips lent (record c { rr_order = t ∷ order }) r
unfolding admissible is_forced
passed_on n max_skips lent t order back c (d, none) blocked (others, q, p, f, r, k) =
    ((blocked, All-take_front (IsBlocked max_skips lent c) n order back others), q, p, f, r, k)
passed_on n max_skips lent t order back c (d, some (w, forced)) blocked h = h

nil_not : {w : WorkItem} {rest : List WorkItem} → [] ≡ w ∷ rest → ⊥
nil_not e = cc

same_head : {w v : WorkItem} {rest more : List WorkItem} → w ∷ rest ≡ v ∷ more → w ≡ v
same_head e = cc

rotate_cases :
    (n max_skips lent : ℕ) (c : Queue) → Outcome n max_skips lent c (rotate n max_skips lent c)
unfolding rotate take_head
rotate_cases zero max_skips lent c = (tt, refl, refl, refl, refl, refl)
rotate_cases (suc n) max_skips lent c = elim (List-cases c.rr_order) [
  | inl e ↦ rw (e, rotate) (tt, refl, refl, refl, refl, refl)
  | inr (t, order, e) ↦ elim (List-cases (tenant_queue t c.tenant_queues)) [
    | inl q ↦
        let d : Queue = record c { rr_order = order } in
        rw (e, rotate)
          (rw (q, rotate)
            (passed_on n max_skips lent t order [] c (rotate n max_skips lent d)
              (λ w rest there. absurd (nil_not (sym q ∙ there)))
              (subst
                (λ xs.
                  Outcome n max_skips lent (record c { rr_order = xs }) (rotate n max_skips lent d))
                (sym (append-nil order)) (rotate_cases n max_skips lent d))))
    | inr (w, rest, q) ↦ elim (Bool-cases (admissible max_skips lent c w)) [
      | inl a ↦
          rw (e, rotate)
            (rw (q, rotate)
              (rw (a, rotate)
                (
                  t,
                  rest,
                  q,
                  a,
                  refl,
                  λ u. left_by t u rest c.tenant_queues,
                  refl,
                  refl,
                  refl,
                  refl,
                )))
      | inr a ↦
          let d : Queue = record c { rr_order = order ++ t ∷ [] } in
          rw (e, rotate)
            (rw (q, rotate)
              (rw (a, rotate)
                (passed_on n max_skips lent t order (t ∷ []) c (rotate n max_skips lent d)
                  (λ v more there.
                    subst (λ x. admissible max_skips lent c x ≡ false) (same_head (sym q ∙ there))
                      a)
                  (rotate_cases n max_skips lent d))))
    ]
  ]
]

-- One pass over a class that has work either admits an item that is admissible and at the head of its
-- tenant's queue, which it leaves, adds its bytes to those in flight modulo 2 ^ 64, takes it from the
-- depth and resets the count of skips; or no tenant of the rotation has an admissible item at its
-- head, the queues stay as they are, and one more skip is counted.
pub try_dequeue_cases :
    (max_skips lent : ℕ) (c : Queue)
    → is_nil c.rr_order ≡ false
    → Outcome (length c.rr_order) max_skips lent c (try_dequeue max_skips lent c)
unfolding try_dequeue
try_dequeue_cases max_skips lent c h = rw h (rotate_cases (length c.rr_order) max_skips lent c)
