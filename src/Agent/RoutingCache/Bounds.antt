-- ===== src/Agent/RoutingCache/Bounds.antt =====
-- The size of the cache, and what `Get` answers for an entry.
use agent_state_storage.Base.{
  ℕ, suc, ◌+◌, ◌≤◌, ◌≡◌, refl, List, [], ◌∷◌, ltb, if◌then◌else◌, arith, some, none, length,
  length-take, Option-cases, inl, inr, Bool-cases, subst, sym,
}
use agent_state_storage.Agent.RoutingCache.{
  Entry, Cache, entry_of, without, put, get, invalidate, clear, size, Operation, puts_route,
  gets_route, invalidates, clears, step,
}

length-without : (k : ℕ) (es : List Entry) → length (without k es) ≤ length es
unfolding without
length-without k [] = omega arith
length-without k (e ∷ es) = ground (arith, length-without k es)

pub entry_of_key : (k : ℕ) (es : List Entry) (e : Entry) → entry_of k es ≡ some e → e.key ≡ k
unfolding entry_of
entry_of_key k [] e h = ground arith
entry_of_key k (x ∷ es) e h = ground (arith, entry_of_key k es e)

length-without-some :
    (k : ℕ) (es : List Entry) (e : Entry)
    → entry_of k es ≡ some e
    → suc (length (without k es)) ≡ length es
unfolding entry_of without
length-without-some k [] e h = ground arith
length-without-some k (x ∷ es) e h = ground (arith, length-without-some k es e)

-- Each operation keeps the number of entries within the capacity, which it does not change.
pub step-size :
    (o : Operation) (c : Cache)
    → size c ≤ c.capacity
    → (size (step o c) ≤ (step o c).capacity) × ((step o c).capacity ≡ c.capacity)
unfolding step put get invalidate clear size
step-size (puts_route k node now) c h = elim (Option-cases (entry_of k c.lru)) [
  | inl e ↦ rw e (
    omega (
      arith,
      length-take c.capacity (record { key = k; node_id = node; expires_at = now + c.ttl } ∷ c.lru),
    ),
    refl,
  )
  | inr (x, e) ↦ rw e (omega (arith, length-without-some k c.lru x e), refl)
]
step-size (gets_route k now) c h = elim (Option-cases (entry_of k c.lru)) [
  | inl e ↦ rw (e, step) (h, refl)
  | inr (x, e) ↦ elim (Bool-cases (ltb x.expires_at now)) [
    | inl late ↦ rw (e, step) (rw (late, step) (omega (arith, length-without x.key c.lru), refl))
    | inr fresh ↦
        let whole =
          subst (λ j. suc (length (without j c.lru)) ≡ length c.lru)
            (sym (entry_of_key k c.lru x e)) (length-without-some k c.lru x e) in
        rw (e, step) (rw (fresh, step) (omega (arith, whole), refl))
  ]
]
step-size (invalidates k) c h = (omega (arith, length-without k c.lru), refl)
step-size clears c h = (omega arith, refl)

pub entry_of_head : (e : Entry) (es : List Entry) → entry_of e.key (e ∷ es) ≡ some e
unfolding entry_of
entry_of_head e es = ground arith

pub get_found :
    (k later : ℕ) (c : Cache) (x : Entry)
    → entry_of k c.lru ≡ some x
    → (get k later c).1 ≡ (if ltb x.expires_at later then none else some x.node_id)
unfolding get
get_found k later c x h = elim (Bool-cases (ltb x.expires_at later)) [
  | inl late ↦ rw h (rw late refl)
  | inr fresh ↦ rw h (rw fresh refl)
]
