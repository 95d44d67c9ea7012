-- ===== src/Agent/RoutingCache/Lifetime.antt =====
-- How long a route stays in the cache.
use agent_state_storage.Base.{
  ℕ, zero, suc, ◌+◌, ◌≤◌, ◌<◌, ◌==◌, ◌≡◌, refl, sym, subst, false, List, [], ◌∷◌, ltb,
  if◌then◌else◌, arith, none, some, length, take, Option-cases, inl, inr, Bool-cases, All,
}
use agent_state_storage.Agent.RoutingCache.{
  Entry, Cache, entry_of, without, put, get, invalidate, clear, Operation, puts_route, gets_route,
  invalidates, clears, step, run,
}
use agent_state_storage.Agent.RoutingCache.Bounds.{entry_of_key, entry_of_head, get_found}

-- The entry of the key is among the first `n` of the list.
abbrev IsNear : ℕ → ℕ → Entry → List Entry → Type 0
IsNear n k e es = entry_of k (take n es) ≡ some e

IsNear-suc : (n k : ℕ) (e : Entry) (es : List Entry) → IsNear n k e es → IsNear (suc n) k e es
unfolding entry_of
IsNear-suc zero k e es h = ground arith
IsNear-suc (suc n) k e [] h = h
IsNear-suc (suc n) k e (x ∷ es) h = ground (arith, h, IsNear-suc n k e es)

IsNear-take :
    (n m k : ℕ) (e : Entry) (es : List Entry) → n ≤ m → IsNear n k e es → IsNear n k e (take m es)
unfolding entry_of
IsNear-take zero m k e es le h = h
IsNear-take (suc n) zero k e es le h = absurd (omega arith)
IsNear-take (suc n) (suc m) k e [] le h = h
IsNear-take (suc n) (suc m) k e (x ∷ es) le h =
    ground (arith, h, IsNear-take n m k e es (omega arith))

IsNear-without :
    (n j k : ℕ) (e : Entry) (es : List Entry)
    → (j == k) ≡ false
    → IsNear n k e es
    → IsNear n k e (without j es)
unfolding entry_of without
IsNear-without zero j k e es other h = ground (arith, h)
IsNear-without (suc n) j k e [] other h = h
IsNear-without (suc n) j k e (x ∷ es) other h = elim (Bool-cases (x.key == j)) [
  | inl gone ↦
      let rest : IsNear n k e es = ground (arith, gone, other, h) in
      rw gone (IsNear-suc n k e es rest)
  | inr stays ↦ rw stays (ground (arith, h, IsNear-without n j k e es other))
]

IsNear-all : (n k : ℕ) (e : Entry) (es : List Entry) → IsNear n k e es → entry_of k es ≡ some e
unfolding entry_of
IsNear-all zero k e es h = ground (arith, h)
IsNear-all (suc n) k e [] h = h
IsNear-all (suc n) k e (x ∷ es) h = ground (arith, h, IsNear-all n k e es)

-- Another entry comes to the front.
IsNear-front :
    (n k : ℕ) (e x : Entry) (es : List Entry)
    → (x.key == k) ≡ false
    → IsNear n k e es
    → IsNear (suc n) k e (x ∷ es)
unfolding entry_of
IsNear-front n k e x es other h = rw other h

-- A call about other keys.
abbrev pub Avoids : ℕ → Operation → Type 0
Avoids k (puts_route j node now) = (j == k) ≡ false
Avoids k (gets_route j now) = (j == k) ≡ false
Avoids k (invalidates j) = (j == k) ≡ false
Avoids k clears = ⊥

step-capacity : (o : Operation) (c : Cache) → (step o c).capacity ≡ c.capacity
unfolding step put get invalidate clear
step-capacity (puts_route k node now) c = elim (Option-cases (entry_of k c.lru)) [
  | inl e ↦ rw (e, step) refl
  | inr (x, e) ↦ rw (e, step) refl
]
step-capacity (gets_route k now) c = elim (Option-cases (entry_of k c.lru)) [
  | inl e ↦ rw (e, step) refl
  | inr (x, e) ↦ elim (Bool-cases (ltb x.expires_at now)) [
    | inl late ↦ rw (e, step) (rw (late, step) refl)
    | inr fresh ↦ rw (e, step) (rw (fresh, step) refl)
  ]
]
step-capacity (invalidates k) c = refl
step-capacity clears c = refl

-- A call about another key moves the entry back by one place at most.
step-IsNear :
    (o : Operation) (n k : ℕ) (e : Entry) (c : Cache)
    → Avoids k o
    → suc n ≤ c.capacity
    → IsNear n k e c.lru
    → IsNear (suc n) k e (step o c).lru
unfolding step put get invalidate clear
step-IsNear (puts_route j node now) n k e c other room h =
    let x : Entry = record { key = j; node_id = node; expires_at = now + c.ttl } in
    elim (Option-cases (entry_of j c.lru)) [
      | inl absent ↦
          rw (absent, step)
            (IsNear-take (suc n) c.capacity k e (x ∷ c.lru) room
              (IsNear-front n k e x c.lru other h))
      | inr (y, there) ↦
          rw (there, step)
            (IsNear-front n k e x (without j c.lru) other (IsNear-without n j k e c.lru other h))
    ]
step-IsNear (gets_route j now) n k e c other room h = elim (Option-cases (entry_of j c.lru)) [
  | inl absent ↦ rw (absent, step) (IsNear-suc n k e c.lru h)
  | inr (y, there) ↦
      let own : (y.key == k) ≡ false =
        subst (λ i. (i == k) ≡ false) (sym (entry_of_key j c.lru y there)) other in
      let apart = IsNear-without n y.key k e c.lru own h in
      elim (Bool-cases (ltb y.expires_at now)) [
        | inl late ↦
            rw (there, step) (rw (late, step) (IsNear-suc n k e (without y.key c.lru) apart))
        | inr fresh ↦
            rw (there, step)
              (rw (fresh, step) (IsNear-front n k e y (without y.key c.lru) own apart))
      ]
]
step-IsNear (invalidates j) n k e c other room h =
    IsNear-suc n k e (without j c.lru) (IsNear-without n j k e c.lru other h)
step-IsNear clears n k e c other room h = absurd other

run-IsNear :
    (ops : List Operation) (n k : ℕ) (e : Entry) (c : Cache)
    → All (Avoids k) ops
    → n + length ops ≤ c.capacity
    → IsNear n k e c.lru
    → entry_of k (run ops c).lru ≡ some e
unfolding run
run-IsNear [] n k e c others room h = IsNear-all n k e c.lru h
run-IsNear (o ∷ ops) n k e c others room h =
    run-IsNear ops (suc n) k e (step o c) others.1 (omega (arith, step-capacity o c))
      (step-IsNear o n k e c others.0 (omega arith) h)

put-IsNear :
    (k node now : ℕ) (c : Cache)
    → 1 ≤ c.capacity
    → IsNear 1 k
        (record { key = k; node_id = node; expires_at = now + c.ttl })
        (put k node now c).lru
unfolding put
put-IsNear k node now c h =
    let e : Entry = record { key = k; node_id = node; expires_at = now + c.ttl } in
    elim (Option-cases (entry_of k c.lru)) [
      | inl n ↦ rw n (IsNear-take 1 c.capacity k e (e ∷ c.lru) h (entry_of_head e []))
      | inr (x, y) ↦ rw y (entry_of_head e [])
    ]

put-capacity : (k node now : ℕ) (c : Cache) → (put k node now c).capacity ≡ c.capacity
unfolding step
put-capacity k node now c = step-capacity (puts_route k node now) c

-- A route that was put is returned by a `Get` that comes after fewer calls about other keys than the
-- capacity, `Clear` not among them, until its time to live has passed, and not after.
pub get-put :
    (k node now later : ℕ) (ops : List Operation) (c : Cache)
    → All (Avoids k) ops
    → length ops < c.capacity
    → (get k later (run ops (put k node now c))).1
      ≡ (if ltb (now + c.ttl) later then none else some node)
get-put k node now later ops c others few =
    let e : Entry = record { key = k; node_id = node; expires_at = now + c.ttl } in
    get_found k later (run ops (put k node now c)) e (
      run-IsNear ops 1 k e (put k node now c) others (omega (arith, put-capacity k node now c))
        (put-IsNear k node now c (omega arith)))
