-- ===== src/Ingest/Buffer/Runs.antt =====
-- Every slot of the pool is in one place, however the calls interleave.
use agent_state_storage.Base.{
  ℕ, suc, ◌+◌, ◌≤◌, ◌<◌, ◌≡◌, refl, ap, subst, sym, List, [], ◌∷◌, ltb, length, if◌then◌else◌, none,
  some, pick, arith, Option-cases, List-cases, inl, inr,
}
use agent_state_storage.Base.Bytes.{u32_mod, u64_mod}
use agent_state_storage.Base.Map.{find, erase}
use agent_state_storage.Tier.Pinned.{PinnedTier, acquire, create, slots_from}
use agent_state_storage.Ingest.Buffer.{
  Entry, new_pool, take_slot, draw_handle, enter, leave, leave_expired, give_back,
}
use agent_state_storage.Ingest.Buffer.Counts.{
  count, count_slot, count_handle, pick-count, count-slots_from, length-slots_from,
}
use agent_state_storage.Ingest.Buffer.Slots.{
  World, IsValid, Step, takes, draws, enters, leaves, expires, gives_back, step, takes_from,
  draws-IsValid, enters-IsValid, leaves-IsValid, expires-IsValid, gives_back-IsValid,
}

unfoldable pub run_steps : List Step → World → World
run_steps [] w = w
run_steps (s ∷ ss) w = run_steps ss (step s w)

-- The counter of handles does not wrap in the steps that are left.
abbrev HasRoom : ℕ → World → Type 0
HasRoom n w = w.pool.next_handle + n < u64_mod

step-HasRoom : (s : Step) (n : ℕ) (w : World) → HasRoom (suc n) w → HasRoom n (step s w)
unfolding take_slot draw_handle enter leave leave_expired give_back acquire
step-HasRoom takes n w room = elim (List-cases w.pool.pinned.free_stack) [
  | inl e ↦ rw e (omega arith)
  | inr (i, stack, e) ↦ rw e (omega arith)
]
step-HasRoom draws n w room = omega arith
step-HasRoom (enters i j ttl now) n w room = elim (Option-cases (pick i w.moving)) [
  | inl e ↦ rw e (omega arith)
  | inr (x, e) ↦ elim (Option-cases (pick j w.drawn)) [
    | inl f ↦ rw (e, f) (omega arith)
    | inr (y, f) ↦ rw (e, f) (omega arith)
  ]
]
step-HasRoom (leaves h) n w room = elim (Option-cases (find h w.pool.active)) [
  | inl e ↦ rw e (omega arith)
  | inr (x, e) ↦ rw e (omega arith)
]
step-HasRoom (expires now) n w room = omega arith
step-HasRoom (gives_back i) n w room = elim (Option-cases (pick i w.moving)) [
  | inl e ↦ rw e (omega arith)
  | inr (x, e) ↦ rw e (omega arith)
]

erase-none : (h : ℕ) (es : List (ℕ × Entry)) → find h es ≡ none → erase h es ≡ es
unfolding find erase
erase-none h [] n = refl
erase-none h (e ∷ es) n = ground (arith, erase-none h es)

-- A handle that is not there stays away.
leaves_unknown :
    (h : ℕ) (w : World) → find h w.pool.active ≡ none → IsValid w → IsValid (step (leaves h) w)
unfolding leave
leaves_unknown h w e v = rw e (record {
  in_one_place =
      subst
        (λ es.
          (i : ℕ)
          → count i w.pool.pinned.free_stack + count_slot i es + count i w.moving
            ≡ (if ltb i w.pool.pinned.slot_count then 1 else 0))
        (sym (erase-none h w.pool.active e)) v.in_one_place;
  slots_add_up = rw (erase-none h w.pool.active e) v.slots_add_up;
  in_use_counted = rw (erase-none h w.pool.active e) v.in_use_counted;
  few_slots = v.few_slots;
  handles_once =
      subst
        (λ es.
          (k : ℕ)
          → count k w.drawn + count_handle k es ≤ (if ltb k w.pool.next_handle then 1 else 0))
        (sym (erase-none h w.pool.active e)) v.handles_once;
})

step-IsValid : (s : Step) (n : ℕ) (w : World) → HasRoom (suc n) w → IsValid w → IsValid (step s w)
unfolding take_slot acquire leave
step-IsValid takes n w room v = takes_from w.pool.pinned.free_stack w refl v
step-IsValid draws n w room v = draws-IsValid w (omega arith) v
step-IsValid (enters i j ttl now) n w room v = elim (Option-cases (pick i w.moving)) [
  | inl e ↦ rw e v
  | inr ((slot, moving), e) ↦ elim (Option-cases (pick j w.drawn)) [
    | inl f ↦ rw (e, f) v
    | inr ((h, drawn), f) ↦
        let (slots, fewer) = pick-count i slot w.moving moving e in
        let (handles, _) = pick-count j h w.drawn drawn f in
        rw (e, f) (enters-IsValid slot h ttl now moving drawn w slots fewer handles v)
  ]
]
step-IsValid (leaves h) n w room v = elim (Option-cases (find h w.pool.active)) [
  | inl e ↦ leaves_unknown h w e v
  | inr (x, e) ↦ rw e (leaves-IsValid h x w e v)
]
step-IsValid (expires now) n w room v = expires-IsValid now w v
step-IsValid (gives_back i) n w room v = elim (Option-cases (pick i w.moving)) [
  | inl e ↦ rw e v
  | inr ((slot, moving), e) ↦
      let (slots, fewer) = pick-count i slot w.moving moving e in
      rw e (gives_back-IsValid slot moving w slots fewer v)
]

run_from :
    (ss : List Step) (w : World) → HasRoom (length ss) w → IsValid w → IsValid (run_steps ss w)
unfolding run_steps
run_from [] w room v = v
run_from (s ∷ ss) w room v =
    run_from ss (step s w) (step-HasRoom s (length ss) w room) (step-IsValid s (length ss) w room v)

-- A pool on a tier, before any call.
abbrev pub new_world : ℕ → PinnedTier → World
new_world ttl t = record { pool = new_pool ttl t; moving = []; drawn = [] }

create-some :
    (pool_bytes slot_bytes : ℕ) (t : PinnedTier)
    → create pool_bytes slot_bytes ≡ some t
    → (t.free_stack ≡ slots_from t.slot_count 0) × (t.in_use ≡ 0) × (t.slot_count < u32_mod)
unfolding create
create-some pool_bytes slot_bytes t e = ground arith

created-IsValid :
    (pool_bytes slot_bytes ttl : ℕ) (t : PinnedTier)
    → create pool_bytes slot_bytes ≡ some t
    → IsValid (new_world ttl t)
unfolding new_pool
created-IsValid pool_bytes slot_bytes ttl t e =
    let (free, unused, few) = create-some pool_bytes slot_bytes t e in
    record {
      in_one_place = λ i. ground (arith, ap (count i) free, count-slots_from t.slot_count 0 i);
      slots_add_up = omega (arith, ap length free, length-slots_from t.slot_count 0);
      in_use_counted = omega (arith, unused);
      few_slots = few;
      handles_once = λ h. ground arith;
    }

-- On a new pool of a tier that was created, after fewer than 2 ^ 64 - 1 steps of any calls of
-- `Reserve`, `Release` and `SweepOnce`, however the parts of the calls interleave, each slot of the tier
-- is free, held by one handle or on its way, and in one place only; the tier's count of slots in use
-- is that of the other two; and each handle given out belongs to one entry or one call at most.
pub run_steps-IsValid :
    (pool_bytes slot_bytes ttl : ℕ) (t : PinnedTier) (ss : List Step)
    → create pool_bytes slot_bytes ≡ some t
    → 1 + length ss < u64_mod
    → IsValid (run_steps ss (new_world ttl t))
unfolding new_pool
run_steps-IsValid pool_bytes slot_bytes ttl t ss made room =
    run_from ss (new_world ttl t) (omega arith) (created-IsValid pool_bytes slot_bytes ttl t made)
