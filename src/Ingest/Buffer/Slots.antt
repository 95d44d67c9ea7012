-- ===== src/Ingest/Buffer/Slots.antt =====
-- Every slot of the pool is in one place: what each step of a call does to that.
use agent_state_storage.Base.{
  ℕ, suc, ◌+◌, ◌-◌, ◌%◌, ◌≤◌, ◌<◌, ◌==◌, ◌≡◌, ap, List, [], ◌∷◌, ◌++◌, ltb, leb, length,
  length-append, ◌||◌, false, if◌then◌else◌, Option, none, some, pick, arith,
}
use agent_state_storage.Base.Bytes.{u32_mod, u64_mod}
use agent_state_storage.Base.Map.{find, erase}
use agent_state_storage.Tier.Pinned.{pop, release}
use agent_state_storage.Ingest.Buffer.{
  Entry, Pool, take_slot, draw_handle, enter, leave, leave_expired, expire, give_back,
}
use agent_state_storage.Ingest.Buffer.Counts.{
  count, count_slot, count_handle, count-append, assign-counts, erase-counts, expire-counts,
}

-- The pool, the slots that calls have taken from one place and not yet brought to another, and the
-- handles that were drawn and not yet entered.
pub record World : Type 0 where
  pub pool : Pool
  pub moving : List ℕ
  pub drawn : List ℕ

-- Each slot of the tier is free, held by one handle or on its way, and in one place only; the tier
-- counts those that are not free; and each handle that was given out stands once.
pub record IsValid (w : World) : Type 0 where
  pub in_one_place :
      (i : ℕ)
      → count i w.pool.pinned.free_stack + count_slot i w.pool.active + count i w.moving
        ≡ (if ltb i w.pool.pinned.slot_count then 1 else 0)
  pub slots_add_up :
      length w.pool.pinned.free_stack + length w.pool.active + length w.moving
      ≡ w.pool.pinned.slot_count
  pub in_use_counted : w.pool.pinned.in_use ≡ length w.pool.active + length w.moving
  pub few_slots : w.pool.pinned.slot_count < u32_mod
  pub handles_once :
      (h : ℕ)
      → count h w.drawn + count_handle h w.pool.active ≤ (if ltb h w.pool.next_handle then 1 else 0)

-- A step of a call: the parts of `Reserve` (with the indexes of the slot and the handle), of `Release`
-- and of `SweepOnce`.
pub data Step : Type 0 where
  takes draws : Step
  enters : (slot_index handle_index ttl now : ℕ) → Step
  leaves : (handle : ℕ) → Step
  expires : (now : ℕ) → Step
  gives_back : (slot_index : ℕ) → Step

abbrev pub taken : Pool × Option ℕ → World → World
taken (p, none) w = record w { pool = p }
taken (p, some slot) w = record w { pool = p; moving = slot ∷ w.moving }

abbrev pub entered : Option (ℕ × List ℕ) → Option (ℕ × List ℕ) → ℕ → ℕ → World → World
entered (some (slot, moving)) (some (h, drawn)) ttl now w = record {
  pool = enter h slot ttl now w.pool;
  moving = moving;
  drawn = drawn;
}
entered (some x) none ttl now w = w
entered none h ttl now w = w

abbrev pub given_back : Option (ℕ × List ℕ) → World → World
given_back none w = w
given_back (some (slot, moving)) w = record w { pool = give_back slot w.pool; moving = moving }

abbrev pub step : Step → World → World
step takes w = taken (take_slot w.pool) w
step draws w = let r = draw_handle w.pool in record w { pool = r.0; drawn = r.1 ∷ w.drawn }
step (enters i j ttl now) w = entered (pick i w.moving) (pick j w.drawn) ttl now w
step (leaves h) w = taken (leave h w.pool) w
step (expires now) w =
    let r = leave_expired now w.pool in record w { pool = r.0; moving = r.1 ++ w.moving }
step (gives_back i) w = given_back (pick i w.moving) w

pub takes_from :
    (stack : List ℕ) (w : World)
    → w.pool.pinned.free_stack ≡ stack
    → IsValid w
    → let r = pop stack w.pool.pinned in IsValid (taken (record w.pool { pinned = r.0 }, r.1) w)
takes_from [] w e v = v
takes_from (i ∷ stack) w e v =
    let total = v.slots_add_up in
    let few = v.few_slots in
    let used = v.in_use_counted in
    let shorter : length w.pool.pinned.free_stack ≡ suc (length stack) = ap length e in
    record {
      in_one_place = λ k. omega (arith, v.in_one_place k, ap (count k) e);
      slots_add_up = omega (arith, shorter);
      in_use_counted = omega (arith, shorter);
      few_slots = few;
      handles_once = v.handles_once;
    }

pub draws-IsValid :
    (w : World) → w.pool.next_handle + 1 < u64_mod → IsValid w → IsValid (step draws w)
unfolding draw_handle
draws-IsValid w room v =
    let next : (w.pool.next_handle + 1) % u64_mod ≡ w.pool.next_handle + 1 = omega arith in
    rw next (record {
      in_one_place = v.in_one_place;
      slots_add_up = v.slots_add_up;
      in_use_counted = v.in_use_counted;
      few_slots = v.few_slots;
      handles_once = λ h. ground (arith, v.handles_once h);
    })

pub enters-IsValid :
    (slot h ttl now : ℕ) (moving drawn : List ℕ) (w : World)
    → ((i : ℕ) → count i w.moving ≡ count i (slot ∷ moving))
    → length w.moving ≡ suc (length moving)
    → ((k : ℕ) → count k w.drawn ≡ count k (h ∷ drawn))
    → IsValid w
    → IsValid (record { pool = enter h slot ttl now w.pool; moving = moving; drawn = drawn })
unfolding enter
enters-IsValid slot h ttl now moving drawn w slots fewer handles v =
    let x : Entry = record {
      slot = slot;
      deadline = now + (if ttl == 0 then w.pool.default_ttl else ttl);
    } in
    let absent : count_handle h w.pool.active ≡ 0 = ground (arith, v.handles_once h, handles h) in
    let (held, known, longer) = assign-counts h x w.pool.active absent in
    record {
      in_one_place = λ i. omega (arith, v.in_one_place i, slots i, held i);
      slots_add_up = omega (arith, v.slots_add_up, fewer, longer);
      in_use_counted = omega (arith, v.in_use_counted, fewer, longer);
      few_slots = v.few_slots;
      handles_once = λ k. omega (arith, v.handles_once k, handles k, known k);
    }

pub leaves-IsValid :
    (h : ℕ) (x : Entry) (w : World)
    → find h w.pool.active ≡ some x
    → IsValid w
    → IsValid (taken (record w.pool { active = erase h w.pool.active }, some x.slot) w)
leaves-IsValid h x w found v =
    let once : count_handle h w.pool.active ≤ 1 = ground (arith, v.handles_once h) in
    let (held, known, shorter) = erase-counts h x w.pool.active found once in
    record {
      in_one_place = λ i. omega (arith, v.in_one_place i, held i);
      slots_add_up = omega (arith, v.slots_add_up, shorter);
      in_use_counted = omega (arith, v.in_use_counted, shorter);
      few_slots = v.few_slots;
      handles_once = λ k. omega (arith, v.handles_once k, known k);
    }

pub expires-IsValid : (now : ℕ) (w : World) → IsValid w → IsValid (step (expires now) w)
unfolding leave_expired
expires-IsValid now w v =
    let (held, known, same) = expire-counts now w.pool.active in
    let gone = (expire now w.pool.active).1 in
    record {
      in_one_place = λ i. omega (arith, v.in_one_place i, held i, count-append i gone w.moving);
      slots_add_up = omega (arith, v.slots_add_up, same, length-append gone w.moving);
      in_use_counted = omega (arith, v.in_use_counted, same, length-append gone w.moving);
      few_slots = v.few_slots;
      handles_once = λ k. omega (arith, v.handles_once k, known k);
    }

pub gives_back-IsValid :
    (slot : ℕ) (moving : List ℕ) (w : World)
    → ((i : ℕ) → count i w.moving ≡ count i (slot ∷ moving))
    → length w.moving ≡ suc (length moving)
    → IsValid w
    → IsValid (record w { pool = give_back slot w.pool; moving = moving })
unfolding give_back release
gives_back-IsValid slot moving w slots fewer v =
    let total = v.slots_add_up in
    let few = v.few_slots in
    let used = v.in_use_counted in
    let inside : slot < w.pool.pinned.slot_count =
      ground (arith, v.in_one_place slot, slots slot) in
    let test : ((slot == u32_mod - 1) || leb w.pool.pinned.slot_count slot) ≡ false =
      ground (arith, inside, few) in
    rw test (record {
      in_one_place = λ i. omega (arith, v.in_one_place i, slots i);
      slots_add_up = omega (arith, fewer);
      in_use_counted = omega (arith, fewer);
      few_slots = few;
      handles_once = v.handles_once;
    })
