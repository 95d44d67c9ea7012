-- ===== src/Transport/Scheduler.antt =====
-- `PriorityScheduler` of src/kvstore-node/src/transport/priority_scheduler.{h,cpp}. The mutex makes
-- each call one step. The metrics and the caller's `void*` are left out. The bytes in flight wrap as
-- uint64_t does; the depths, the ids and the product of a window and a percentage are taken to stay
-- below 2 ^ 64.
pub mod Dequeue
use agent_state_storage.Base.{
  ℕ, zero, suc, ◌+◌, ◌-◌, ◌*◌, ◌/◌, ◌%◌, ◌≡◌, Bool, true, false, List, [], ◌∷◌, ◌++◌, ltb, leb,
  ◌==◌, if◌then◌else◌, ◌&&◌, ◌||◌, Option, some, none, length,
}
use agent_state_storage.Base.Bytes.{u64_mod}
use agent_state_storage.Base.Map.{find, assign, erase}

pub data Priority : Type 0 where
  p0 p1 p2 : Priority

pub record WorkItem : Type 0 where
  pub id : ℕ
  pub priority : Priority
  pub bytes : ℕ
  pub tenant : ℕ

pub record Options : Type 0 where
  pub total_window_bytes : ℕ
  pub p0_pct : ℕ
  pub p1_pct : ℕ
  pub p2_pct : ℕ
  pub max_starvation_skips : ℕ

-- `Class`
pub record Queue : Type 0 where
  pub tenant_queues : List (ℕ × List WorkItem)
  pub rr_order : List ℕ
  pub total_depth : ℕ
  pub in_flight : ℕ
  pub reservation : ℕ
  pub consecutive_skips : ℕ

pub record Scheduler : Type 0 where
  pub class0 : Queue
  pub class1 : Queue
  pub class2 : Queue
  pub max_skips : ℕ
  pub next_id : ℕ
  pub id_to_class : List (ℕ × Priority)
  pub id_to_bytes : List (ℕ × ℕ)
  pub forced_admissions : ℕ
  pub normal_admissions : ℕ

abbrev pub class_of : Priority → Scheduler → Queue
class_of p0 s = s.class0
class_of p1 s = s.class1
class_of p2 s = s.class2

abbrev pub with_class : Priority → Queue → Scheduler → Scheduler
with_class p0 c s = record s { class0 = c }
with_class p1 c s = record s { class1 = c }
with_class p2 c s = record s { class2 = c }

abbrev empty_queue : ℕ → Queue
empty_queue reserved = record {
  tenant_queues = [];
  rr_order = [];
  total_depth = 0;
  in_flight = 0;
  reservation = reserved;
  consecutive_skips = 0;
}

-- The constructor.
unfoldable pub reserved_bytes : Options → ℕ → ℕ
reserved_bytes o pct =
    let sum = o.p0_pct + o.p1_pct + o.p2_pct in
    o.total_window_bytes * pct / (if sum == 0 then 100 else sum)

unfoldable pub init : Options → Scheduler
unfolding reserved_bytes
init o = record {
  class0 = empty_queue (reserved_bytes o o.p0_pct);
  class1 = empty_queue (reserved_bytes o o.p1_pct);
  class2 = empty_queue (reserved_bytes o o.p2_pct);
  max_skips = o.max_starvation_skips;
  next_id = 1;
  id_to_class = [];
  id_to_bytes = [];
  forced_admissions = 0;
  normal_admissions = 0;
}

-- The queue of a tenant, which `tenant_queues[t]` creates when it is missing.
unfoldable pub tenant_queue : ℕ → List (ℕ × List WorkItem) → List WorkItem
unfolding find
tenant_queue t [] = []
tenant_queue t (e ∷ m) = if e.0 == t then e.1 else tenant_queue t m

abbrev pub is_nil {ℓ} : {A : Type ℓ} → List A → Bool
is_nil [] = true
is_nil (x ∷ xs) = false

unfoldable pub enqueue : WorkItem → Queue → Queue
unfolding tenant_queue
enqueue w c =
    let q = tenant_queue w.tenant c.tenant_queues in
    record c {
      rr_order = if is_nil q then c.rr_order ++ w.tenant ∷ [] else c.rr_order;
      tenant_queues = assign w.tenant (q ++ w ∷ []) c.tenant_queues;
      total_depth = c.total_depth + 1;
    }

unfoldable pub submit : Priority → ℕ → ℕ → Scheduler → Scheduler × ℕ
unfolding enqueue
submit p tenant bytes s =
    let w : WorkItem = record { id = s.next_id; priority = p; bytes = bytes; tenant = tenant } in
    let s2 = with_class p (enqueue w (class_of p s)) s in
    (
      record s2 {
        next_id = s.next_id + 1;
        id_to_class = assign s.next_id p s.id_to_class;
        id_to_bytes = assign s.next_id bytes s.id_to_bytes;
      },
      s.next_id,
    )

-- The share of a class that it does not use.
abbrev pub unused : Queue → ℕ
unused h = if ltb h.in_flight h.reservation then h.reservation - h.in_flight else 0

unfoldable pub loan : Priority → Scheduler → ℕ
loan p0 s = 0
loan p1 s = unused s.class0
loan p2 s = (unused s.class0 + unused s.class1) % u64_mod

-- `c.in_flight + w.bytes`
abbrev pub flight_with : Queue → WorkItem → ℕ
flight_with c w = (c.in_flight + w.bytes) % u64_mod

-- `AdmissibleLocked`, with the loan to the item's priority.
unfoldable pub admissible : ℕ → ℕ → Queue → WorkItem → Bool
admissible max_skips lent c w =
    leb (flight_with c w) c.reservation
    || leb max_skips c.consecutive_skips
    || leb (flight_with c w) ((c.reservation + lent) % u64_mod)

unfoldable pub is_forced : ℕ → Queue → WorkItem → Bool
is_forced max_skips c w = ltb c.reservation (flight_with c w) && leb max_skips c.consecutive_skips

-- The head of the first tenant's queue leaves it.
unfoldable pub take_head : ℕ → List ℕ → WorkItem → List WorkItem → Queue → Queue
unfolding erase
take_head t order w rest c = record c {
  total_depth = c.total_depth - 1;
  tenant_queues = if is_nil rest then erase t c.tenant_queues else assign t rest c.tenant_queues;
  rr_order = if is_nil rest then order else order ++ t ∷ [];
  in_flight = flight_with c w;
  consecutive_skips = 0;
}

-- The loop of `TryDequeueClassLocked`, with `tenants` rounds left; the flag says that the admission
-- was forced.
unfoldable pub rotate : (tenants : ℕ) → ℕ → ℕ → Queue → Queue × Option (WorkItem × Bool)
unfolding tenant_queue admissible is_forced take_head
rotate zero max_skips lent c = (record c { consecutive_skips = c.consecutive_skips + 1 }, none)
rotate (suc tenants) max_skips lent c = elim c.rr_order [
  | [] ↦ (record c { consecutive_skips = c.consecutive_skips + 1 }, none)
  | t ∷ order ↦ elim (tenant_queue t c.tenant_queues) [
    | [] ↦ rotate tenants max_skips lent (record c { rr_order = order })
    | w ∷ rest ↦ elim (admissible max_skips lent c w) [
      | true ↦ (take_head t order w rest c, some (w, is_forced max_skips c w))
      | false ↦ rotate tenants max_skips lent (record c { rr_order = order ++ t ∷ [] })
    ]
  ]
]

-- `TryDequeueClassLocked`
unfoldable pub try_dequeue : ℕ → ℕ → Queue → Queue × Option (WorkItem × Bool)
unfolding rotate
try_dequeue max_skips lent c =
    if is_nil c.rr_order
    then (record c { consecutive_skips = 0 }, none)
    else rotate (length c.rr_order) max_skips lent c

abbrev admitted :
    Priority → Queue → Option (WorkItem × Bool) → Scheduler → Scheduler × Option WorkItem
admitted p c none s = (with_class p c s, none)
admitted p c (some (w, true)) s =
    (with_class p c (record s { forced_admissions = s.forced_admissions + 1 }), some w)
admitted p c (some (w, false)) s =
    (with_class p c (record s { normal_admissions = s.normal_admissions + 1 }), some w)

-- One class of `TryNext`, with the counters of admissions.
unfoldable pub try_class : Priority → Scheduler → Scheduler × Option WorkItem
unfolding try_dequeue loan
try_class p s = let r = try_dequeue s.max_skips (loan p s) (class_of p s) in admitted p r.0 r.1 s

abbrev or_next : Priority → Scheduler × Option WorkItem → Scheduler × Option WorkItem
or_next p (s, some w) = (s, some w)
or_next p (s, none) = try_class p s

unfoldable pub try_next : Scheduler → Scheduler × Option WorkItem
unfolding try_class
try_next s = or_next p2 (or_next p1 (try_class p0 s))

abbrev refund : Priority → ℕ → Scheduler → Scheduler
refund p bytes s =
    let c = class_of p s in
    with_class p (record c { in_flight = (c.in_flight + u64_mod - bytes) % u64_mod }) s

abbrev completed : ℕ → Option Priority → Option ℕ → Scheduler → Scheduler × Bool
completed id (some p) (some bytes) s = (
  record (refund p bytes s) {
    id_to_class = erase id s.id_to_class;
    id_to_bytes = erase id s.id_to_bytes;
  },
  true,
)
completed id (some p) none s = (s, false)
completed id none b s = (s, false)

unfoldable pub on_complete : ℕ → Scheduler → Scheduler × Bool
on_complete id s = completed id (find id s.id_to_class) (find id s.id_to_bytes) s

unfoldable pub has_work : Scheduler → Bool
has_work s = ltb 0 s.class0.total_depth || ltb 0 s.class1.total_depth || ltb 0 s.class2.total_depth

unfoldable pub queue_depth : Priority → Scheduler → ℕ
queue_depth p s = (class_of p s).total_depth

unfoldable pub in_flight_bytes : Priority → Scheduler → ℕ
in_flight_bytes p s = (class_of p s).in_flight

unfoldable pub skips : Priority → Scheduler → ℕ
skips p s = (class_of p s).consecutive_skips

unfoldable pub tenant_count : Priority → Scheduler → ℕ
tenant_count p s = length (class_of p s).tenant_queues
