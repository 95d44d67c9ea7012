-- ===== src/Tier/Dram.antt =====
-- `DramTier` of src/kvstore-node/src/tier/dram_tier.{h,cpp}: the 2Q cache. Keys are numbers, and each
-- of the three lists has its front first; the two indexes map a key to its place in a list, so a list
-- is searched by key. `not_evictable` stands for the registered policies (`IsNotEvictable`). Bytes are
-- natural numbers below 2 ^ 64. The calls of `on_evict` are kept as a list, newest first.
pub mod Bytes
pub mod Evict
pub mod Insert
use agent_state_storage.Base.{
  ℕ, zero, suc, ◌+◌, ◌-◌, ◌/◌, ◌≡◌, Bool, true, false, List, [], ◌∷◌, ◌++◌, ltb, ◌==◌,
  if◌then◌else◌, not, ◌&&◌, Option, some, none, length, take,
}

pub record Entry : Type 0 where
  pub key : ℕ
  pub content : List ℕ
  pub state_kind : ℕ

pub data HitWhere : Type 0 where
  miss in_a1in in_am in_ghost : HitWhere

pub record DramTier : Type 0 where
  pub capacity_bytes : ℕ
  pub a1in_capacity : ℕ
  pub a1out_max : ℕ
  pub a1in : List Entry
  pub am : List Entry
  pub a1out : List ℕ
  pub a1in_bytes_used : ℕ
  pub am_bytes_used : ℕ
  pub evictions : List ℕ

unfoldable pub init : ℕ → ℕ → DramTier
init capacity a1out_max = record {
  capacity_bytes = capacity;
  a1in_capacity = capacity / 4;
  a1out_max = a1out_max;
  a1in = [];
  am = [];
  a1out = [];
  a1in_bytes_used = 0;
  am_bytes_used = 0;
  evictions = [];
}

unfoldable pub used_bytes : DramTier → ℕ
used_bytes t = t.a1in_bytes_used + t.am_bytes_used

unfoldable pub ghost_size : DramTier → ℕ
ghost_size t = length t.a1out

-- `index_.find` on one of the two queues.
unfoldable pub entry_of : ℕ → List Entry → Option Entry
entry_of k [] = none
entry_of k (e ∷ es) = if e.key == k then some e else entry_of k es

unfoldable pub without : ℕ → List Entry → List Entry
without k [] = []
without k (e ∷ es) = if e.key == k then es else e ∷ without k es

unfoldable pub has_ghost : ℕ → List ℕ → Bool
has_ghost k [] = false
has_ghost k (g ∷ gs) = if g == k then true else has_ghost k gs

unfoldable pub without_ghost : ℕ → List ℕ → List ℕ
without_ghost k [] = []
without_ghost k (g ∷ gs) = if g == k then gs else g ∷ without_ghost k gs

abbrev pub look : ℕ → DramTier → Option Entry → Option Entry → DramTier × HitWhere × List ℕ
look k t (some e) a1 = (record t { am = e ∷ without k t.am }, in_am, e.content)
look k t none (some e) = (t, in_a1in, e.content)
look k t none none = if has_ghost k t.a1out then (t, in_ghost, []) else (t, miss, [])

unfoldable pub lookup : ℕ → DramTier → DramTier × HitWhere × List ℕ
unfolding entry_of without has_ghost
lookup k t = look k t (entry_of k t.am) (entry_of k t.a1in)

abbrev seen : Option Entry → Option Entry → HitWhere × List ℕ
seen (some e) a1 = (in_am, e.content)
seen none (some e) = (in_a1in, e.content)
seen none none = (miss, [])

unfoldable pub peek : ℕ → DramTier → HitWhere × List ℕ
peek k t = seen (entry_of k t.am) (entry_of k t.a1in)

abbrev kind : Option Entry → Option Entry → Option ℕ
kind (some e) a1 = some e.state_kind
kind none (some e) = some e.state_kind
kind none none = none

unfoldable pub kind_of : ℕ → DramTier → Option ℕ
kind_of k t = kind (entry_of k t.am) (entry_of k t.a1in)

-- The new front, cut to `a1out_max` entries by the loop that pops the back.
unfoldable pub ghost_insert : ℕ → DramTier → DramTier
ghost_insert k t = record t { a1out = take t.a1out_max (k ∷ t.a1out) }

abbrev pub or_this :
    (Entry → Bool) → Entry → List Entry → Option (Entry × List Entry) → Option (Entry × List Entry)
or_this not_evictable e es (some (v, rest)) = some (v, e ∷ rest)
or_this not_evictable e es none = if not_evictable e then none else some (e, es)

-- The evictable entry nearest to the back, and the list without it.
unfoldable pub victim : (Entry → Bool) → List Entry → Option (Entry × List Entry)
victim not_evictable [] = none
victim not_evictable (e ∷ es) = or_this not_evictable e es (victim not_evictable es)

unfoldable pub drop_a1in : Entry → List Entry → DramTier → DramTier
unfolding ghost_insert
drop_a1in v rest t = record (ghost_insert v.key t) {
  a1in = rest;
  a1in_bytes_used = t.a1in_bytes_used - length v.content;
  evictions = v.key ∷ t.evictions;
}

unfoldable pub drop_am : Entry → List Entry → DramTier → DramTier
drop_am v rest t = record t {
  am = rest;
  am_bytes_used = t.am_bytes_used - length v.content;
  evictions = v.key ∷ t.evictions;
}

-- One round of the first loop of `EvictToFit`: the tier after it, or nothing when the loop ends.
unfoldable pub trim_a1in : (Entry → Bool) → ℕ → DramTier → Option DramTier
unfolding victim drop_a1in
trim_a1in not_evictable incoming t =
    if ltb t.a1in_capacity (t.a1in_bytes_used + incoming)
    then elim (victim not_evictable t.a1in) [
      | some (v, rest) ↦ some (drop_a1in v rest t)
      | none ↦ none
    ]
    else none

abbrev fallback : DramTier → Option (Entry × List Entry) → Option DramTier
fallback t (some (v, rest)) = some (drop_a1in v rest t)
fallback t none = none

-- One round of the second loop.
unfoldable pub trim_all : (Entry → Bool) → ℕ → DramTier → Option DramTier
unfolding victim drop_am drop_a1in
trim_all not_evictable incoming t =
    if ltb t.capacity_bytes (t.a1in_bytes_used + t.am_bytes_used + incoming)
    then elim (victim not_evictable t.am) [
      | some (v, rest) ↦ some (drop_am v rest t)
      | none ↦ fallback t (victim not_evictable t.a1in)
    ]
    else none

-- A loop of at most `fuel` rounds.
unfoldable pub repeat : ℕ → (DramTier → Option DramTier) → DramTier → DramTier
repeat zero round t = t
repeat (suc fuel) round t = elim (round t) [ some u ↦ repeat fuel round u | none ↦ t ]

-- `EvictToFit`: each round takes one entry out, so the entries are fuel enough.
unfoldable pub evict_to_fit : (Entry → Bool) → ℕ → DramTier → DramTier
unfolding trim_a1in trim_all repeat
evict_to_fit not_evictable incoming t =
    let u = repeat (length t.a1in) (trim_a1in not_evictable incoming) t in
    repeat (length u.a1in + length u.am) (trim_all not_evictable incoming) u

unfoldable pub replace : Entry → List Entry → List Entry
replace x [] = []
replace x (e ∷ es) = if e.key == x.key then x ∷ es else e ∷ replace x es

unfoldable pub push_am : Entry → DramTier → DramTier
push_am x t = record t { am = x ∷ t.am; am_bytes_used = t.am_bytes_used + length x.content }

unfoldable pub push_a1in : Entry → DramTier → DramTier
push_a1in x t = record t {
  a1in = x ∷ t.a1in;
  a1in_bytes_used = t.a1in_bytes_used + length x.content;
}

unfoldable pub drop_ghost : ℕ → DramTier → DramTier
unfolding without_ghost
drop_ghost k t = record t { a1out = without_ghost k t.a1out }

-- A key that is neither in A1in nor in Am.
unfoldable pub insert_new : (Entry → Bool) → Entry → DramTier → DramTier
unfolding evict_to_fit has_ghost drop_ghost push_am push_a1in
insert_new not_evictable x t =
    if has_ghost x.key t.a1out
    then push_am x (evict_to_fit not_evictable (length x.content) (drop_ghost x.key t))
    else push_a1in x (evict_to_fit not_evictable (length x.content) t)

abbrev place : (Entry → Bool) → Entry → DramTier → Option Entry → Option Entry → DramTier
place not_evictable x t (some e) a1 = evict_to_fit not_evictable 0 (record t {
  am = replace x t.am;
  am_bytes_used = t.am_bytes_used - length e.content + length x.content;
})
place not_evictable x t none (some e) = evict_to_fit not_evictable 0 (record t {
  a1in = replace x t.a1in;
  a1in_bytes_used = t.a1in_bytes_used - length e.content + length x.content;
})
place not_evictable x t none none = insert_new not_evictable x t

unfoldable pub insert : (Entry → Bool) → Entry → DramTier → DramTier
unfolding entry_of replace insert_new
insert not_evictable x t = place not_evictable x t (entry_of x.key t.am) (entry_of x.key t.a1in)

abbrev pub removed : ℕ → DramTier → Option Entry → Option Entry → DramTier × Bool
removed k t (some e) a1 =
    (record t { am = without k t.am; am_bytes_used = t.am_bytes_used - length e.content }, true)
removed k t none (some e) = (
  record t { a1in = without k t.a1in; a1in_bytes_used = t.a1in_bytes_used - length e.content },
  true,
)
removed k t none none =
    if has_ghost k t.a1out then (record t { a1out = without_ghost k t.a1out }, true) else (t, false)

unfoldable pub erase : ℕ → DramTier → DramTier × Bool
unfolding entry_of without has_ghost without_ghost
erase k t = removed k t (entry_of k t.am) (entry_of k t.a1in)
