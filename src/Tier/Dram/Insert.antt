-- ===== src/Tier/Dram/Insert.antt =====
-- The operations on the tier.
use agent_state_storage.Base.{
  ℕ, ◌+◌, ◌-◌, ◌≤◌, ◌≡◌, Bool, false, none, length, arith, Bool-cases, Option-cases, inl, inr,
}
use agent_state_storage.Tier.Dram.{
  Entry, DramTier, entry_of, replace, lookup, insert, insert_new, erase, used_bytes, has_ghost,
  drop_ghost, push_am, push_a1in, look, removed,
}
use agent_state_storage.Tier.Dram.Bytes.{
  IsCounted, bytes_of, bytes_of-without, bytes_of-replace, drop_ghost-IsCounted, push_am-IsCounted,
  push_a1in-IsCounted,
}
use agent_state_storage.Tier.Dram.Evict.{evict_to_fit-IsCounted, evict_to_fit-room}

insert_new-IsCounted :
    (ne : Entry → Bool) (x : Entry) (t : DramTier) → IsCounted t → IsCounted (insert_new ne x t)
unfolding insert_new
insert_new-IsCounted ne x t h = elim (Bool-cases (has_ghost x.key t.a1out)) [
  | inl g ↦ rw g (
      push_am-IsCounted x _
        (evict_to_fit-IsCounted ne (length x.content) _ (drop_ghost-IsCounted x.key t h)))
  | inr g ↦ rw g (push_a1in-IsCounted x _ (evict_to_fit-IsCounted ne (length x.content) t h))
]

-- An insertion keeps the byte counters equal to the bytes of the entries, in A1in and in Am, and the
-- ghost queue within its bound, whatever the policies keep.
pub insert-IsCounted :
    (ne : Entry → Bool) (x : Entry) (t : DramTier) → IsCounted t → IsCounted (insert ne x t)
unfolding insert
insert-IsCounted ne x t h = elim (Option-cases (entry_of x.key t.am)) [
  | inr (e, p) ↦ rw p (
      evict_to_fit-IsCounted ne 0
        (record t {
          am = replace x t.am;
          am_bytes_used = t.am_bytes_used - length e.content + length x.content;
        })
        (record {
          a1in_counted = h.a1in_counted;
          am_counted =
              omega
                (arith, h.am_counted, bytes_of-replace x e t.am p, bytes_of-without x.key e t.am p);
          ghosts_within = h.ghosts_within;
        }))
  | inl p ↦ elim (Option-cases (entry_of x.key t.a1in)) [
    | inr (e, q) ↦ rw p (
        rw q (
          evict_to_fit-IsCounted ne 0
            (record t {
              a1in = replace x t.a1in;
              a1in_bytes_used = t.a1in_bytes_used - length e.content + length x.content;
            })
            (record {
              a1in_counted = omega (
                arith,
                h.a1in_counted,
                bytes_of-replace x e t.a1in q,
                bytes_of-without x.key e t.a1in q,
              );
              am_counted = h.am_counted;
              ghosts_within = h.ghosts_within;
            })))
    | inl q ↦ rw p (rw q (insert_new-IsCounted ne x t h))
  ]
]

ghost_removed : (k : ℕ) (t : DramTier) → IsCounted t → IsCounted (removed k t none none).0
unfolding drop_ghost
ghost_removed k t h = elim (Bool-cases (has_ghost k t.a1out)) [
  | inl g ↦ rw g (drop_ghost-IsCounted k t h)
  | inr g ↦ rw g h
]

ghost_seen : (k : ℕ) (t : DramTier) → IsCounted t → IsCounted (look k t none none).0
ghost_seen k t h = elim (Bool-cases (has_ghost k t.a1out)) [ inl g ↦ rw g h | inr g ↦ rw g h ]

-- A removal keeps the byte counters equal to the bytes of the entries, and the ghost queue within its
-- bound.
pub erase-IsCounted : (k : ℕ) (t : DramTier) → IsCounted t → IsCounted (erase k t).0
unfolding erase
erase-IsCounted k t h = elim (Option-cases (entry_of k t.am)) [
  | inr (e, p) ↦ rw p (record {
    a1in_counted = h.a1in_counted;
    am_counted = omega (arith, h.am_counted, bytes_of-without k e t.am p);
    ghosts_within = h.ghosts_within;
  })
  | inl p ↦ elim (Option-cases (entry_of k t.a1in)) [
    | inr (e, q) ↦ rw p (
        rw q (record {
          a1in_counted = omega (arith, h.a1in_counted, bytes_of-without k e t.a1in q);
          am_counted = h.am_counted;
          ghosts_within = h.ghosts_within;
        }))
    | inl q ↦ rw p (rw q (ghost_removed k t h))
  ]
]

-- A look-up keeps the byte counters equal to the bytes of the entries, though it moves an entry of Am to the front.
pub lookup-IsCounted : (k : ℕ) (t : DramTier) → IsCounted t → IsCounted (lookup k t).0
unfolding lookup bytes_of
lookup-IsCounted k t h = elim (Option-cases (entry_of k t.am)) [
  | inr (e, p) ↦ rw p (record {
    a1in_counted = h.a1in_counted;
    am_counted = omega (arith, h.am_counted, bytes_of-without k e t.am p);
    ghosts_within = h.ghosts_within;
  })
  | inl p ↦ elim (Option-cases (entry_of k t.a1in)) [
    | inr (e, q) ↦ rw p (rw q h)
    | inl q ↦ rw p (rw q (ghost_seen k t h))
  ]
]

-- Without a policy that keeps entries, a new entry no larger than the tier leaves at most the capacity
-- in use.
pub insert-capacity :
    (x : Entry) (t : DramTier)
    → IsCounted t
    → entry_of x.key t.am ≡ none
    → entry_of x.key t.a1in ≡ none
    → length x.content ≤ t.capacity_bytes
    → used_bytes (insert (λ e. false) x t) ≤ t.capacity_bytes
unfolding insert insert_new used_bytes push_am push_a1in
insert-capacity x t h p q small = rw p (
    rw q (elim (Bool-cases (has_ghost x.key t.a1out)) [
      | inl g ↦ rw g (
          omega (
            arith,
            evict_to_fit-room (length x.content) (drop_ghost x.key t)
                (drop_ghost-IsCounted x.key t h) small,
          ))
      | inr g ↦ rw g (omega (arith, evict_to_fit-room (length x.content) t h small))
    ]))
