-- ===== src/Tier/Dram/Bytes.antt =====
-- The byte counters against the entries.
use agent_state_storage.Base.{
  ℕ, suc, ◌+◌, ◌≤◌, ◌≡◌, refl, Bool, true, false, List, [], ◌∷◌, Option, some, none, length, arith,
  length-take, All, subst, Bool-cases, inl, inr,
}
use agent_state_storage.Tier.Dram.{
  Entry, DramTier, entry_of, without, replace, victim, drop_a1in, drop_am, ghost_insert, push_am,
  push_a1in, drop_ghost, without_ghost, or_this,
}

unfoldable pub bytes_of : List Entry → ℕ
bytes_of [] = 0
bytes_of (e ∷ es) = length e.content + bytes_of es

-- The counters are the bytes of the entries, and the ghost queue is within its bound.
pub record IsCounted (t : DramTier) : Type 0 where
  pub a1in_counted : t.a1in_bytes_used ≡ bytes_of t.a1in
  pub am_counted : t.am_bytes_used ≡ bytes_of t.am
  pub ghosts_within : length t.a1out ≤ t.a1out_max

pub bytes_of-without :
    (k : ℕ) (e : Entry) (es : List Entry)
    → entry_of k es ≡ some e
    → bytes_of (without k es) + length e.content ≡ bytes_of es
unfolding bytes_of entry_of without
bytes_of-without k e [] h = ground arith
bytes_of-without k e (x ∷ es) h = ground (arith, bytes_of-without k e es)

pub bytes_of-replace :
    (x e : Entry) (es : List Entry)
    → entry_of x.key es ≡ some e
    → bytes_of (replace x es) + length e.content ≡ bytes_of es + length x.content
unfolding bytes_of entry_of replace
bytes_of-replace x e [] h = ground arith
bytes_of-replace x e (y ∷ es) h = ground (arith, bytes_of-replace x e es)

-- What the search from the back finds: an evictable entry, and the list without it; or nothing, and
-- then no entry is evictable.
abbrev pub Found : (Entry → Bool) → List Entry → Option (Entry × List Entry) → Type 0
Found ne es (some (v, rest)) =
    (bytes_of es ≡ length v.content + bytes_of rest)
    × (length es ≡ suc (length rest))
    × (ne v ≡ false)
Found ne es none = All (λ e. ne e ≡ true) es

Found-step :
    (ne : Entry → Bool) (e : Entry) (es : List Entry) (o : Option (Entry × List Entry))
    → Found ne es o
    → Found ne (e ∷ es) (or_this ne e es o)
unfolding bytes_of
Found-step ne e es (some (v, rest)) h = (omega (arith, h), omega (arith, h), h.2)
Found-step ne e es none h = elim (Bool-cases (ne e)) [
  | inl y ↦ rw y (y, h)
  | inr n ↦ rw n (refl, refl, n)
]

pub victim-Found : (ne : Entry → Bool) (es : List Entry) → Found ne es (victim ne es)
unfolding victim
victim-Found ne [] = tt
victim-Found ne (e ∷ es) = Found-step ne e es (victim ne es) (victim-Found ne es)

pub victim_bytes :
    (ne : Entry → Bool) (es : List Entry) (v : Entry) (rest : List Entry)
    → victim ne es ≡ some (v, rest)
    → (bytes_of es ≡ length v.content + bytes_of rest)
      × (length es ≡ suc (length rest))
      × (ne v ≡ false)
victim_bytes ne es v rest h = subst (Found ne es) h (victim-Found ne es)

length-without_ghost : (k : ℕ) (gs : List ℕ) → length (without_ghost k gs) ≤ length gs
unfolding without_ghost
length-without_ghost k [] = ground arith
length-without_ghost k (g ∷ gs) = ground (arith, length-without_ghost k gs)

pub drop_ghost-IsCounted : (k : ℕ) (t : DramTier) → IsCounted t → IsCounted (drop_ghost k t)
unfolding drop_ghost
drop_ghost-IsCounted k t h = record {
  a1in_counted = h.a1in_counted;
  am_counted = h.am_counted;
  ghosts_within = omega (arith, length-without_ghost k t.a1out, h.ghosts_within);
}

pub push_am-IsCounted : (x : Entry) (t : DramTier) → IsCounted t → IsCounted (push_am x t)
unfolding push_am bytes_of
push_am-IsCounted x t h = record {
  a1in_counted = h.a1in_counted;
  am_counted = omega (arith, h.am_counted);
  ghosts_within = h.ghosts_within;
}

pub push_a1in-IsCounted : (x : Entry) (t : DramTier) → IsCounted t → IsCounted (push_a1in x t)
unfolding push_a1in bytes_of
push_a1in-IsCounted x t h = record {
  a1in_counted = omega (arith, h.a1in_counted);
  am_counted = h.am_counted;
  ghosts_within = h.ghosts_within;
}

pub drop_am-IsCounted :
    (ne : Entry → Bool) (v : Entry) (rest : List Entry) (t : DramTier)
    → victim ne t.am ≡ some (v, rest)
    → IsCounted t
    → IsCounted (drop_am v rest t)
unfolding drop_am
drop_am-IsCounted ne v rest t e h = record {
  a1in_counted = h.a1in_counted;
  am_counted = omega (arith, h.am_counted, victim_bytes ne t.am v rest e);
  ghosts_within = h.ghosts_within;
}

pub drop_a1in-IsCounted :
    (ne : Entry → Bool) (v : Entry) (rest : List Entry) (t : DramTier)
    → victim ne t.a1in ≡ some (v, rest)
    → IsCounted t
    → IsCounted (drop_a1in v rest t)
unfolding drop_a1in ghost_insert
drop_a1in-IsCounted ne v rest t e h = record {
  a1in_counted = omega (arith, h.a1in_counted, victim_bytes ne t.a1in v rest e);
  am_counted = h.am_counted;
  ghosts_within = omega (arith, length-take t.a1out_max (v.key ∷ t.a1out));
}
