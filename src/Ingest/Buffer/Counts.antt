-- ===== src/Ingest/Buffer/Counts.antt =====
-- Where a slot is, counted in the free stack, in the entries and among the slots on their way.
use agent_state_storage.Base.{
  ℕ, zero, suc, ◌+◌, ◌≤◌, ◌==◌, ◌≡◌, refl, ap, List, [], ◌∷◌, ◌++◌, ltb, leb, length, ◌&&◌,
  if◌then◌else◌, false, some, pick, arith, Bool-cases, Option-cases, inl, inr,
}
use agent_state_storage.Base.Map.{find, assign, erase}
use agent_state_storage.Tier.Pinned.{slots_from}
use agent_state_storage.Ingest.Buffer.{Entry, expire}

abbrev pub one_if : ℕ → ℕ → ℕ
one_if i j = if i == j then 1 else 0

abbrev pub count : ℕ → List ℕ → ℕ
count i [] = 0
count i (j ∷ js) = one_if j i + count i js

-- How many entries have a slot, and how many a handle.
abbrev pub count_slot : ℕ → List (ℕ × Entry) → ℕ
count_slot i [] = 0
count_slot i (e ∷ es) = one_if e.1.slot i + count_slot i es

abbrev pub count_handle : ℕ → List (ℕ × Entry) → ℕ
count_handle h [] = 0
count_handle h (e ∷ es) = one_if e.0 h + count_handle h es

pub count-append : (i : ℕ) (xs ys : List ℕ) → count i (xs ++ ys) ≡ count i xs + count i ys
count-append i [] ys = omega arith
count-append i (x ∷ xs) ys = omega (arith, count-append i xs ys)

pub pick-count :
    (n x : ℕ) (xs rest : List ℕ)
    → pick n xs ≡ some (x, rest)
    → ((i : ℕ) → count i xs ≡ count i (x ∷ rest)) × (length xs ≡ suc (length rest))
pick-count n x [] rest h = absurd cc
pick-count zero x (y ∷ xs) rest h = (λ i. ground (arith, h), ground (arith, h))
pick-count (suc n) x (y ∷ xs) rest h = elim (Option-cases (pick n xs)) [
  | inl missing ↦ ground (arith, missing, h)
  | inr ((z, others), found) ↦
      let (same, longer) = pick-count n z xs others found in
      (λ i. ground (arith, found, h, same i), ground (arith, found, h, longer))
]

pub count-slots_from :
    (n next i : ℕ) → count i (slots_from n next) ≡ (if leb next i && ltb i (next + n) then 1 else 0)
unfolding slots_from
count-slots_from zero next i = ground arith
count-slots_from (suc n) next i = ground (arith, count-slots_from n (suc next) i)

pub length-slots_from : (n next : ℕ) → length (slots_from n next) ≡ n
unfolding slots_from
length-slots_from zero next = refl
length-slots_from (suc n) next = ap suc (length-slots_from n (suc next))

-- A handle that no entry has is added.
pub assign-counts :
    (h : ℕ) (x : Entry) (es : List (ℕ × Entry))
    → count_handle h es ≡ 0
    → ((i : ℕ) → count_slot i (assign h x es) ≡ count_slot i es + one_if x.slot i)
      × ((k : ℕ) → count_handle k (assign h x es) ≡ count_handle k es + one_if h k)
      × (length (assign h x es) ≡ suc (length es))
unfolding assign
assign-counts h x [] absent = (λ i. omega arith, λ k. omega arith, refl)
assign-counts h x (e ∷ es) absent =
    let other : (e.0 == h) ≡ false = ground (arith, absent) in
    let (slots, handles, longer) = assign-counts h x es (ground (arith, absent)) in
    rw other (λ i. omega (arith, slots i), λ k. omega (arith, handles k), omega (arith, longer))

erase-absent : (h : ℕ) (es : List (ℕ × Entry)) → count_handle h es ≡ 0 → erase h es ≡ es
unfolding erase
erase-absent h [] absent = refl
erase-absent h (e ∷ es) absent =
    let other : (e.0 == h) ≡ false = ground (arith, absent) in
    rw other (ap (λ r. e ∷ r) (erase-absent h es (ground (arith, absent))))

-- An entry whose handle stands once is taken out.
pub erase-counts :
    (h : ℕ) (x : Entry) (es : List (ℕ × Entry))
    → find h es ≡ some x
    → count_handle h es ≤ 1
    → ((i : ℕ) → count_slot i (erase h es) + one_if x.slot i ≡ count_slot i es)
      × ((k : ℕ) → count_handle k (erase h es) ≤ count_handle k es)
      × (suc (length (erase h es)) ≡ length es)
unfolding find erase
erase-counts h x [] found once = absurd cc
erase-counts h x (e ∷ es) found once = elim (Bool-cases (e.0 == h)) [
  | inl here ↦
      let same : e.1 ≡ x = ground (arith, found, here) in
      let gone = erase-absent h es (ground (arith, once, here)) in
      rw here (rw gone (λ i. rw same (omega arith), λ k. omega arith, refl))
  | inr other ↦
      let there : find h es ≡ some x = ground (arith, found, other) in
      let (slots, handles, longer) = erase-counts h x es there (ground (arith, once, other)) in
      rw other (λ i. omega (arith, slots i), λ k. omega (arith, handles k), omega (arith, longer))
]

pub expire-counts :
    (now : ℕ) (es : List (ℕ × Entry))
    → ((i : ℕ) → count_slot i (expire now es).0 + count i (expire now es).1 ≡ count_slot i es)
      × ((k : ℕ) → count_handle k (expire now es).0 ≤ count_handle k es)
      × (length (expire now es).0 + length (expire now es).1 ≡ length es)
unfolding expire
expire-counts now [] = (λ i. omega arith, λ k. omega arith, omega arith)
expire-counts now (e ∷ es) =
    let (slots, handles, same) = expire-counts now es in
    elim (Bool-cases (leb e.1.deadline now)) [
      | inl old ↦
          rw old (λ i. omega (arith, slots i), λ k. omega (arith, handles k), omega (arith, same))
      | inr young ↦
          rw young (λ i. omega (arith, slots i), λ k. omega (arith, handles k), omega (arith, same))
    ]
