-- ===== src/Prefix/Epoch/Sweep.antt =====
-- What `Reclaim` frees and what it keeps, with its reading of the witnesses and its lock apart.
use agent_state_storage.Base.{
  ℕ, zero, suc, ◌≤◌, ◌<◌, ◌==◌, ◌≡◌, refl, ap, leb, min, List, [], ◌∷◌, length, inl, inr, Bool,
  false, Bool-cases, arith, dec_lt, ◌&&◌, if◌then◌else◌, ◌∙◌,
}
use agent_state_storage.Prefix.Epoch.{
  Manager, max_reader_threads, last_of, init_of, refill, sweep, min_entry, min_active_epoch,
  sweep_retired,
}

-- How many elements pass a test.
abbrev pub count_if : {A : Type 0} → (A → Bool) → List A → ℕ
count_if p [] = 0
count_if p (x ∷ xs) = let rest = count_if p xs in if p x then suc rest else rest

-- A node that was retired at an epoch.
abbrev pub is_entry : ℕ → ℕ → ℕ × ℕ → Bool
is_entry epoch node x = (x.0 == epoch) && (x.1 == node)

count_if-last_of :
    (p : ℕ × ℕ → Bool) (y : ℕ × ℕ) (rest : List (ℕ × ℕ))
    → count_if p (last_of y rest ∷ init_of y rest) ≡ count_if p (y ∷ rest)
count_if-last_of p y [] = refl
count_if-last_of p y (z ∷ rest) = ground (arith, count_if-last_of p z rest)

count_if-refill :
    (p : ℕ × ℕ → Bool) (rest : List (ℕ × ℕ)) → count_if p (refill rest) ≡ count_if p rest
count_if-refill p [] = refl
count_if-refill p (y ∷ rest) = count_if-last_of p y rest

length-init_of : (y : ℕ × ℕ) (rest : List (ℕ × ℕ)) → length (init_of y rest) ≡ length rest
length-init_of y [] = refl
length-init_of y (z ∷ rest) = ap suc (length-init_of z rest)

length-refill : (rest : List (ℕ × ℕ)) → length (refill rest) ≡ length rest
length-refill [] = refl
length-refill (y ∷ rest) = ap suc (length-init_of y rest)

-- The loop keeps each entry after the safe epoch as often as it stands in the list, and no other.
sweep-kept :
    (fuel safe epoch node : ℕ) (items : List (ℕ × ℕ))
    → length items ≤ fuel
    → count_if (is_entry epoch node) (sweep fuel safe items).0
      ≡ (if leb epoch safe then 0 else count_if (is_entry epoch node) items)
unfolding sweep
sweep-kept zero safe epoch node [] enough = ground arith
sweep-kept zero safe epoch node (y ∷ rest) enough = absurd (omega arith)
sweep-kept (suc fuel) safe epoch node [] enough = ground arith
sweep-kept (suc fuel) safe epoch node (y ∷ rest) enough = elim (Bool-cases (leb y.0 safe)) [
  | inl freed ↦
      let more =
        sweep-kept fuel safe epoch node (refill rest) (omega (arith, length-refill rest)) in
      rw freed (ground (arith, more, count_if-refill (is_entry epoch node) rest))
  | inr kept ↦
      let more = sweep-kept fuel safe epoch node rest (omega arith) in
      rw kept (ground (arith, more))
]

-- It frees each node as often as it stands in the list up to the safe epoch.
sweep-freed :
    (fuel safe node : ℕ) (items : List (ℕ × ℕ))
    → length items ≤ fuel
    → count_if (λ k. k == node) (sweep fuel safe items).1
      ≡ count_if (λ (x : ℕ × ℕ). leb x.0 safe && (x.1 == node)) items
unfolding sweep
sweep-freed zero safe node [] enough = refl
sweep-freed zero safe node (y ∷ rest) enough = absurd (omega arith)
sweep-freed (suc fuel) safe node [] enough = refl
sweep-freed (suc fuel) safe node (y ∷ rest) enough = elim (Bool-cases (leb y.0 safe)) [
  | inl freed ↦
      let more = sweep-freed fuel safe node (refill rest) (omega (arith, length-refill rest)) in
      let same = count_if-refill (λ (x : ℕ × ℕ). leb x.0 safe && (x.1 == node)) rest in
      rw freed (ap (λ n. if y.1 == node then suc n else n) (more ∙ same))
  | inr kept ↦ rw kept (sweep-freed fuel safe node rest (omega arith))
]

-- No witness is before the least one.
min_entry_least : (entries : ℕ → ℕ) (n i : ℕ) → i < n → min_entry entries n ≤ entries i
unfolding min_entry
min_entry_least entries zero i h = absurd (omega arith)
min_entry_least entries (suc n) i h = elim (dec_lt i n) [
  | yes before ↦ ground (arith, min_entry_least entries n i before)
  | no last ↦ let e : i ≡ n = omega arith in rw e (ground arith)
]

-- Whatever happens between the reading of the witnesses and the lock, `Reclaim` keeps what was retired
-- after the witness that a thread with a slot had at the reading, frees each node as often as it was retired up
-- to the least witness of then, and keeps all the other entries.
pub sweep_retired_cases :
    (then_m now_m : Manager) (i late node : ℕ)
    → i < then_m.next_slot
    → i < max_reader_threads
    → then_m.entries i < late
    → let safe = min_active_epoch then_m in
      let r = sweep_retired safe now_m in
      (count_if (is_entry late node) r.0.retired ≡ count_if (is_entry late node) now_m.retired)
      × ((epoch k : ℕ)
          → count_if (is_entry epoch k) r.0.retired
            ≡ (if leb epoch safe then 0 else count_if (is_entry epoch k) now_m.retired))
      × ((k : ℕ)
          → count_if (λ j. j == k) r.1
            ≡ count_if (λ (x : ℕ × ℕ). leb x.0 safe && (x.1 == k)) now_m.retired)
unfolding min_active_epoch sweep_retired
sweep_retired_cases then_m now_m i late node claimed few h =
    let n = min then_m.next_slot max_reader_threads in
    let safe = min_entry then_m.entries n in
    let least = min_entry_least then_m.entries n i (omega arith) in
    let fuel = length now_m.retired in
    let kept = sweep-kept fuel safe late node now_m.retired (omega arith) in
    let before : leb late safe ≡ false = ground (arith, least, h) in
    (
      kept ∙ rw before refl,
      λ epoch k. sweep-kept fuel safe epoch k now_m.retired (omega arith),
      λ k. sweep-freed fuel safe k now_m.retired (omega arith),
    )
