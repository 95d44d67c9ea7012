-- ===== src/Session/Scan/Range.antt =====
-- What a scan's options ask for, and the laws of its bounds.
use agent_state_storage.Base.{
  ℕ, ◌+◌, ◌≡◌, refl, ap, Bool, true, false, ◌&&◌, ◌||◌, List, [], ◌∷◌, ◌++◌, length, if◌then◌else◌,
  is_empty, arith, All, Bool-cases, inl, inr,
}
use agent_state_storage.Session.Key.{key_lt, prefix_matches, key_lt_trans}
use agent_state_storage.Session.Key.Prefix.{matches_between}
use agent_state_storage.Session.Table.{Table, Above, IsSorted}
use agent_state_storage.Session.Scan.{ScanOptions, lower_bound, upper_bound, cut}

-- What the options ask for: under the prefix, after `start_after` and before `end_before`.
unfoldable pub in_range : ScanOptions → (List ℕ × List ℕ) → Bool
in_range o e =
    prefix_matches e.0 o.prefix
    && ((is_empty o.start_after || key_lt o.start_after e.0)
        && (is_empty o.end_before || key_lt e.0 o.end_before))

-- The first page of a list of entries, and whether it was cut short.
unfoldable pub take_page : ScanOptions → ℕ → ℕ → Table → Table × Bool
take_page o count bytes [] = ([], false)
take_page o count bytes (e ∷ m) =
    let rest = take_page o (count + 1) (bytes + (length e.0 + length e.1)) m in
    if cut o count bytes e then ([], true) else (e ∷ rest.0, rest.1)

-- Not before `k`, from two keys in order.
pub key_ge_trans : (a b k : List ℕ) → key_lt a k ≡ false → key_lt a b ≡ true → key_lt b k ≡ false
key_ge_trans a b k h l = ground (arith, key_lt_trans a b k)

pub unmatched-Above :
    (p k : List ℕ) (m : Table)
    → key_lt k p ≡ false
    → prefix_matches k p ≡ false
    → Above k m
    → All (λ e. prefix_matches e.0 p ≡ false) m
unmatched-Above p k [] ge un a = tt
unmatched-Above p k (e ∷ m) ge un a =
    (ground (arith, matches_between k e.0 p ge a.0), unmatched-Above p k m ge un a.1)

pub ended-Above :
    (b k : List ℕ) (m : Table) → key_lt k b ≡ false → Above k m → All (λ e. key_lt e.0 b ≡ false) m
ended-Above b k [] ge a = tt
ended-Above b k (e ∷ m) ge a = (key_ge_trans k e.0 b ge a.0, ended-Above b k m ge a.1)

-- What a bound skips, and what it leaves.
pub lower_bound_lem :
    (k : List ℕ) (m : Table)
    → IsSorted m
    → (before : Table) × (m ≡ before ++ lower_bound k m)
      × All (λ e. key_lt e.0 k ≡ true) before
      × All (λ e. key_lt e.0 k ≡ false) (lower_bound k m)
      × IsSorted (lower_bound k m)
unfolding lower_bound
lower_bound_lem k [] s = ([], refl, tt, tt, tt)
lower_bound_lem k (e ∷ m) s = elim (Bool-cases (key_lt e.0 k)) [
  | inl less ↦
      let (before, split, skipped, left, sorted) = lower_bound_lem k m s.1 in
      rw less (e ∷ before, ap (◌∷◌ e) split, (less, skipped), left, sorted)
  | inr ge ↦ rw ge ([], refl, tt, (ge, ended-Above k e.0 m ge s.0), s)
]

after-Above : (k j : List ℕ) (m : Table) → key_lt k j ≡ true → Above j m → Above k m
after-Above k j [] l a = tt
after-Above k j (e ∷ m) l a = (key_lt_trans k j e.0 l a.0, after-Above k j m l a.1)

pub upper_bound_lem :
    (k : List ℕ) (m : Table)
    → IsSorted m
    → (before : Table) × (m ≡ before ++ upper_bound k m)
      × All (λ e. key_lt k e.0 ≡ false) before
      × Above k (upper_bound k m)
      × IsSorted (upper_bound k m)
unfolding upper_bound
upper_bound_lem k [] s = ([], refl, tt, tt, tt)
upper_bound_lem k (e ∷ m) s = elim (Bool-cases (key_lt k e.0)) [
  | inl more ↦ rw more ([], refl, tt, (more, after-Above k e.0 m more s.0), s)
  | inr le ↦
      let (before, split, skipped, left, sorted) = upper_bound_lem k m s.1 in
      rw le (e ∷ before, ap (◌∷◌ e) split, (le, skipped), left, sorted)
]

pub in_range_unmatched :
    (o : ScanOptions) (e : List ℕ × List ℕ)
    → prefix_matches e.0 o.prefix ≡ false
    → in_range o e ≡ false
unfolding in_range
in_range_unmatched o e h = rw h

pub in_range_early :
    (o : ScanOptions) (e : List ℕ × List ℕ)
    → is_empty o.start_after ≡ false
    → key_lt o.start_after e.0 ≡ false
    → in_range o e ≡ false
unfolding in_range
in_range_early o e h l = ground arith

pub in_range_late :
    (o : ScanOptions) (e : List ℕ × List ℕ)
    → is_empty o.end_before ≡ false
    → key_lt e.0 o.end_before ≡ false
    → in_range o e ≡ false
unfolding in_range
in_range_late o e h l = ground arith
