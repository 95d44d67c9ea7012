-- ===== src/Session/Scan/Forward.antt =====
-- The forward scan against a filter of the whole map.
use agent_state_storage.Base.{
  ℕ, ◌+◌, ◌≡◌, refl, sym, ap, ◌∙◌, Bool, true, false, ◌||◌, List, [], ◌∷◌, ◌++◌, length,
  if◌then◌else◌, is_empty, arith, All, All-imp, select, select_none, select-append, Bool-cases, inl,
  inr,
}
use agent_state_storage.Session.Key.{key_lt, prefix_matches, key_lt_trans, key_lt-total, key_eq_iff}
use agent_state_storage.Session.Key.Prefix.{matches_ge}
use agent_state_storage.Session.Table.{Table, Above, IsSorted}
use agent_state_storage.Session.Scan.{
  ScanOptions, lower_bound, upper_bound, cut, scan_up, scan_start, scan,
}
use agent_state_storage.Session.Scan.Range.{
  in_range, take_page, key_ge_trans, unmatched-Above, ended-Above, lower_bound_lem, upper_bound_lem,
  in_range_unmatched, in_range_early,
}

-- One round of either loop at an entry in range.
abbrev pub paged : ScanOptions → ℕ → ℕ → (List ℕ × List ℕ) → Table × Bool → Table × Bool
paged o count bytes e rest = if cut o count bytes e then ([], true) else (e ∷ rest.0, rest.1)

module _ (o : ScanOptions) where
  open o use {prefix, start_after, end_before}

  scan_up_good :
      (e : List ℕ × List ℕ) (m : Table) (count bytes : ℕ)
      → in_range o e ≡ true
      → scan_up o count bytes (e ∷ m)
        ≡ paged o count bytes e (scan_up o (count + 1) (bytes + (length e.0 + length e.1)) m)
  unfolding scan_up in_range
  scan_up_good e m count bytes good = ground arith

  scan_up_bad :
      (e : List ℕ × List ℕ) (m : Table) (count bytes : ℕ)
      → in_range o e ≡ false
      → (is_empty start_after || key_lt start_after e.0) ≡ true
      → scan_up o count bytes (e ∷ m) ≡ ([], false)
  unfolding scan_up in_range
  scan_up_bad e m count bytes bad after = ground arith

  -- After the first entry out of range none is in range.
  out_of_range :
      (e : List ℕ × List ℕ) (m : Table)
      → in_range o e ≡ false
      → (is_empty start_after || key_lt start_after e.0) ≡ true
      → key_lt e.0 prefix ≡ false
      → Above e.0 m
      → All (λ a. in_range o a ≡ false) m
  unfolding in_range
  out_of_range e m bad after ge above = elim (Bool-cases (prefix_matches e.0 prefix)) [
    | inl matched ↦
        All-imp _ _ m (λ a h. ground arith) (ended-Above end_before e.0 m (ground arith) above)
    | inr unmatched ↦
        All-imp _ _ m (λ a h. ground arith) (unmatched-Above prefix e.0 m ge unmatched above)
  ]

  -- From the start on, the loop takes the page of what is in range.
  scan_up-take_page :
      (m : Table) (count bytes : ℕ)
      → IsSorted m
      → All (λ e. key_lt e.0 prefix ≡ false) m
      → All (λ e. (is_empty start_after || key_lt start_after e.0) ≡ true) m
      → scan_up o count bytes m ≡ take_page o count bytes (select (in_range o) m)
  unfolding take_page
  scan_up-take_page [] count bytes s ge after = unfold scan_up in refl
  scan_up-take_page (e ∷ m) count bytes s ge after = elim (Bool-cases (in_range o e)) [
    | inl good ↦ rw good (
        scan_up_good e m count bytes good
        ∙ ap (paged o count bytes e)
            (scan_up-take_page m (count + 1) (bytes + (length e.0 + length e.1)) s.1 ge.1 after.1))
    | inr bad ↦
        rw (bad, select_none (in_range o) m (out_of_range e m bad after.0 ge.0 s.0))
          (scan_up_bad e m count bytes bad after.0)
  ]

select-skip :
    (o : ScanOptions) (m before rest : Table)
    → m ≡ before ++ rest
    → All (λ e. in_range o e ≡ false) before
    → select (in_range o) rest ≡ select (in_range o) m
select-skip o m before rest split skipped = sym (
    ap (select (in_range o)) split
    ∙ select-append (in_range o) before rest
    ∙ ap (λ t. t ++ select (in_range o) rest) (select_none (in_range o) before skipped))

key_lt-ge_trans : (a b c : List ℕ) → key_lt a b ≡ true → key_lt c b ≡ false → key_lt a c ≡ true
key_lt-ge_trans a b c l ge = ground (arith, key_eq_iff a c, key_lt-total a c, key_lt_trans c a b)

scan_up-lower :
    (o : ScanOptions) (m : Table)
    → IsSorted m
    → (is_empty o.start_after || key_lt o.start_after o.prefix) ≡ true
    → scan_up o 0 0 (lower_bound o.prefix m) ≡ take_page o 0 0 (select (in_range o) m)
scan_up-lower o m s h =
    let (before, split, skipped, left, sorted) = lower_bound_lem o.prefix m s in
    let rest = lower_bound o.prefix m in
    scan_up-take_page o rest 0 0 sorted left (
      All-imp _ _ rest
        (λ e (ge : key_lt e.0 o.prefix ≡ false).
          ground (arith, key_lt-ge_trans o.start_after o.prefix e.0))
        left)
    ∙ ap (take_page o 0 0) (
        select-skip o m before rest split (
          All-imp _ _ before
            (λ e (l : key_lt e.0 o.prefix ≡ true).
              in_range_unmatched o e (ground (arith, matches_ge e.0 o.prefix)))
            skipped))

scan_up-upper :
    (o : ScanOptions) (m : Table)
    → IsSorted m
    → (is_empty o.start_after || key_lt o.start_after o.prefix) ≡ false
    → scan_up o 0 0 (upper_bound o.start_after m) ≡ take_page o 0 0 (select (in_range o) m)
scan_up-upper o m s h =
    let (before, split, skipped, left, sorted) = upper_bound_lem o.start_after m s in
    let rest = upper_bound o.start_after m in
    let ge : key_lt o.start_after o.prefix ≡ false = ground arith in
    scan_up-take_page o rest 0 0 sorted
      (All-imp _ _ rest (λ e l. key_ge_trans o.start_after e.0 o.prefix ge l) left)
      (All-imp _ _ rest (λ e (l : key_lt o.start_after e.0 ≡ true). ground arith) left)
    ∙ ap (take_page o 0 0) (
        select-skip o m before rest split (
          All-imp _ _ before
            (λ e (l : key_lt o.start_after e.0 ≡ false). in_range_early o e (ground arith) l)
            skipped))

-- A forward scan is the first page of the entries in range, in key order, and `has_more` tells
-- whether the page was cut.
pub scan-forward :
    (o : ScanOptions) (m : Table)
    → IsSorted m
    → o.reverse ≡ false
    → scan o m ≡ take_page o 0 0 (select (in_range o) m)
unfolding scan scan_start
scan-forward o m s h = elim (Bool-cases (is_empty o.start_after || key_lt o.start_after o.prefix)) [
  | inl low ↦ simp (h, low) (scan_up-lower o m s low)
  | inr up ↦ simp (h, up) (scan_up-upper o m s up)
]
