-- ===== src/Session/Scan/Backward.antt =====
-- The reverse scan against a filter of the whole map.
use mathlib.Core.List.{reverse-cons, append-nil, append_assoc}
use agent_state_storage.Base.{
  ℕ, ◌+◌, ◌-◌, ◌≡◌, refl, sym, ap, subst, ◌∙◌, Bool, true, false, ◌&&◌, ◌||◌, not, List, [], ◌∷◌,
  ◌++◌, length, reverse, take, take-append_length, length-append, is_empty, arith, All, All-imp,
  All-append, select, select_none, select-append, Bool-cases, ◌⊎◌, inl, inr,
}
use agent_state_storage.Session.Key.{key_lt, prefix_matches, key_lt_trans, key_lt-asymm}
use agent_state_storage.Session.Key.Prefix.{matches_ge}
use agent_state_storage.Session.Table.{Table, Above, IsSorted}
use agent_state_storage.Session.Table.Laws.{Below}
use agent_state_storage.Session.Scan.{
  ScanOptions, lower_bound, scan_down, skip_matching, is_lower, scan_end, walk_down, scan,
}
use agent_state_storage.Session.Scan.Range.{
  in_range, take_page, key_ge_trans, unmatched-Above, lower_bound_lem, in_range_unmatched,
  in_range_late,
}
use agent_state_storage.Session.Scan.Forward.{paged}

abbrev Entry : Type 0
Entry = List ℕ × List ℕ

-- Every key comes before the one in front of it.
abbrev IsFalling : Table → Type 0
IsFalling [] = Unit {0}
IsFalling (e ∷ m) = Below e.0 m × IsFalling m

All-reverse : (P : Entry → Type 0) (m : Table) → All P m → All P (reverse m)
All-reverse P [] a = tt
All-reverse P (e ∷ m) a =
    rw (reverse-cons e m) (All-append P (reverse m) (e ∷ []) (All-reverse P m a.1) (a.0, tt))

IsFalling-snoc : (m : Table) (e : Entry) → IsFalling m → Above e.0 m → IsFalling (m ++ (e ∷ []))
IsFalling-snoc [] e f a = (tt, tt)
IsFalling-snoc (x ∷ m) e f a =
    (All-append (λ y. key_lt y.0 x.0 ≡ true) m (e ∷ []) f.0 (a.0, tt), IsFalling-snoc m e f.1 a.1)

reverse-IsFalling : (m : Table) → IsSorted m → IsFalling (reverse m)
reverse-IsFalling [] s = tt
reverse-IsFalling (e ∷ m) s = rw (reverse-cons e m) (
    IsFalling-snoc (reverse m) e (reverse-IsFalling m s.1)
      (All-reverse (λ f. key_lt e.0 f.0 ≡ true) m s.0))

select-reverse : (p : Entry → Bool) (m : Table) → select p (reverse m) ≡ reverse (select p m)
select-reverse p [] = refl
select-reverse p (e ∷ m) = rw (reverse-cons e m) (
    select-append p (reverse m) (e ∷ [])
    ∙ ap (λ t. t ++ select p (e ∷ [])) (select-reverse p m)
    ∙ elim (Bool-cases (p e)) [
      | inl good ↦ rw good (sym (reverse-cons e (select p m)))
      | inr bad ↦ rw bad (append-nil (reverse (select p m)))
    ])

pub All-front : (P : Entry → Type 0) (m n : Table) → All P (m ++ n) → All P m
All-front P [] n a = tt
All-front P (e ∷ m) n a = (a.0, All-front P m n a.1)

IsSorted-front : (m n : Table) → IsSorted (m ++ n) → IsSorted m
IsSorted-front [] n s = tt
IsSorted-front (e ∷ m) n s =
    (All-front (λ f. key_lt e.0 f.0 ≡ true) m n s.0, IsSorted-front m n s.1)

pub All-back : (P : Entry → Type 0) (m n : Table) → All P (m ++ n) → All P n
All-back P [] n a = a
All-back P (e ∷ m) n a = All-back P m n a.1

-- What precedes an entry of a sorted map.
pub front-Below : (m : Table) (e : Entry) (n : Table) → IsSorted (m ++ e ∷ n) → Below e.0 m
front-Below [] e n s = tt
front-Below (x ∷ m) e n s =
    ((All-back (λ f. key_lt x.0 f.0 ≡ true) m (e ∷ n) s.0).0, front-Below m e n s.1)

pub back-IsSorted : (m n : Table) → IsSorted (m ++ n) → IsSorted n
back-IsSorted [] n s = s
back-IsSorted (e ∷ m) n s = back-IsSorted m n s.1

-- `while (it != map_.end() && PrefixMatches(it->first, o.prefix)) ++it;`, from the prefix on.
skip_matching_lem :
    (p : List ℕ) (m : Table)
    → IsSorted m
    → All (λ e. key_lt e.0 p ≡ false) m
    → (under : Table) × (m ≡ under ++ skip_matching p m)
      × All (λ e. prefix_matches e.0 p ≡ true) under
      × All (λ e. prefix_matches e.0 p ≡ false) (skip_matching p m)
unfolding skip_matching
skip_matching_lem p [] s ge = ([], refl, tt, tt)
skip_matching_lem p (e ∷ m) s ge = elim (Bool-cases (prefix_matches e.0 p)) [
  | inl good ↦
      let (under, split, matched, left) = skip_matching_lem p m s.1 ge.1 in
      rw good (e ∷ under, ap (◌∷◌ e) split, (good, matched), left)
  | inr bad ↦ rw bad ([], refl, tt, (bad, unmatched-Above p e.0 m ge.0 bad s.0))
]

pub All-both :
    (P Q R : Entry → Type 0) (m : Table)
    → ((e : Entry) → P e → Q e → R e)
    → All P m
    → All Q m
    → All R m
All-both P Q R [] f p q = tt
All-both P Q R (e ∷ m) f p q = (f e p.0 q.0, All-both P Q R m f p.1 q.1)

-- Where the entries of the second cut start at or after `i`, the first cut's, which are before `i`,
-- are among the second's first.
from_bound :
    (i : Entry) (it eb : Table)
    → IsSorted eb
    → is_lower eb (i ∷ it) ≡ false
    → All (λ e. key_lt e.0 i.0 ≡ false) eb
unfolding is_lower
from_bound i it [] s h = tt
from_bound i it (b ∷ eb) s h =
    (h, All-imp _ _ eb (λ e (l : key_lt b.0 e.0 ≡ true). key_ge_trans b.0 e.0 i.0 h l) s.0)

before_end :
    (bound : List ℕ) (m pre it low eb : Table)
    → IsSorted m
    → m ≡ pre ++ it
    → m ≡ low ++ eb
    → is_lower eb it ≡ false
    → All (λ e. key_lt e.0 bound ≡ true) low
    → All (λ e. key_lt e.0 bound ≡ true) pre
before_end bound m pre [] low eb s split split' h under = unfold is_lower in cc
before_end bound m pre (i ∷ it) low eb s split split' h under =
    let from = from_bound i it eb (back-IsSorted low eb (subst IsSorted split' s)) h in
    let each : All (λ (e : Entry). (key_lt e.0 bound ≡ true) ⊎ (key_lt e.0 i.0 ≡ false))
        (low ++ eb) =
      All-append _ low eb (All-imp _ _ low (λ e l. inl l) under)
        (All-imp _ _ eb (λ e l. inr l) from) in
    All-both _ _ (λ (e : Entry). key_lt e.0 bound ≡ true) pre (λ e a b. ground (arith, a, b))
      (front-Below pre i it (subst IsSorted split s))
      (All-front _ pre (i ∷ it) (subst (All _) (sym split' ∙ split) each))

before_prefix_end :
    (P : Entry → Type 0) (m pre it low eb : Table)
    → IsSorted m
    → m ≡ pre ++ it
    → m ≡ low ++ eb
    → is_lower eb it ≡ true
    → All P pre
    → All P low
unfolding is_lower
before_prefix_end P m pre [] low eb s split split' h up =
    All-front P low eb (subst (All P) (sym (append-nil pre) ∙ sym split ∙ split') up)
before_prefix_end P m pre (i ∷ it) low [] s split split' h up = cc
before_prefix_end P m pre (i ∷ it) low (b ∷ eb) s split split' h up =
    let sorted : IsSorted (i ∷ it) = back-IsSorted pre (i ∷ it) (subst IsSorted split s) in
    let past : All (λ (e : Entry). key_lt e.0 b.0 ≡ false) it =
      All-imp _ _ it
        (λ e (l : key_lt i.0 e.0 ≡ true). key_lt-asymm b.0 e.0 (key_lt_trans b.0 i.0 e.0 h l))
        sorted.0 in
    let each : All (λ (e : Entry). P e ⊎ (key_lt e.0 b.0 ≡ false)) (pre ++ i ∷ it) =
      All-append _ pre (i ∷ it) (All-imp _ _ pre (λ e p. inl p) up)
        (inr (key_lt-asymm b.0 i.0 h), All-imp _ _ it (λ e l. inr l) past) in
    All-both _ _ P low
      (λ e (a : key_lt e.0 b.0 ≡ true) o. elim o [ inl p ↦ p | inr n ↦ absurd (ground arith) ])
      (front-Below low b eb (subst IsSorted split' s))
      (All-front _ low (b ∷ eb) (subst (All _) (sym split ∙ split') each))

module _ (o : ScanOptions) where
  open o use {prefix, start_after, end_before}

  -- An entry that the walk may meet: before `end_before`, and under the prefix or before it.
  abbrev Met : Entry → Type 0
  Met e =
      ((is_empty end_before || key_lt e.0 end_before) ≡ true)
      × ((prefix_matches e.0 prefix ≡ true) ⊎ (key_lt e.0 prefix ≡ true))

  scan_down_good :
      (e : Entry) (m : Table) (count bytes : ℕ)
      → in_range o e ≡ true
      → scan_down o count bytes (e ∷ m)
        ≡ paged o count bytes e (scan_down o (count + 1) (bytes + (length e.0 + length e.1)) m)
  unfolding scan_down in_range
  scan_down_good e m count bytes good = ground arith

  scan_down_bad :
      (e : Entry) (m : Table) (count bytes : ℕ)
      → in_range o e ≡ false
      → Met e
      → scan_down o count bytes (e ∷ m) ≡ ([], false)
  unfolding scan_down in_range
  scan_down_bad e m count bytes bad met = ground arith

  -- Before an entry out of range none is in range.
  out_of_range :
      (e : Entry) (m : Table)
      → in_range o e ≡ false
      → Met e
      → Below e.0 m
      → All (λ f. in_range o f ≡ false) m
  unfolding in_range
  out_of_range e m bad met below =
      All-imp (λ f. key_lt f.0 e.0 ≡ true) (λ f. in_range o f ≡ false) m
        (λ f l. ground (
          arith,
          key_lt_trans f.0 e.0 prefix,
          matches_ge f.0 prefix,
          key_lt_trans start_after f.0 e.0,
        ))
        below

  scan_down-take_page :
      (m : Table) (count bytes : ℕ)
      → IsFalling m
      → All Met m
      → scan_down o count bytes m ≡ take_page o count bytes (select (in_range o) m)
  unfolding take_page
  scan_down-take_page [] count bytes f met = unfold scan_down in refl
  scan_down-take_page (e ∷ m) count bytes f met = elim (Bool-cases (in_range o e)) [
    | inl good ↦ rw good (
        scan_down_good e m count bytes good
        ∙ ap (paged o count bytes e)
            (scan_down-take_page m (count + 1) (bytes + (length e.0 + length e.1)) f.1 met.1))
    | inr bad ↦
        rw (bad, select_none (in_range o) m (out_of_range e m bad met.0 f.0))
          (scan_down_bad e m count bytes bad met.0)
  ]

  -- The walk from a position: what stands before it was met, and none from it on is in range.
  scan_down-from :
      (m pre pos : Table)
      → IsSorted m
      → m ≡ pre ++ pos
      → All Met pre
      → All (λ e. in_range o e ≡ false) pos
      → scan_down o 0 0 (walk_down m pos) ≡ take_page o 0 0 (reverse (select (in_range o) m))
  unfolding walk_down
  scan_down-from m pre pos s split met none_left =
      let size : length m - length pos ≡ length pre =
        omega (arith, length-append pre pos, ap length split) in
      let walked : take (length m - length pos) m ≡ pre =
        ap (λ n. take n m) size ∙ ap (take (length pre)) split ∙ take-append_length pre pos in
      let chosen : select (in_range o) m ≡ select (in_range o) pre =
        ap (select (in_range o)) split
        ∙ select-append (in_range o) pre pos
        ∙ ap (λ t. select (in_range o) pre ++ t) (select_none (in_range o) pos none_left)
        ∙ append-nil (select (in_range o) pre) in
      rw (walked, chosen)
        (scan_down-take_page (reverse pre) 0 0
            (reverse-IsFalling pre (IsSorted-front pre pos (subst IsSorted split s)))
            (All-reverse Met pre met)
          ∙ ap (take_page o 0 0) (select-reverse (in_range o) pre))

  -- The entries up to the end of the prefix, and those from there on.
  prefix_split :
      (m : Table)
      → IsSorted m
      → let it = skip_matching prefix (lower_bound prefix m) in
        (pre : Table) × (m ≡ pre ++ it)
        × All (λ e. (prefix_matches e.0 prefix ≡ true) ⊎ (key_lt e.0 prefix ≡ true)) pre
        × All (λ e. prefix_matches e.0 prefix ≡ false) it
        × All (λ e. key_lt e.0 prefix ≡ false) it
  prefix_split m s =
      let (before, split, skipped, left, sorted) = lower_bound_lem prefix m s in
      let (under, split', matched, past) =
        skip_matching_lem prefix (lower_bound prefix m) sorted left in
      let it = skip_matching prefix (lower_bound prefix m) in
      (
        before ++ under,
        split ∙ ap (◌++◌ before) split' ∙ sym (append_assoc before under it),
        All-append _ before under (All-imp _ _ before (λ e h. inr h) skipped)
            (All-imp _ _ under (λ e h. inl h) matched),
        past,
        All-back _ under it (subst (All (λ e. key_lt e.0 prefix ≡ false)) split' left),
      )

-- A reverse scan is the first page of the entries in range, from the last one back, and `has_more`
-- tells whether the page was cut.
pub scan-backward :
    (o : ScanOptions) (m : Table)
    → IsSorted m
    → o.reverse ≡ true
    → scan o m ≡ take_page o 0 0 (reverse (select (in_range o) m))
unfolding scan scan_end
scan-backward o m s h =
    let (pre, split, up, past, ge) = prefix_split o m s in
    let it = skip_matching o.prefix (lower_bound o.prefix m) in
    let (low, split', under, late, sorted) = lower_bound_lem o.end_before m s in
    let eb = lower_bound o.end_before m in
    elim (Bool-cases (not (is_empty o.end_before) && is_lower eb it)) [
      | inl bound ↦
          let ends : is_empty o.end_before ≡ false = ground arith in
          let lower : is_lower eb it ≡ true = ground arith in
          simp (h, bound)
            (scan_down-from o m low eb s split'
              (All-both _ _ (Met o) low
                (λ e (a : key_lt e.0 o.end_before ≡ true) b. (ground arith, b)) under
                (before_prefix_end _ m pre it low eb s split split' lower up))
              (All-imp _ _ eb (λ e (l : key_lt e.0 o.end_before ≡ false). in_range_late o e ends l)
                late))
      | inr free ↦
          simp (h, free)
            (scan_down-from o m pre it s split (met_pre pre it low eb split split' up under free) (
              All-imp _ _ it
                (λ e (u : prefix_matches e.0 o.prefix ≡ false). in_range_unmatched o e u) past))
    ]
  where
    met_pre :
        (pre it low eb : Table)
        → m ≡ pre ++ it
        → m ≡ low ++ eb
        → All (λ e. (prefix_matches e.0 o.prefix ≡ true) ⊎ (key_lt e.0 o.prefix ≡ true)) pre
        → All (λ e. key_lt e.0 o.end_before ≡ true) low
        → (not (is_empty o.end_before) && is_lower eb it) ≡ false
        → All (Met o) pre
    met_pre pre it low eb split split' up under free = elim (Bool-cases (is_empty o.end_before)) [
      | inl no_bound ↦ All-imp _ (Met o) pre (λ e b. (ground arith, b)) up
      | inr bound ↦
          All-both _ _ (Met o) pre (λ e (a : key_lt e.0 o.end_before ≡ true) b. (ground arith, b))
            (before_end o.end_before m pre it low eb s split split' (ground arith) under) up
    ]
