-- ===== src/Session/Scan/Matching.antt =====
-- The keys that `DeletePrefix` collects.
use agent_state_storage.Base.{
  ℕ, ◌≡◌, refl, sym, ap, ◌∙◌, false, map, List, [], ◌∷◌, ◌++◌, arith, All, All-imp, select,
  select_none, select-append, Bool-cases, inl, inr,
}
use agent_state_storage.Session.Key.{key_lt, prefix_matches}
use agent_state_storage.Session.Key.Prefix.{matches_ge}
use agent_state_storage.Session.Table.{Table, IsSorted}
use agent_state_storage.Session.Scan.{lower_bound, matching, prefix_keys}
use agent_state_storage.Session.Scan.Range.{unmatched-Above, lower_bound_lem}

-- The keys that `DeletePrefix` deletes are those of the entries under the prefix.
matching_lem :
    (prefix : List ℕ) (m : Table)
    → IsSorted m
    → All (λ e. key_lt e.0 prefix ≡ false) m
    → matching prefix m ≡ map (λ e. e.0) (select (λ e. prefix_matches e.0 prefix) m)
unfolding matching
matching_lem prefix [] s ge = refl
matching_lem prefix (e ∷ m) s ge = elim (Bool-cases (prefix_matches e.0 prefix)) [
  | inl good ↦ rw good (ap (◌∷◌ e.0) (matching_lem prefix m s.1 ge.1))
  | inr bad ↦ rw (
    bad,
    select_none (λ e. prefix_matches e.0 prefix) m (unmatched-Above prefix e.0 m ge.0 bad s.0),
  )
]

pub prefix_keys_lem :
    (prefix : List ℕ) (m : Table)
    → IsSorted m
    → prefix_keys prefix m ≡ map (λ e. e.0) (select (λ e. prefix_matches e.0 prefix) m)
unfolding prefix_keys
prefix_keys_lem prefix m s =
    let (before, split, skipped, left, sorted) = lower_bound_lem prefix m s in
    let rest = lower_bound prefix m in
    let under = λ (e : List ℕ × List ℕ). prefix_matches e.0 prefix in
    matching_lem prefix rest sorted left
    ∙ ap (map (λ e. e.0)) (
        sym (
          ap (select under) split
          ∙ select-append under before rest
          ∙ ap (λ t. t ++ select under rest)
              (select_none under before
                (All-imp _ _ before (λ e l. ground (arith, matches_ge e.0 prefix)) skipped))))
