-- ===== src/Session/Service/Items/Pops.antt =====
-- `PopItem` takes the last item of the session's list.
use mathlib.Core.List.{map-append}
use agent_state_storage.Base.{
  ℕ, ◌≡◌, refl, sym, ap, subst, ◌∙◌, true, false, Option, none, some, List, [], ◌∷◌, ◌++◌, map, All,
  Bool-cases, ◌⊎◌, inl, inr, arith,
}
use agent_state_storage.Session.Codec.{Mutation, del}
use agent_state_storage.Session.Key.{key_eq, key_eq_iff, key_eq_self, key_lt_irrefl, prefix_matches}
use agent_state_storage.Session.Table.{
  Table, Live, IsSorted, find, erase, apply_at, apply_mutation, apply_to_map,
}
use agent_state_storage.Session.Table.Laws.{Below}
use agent_state_storage.Session.Scan.Backward.{front-Below, All-front, All-back}
use agent_state_storage.Session.Store.{Store, apply}
use agent_state_storage.Session.Store.Invariant.{IsDurable, live-IsValid}
use agent_state_storage.Session.Store.Durability.{Fits, apply-Commits}
use agent_state_storage.Session.Service.{internal, answered, refused, Io}
use agent_state_storage.Session.Service.Items.{pop_under}
use agent_state_storage.Session.Service.Items.Appends.{matches_numbered}
use agent_state_storage.Session.Service.Items.Listing.{
  under, items_of, Numbered, IsListing, under-IsSorted, newest_lem,
}

erase-none : (k : List ℕ) (m : Table) → find k m ≡ none → erase k m ≡ m
unfolding find erase
erase-none k [] h = refl
erase-none k ((j, w) ∷ m) h = ground (arith, erase-none k m)

table_of_del :
    (s : Live) (k : List ℕ)
    → (apply_mutation s (record { op = del; key = k; value = [] })).table ≡ erase k s.table
unfolding apply_mutation
table_of_del s k = go (find k s.table) refl
  where
    go :
        (o : Option (List ℕ)) → find k s.table ≡ o → (apply_at del o k [] s).table ≡ erase k s.table
    go none e = unfold apply_at in sym (erase-none k s.table e)
    go (some old) e = unfold apply_at in refl

under-erase :
    (p k : List ℕ) (m : Table)
    → prefix_matches k p ≡ true
    → under p (erase k m) ≡ erase k (under p m)
unfolding erase
under-erase p k [] good = refl
under-erase p k ((j, w) ∷ m) good = elim (Bool-cases (key_eq k j)) [
  | inl same ↦
      let matched : prefix_matches j p ≡ true = ground (arith, key_eq_iff k j) in
      rw (same, matched, erase) (rw same refl)
  | inr other ↦ elim (Bool-cases (prefix_matches j p)) [
    | inl matched ↦ rw (other, matched, erase) (rw other (ap (◌∷◌ (j, w)) (under-erase p k m good)))
    | inr unmatched ↦ rw (other, unmatched, erase) (under-erase p k m good)
  ]
]

erase_last :
    (front : Table) (e : List ℕ × List ℕ) → Below e.0 front → erase e.0 (front ++ (e ∷ [])) ≡ front
unfolding erase
erase_last [] e b = rw (key_eq_self e.0) refl
erase_last (f ∷ front) e b =
    let ne : key_eq e.0 f.0 ≡ false = ground (arith, b.0, key_eq_iff e.0 f.0, key_lt_irrefl e.0) in
    rw ne (ap (◌∷◌ f) (erase_last front e b.1))

abbrev pub deletion : List ℕ → List Mutation
deletion key = record { op = del; key = key; value = [] } ∷ []

-- The session without its last entry.
under-deletion :
    (p : List ℕ) (front : Table) (e : List ℕ × List ℕ) (s : Live)
    → IsSorted s.table
    → prefix_matches e.0 p ≡ true
    → under p s.table ≡ front ++ (e ∷ [])
    → under p (apply_to_map s (deletion e.0)).table ≡ front
unfolding apply_to_map
under-deletion p front e s sorted good last =
    ap (under p) (table_of_del s e.0)
    ∙ under-erase p e.0 s.table good
    ∙ ap (erase e.0) last
    ∙ erase_last front e
        (front-Below front e [] (subst IsSorted last (under-IsSorted p s.table sorted)))

-- `PopItem` on a sound durable store whose error path works: for a session without items it answers
-- that there is none; otherwise it answers the last item of the session's list and leaves the list
-- without it, numbered as it was, or it reports an error; in the first and the last case the store is
-- as it was.
pub pop_under-pops :
    (io : Io) (p : List ℕ) (top : ℕ) (s : Store)
    → s.durable ≡ true
    → IsDurable s
    → All (λ (e : List ℕ × List ℕ). Fits s (deletion e.0)) (under p s.live.table)
    → io.append_io.ftruncate_ok ≡ true
    → io.append_io.lseek_ok ≡ true
    → IsListing p top s.live.table
    → let r = pop_under io p s in
      ((items_of p s.live.table ≡ []) × (r.0 ≡ answered none) × (r.1 ≡ s))
      ⊎ ((item : List ℕ) × (r.0 ≡ answered (some item))
          × (items_of p s.live.table ≡ items_of p r.1.live.table ++ (item ∷ []))
          × IsListing p top r.1.live.table
          × IsDurable r.1)
      ⊎ ((r.0 ≡ refused internal) × (r.1 ≡ s))
unfolding pop_under
pop_under-pops io p top s live d f t l listed =
    let v = live-IsValid d in
    elim (newest_lem p s.live.table v.sorted) [
      | inl (none_under, empty_page) ↦
          rw empty_page (inl (ap (map (λ e. e.1)) none_under, refl, refl))
      | inr (front, e, last, page) ↦
          let fits = (All-back _ front (e ∷ []) (subst (All _) last f)).0 in
          let c = apply-Commits io.append_io io.compact_io s (deletion e.0) live d fits t l in
          let all : All (Numbered p top) (front ++ (e ∷ [])) =
            subst (All (Numbered p top)) last listed in
          let (n, nl, key) = (All-back (Numbered p top) front (e ∷ []) all).0 in
          let good : prefix_matches e.0 p ≡ true =
            ap (λ k. prefix_matches k p) key ∙ matches_numbered p n in
          let left = under-deletion p front e s.live v.sorted good last in
          elim (Bool-cases (apply io.append_io io.compact_io s (deletion e.0)).0) [
            | inr failed ↦ rw (page, failed, c.on_failure failed) (inr (inr (refl, refl)))
            | inl ok ↦
                let after = ap (λ (x : Live). under p x.table) (c.on_success ok) ∙ left in
                rw (page, ok)
                  (inr (
                    inl (
                      e.1,
                      refl,
                      ap (map (λ e. e.1)) last
                          ∙ map-append (λ (x : List ℕ × List ℕ). x.1) front (e ∷ [])
                          ∙ ap (λ u. map (λ (x : List ℕ × List ℕ). x.1) u ++ (e.1 ∷ []))
                              (sym after),
                      subst (All (Numbered p top)) (sym after)
                          (All-front (Numbered p top) front (e ∷ []) all),
                      c.durable_after,
                    )))
          ]
    ]
