-- ===== src/Session/Service/Items/Listing.antt =====
-- A session as the list of its items, in the order of their keys.
use mathlib.Core.List.{reverse-cons, reverse-reverse}
use agent_state_storage.Base.{
  ℕ, ◌+◌, ◌%◌, ◌≤◌, ◌<◌, ◌≡◌, refl, sym, ap, subst, ◌∙◌, Bool, true, false, List, [], ◌∷◌, ◌++◌,
  map, reverse, drop-append_length, if◌then◌else◌, All, All-append, select, List-cases, Bool-cases,
  ◌⊎◌, inl, inr, arith, dec_lt,
}
use agent_state_storage.Base.Bytes.{u64_mod}
use agent_state_storage.Session.Key.{
  key_lt, key_eq, key_eq_iff, key_lt_irrefl, key_lt-asymm, prefix_matches,
}
use agent_state_storage.Session.Table.{Table, Above, IsSorted, assign}
use agent_state_storage.Session.Table.Laws.{Below, Above-trans}
use agent_state_storage.Session.Scan.{cut, scan}
use agent_state_storage.Session.Scan.Range.{in_range, take_page}
use agent_state_storage.Session.Scan.Backward.{
  scan-backward, All-front, All-back, All-both, front-Below,
}
use agent_state_storage.Session.Service.{put_u64_be, get_u64_be}
use agent_state_storage.Session.Service.Digits.{put_u64_be-lt, get_u64_be-put_u64_be}
use agent_state_storage.Session.Service.Items.{newest, seq_of, next_seq}

abbrev pub under : List ℕ → Table → Table
under p m = select (λ e. prefix_matches e.0 p) m

abbrev pub items_of : List ℕ → Table → List (List ℕ)
items_of p m = map (λ e. e.1) (under p m)

-- The key ends in a number below `top`.
abbrev pub Numbered : List ℕ → ℕ → List ℕ × List ℕ → Type 0
Numbered p top e = (n : ℕ) × (n < top) × (e.0 ≡ p ++ put_u64_be n)

-- Every key under the prefix ends in a number below `top`.
abbrev pub IsListing : List ℕ → ℕ → Table → Type 0
IsListing p top m = All (Numbered p top) (under p m)

select-Above : (p k : List ℕ) (m : Table) → Above k m → Above k (under p m)
select-Above p k [] a = tt
select-Above p k (e ∷ m) a = elim (Bool-cases (prefix_matches e.0 p)) [
  | inl good ↦ rw good (a.0, select-Above p k m a.1)
  | inr bad ↦ rw bad (select-Above p k m a.1)
]

pub under-IsSorted : (p : List ℕ) (m : Table) → IsSorted m → IsSorted (under p m)
under-IsSorted p [] s = tt
under-IsSorted p (e ∷ m) s = elim (Bool-cases (prefix_matches e.0 p)) [
  | inl good ↦ rw good (select-Above p e.0 m s.0, under-IsSorted p m s.1)
  | inr bad ↦ rw bad (under-IsSorted p m s.1)
]

under-in_range : (p : List ℕ) (m : Table) → select (in_range (newest p)) m ≡ under p m
unfolding in_range
under-in_range p [] = refl
under-in_range p (e ∷ m) = ground (arith, under-in_range p m)

take_page_one :
    (p : List ℕ) (e : List ℕ × List ℕ) (m : Table) → (take_page (newest p) 0 0 (e ∷ m)).0 ≡ e ∷ []
unfolding take_page cut
take_page_one p e [] = refl
take_page_one p e (f ∷ m) = refl

-- The reverse scan with limit 1 gives the last entry under the prefix, if there is one.
pub newest_lem :
    (p : List ℕ) (m : Table)
    → IsSorted m
    → ((under p m ≡ []) × ((scan (newest p) m).0 ≡ []))
      ⊎ ((front : Table) × (e : List ℕ × List ℕ) × (under p m ≡ front ++ (e ∷ []))
          × ((scan (newest p) m).0 ≡ e ∷ []))
newest_lem p m s =
    let page : (scan (newest p) m).0 ≡ (take_page (newest p) 0 0 (reverse (under p m))).0 =
      ap (λ (r : Table × Bool). r.0) (scan-backward (newest p) m s refl)
      ∙ ap (λ u. (take_page (newest p) 0 0 (reverse u)).0) (under-in_range p m) in
    elim (List-cases (reverse (under p m))) [
      | inl none_under ↦ inl (
        sym (reverse-reverse (under p m)) ∙ ap reverse none_under,
        page ∙ ap (λ u. (take_page (newest p) 0 0 u).0) none_under ∙ (unfold take_page in refl),
      )
      | inr (e, rest, last) ↦ inr (
        reverse rest,
        e,
        sym (reverse-reverse (under p m)) ∙ ap reverse last ∙ reverse-cons e rest,
        page ∙ ap (λ u. (take_page (newest p) 0 0 u).0) last ∙ take_page_one p e rest,
      )
    ]

seq_of_lem : (p : List ℕ) (n : ℕ) → n < u64_mod → seq_of p (p ++ put_u64_be n) ≡ n
seq_of_lem p n small =
    ap get_u64_be (drop-append_length p (put_u64_be n)) ∙ get_u64_be-put_u64_be n small

key_lt_append : (p x y : List ℕ) → key_lt (p ++ x) (p ++ y) ≡ key_lt x y
unfolding key_lt
key_lt_append [] x y = refl
key_lt_append (c ∷ p) x y = ground (arith, key_lt_append p x y)

-- Keys with numbers are in the order of the numbers.
pub numbered-lt :
    (p : List ℕ) (a b : ℕ)
    → b < u64_mod
    → a < b
    → key_lt (p ++ put_u64_be a) (p ++ put_u64_be b) ≡ true
numbered-lt p a b small l =
    key_lt_append p (put_u64_be a) (put_u64_be b) ∙ put_u64_be-lt a b small l

below_last :
    (p : List ℕ) (n j : ℕ) (last key : List ℕ)
    → j < u64_mod
    → last ≡ p ++ put_u64_be n
    → key ≡ p ++ put_u64_be j
    → key_lt key last ≡ true
    → j < n + 1
below_last p n j last key small a b l = elim (dec_lt j (n + 1)) [
  | yes less ↦ less
  | no more ↦
      let back : key_lt last key ≡ true = rw (a, b) (numbered-lt p n j small (omega arith)) in
      absurd (ground (arith, key_lt-asymm key last l))
]

-- The number that the next item gets is past those of all the items.
pub next_seq-IsListing :
    (p : List ℕ) (top : ℕ) (m : Table)
    → IsSorted m
    → 0 < top
    → top < u64_mod
    → IsListing p top m
    → let seq = next_seq p (scan (newest p) m).0 in IsListing p seq m × (seq ≤ top)
next_seq-IsListing p top m s pos small listed = elim (newest_lem p m s) [
  | inl (none_under, empty_page) ↦
      subst (λ t. IsListing p (next_seq p t) m × (next_seq p t ≤ top)) (sym empty_page)
        (subst (All (Numbered p 1)) (sym none_under) tt, omega arith)
  | inr (front, e, last, page) ↦
      let all : All (Numbered p top) (front ++ (e ∷ [])) =
        subst (All (Numbered p top)) last listed in
      let (n, l, key) = (All-back (Numbered p top) front (e ∷ []) all).0 in
      let number : seq_of p e.0 ≡ n = ap (seq_of p) key ∙ seq_of_lem p n (omega arith) in
      let next : (seq_of p e.0 + 1) % u64_mod ≡ n + 1 = omega arith in
      let before : Below e.0 front =
        front-Below front e [] (subst IsSorted last (under-IsSorted p m s)) in
      let listed' : All (Numbered p (n + 1)) front =
        All-both (λ f. key_lt f.0 e.0 ≡ true) (Numbered p top) (Numbered p (n + 1)) front
          (λ f lt (j, jl, jk). (j, below_last p n j e.0 f.0 (omega arith) key jk lt, jk)) before
          (All-front (Numbered p top) front (e ∷ []) all) in
      subst (λ t. IsListing p (next_seq p t) m × (next_seq p t ≤ top)) (sym page)
        (subst (λ k. IsListing p k m × (k ≤ top)) (sym next)
          (
            subst (All (Numbered p (n + 1))) (sym last) (
                All-append (Numbered p (n + 1)) front (e ∷ []) listed' ((n, omega arith, key), tt)),
            omega arith,
          ))
]

-- Past a key that all keys under the prefix precede, there are none.
none_past : (p k : List ℕ) (m : Table) → Above k m → Below k (under p m) → under p m ≡ []
none_past p k [] above below = refl
none_past p k (e ∷ m) above below = elim (Bool-cases (prefix_matches e.0 p)) [
  | inl matched ↦
      let b : Below k (e ∷ under p m) =
        subst (λ x. Below k (if x then e ∷ under p m else under p m)) matched below in
      absurd (ground (arith, above.0, b.0, key_lt-asymm k e.0))
  | inr unmatched ↦
      let b : Below k (under p m) =
        subst (λ x. Below k (if x then e ∷ under p m else under p m)) unmatched below in
      rw unmatched (none_past p k m above.1 b)
]

-- Assigning past all the keys under the prefix adds the entry at the end.
pub under-assign :
    (p k v : List ℕ) (m : Table)
    → IsSorted m
    → prefix_matches k p ≡ true
    → Below k (under p m)
    → under p (assign k v m) ≡ under p m ++ ((k, v) ∷ [])
unfolding assign
under-assign p k v [] s good below = rw good refl
under-assign p k v ((j, w) ∷ m) s good below = elim (Bool-cases (key_lt k j)) [
  | inl first ↦
      let nil = none_past p k ((j, w) ∷ m) (first, Above-trans k j m first s.0) below in
      rw first (rw good (ap (◌∷◌ (k, v)) nil ∙ sym (ap (λ t. t ++ ((k, v) ∷ [])) nil)))
  | inr later ↦ elim (Bool-cases (prefix_matches j p)) [
    | inl matched ↦
        let b : Below k ((j, w) ∷ under p m) =
          subst (λ x. Below k (if x then (j, w) ∷ under p m else under p m)) matched below in
        let ne : key_eq k j ≡ false = ground (arith, b.0, key_eq_iff k j, key_lt_irrefl k) in
        rw (later, ne) (rw matched (ap (◌∷◌ (j, w)) (under-assign p k v m s.1 good b.1)))
    | inr unmatched ↦
        let b : Below k (under p m) =
          subst (λ x. Below k (if x then (j, w) ∷ under p m else under p m)) unmatched below in
        let ne : key_eq k j ≡ false = ground (arith, key_eq_iff k j) in
        rw (later, ne) (rw unmatched (under-assign p k v m s.1 good b))
  ]
]
