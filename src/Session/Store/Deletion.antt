-- ===== src/Session/Store/Deletion.antt =====
-- `DeletePrefix`, and what `Get` reads after a write.
use agent_state_storage.Base.{
  ℕ, ◌≡◌, refl, ap, ◌∙◌, true, false, Option, none, List, [], ◌∷◌, map, length, arith,
  if◌then◌else◌, select, Bool-cases, inl, inr,
}
use agent_state_storage.Session.Codec.{Mutation, del}
use agent_state_storage.Session.Key.{key_eq, prefix_matches, key_eq_iff}
use agent_state_storage.Session.Table.{Table, Live, find}
use agent_state_storage.Session.Table.Apply.{written, find-apply_to_map}
use agent_state_storage.Session.Scan.{prefix_keys}
use agent_state_storage.Session.Scan.Matching.{prefix_keys_lem}
use agent_state_storage.Session.Store.{Store, AppendIo, CompactIo, apply, get, delete_prefix}
use agent_state_storage.Session.Store.Invariant.{IsDurable, live-IsValid}
use agent_state_storage.Session.Store.Durability.{Fits, apply-Commits}

-- On a durable store that replays to its map, with a batch whose sizes fit the log and an `ftruncate`
-- and an `lseek` that work on the error path, `Get` after a successful `Apply` reads what the last
-- mutation of the key in the batch wrote, or what it read before if there is none.
pub get-apply :
    (aio : AppendIo) (cio : CompactIo) (s : Store) (batch : List Mutation) (q : List ℕ)
    → s.durable ≡ true
    → IsDurable s
    → Fits s batch
    → aio.ftruncate_ok ≡ true
    → aio.lseek_ok ≡ true
    → (apply aio cio s batch).0 ≡ true
    → get (apply aio cio s batch).1 q ≡ written q (get s q) batch
unfolding get
get-apply aio cio s batch q live d f t l ok =
    let after = (apply-Commits aio cio s batch live d f t l).on_success ok in
    ap (λ (x : Live). find q x.table) after ∙ find-apply_to_map batch s.live q (live-IsValid d)

abbrev pub deletions : List (List ℕ) → List Mutation
deletions = map (λ k. record { op = del; key = k; value = [] })

-- With a key to delete, `DeletePrefix` is `Apply` of the deletions, and counts them if it succeeds.
pub delete_prefix-apply :
    (aio : AppendIo) (cio : CompactIo) (s : Store) (prefix : List ℕ)
    → let batch = deletions (prefix_keys prefix s.live.table) in
      ((delete_prefix aio cio s prefix).1 ≡ (apply aio cio s batch).1)
      × ((delete_prefix aio cio s prefix).0
          ≡ (if (apply aio cio s batch).0 then length batch else 0))
unfolding delete_prefix apply
delete_prefix-apply aio cio s prefix = ground arith

written-deletions-none : (q : List ℕ) (ks : List (List ℕ)) → written q none (deletions ks) ≡ none
unfolding written
written-deletions-none q [] = refl
written-deletions-none q (k ∷ ks) = elim (Bool-cases (key_eq q k)) [
  | inl e ↦ rw (e, written) (written-deletions-none q ks)
  | inr e ↦ rw (e, written) (written-deletions-none q ks)
]

abbrev keys_under : List ℕ → Table → List (List ℕ)
keys_under prefix m = map (λ e. e.0) (select (λ e. prefix_matches e.0 prefix) m)

written-unmatched :
    (q prefix : List ℕ) (old : Option (List ℕ)) (m : Table)
    → prefix_matches q prefix ≡ false
    → written q old (deletions (keys_under prefix m)) ≡ old
unfolding written
written-unmatched q prefix old [] h = refl
written-unmatched q prefix old (e ∷ m) h = elim (Bool-cases (prefix_matches e.0 prefix)) [
  | inl good ↦
      let other : key_eq q e.0 ≡ false = ground (arith, key_eq_iff q e.0) in
      rw (good, written) (rw other (written-unmatched q prefix old m h))
  | inr bad ↦ rw bad (written-unmatched q prefix old m h)
]

written-matched :
    (q prefix : List ℕ) (m : Table)
    → prefix_matches q prefix ≡ true
    → written q (find q m) (deletions (keys_under prefix m)) ≡ none
unfolding written find
written-matched q prefix [] h = refl
written-matched q prefix (e ∷ m) h = elim (Bool-cases (key_eq q e.0)) [
  | inl same ↦
      let under : prefix_matches e.0 prefix ≡ true = ground (arith, key_eq_iff q e.0) in
      rw (under, written) (rw same (written-deletions-none q (keys_under prefix m)))
  | inr other ↦ rw other (elim (Bool-cases (prefix_matches e.0 prefix)) [
    | inl good ↦ rw (good, written) (rw other (written-matched q prefix m h))
    | inr bad ↦ rw bad (written-matched q prefix m h)
  ])
]

-- On a durable store that replays to its map, with deletions whose sizes fit the log and an `ftruncate`
-- and an `lseek` that work on the error path, after a `DeletePrefix` whose write succeeds every key under
-- the prefix is gone, and the others are unchanged.
pub get-delete_prefix :
    (aio : AppendIo) (cio : CompactIo) (s : Store) (prefix q : List ℕ)
    → s.durable ≡ true
    → IsDurable s
    → Fits s (deletions (prefix_keys prefix s.live.table))
    → aio.ftruncate_ok ≡ true
    → aio.lseek_ok ≡ true
    → (apply aio cio s (deletions (prefix_keys prefix s.live.table))).0 ≡ true
    → get (delete_prefix aio cio s prefix).1 q ≡ (if prefix_matches q prefix then none else get s q)
get-delete_prefix aio cio s prefix q live d f t l ok =
    let ks = prefix_keys_lem prefix s.live.table (live-IsValid d).sorted in
    ap (λ (x : Store). get x q) (delete_prefix-apply aio cio s prefix).0
    ∙ get-apply aio cio s (deletions (prefix_keys prefix s.live.table)) q live d f t l ok
    ∙ ap (λ k. written q (get s q) (deletions k)) ks
    ∙ elim (Bool-cases (prefix_matches q prefix)) [
      | inl good ↦ unfold get in rw good (written-matched q prefix s.live.table good)
      | inr bad ↦ rw bad (written-unmatched q prefix (get s q) s.live.table bad)
    ]
