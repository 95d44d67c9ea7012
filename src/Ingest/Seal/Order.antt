-- ===== src/Ingest/Seal/Order.antt =====
-- What an observer of a node sees of a seal.
use agent_state_storage.Base.{
  ℕ, ◌+◌, ◌≡◌, refl, Bool, true, false, List, [], ◌∷◌, ◌==◌, ◌||◌, none, arith, All, All-imp, ap,
  Option-cases, ◌⊎◌, ◌≢◌, inl, inr, Bool-cases, subst, if◌then◌else◌, not,
}
use agent_state_storage.Base.Map.{find, find-erase_self}
use agent_state_storage.Ingest.Watermark.{Marks, read, drop_mark}
use agent_state_storage.Ingest.Buffer.{Pool, release_handle, get_slot, slot_of, leave, give_back}
use agent_state_storage.Ingest.Seal.{
  Row, Leaf, InsertResult, Node, Request, Result, write_out, sealed, conflict, inserted, replaced,
  path_conflict, persist, index_leaf, publish_and_release, commit, is_empty_path, incomplete_deps,
  empty_path, no_bytes, not_persisted, is_conflict, same_path, without_path, remaining,
}

abbrev pub has_row : ℕ → List Row → Bool
has_row l [] = false
has_row l (r ∷ rs) = (r.locator == l) || has_row l rs

abbrev pub has_leaf : ℕ → List Leaf → Bool
has_leaf l [] = false
has_leaf l (x ∷ xs) = (x.leaf_locator == l) || has_leaf l xs

-- Every chunk in the tree has a row, and so has every chunk announced.
pub record IsDurable (n : Node) : Type 0 where
  pub leaves_persisted : (l : ℕ) → has_leaf l n.leaves ≡ true → has_row l n.rows ≡ true
  pub events_persisted : All (λ l. has_row l n.rows ≡ true) n.events

persist-IsDurable :
    (req : Request) (now : ℕ) (n : Node) → IsDurable n → IsDurable (persist req now n)
unfolding persist
persist-IsDurable req now n d = record {
  leaves_persisted = λ l h. ground (arith, d.leaves_persisted l h);
  events_persisted =
      All-imp (λ l. has_row l n.rows ≡ true) _ n.events (λ l h. ground (arith, h))
        d.events_persisted;
}

has_leaf-without_path :
    (l : ℕ) (path : List ℕ) (leaves : List Leaf)
    → has_leaf l (without_path path leaves) ≡ true
    → has_leaf l leaves ≡ true
has_leaf-without_path l path [] h = h
has_leaf-without_path l path (x ∷ leaves) h = elim (Bool-cases (same_path x.path path)) [
  | inl gone ↦
      let there = has_leaf-without_path l path leaves (
        subst
          (λ b.
            has_leaf l (if not b then x ∷ without_path path leaves else without_path path leaves)
            ≡ true)
          gone h) in
      ground (arith, there)
  | inr stays ↦ ground (
    arith,
    has_leaf-without_path l path leaves,
    subst
        (λ b.
          has_leaf l (if not b then x ∷ without_path path leaves else without_path path leaves)
          ≡ true)
        stays h,
  )
]

has_leaf-remaining :
    (l : ℕ) (answer : InsertResult) (path : List ℕ) (leaves : List Leaf)
    → has_leaf l (remaining answer path leaves) ≡ true
    → has_leaf l leaves ≡ true
has_leaf-remaining l inserted path leaves h = h
has_leaf-remaining l replaced path leaves h = has_leaf-without_path l path leaves h
has_leaf-remaining l path_conflict path leaves h = h

sealed-IsDurable :
    (answer : InsertResult) (req : Request) (now : ℕ) (n : Node)
    → IsDurable n
    → IsDurable (publish_and_release req (index_leaf answer req (persist req now n)))
unfolding publish_and_release index_leaf persist
sealed-IsDurable answer req now n d = record {
  leaves_persisted = λ l h.
      ground (arith, d.leaves_persisted l, has_leaf-remaining l answer req.chunk_path n.leaves, h);
  events_persisted = (
    ground arith,
    All-imp (λ l. has_row l n.rows ≡ true) _ n.events (λ l h. ground (arith, h)) d.events_persisted,
  );
}

write_out-IsDurable :
    (persisted : Bool) (answer : InsertResult) (now : ℕ) (req : Request) (n : Node)
    → IsDurable n
    → IsDurable (write_out persisted answer now req n).0
unfolding write_out
write_out-IsDurable false answer now req n d = d
write_out-IsDurable true path_conflict now req n d = persist-IsDurable req now n d
write_out-IsDurable true inserted now req n d = sealed-IsDurable inserted req now n d
write_out-IsDurable true replaced now req n d = sealed-IsDurable replaced req now n d

-- Whatever the store and the tree answer, a seal that starts where each chunk in the tree and each
-- announced chunk has a row in the durable store ends in such a state, on errors too.
pub commit-IsDurable :
    (has_deps persisted : Bool) (answer : InsertResult) (now : ℕ) (req : Request) (n : Node)
    → IsDurable n
    → IsDurable (commit has_deps persisted answer now req n).0
unfolding commit
commit-IsDurable false persisted answer now req n d = d
commit-IsDurable true persisted answer now req n d =
    elim (Bool-cases (is_empty_path req.chunk_path)) [
      | inl e ↦ rw e d
      | inr e ↦ elim (Bool-cases (read req.handle n.marks == 0)) [
        | inl z ↦ rw e (rw z d)
        | inr z ↦ rw e (rw z (write_out-IsDurable persisted answer now req n d))
      ]
    ]

get_slot-release_handle : (h : ℕ) (p : Pool) → get_slot h (release_handle h p).0 ≡ none
unfolding get_slot release_handle leave give_back
get_slot-release_handle h p = elim (Option-cases (find h p.active)) [
  | inl e ↦ rw e (ap slot_of (find-erase_self h p.active))
  | inr (x, e) ↦ rw e (ap slot_of (find-erase_self h p.active))
]

read-drop_mark : (h : ℕ) (m : Marks) → read h (drop_mark h m).0 ≡ 0
unfolding read drop_mark
read-drop_mark h m = elim (Option-cases (find h m)) [
  | inl e ↦ rw e (rw e refl)
  | inr (x, e) ↦ rw e (rw (find-erase_self h m) refl)
]

-- The error of a seal that changes nothing, and when it is given.
abbrev pub Refused : Bool → Bool → Request → Node → Result → Type 0
Refused has_deps persisted req n result =
    ((has_deps ≡ false) × (result ≡ incomplete_deps))
    ⊎ ((has_deps ≡ true) × (is_empty_path req.chunk_path ≡ true) × (result ≡ empty_path))
    ⊎ ((has_deps ≡ true)
        × (is_empty_path req.chunk_path ≡ false)
        × (read req.handle n.marks ≡ 0)
        × (result ≡ no_bytes))
    ⊎ ((has_deps ≡ true)
        × (is_empty_path req.chunk_path ≡ false)
        × (read req.handle n.marks ≢ 0)
        × (persisted ≡ false)
        × (result ≡ not_persisted))

-- A seal reaches the tree: there is all it needs, and the row was written.
abbrev pub IsWritten : Bool → Bool → Request → Node → Type 0
IsWritten has_deps persisted req n =
    (has_deps ≡ true)
    × (is_empty_path req.chunk_path ≡ false)
    × (read req.handle n.marks ≢ 0)
    × (persisted ≡ true)

-- What the caller of a seal may rely on.
abbrev pub Outcome : Bool → Bool → InsertResult → Request → ℕ → Node → Node × Result → Type 0
Outcome has_deps persisted answer req now n r =
    (IsWritten has_deps persisted req n
      × (is_conflict answer ≡ false)
      × (r.1 ≡ sealed r.0.current_epoch (read req.handle n.marks))
      × (r.0.current_epoch ≡ n.current_epoch + 1)
      × (has_row req.locator r.0.rows ≡ true)
      × (has_leaf req.locator r.0.leaves ≡ true)
      × (r.0.events ≡ req.locator ∷ n.events)
      × (get_slot req.handle r.0.pool ≡ none)
      × (read req.handle r.0.marks ≡ 0))
    ⊎ (IsWritten has_deps persisted req n
        × (is_conflict answer ≡ true)
        × (r.1 ≡ conflict)
        × (r.0 ≡ persist req now n))
    ⊎ (Refused has_deps persisted req n r.1 × (r.0 ≡ n))

write_out-Outcome :
    (persisted : Bool) (answer : InsertResult) (now : ℕ) (req : Request) (n : Node)
    → is_empty_path req.chunk_path ≡ false
    → read req.handle n.marks ≢ 0
    → Outcome true persisted answer req now n (write_out persisted answer now req n)
unfolding write_out publish_and_release index_leaf persist
write_out-Outcome false answer now req n e z =
    inr (inr (inr (inr (inr (refl, e, z, refl, refl))), refl))
write_out-Outcome true path_conflict now req n e z =
    inr (inl ((refl, e, z, refl), refl, refl, refl))
write_out-Outcome true inserted now req n e z = inl (
  (refl, e, z, refl),
  refl,
  refl,
  refl,
  ground arith,
  ground arith,
  refl,
  get_slot-release_handle req.handle n.pool,
  read-drop_mark req.handle n.marks,
)
write_out-Outcome true replaced now req n e z = inl (
  (refl, e, z, refl),
  refl,
  refl,
  refl,
  ground arith,
  ground arith,
  refl,
  get_slot-release_handle req.handle n.pool,
  read-drop_mark req.handle n.marks,
)

the_branch :
    (persisted : Bool) (answer : InsertResult) (now : ℕ) (req : Request) (n : Node)
    → is_empty_path req.chunk_path ≡ false
    → (read req.handle n.marks == 0) ≡ false
    → write_out persisted answer now req n ≡ commit true persisted answer now req n
unfolding commit
the_branch persisted answer now req n e z = rw (e, commit) (rw (z, commit) refl)

-- A seal either is reported: then its row was written, its leaf is in the tree, its chunk was
-- announced, its handle and its mark are gone, the epoch is one later, and the report has that epoch
-- and the mark; or it meets a path conflict, with the row and the epoch written and nothing else; or
-- it changes nothing and says which of the four conditions before the write failed first.
pub commit-Outcome :
    (has_deps persisted : Bool) (answer : InsertResult) (now : ℕ) (req : Request) (n : Node)
    → Outcome has_deps persisted answer req now n (commit has_deps persisted answer now req n)
unfolding commit
commit-Outcome false persisted answer now req n = inr (inr (inl (refl, refl), refl))
commit-Outcome true persisted answer now req n = elim (Bool-cases (is_empty_path req.chunk_path)) [
  | inl e ↦ unfold commit in rw (e, commit) (inr (inr (inr (inl (refl, refl, refl)), refl)))
  | inr e ↦ elim (Bool-cases (read req.handle n.marks == 0)) [
    | inl z ↦
        rw (e, commit)
          (rw (z, commit) (inr (inr (inr (inr (inl (refl, refl, ground (arith, z), refl))), refl))))
    | inr z ↦
        let some_bytes : read req.handle n.marks ≢ 0 = ground (arith, z) in
        let done = write_out-Outcome persisted answer now req n e some_bytes in
        subst (λ r. Outcome true persisted answer req now n r)
          (the_branch persisted answer now req n e z) done
  ]
]
