-- ===== src/Session/Service/Items/Appends.antt =====
-- `AppendItems` appends to the session's list.
use mathlib.Core.List.{append_assoc, append-nil, map-append}
use agent_state_storage.Base.{
  ℕ, ◌+◌, ◌%◌, ◌≤◌, ◌<◌, ◌≡◌, refl, sym, ap, subst, ◌∙◌, true, false, Option, none, some, List, [],
  ◌∷◌, ◌++◌, length, map, All, All-imp, All-append, Bool-cases, ◌⊎◌, inl, inr, arith,
}
use agent_state_storage.Base.Bytes.{u64_mod}
use agent_state_storage.Session.Codec.{Mutation, put}
use agent_state_storage.Session.Key.{key_eq, key_eq_iff, key_lt, prefix_matches}
use agent_state_storage.Session.Table.{
  Table, Live, IsSorted, find, assign, apply_at, apply_mutation, apply_to_map,
}
use agent_state_storage.Session.Table.Apply.{IsValid, apply_mutation-IsValid, written}
use agent_state_storage.Session.Scan.{scan}
use agent_state_storage.Session.Store.{Store, apply, get}
use agent_state_storage.Session.Store.Invariant.{IsDurable, live-IsValid}
use agent_state_storage.Session.Store.Durability.{Fits, apply-Commits}
use agent_state_storage.Session.Store.Deletion.{get-apply}
use agent_state_storage.Session.Service.{put_u64_be, internal, answered, refused, Io}
use agent_state_storage.Session.Service.Keys.{matches_append}
use agent_state_storage.Session.Key.Prefix.{matches_nil}
use agent_state_storage.Session.Service.Items.{newest, next_seq, item_puts, seq_after, append_under}
use agent_state_storage.Session.Service.Items.Listing.{
  under, items_of, Numbered, IsListing, numbered-lt, under-assign, next_seq-IsListing,
}

table_of_put :
    (s : Live) (k v : List ℕ)
    → (apply_mutation s (record { op = put; key = k; value = v })).table ≡ assign k v s.table
unfolding apply_mutation
table_of_put s k v = go (find k s.table)
  where
    go : (o : Option (List ℕ)) → (apply_at put o k v s).table ≡ assign k v s.table
    go none = unfold apply_at in refl
    go (some old) = unfold apply_at in refl

pub matches_numbered : (p : List ℕ) (n : ℕ) → prefix_matches (p ++ put_u64_be n) p ≡ true
matches_numbered p n =
    ap (prefix_matches (p ++ put_u64_be n)) (sym (append-nil p))
    ∙ matches_append p (put_u64_be n) []
    ∙ matches_nil (put_u64_be n)

-- One item.
put_one :
    (p item : List ℕ) (seq : ℕ) (m : Table)
    → IsSorted m
    → seq < u64_mod
    → IsListing p seq m
    → under p (assign (p ++ put_u64_be seq) item m)
      ≡ under p m ++ ((p ++ put_u64_be seq, item) ∷ [])
put_one p item seq m s small listed =
    under-assign p (p ++ put_u64_be seq) item m s (matches_numbered p seq) (
      All-imp (Numbered p seq) (λ e. key_lt e.0 (p ++ put_u64_be seq) ≡ true) (under p m)
        (λ e (n, l, key). rw key (numbered-lt p n seq small l)) listed)

put_one-IsListing :
    (p item : List ℕ) (seq : ℕ) (m : Table)
    → IsSorted m
    → seq < u64_mod
    → IsListing p seq m
    → IsListing p (seq + 1) (assign (p ++ put_u64_be seq) item m)
put_one-IsListing p item seq m s small listed =
    subst (All (Numbered p (seq + 1))) (sym (put_one p item seq m s small listed)) (
      All-append (Numbered p (seq + 1)) (under p m) ((p ++ put_u64_be seq, item) ∷ [])
        (All-imp (Numbered p seq) (Numbered p (seq + 1)) (under p m)
          (λ e (n, l, key). (n, omega arith, key)) listed)
        ((seq, omega arith, refl), tt))

-- What the batch of an append leaves, and the number after it.
abbrev IsAppended : List ℕ → List (List ℕ) → ℕ → Live → Live → ℕ → Type 0
IsAppended p items seq s s' after =
    (items_of p s'.table ≡ items_of p s.table ++ items)
    × IsListing p (seq + length items) s'.table
    × (after ≡ seq + length items)

put_all :
    (p : List ℕ) (items : List (List ℕ)) (seq : ℕ) (s : Live)
    → IsValid s
    → seq + length items < u64_mod
    → IsListing p seq s.table
    → IsAppended p items seq s (apply_to_map s (item_puts p seq items)) (seq_after seq items)
unfolding apply_to_map
put_all p [] seq s v room listed =
    let same : seq ≡ seq + 0 = omega arith in
    (sym (append-nil (items_of p s.table)), subst (λ t. IsListing p t s.table) same listed, same)
put_all p (item ∷ items) seq s v room listed =
    let m : Mutation = record { op = put; key = p ++ put_u64_be seq; value = item } in
    let next : (seq + 1) % u64_mod ≡ seq + 1 = omega arith in
    let table = table_of_put s (p ++ put_u64_be seq) item in
    let listed' : IsListing p (seq + 1) (apply_mutation s m).table =
      subst (IsListing p (seq + 1)) (sym table)
        (put_one-IsListing p item seq s.table v.sorted (omega arith) listed) in
    let (more, listed'', after) =
      put_all p items (seq + 1) (apply_mutation s m) (apply_mutation-IsValid s m v) (omega arith)
        listed' in
    let first : items_of p (apply_mutation s m).table ≡ items_of p s.table ++ (item ∷ []) =
      ap (items_of p) table
      ∙ ap (map (λ e. e.1)) (put_one p item seq s.table v.sorted (omega arith) listed)
      ∙ map-append (λ (e : List ℕ × List ℕ). e.1) (under p s.table)
          ((p ++ put_u64_be seq, item) ∷ []) in
    let total : seq + 1 + length items ≡ seq + length (item ∷ items) = omega arith in
    subst
      (λ n.
        IsAppended p (item ∷ items) seq s (apply_to_map (apply_mutation s m) (item_puts p n items))
          (seq_after n items))
      (sym next)
      (
        more ∙ ap (λ t. t ++ items) first ∙ append_assoc (items_of p s.table) (item ∷ []) items,
        subst
            (λ t.
              IsListing p t (apply_to_map (apply_mutation s m) (item_puts p (seq + 1) items)).table)
            total listed'',
        after ∙ total,
      )

written_elsewhere :
    (p q : List ℕ) (items : List (List ℕ)) (seq : ℕ) (old : Option (List ℕ))
    → prefix_matches q p ≡ false
    → written q old (item_puts p seq items) ≡ old
unfolding written
written_elsewhere p q [] seq old h = refl
written_elsewhere p q (item ∷ items) seq old h =
    let ne : key_eq q (p ++ put_u64_be seq) ≡ false =
      ground (arith, key_eq_iff q (p ++ put_u64_be seq), matches_numbered p seq) in
    rw (ne, written) (written_elsewhere p q items ((seq + 1) % u64_mod) old h)

-- `AppendItems` on a sound durable store whose error path works, for a session whose items are
-- numbered below `top`: it answers, the session's list has the items appended, no other key reads
-- differently, and the reply is the number that the next item will get; or it reports an error, and
-- the store is as it was.
pub append_under-appends :
    (io : Io) (p : List ℕ) (items : List (List ℕ)) (top : ℕ) (s : Store)
    → s.durable ≡ true
    → IsDurable s
    → Fits s (item_puts p (next_seq p (scan (newest p) s.live.table).0) items)
    → io.append_io.ftruncate_ok ≡ true
    → io.append_io.lseek_ok ≡ true
    → 0 < top
    → IsListing p top s.live.table
    → top + length items < u64_mod
    → let r = append_under io p items s in
      ((seq : ℕ) × (r.0 ≡ answered seq)
        × (items_of p r.1.live.table ≡ items_of p s.live.table ++ items)
        × IsListing p seq r.1.live.table
        × (seq ≤ top + length items)
        × IsDurable r.1
        × ((q : List ℕ) → prefix_matches q p ≡ false → get r.1 q ≡ get s q))
      ⊎ ((r.0 ≡ refused internal) × (r.1 ≡ s))
unfolding append_under
append_under-appends io p items top s live d f t l pos listed room =
    let seq = next_seq p (scan (newest p) s.live.table).0 in
    let batch = item_puts p seq items in
    let c = apply-Commits io.append_io io.compact_io s batch live d f t l in
    let v = live-IsValid d in
    let (numbered, most) =
      next_seq-IsListing p top s.live.table v.sorted pos (omega arith) listed in
    let (more, listed', after) = put_all p items seq s.live v (omega arith) numbered in
    elim (Bool-cases (apply io.append_io io.compact_io s batch).0) [
      | inr failed ↦ rw (failed, c.on_failure failed) (inr (refl, refl))
      | inl ok ↦
          let same = c.on_success ok in
          rw ok (
            inl (
              seq + length items,
              ap answered after,
              ap (λ (x : Live). items_of p x.table) same ∙ more,
              subst (λ (x : Live). IsListing p (seq + length items) x.table) (sym same) listed',
              omega arith,
              c.durable_after,
              λ q h.
                  get-apply io.append_io io.compact_io s batch q live d f t l ok
                  ∙ written_elsewhere p q items seq (get s q) h,
            ))
    ]
