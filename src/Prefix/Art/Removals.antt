-- ===== src/Prefix/Art/Removals.antt =====
-- A removal against a map from paths.
use agent_state_storage.Base.{
  ◌≡◌, refl, sym, ap, ap₂, ◌∙◌, Bool, true, false, List, [], ◌∷◌, if◌then◌else◌, ◌&&◌, Option, some,
  none, is_some, arith, Bool-cases, Option-cases, inl, inr, subst,
}
use agent_state_storage.Prefix.Art.{
  ChunkHash, LeafData, Children, Node, leaf_node, inner_node, child, set_child, drop_child, detach,
  data_of, find_below, remove_below, ArtIndex, remove, lookup_by_path,
}
use agent_state_storage.Prefix.Art.Nodes.{
  same_hash, same_hash_eq, AreDistinct, OptionIsDistinct, child-IsDistinct, set_child-AreDistinct,
  drop_child-AreDistinct, child-drop_child,
}
use agent_state_storage.Prefix.Art.Paths.{
  same_path, read, find_below-read, find_below-set_child, find_below-no_children,
}
use agent_state_storage.Prefix.Art.Inserts.{IsValid}

detached-read :
    (q : List ChunkHash) (e : LeafData) (below : Children)
    → read q (some (inner_node none below))
      ≡ (if same_path [] q then none else read q (some (inner_node (some e) below)))
unfolding same_path
detached-read [] e below = refl
detached-read (j ∷ q) e below = refl

leaf_read :
    (q : List ChunkHash) (d : LeafData)
    → read q none ≡ (if same_path [] q then none else read q (some (leaf_node d)))
unfolding same_path
leaf_read [] d = refl
leaf_read (j ∷ q) d = refl

-- A path below a leaf has no data.
find_below-drop_child :
    (h k : ChunkHash) (q : List ChunkHash) (d : LeafData) (cs : Children)
    → AreDistinct cs
    → child h cs ≡ some (leaf_node d)
    → find_below (k ∷ q) (drop_child h cs)
      ≡ (if same_hash h k && same_path [] q then none else find_below (k ∷ q) cs)
unfolding same_path
find_below-drop_child h k q d cs v e = elim (Bool-cases (same_hash h k)) [
  | inl y ↦
      let was : read q (some (leaf_node d)) ≡ find_below (k ∷ q) cs =
        ap (read q) (sym e ∙ ap (λ x. child x cs) (same_hash_eq h k y))
        ∙ sym (find_below-read k q cs) in
      rw y (
        find_below-read k q (drop_child h cs)
        ∙ ap (read q) (child-drop_child h k cs v ∙ ap (λ t. if t then none else child k cs) y)
        ∙ leaf_read q d
        ∙ ap (λ x. if same_path [] q then none else x) was)
  | inr m ↦ rw m (
      find_below-read k q (drop_child h cs)
      ∙ ap (read q) (child-drop_child h k cs v ∙ ap (λ t. if t then none else child k cs) m)
      ∙ sym (find_below-read k q cs))
]

same_path_eq : (p q : List ChunkHash) → same_path p q ≡ true → p ≡ q
unfolding same_path
same_path_eq [] [] e = refl
same_path_eq [] (k ∷ q) e = cc
same_path_eq (h ∷ p) [] e = cc
same_path_eq (h ∷ p) (k ∷ q) e = elim (Bool-cases (same_hash h k)) [
  | inl y ↦ ap₂ ◌∷◌ (same_hash_eq h k y) (same_path_eq p q (ground (arith, e, y)))
  | inr m ↦ ground (arith, e, m)
]

-- Where there is no data, taking it away changes nothing.
absent :
    (p q : List ChunkHash) (cs : Children)
    → find_below p cs ≡ none
    → find_below q cs ≡ (if same_path p q then none else find_below q cs)
absent p q cs e = elim (Bool-cases (same_path p q)) [
  | inl y ↦ rw y (ap (λ x. find_below x cs) (sym (same_path_eq p q y)) ∙ e)
  | inr m ↦ rw m refl
]

-- What a removal says and does, at each path.
abbrev Removed : List ChunkHash → Children → Children × Bool → Type 0
Removed p cs r =
    AreDistinct r.0
    × ((q : List ChunkHash) → find_below q r.0 ≡ (if same_path p q then none else find_below q cs))
    × (r.1 ≡ is_some (find_below p cs))

unremoved :
    (p : List ChunkHash) (cs : Children)
    → AreDistinct cs
    → find_below p cs ≡ none
    → Removed p cs (cs, false)
unremoved p cs v e = (v, λ q. absent p q cs e, rw e refl)

cleared :
    (h : ChunkHash) (d : LeafData) (below cs : Children)
    → child h cs ≡ some (inner_node (some d) below)
    → (q : List ChunkHash)
    → find_below q (set_child h (inner_node none below) cs)
      ≡ (if same_path (h ∷ []) q then none else find_below q cs)
unfolding same_path find_below
cleared h d below cs e [] = refl
cleared h d below cs e (k ∷ q) =
    find_below-set_child h k q (inner_node none below) cs none (same_path [] q)
      (detached-read q d below ∙ ap (λ x. if same_path [] q then none else read q x) (sym e))

dropped :
    (h : ChunkHash) (d : LeafData) (cs : Children)
    → AreDistinct cs
    → child h cs ≡ some (leaf_node d)
    → (q : List ChunkHash)
    → find_below q (drop_child h cs) ≡ (if same_path (h ∷ []) q then none else find_below q cs)
unfolding same_path find_below
dropped h d cs v e [] = refl
dropped h d cs v e (k ∷ q) = find_below-drop_child h k q d cs v e

detach-Removed :
    (h : ChunkHash) (cs : Children) (o : Option Node)
    → child h cs ≡ o
    → AreDistinct cs
    → Removed (h ∷ []) cs (detach h cs o)
detach-Removed h cs none e v = unremoved (h ∷ []) cs v (find_below-read h [] cs ∙ ap data_of e)
detach-Removed h cs (some (inner_node none below)) e v =
    unremoved (h ∷ []) cs v (find_below-read h [] cs ∙ ap data_of e)
detach-Removed h cs (some (inner_node (some d) below)) e v = (
  set_child-AreDistinct h (inner_node none below) cs
      (subst OptionIsDistinct e (child-IsDistinct h cs v)) v,
  cleared h d below cs e,
  sym (ap is_some (find_below-read h [] cs ∙ ap data_of e)),
)
detach-Removed h cs (some (leaf_node d)) e v = (
  drop_child-AreDistinct h cs v,
  dropped h d cs v e,
  sym (ap is_some (find_below-read h [] cs ∙ ap data_of e)),
)

is_some-false {ℓ} : {A : Type ℓ} (o : Option A) → false ≡ is_some o → o ≡ none
is_some-false none h = refl
is_some-false (some a) h = cc

nothing : (cs : Children) → find_below [] cs ≡ none
unfolding find_below
nothing cs = refl

read_removed :
    (g : ChunkHash) (p q : List ChunkHash) (emb : Option LeafData) (below after : Children)
    → ((q : List ChunkHash)
        → find_below q after ≡ (if same_path (g ∷ p) q then none else find_below q below))
    → read q (some (inner_node emb after))
      ≡ (if same_path (g ∷ p) q then none else read q (some (inner_node emb below)))
unfolding same_path
read_removed g p [] emb below after h = refl
read_removed g p (j ∷ q) emb below after h = h (j ∷ q)

below_paths :
    (h g : ChunkHash) (p : List ChunkHash) (emb : Option LeafData) (below after cs : Children)
    → child h cs ≡ some (inner_node emb below)
    → ((q : List ChunkHash)
        → find_below q after ≡ (if same_path (g ∷ p) q then none else find_below q below))
    → (q : List ChunkHash)
    → find_below q (set_child h (inner_node emb after) cs)
      ≡ (if same_path (h ∷ g ∷ p) q then none else find_below q cs)
unfolding same_path find_below
below_paths h g p emb below after cs e r [] = refl
below_paths h g p emb below after cs e r (k ∷ q) =
    find_below-set_child h k q (inner_node emb after) cs none (same_path (g ∷ p) q) (
      read_removed g p q emb below after r
      ∙ ap (λ x. if same_path (g ∷ p) q then none else read q x) (sym e))

Removed-below :
    (h g : ChunkHash) (p : List ChunkHash) (emb : Option LeafData) (below cs : Children)
    → child h cs ≡ some (inner_node emb below)
    → AreDistinct cs
    → (r : Children × Bool) → Removed (g ∷ p) below r
    → Removed (h ∷ g ∷ p) cs (if r.1 then set_child h (inner_node emb r.0) cs else cs, r.1)
Removed-below h g p emb below cs e v (after, true) r = (
  set_child-AreDistinct h (inner_node emb after) cs r.0 v,
  below_paths h g p emb below after cs e r.1,
  r.2 ∙ sym (ap is_some (find_below-read h (g ∷ p) cs ∙ ap (read (g ∷ p)) e)),
)
Removed-below h g p emb below cs e v (after, false) r = unremoved (h ∷ g ∷ p) cs v (
    find_below-read h (g ∷ p) cs
    ∙ ap (read (g ∷ p)) e
    ∙ is_some-false (find_below (g ∷ p) below) r.2)

remove_below-Removed :
    (p : List ChunkHash) (cs : Children) → AreDistinct cs → Removed p cs (remove_below p cs)
unfolding remove_below
remove_below-Removed [] cs v = unremoved [] cs v (nothing cs)
remove_below-Removed (h ∷ []) cs v = detach-Removed h cs (child h cs) refl v
remove_below-Removed (h ∷ g ∷ p) cs v = elim (Option-cases (child h cs)) [
  | inl e ↦
      rw (e, remove_below)
        (unremoved (h ∷ g ∷ p) cs v
          (find_below-read h (g ∷ p) cs ∙ ap (read (g ∷ p)) e ∙ find_below-no_children (g ∷ p)))
  | inr (leaf_node d, e) ↦
      rw (e, remove_below)
        (unremoved (h ∷ g ∷ p) cs v
          (find_below-read h (g ∷ p) cs ∙ ap (read (g ∷ p)) e ∙ find_below-no_children (g ∷ p)))
  | inr (inner_node emb below, e) ↦
      rw (e, remove_below)
        (Removed-below h g p emb below cs e v (remove_below (g ∷ p) below)
          (remove_below-Removed (g ∷ p) below (subst OptionIsDistinct e (child-IsDistinct h cs v))))
]

-- A removal takes the data of its path away and no other, keeps the index valid, and tells whether
-- there was data.
pub remove_lem :
    (p : List ChunkHash) (art : ArtIndex)
    → IsValid art
    → IsValid (remove p art).0
      × ((q : List ChunkHash)
          → lookup_by_path q (remove p art).0
            ≡ (if same_path p q then none else lookup_by_path q art))
      × ((remove p art).1 ≡ is_some (lookup_by_path p art))
unfolding remove lookup_by_path
remove_lem p art v =
    let r = remove_below-Removed p art.root v.distinct in (record { distinct = r.0 }, r.1, r.2)
