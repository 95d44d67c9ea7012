-- ===== src/Prefix/Art/Paths.antt =====
-- The index as a map from paths: what an insertion does to the data at each path.
use agent_state_storage.Base.{
  ◌≡◌, refl, sym, ap, ◌∙◌, Bool, true, false, List, [], ◌∷◌, if◌then◌else◌, ◌&&◌, Option, some,
  none, Bool-cases, inl, inr,
}
use agent_state_storage.Prefix.Art.{
  ChunkHash, LeafData, Children, Node, leaf_node, inner_node, child, set_child, no_children, attach,
  data_of, below_of, inner_of, insert_below, find_below,
}
use agent_state_storage.Prefix.Art.Nodes.{same_hash, same_hash_eq, child-set_child}

unfoldable pub same_path : List ChunkHash → List ChunkHash → Bool
same_path [] [] = true
same_path [] (k ∷ q) = false
same_path (h ∷ p) [] = false
same_path (h ∷ p) (k ∷ q) = same_hash h k && same_path p q

pub find_below-no_children : (q : List ChunkHash) → find_below q no_children ≡ none
unfolding find_below child
find_below-no_children [] = refl
find_below-no_children (k ∷ []) = refl
find_below-no_children (k ∷ j ∷ q) = refl

below_lem :
    (q : List ChunkHash) (o : Option Node)
    → (elim (inner_of o) as (λ _. Option LeafData) [
      | none ↦ none
      | some below ↦ find_below q below
    ])
      ≡ find_below q (below_of o)
below_lem q none = sym (find_below-no_children q)
below_lem q (some (leaf_node d)) = sym (find_below-no_children q)
below_lem q (some (inner_node e below)) = refl

-- A longer path reads below the node of its first hash.
pub find_below_cons :
    (k j : ChunkHash) (q : List ChunkHash) (cs : Children)
    → find_below (k ∷ j ∷ q) cs ≡ find_below (j ∷ q) (below_of (child k cs))
unfolding find_below
find_below_cons k j q cs = below_lem (j ∷ q) (child k cs)

-- The node that the terminal hop leaves.
abbrev attached : LeafData → Option Node → Node
attached d (some (inner_node e below)) = inner_node (some d) below
attached d (some (leaf_node old)) = leaf_node d
attached d none = leaf_node d

attach_children :
    (h : ChunkHash) (d : LeafData) (cs : Children) (o : Option Node)
    → (attach h d cs o).0 ≡ set_child h (attached d o) cs
attach_children h d cs (some (inner_node e below)) = refl
attach_children h d cs (some (leaf_node old)) = refl
attach_children h d cs none = refl

attached-data_of : (d : LeafData) (o : Option Node) → data_of (some (attached d o)) ≡ some d
attached-data_of d (some (inner_node e below)) = refl
attached-data_of d (some (leaf_node old)) = refl
attached-data_of d none = refl

attached-below_of : (d : LeafData) (o : Option Node) → below_of (some (attached d o)) ≡ below_of o
attached-below_of d (some (inner_node e below)) = refl
attached-below_of d (some (leaf_node old)) = refl
attached-below_of d none = refl

-- What the rest of a path reads below the node of its first hash.
abbrev pub read : List ChunkHash → Option Node → Option LeafData
read [] o = data_of o
read (j ∷ q) o = find_below (j ∷ q) (below_of o)

pub find_below-read :
    (k : ChunkHash) (q : List ChunkHash) (cs : Children)
    → find_below (k ∷ q) cs ≡ read q (child k cs)
unfolding find_below
find_below-read k [] cs = refl
find_below-read k (j ∷ q) cs = find_below_cons k j q cs

-- Setting the node of a hash changes what the paths read that begin with it.
pub find_below-set_child :
    (h k : ChunkHash) (q : List ChunkHash) (n : Node) (cs : Children) (v : Option LeafData)
    (b : Bool)
    → read q (some n) ≡ (if b then v else read q (child h cs))
    → find_below (k ∷ q) (set_child h n cs)
      ≡ (if same_hash h k && b then v else find_below (k ∷ q) cs)
find_below-set_child h k q n cs v b e = elim (Bool-cases (same_hash h k)) [
  | inl y ↦
      let now : find_below (k ∷ q) (set_child h n cs) ≡ read q (some n) =
        find_below-read k q (set_child h n cs)
        ∙ ap (read q) (child-set_child h k n cs ∙ ap (λ t. if t then some n else child k cs) y) in
      let was : read q (child h cs) ≡ find_below (k ∷ q) cs =
        ap (λ x. read q (child x cs)) (same_hash_eq h k y) ∙ sym (find_below-read k q cs) in
      rw y (now ∙ e ∙ ap (λ x. if b then v else x) was)
  | inr m ↦ rw m (
      find_below-read k q (set_child h n cs)
      ∙ ap (read q) (child-set_child h k n cs ∙ ap (λ t. if t then some n else child k cs) m)
      ∙ sym (find_below-read k q cs))
]

attached-read :
    (q : List ChunkHash) (d : LeafData) (o : Option Node)
    → read q (some (attached d o)) ≡ (if same_path [] q then some d else read q o)
unfolding same_path
attached-read [] d o = attached-data_of d o
attached-read (j ∷ q) d o = ap (find_below (j ∷ q)) (attached-below_of d o)

descended :
    (g : ChunkHash) (p : List ChunkHash) (d : LeafData)
    → ((q : List ChunkHash) (e : LeafData) (cs : Children)
        → find_below q (insert_below (g ∷ p) e cs).0
          ≡ (if same_path (g ∷ p) q then some e else find_below q cs))
    → (q : List ChunkHash) (n : Option Node)
    → read q (some (inner_node (data_of n) (insert_below (g ∷ p) d (below_of n)).0))
      ≡ (if same_path (g ∷ p) q then some d else read q n)
unfolding same_path
descended g p d ih [] n = refl
descended g p d ih (j ∷ q) n = ih (j ∷ q) d (below_of n)

-- What an insertion does to the data at every path.
pub find_below-insert_below :
    (h : ChunkHash) (p q : List ChunkHash) (d : LeafData) (cs : Children)
    → find_below q (insert_below (h ∷ p) d cs).0
      ≡ (if same_path (h ∷ p) q then some d else find_below q cs)
unfolding insert_below same_path find_below
find_below-insert_below h [] [] d cs = refl
find_below-insert_below h (g ∷ p) [] d cs = refl
find_below-insert_below h [] (k ∷ q) d cs =
    ap (find_below (k ∷ q)) (attach_children h d cs (child h cs))
    ∙ find_below-set_child h k q (attached d (child h cs)) cs (some d) (same_path [] q)
        (attached-read q d (child h cs))
find_below-insert_below h (g ∷ p) (k ∷ q) d cs =
    let n = child h cs in
    find_below-set_child h k q (inner_node (data_of n) (insert_below (g ∷ p) d (below_of n)).0) cs
      (some d) (same_path (g ∷ p) q) (descended g p d (find_below-insert_below g p) q n)
