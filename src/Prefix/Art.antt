-- ===== src/Prefix/Art.antt =====
-- `ArtIndex` of src/kvstore-node/src/prefix/art_index.{h,cpp} and art_index_internal.h. A chunk hash is
-- its first byte, the slot, and its other seven as one number, the tail. The writers hold a mutex;
-- a lookup takes no lock and is modelled with no writer at work, since an insertion that demotes a leaf
-- and a removal are several stores. The epochs that keep retired nodes alive are left out. A node's `chain_next` is its last argument; the array of children is a
-- function from slots.
pub mod Nodes
pub mod Paths
pub mod Inserts
pub mod Removals
pub mod Longest
use agent_state_storage.Base.{
  ℕ, zero, suc, ◌+◌, ◌-◌, ◌≡◌, Bool, true, false, List, [], ◌∷◌, ◌==◌, if◌then◌else◌, ◌&&◌, Option,
  some, none, is_some,
}

pub record ChunkHash : Type 0 where
  pub slot : ℕ
  pub tail : ℕ

-- Without the reference count and the access time, which no operation here reads.
pub record LeafData : Type 0 where
  pub locator : ℕ
  pub residency : ℕ
  pub sealed_at : ℕ
  pub bytes_total : ℕ

-- A sibling chain: `ArtLeaf` and `ArtInner256` with the edge's tail.
pub data Chain : Type 0 where
  null : Chain
  leaf : (tail : ℕ) → LeafData → (next : Chain) → Chain
  inner :
      (tail : ℕ) → (embedded : Option LeafData) → (children : ℕ → Chain) → (next : Chain) → Chain

abbrev pub Children : Type 0
Children = ℕ → Chain

-- A node without its edge and its place in the chain.
pub data Node : Type 0 where
  leaf_node : LeafData → Node
  inner_node : Option LeafData → Children → Node

-- `WalkChain`
unfoldable pub walk_chain : ℕ → Chain → Option Node
walk_chain t null = none
walk_chain t (leaf u d next) = if u == t then some (leaf_node d) else walk_chain t next
walk_chain t (inner u e cs next) = if u == t then some (inner_node e cs) else walk_chain t next

-- A node with an edge and the rest of a chain.
abbrev pub linked : ℕ → Node → Chain → Chain
linked t (leaf_node d) next = leaf t d next
linked t (inner_node e cs) next = inner t e cs next

-- The node spliced in where the tail stands, or appended at the end of the chain.
unfoldable pub splice : ℕ → Node → Chain → Chain
splice t n null = linked t n null
splice t n (leaf u d next) = if u == t then linked t n next else leaf u d (splice t n next)
splice t n (inner u e cs next) = if u == t then linked t n next else inner u e cs (splice t n next)

unfoldable pub unlink : ℕ → Chain → Chain
unlink t null = null
unlink t (leaf u d next) = if u == t then next else leaf u d (unlink t next)
unlink t (inner u e cs next) = if u == t then next else inner u e cs (unlink t next)

-- The node below an inner node along a hash.
unfoldable pub child : ChunkHash → Children → Option Node
unfolding walk_chain
child h cs = walk_chain h.tail (cs h.slot)

unfoldable pub set_child : ChunkHash → Node → Children → Children
unfolding splice
set_child h n cs s = if s == h.slot then splice h.tail n (cs s) else cs s

unfoldable pub drop_child : ChunkHash → Children → Children
unfolding unlink
drop_child h cs s = if s == h.slot then unlink h.tail (cs s) else cs s

abbrev pub no_children : Children
no_children s = null

pub data InsertResult : Type 0 where
  inserted replaced path_conflict : InsertResult

-- The terminal hop of `Insert`.
abbrev pub attach : ChunkHash → LeafData → Children → Option Node → Children × InsertResult
attach h d cs (some (inner_node e below)) =
    (set_child h (inner_node (some d) below) cs, if is_some e then replaced else inserted)
attach h d cs (some (leaf_node old)) = (set_child h (leaf_node d) cs, replaced)
attach h d cs none = (set_child h (leaf_node d) cs, inserted)

-- What a walk of `Insert` descends into: a terminal leaf is demoted into an inner node that carries
-- its data, and a missing node is created.
abbrev pub data_of : Option Node → Option LeafData
data_of (some (leaf_node d)) = some d
data_of (some (inner_node e below)) = e
data_of none = none

abbrev pub below_of : Option Node → Children
below_of (some (leaf_node d)) = no_children
below_of (some (inner_node e below)) = below
below_of none = no_children

-- The inner nodes that a hop creates.
abbrev pub created : Option Node → ℕ
created (some (inner_node e below)) = 0
created (some (leaf_node d)) = 1
created none = 1

unfoldable pub insert_below : List ChunkHash → LeafData → Children → Children × InsertResult × ℕ
unfolding child set_child
insert_below [] d cs = (cs, path_conflict, 0)
insert_below (h ∷ []) d cs = let r = attach h d cs (child h cs) in (r.0, r.1, 0)
insert_below (h ∷ g ∷ path) d cs =
    let n = child h cs in
    let r = insert_below (g ∷ path) d (below_of n) in
    (set_child h (inner_node (data_of n) r.0) cs, r.1, created n + r.2)

pub record ArtIndex : Type 0 where
  pub root : Children
  pub leaf_count : ℕ
  pub node_count : ℕ

unfoldable pub empty : ArtIndex
empty = record { root = no_children; leaf_count = 0; node_count = 0 }

abbrev pub gained : InsertResult → ℕ
gained inserted = 1
gained replaced = 0
gained path_conflict = 0

unfoldable pub insert : List ChunkHash → LeafData → ArtIndex → ArtIndex × InsertResult
unfolding insert_below
insert path d art =
    let r = insert_below path d art.root in
    (
      record {
        root = r.0;
        leaf_count = art.leaf_count + gained r.1;
        node_count = art.node_count + r.2;
      },
      r.1,
    )

abbrev pub detach : ChunkHash → Children → Option Node → Children × Bool
detach h cs (some (inner_node (some d) below)) = (set_child h (inner_node none below) cs, true)
detach h cs (some (inner_node none below)) = (cs, false)
detach h cs (some (leaf_node d)) = (drop_child h cs, true)
detach h cs none = (cs, false)

unfoldable pub remove_below : List ChunkHash → Children → Children × Bool
unfolding child set_child drop_child
remove_below [] cs = (cs, false)
remove_below (h ∷ []) cs = detach h cs (child h cs)
remove_below (h ∷ g ∷ path) cs = elim (child h cs) [
  | none ↦ (cs, false)
  | some n ↦ elim n [
    | leaf_node d ↦ (cs, false)
    | inner_node e below ↦
        let r = remove_below (g ∷ path) below in
        (if r.1 then set_child h (inner_node e r.0) cs else cs, r.1)
  ]
]

unfoldable pub remove : List ChunkHash → ArtIndex → ArtIndex × Bool
unfolding remove_below
remove path art =
    let r = remove_below path art.root in
    (
      record art { root = r.0; leaf_count = if r.1 then art.leaf_count - 1 else art.leaf_count },
      r.1,
    )

abbrev pub inner_of : Option Node → Option Children
inner_of (some (inner_node e below)) = some below
inner_of (some (leaf_node d)) = none
inner_of none = none

unfoldable pub find_below : List ChunkHash → Children → Option LeafData
unfolding child
find_below [] cs = none
find_below (h ∷ []) cs = data_of (child h cs)
find_below (h ∷ g ∷ path) cs = elim (inner_of (child h cs)) [
  | none ↦ none
  | some below ↦ find_below (g ∷ path) below
]

unfoldable pub lookup_by_path : List ChunkHash → ArtIndex → Option LeafData
unfolding find_below
lookup_by_path path art = find_below path art.root

-- The loop of `Lookup` from chunk `i` on, with the best match so far.
unfoldable pub lookup_below :
    List ChunkHash → ℕ → ℕ × Option LeafData → Children → ℕ × Option LeafData
unfolding child
lookup_below [] i best cs = best
lookup_below (h ∷ path) i best cs = elim (child h cs) [
  | none ↦ best
  | some n ↦ elim n [
    | leaf_node d ↦ (i + 1, some d)
    | inner_node e below ↦ lookup_below path (i + 1) (if is_some e then (i + 1, e) else best) below
  ]
]

unfoldable pub lookup : List ChunkHash → ArtIndex → ℕ × Option LeafData
unfolding lookup_below
lookup path art = lookup_below path 0 (0, none) art.root
