-- ===== src/Prefix/Art/Nodes.antt =====
-- The chains of a slot and the children of a node as maps from hashes.
use agent_state_storage.Base.{
  ℕ, ◌≡◌, refl, Bool, true, ◌==◌, if◌then◌else◌, ◌&&◌, Option, some, none, arith, Bool-cases, inl,
  inr, ==_iff, subst,
}
use agent_state_storage.Prefix.Art.{
  ChunkHash, Chain, null, leaf, inner, Children, Node, leaf_node, inner_node, walk_chain, linked,
  splice, unlink, child, set_child, drop_child, no_children,
}

unfoldable pub same_hash : ChunkHash → ChunkHash → Bool
same_hash h k = (h.slot == k.slot) && (h.tail == k.tail)

pub same_hash_eq : (h k : ChunkHash) → same_hash h k ≡ true → h ≡ k
unfolding same_hash
same_hash_eq h k e = ground arith

pub same_hash_self : (h : ChunkHash) → same_hash h h ≡ true
unfolding same_hash
same_hash_self h = ground arith

walk_chain-linked :
    (t u : ℕ) (n : Node) (next : Chain)
    → walk_chain u (linked t n next) ≡ (if t == u then some n else walk_chain u next)
unfolding walk_chain
walk_chain-linked t u (leaf_node d) next = refl
walk_chain-linked t u (inner_node e cs) next = refl

walk_chain-splice :
    (t u : ℕ) (n : Node) (c : Chain)
    → walk_chain u (splice t n c) ≡ (if t == u then some n else walk_chain u c)
unfolding walk_chain splice
walk_chain-splice t u n null = walk_chain-linked t u n null
walk_chain-splice t u n (leaf v d next) =
    ground (arith, walk_chain-linked t u n next, walk_chain-splice t u n next)
walk_chain-splice t u n (inner v e cs next) =
    ground (arith, walk_chain-linked t u n next, walk_chain-splice t u n next)

-- No tail stands twice in a chain, at any depth.
abbrev pub IsDistinct : Chain → Type 0
IsDistinct null = Unit
IsDistinct (leaf t d next) = (walk_chain t next ≡ none) × IsDistinct next
IsDistinct (inner t e cs next) =
    (walk_chain t next ≡ none) × ((s : ℕ) → IsDistinct (cs s)) × IsDistinct next

walk_chain-unlink :
    (t u : ℕ) (c : Chain)
    → IsDistinct c
    → walk_chain u (unlink t c) ≡ (if t == u then none else walk_chain u c)
unfolding walk_chain unlink
walk_chain-unlink t u null h = ground arith
walk_chain-unlink t u (leaf v d next) h = ground (arith, h.0, walk_chain-unlink t u next h.1)
walk_chain-unlink t u (inner v e cs next) h = ground (arith, h.0, walk_chain-unlink t u next h.2)

pub child-set_child :
    (h k : ChunkHash) (n : Node) (cs : Children)
    → child k (set_child h n cs) ≡ (if same_hash h k then some n else child k cs)
unfolding child set_child same_hash
child-set_child h k n cs = ground (arith, walk_chain-splice h.tail k.tail n (cs h.slot))

-- The same for a node, and for the children of a node.
abbrev pub AreDistinct : Children → Type 0
AreDistinct cs = (s : ℕ) → IsDistinct (cs s)

abbrev pub NodeIsDistinct : Node → Type 0
NodeIsDistinct (leaf_node d) = Unit
NodeIsDistinct (inner_node e cs) = AreDistinct cs

abbrev pub OptionIsDistinct : Option Node → Type 0
OptionIsDistinct none = Unit
OptionIsDistinct (some n) = NodeIsDistinct n

IsDistinct-linked :
    (t : ℕ) (n : Node) (next : Chain)
    → NodeIsDistinct n
    → walk_chain t next ≡ none
    → IsDistinct next
    → IsDistinct (linked t n next)
IsDistinct-linked t (leaf_node d) next hn e h = (e, h)
IsDistinct-linked t (inner_node e cs) next hn f h = (f, hn, h)

IsDistinct-splice :
    (t : ℕ) (n : Node) (c : Chain) → NodeIsDistinct n → IsDistinct c → IsDistinct (splice t n c)
unfolding splice walk_chain
IsDistinct-splice t n null hn h = IsDistinct-linked t n null hn refl tt
IsDistinct-splice t n (leaf v d next) hn h = elim (Bool-cases (v == t)) [
  | inl y ↦ rw y (
      IsDistinct-linked t n next hn (subst (λ x. walk_chain x next ≡ none) ((==_iff v t).0 y) h.0)
        h.1)
  | inr m ↦
      rw m (ground (arith, walk_chain-splice t v n next, h.0, m), IsDistinct-splice t n next hn h.1)
]
IsDistinct-splice t n (inner v e cs next) hn h = elim (Bool-cases (v == t)) [
  | inl y ↦ rw y (
      IsDistinct-linked t n next hn (subst (λ x. walk_chain x next ≡ none) ((==_iff v t).0 y) h.0)
        h.2)
  | inr m ↦
      rw m (
        ground (arith, walk_chain-splice t v n next, h.0, m),
        h.1,
        IsDistinct-splice t n next hn h.2,
      )
]

IsDistinct-unlink : (t : ℕ) (c : Chain) → IsDistinct c → IsDistinct (unlink t c)
unfolding unlink
IsDistinct-unlink t null h = tt
IsDistinct-unlink t (leaf v d next) h = elim (Bool-cases (v == t)) [
  | inl y ↦ rw y h.1
  | inr m ↦ rw m (ground (arith, walk_chain-unlink t v next h.1, h.0), IsDistinct-unlink t next h.1)
]
IsDistinct-unlink t (inner v e cs next) h = elim (Bool-cases (v == t)) [
  | inl y ↦ rw y h.2
  | inr m ↦
      rw m (ground (arith, walk_chain-unlink t v next h.2, h.0), h.1, IsDistinct-unlink t next h.2)
]

walk_chain-IsDistinct : (t : ℕ) (c : Chain) → IsDistinct c → OptionIsDistinct (walk_chain t c)
unfolding walk_chain
walk_chain-IsDistinct t null h = tt
walk_chain-IsDistinct t (leaf v d next) h = elim (Bool-cases (v == t)) [
  | inl y ↦ rw y tt
  | inr m ↦ rw m (walk_chain-IsDistinct t next h.1)
]
walk_chain-IsDistinct t (inner v e cs next) h = elim (Bool-cases (v == t)) [
  | inl y ↦ rw y h.1
  | inr m ↦ rw m (walk_chain-IsDistinct t next h.2)
]

pub child-IsDistinct :
    (h : ChunkHash) (cs : Children) → AreDistinct cs → OptionIsDistinct (child h cs)
unfolding child
child-IsDistinct h cs d = walk_chain-IsDistinct h.tail (cs h.slot) (d h.slot)

pub set_child-AreDistinct :
    (h : ChunkHash) (n : Node) (cs : Children)
    → NodeIsDistinct n
    → AreDistinct cs
    → AreDistinct (set_child h n cs)
unfolding set_child
set_child-AreDistinct h n cs hn d s = elim (Bool-cases (s == h.slot)) [
  | inl y ↦ rw y (IsDistinct-splice h.tail n (cs s) hn (d s))
  | inr m ↦ rw m (d s)
]

pub drop_child-AreDistinct :
    (h : ChunkHash) (cs : Children) → AreDistinct cs → AreDistinct (drop_child h cs)
unfolding drop_child
drop_child-AreDistinct h cs d s = elim (Bool-cases (s == h.slot)) [
  | inl y ↦ rw y (IsDistinct-unlink h.tail (cs s) (d s))
  | inr m ↦ rw m (d s)
]

pub child-drop_child :
    (h k : ChunkHash) (cs : Children)
    → AreDistinct cs
    → child k (drop_child h cs) ≡ (if same_hash h k then none else child k cs)
unfolding child drop_child same_hash
child-drop_child h k cs d = ground (arith, walk_chain-unlink h.tail k.tail (cs h.slot) (d h.slot))

pub child-no_children : (h : ChunkHash) → child h no_children ≡ none
unfolding child walk_chain
child-no_children h = refl

pub no_children-AreDistinct : AreDistinct no_children
no_children-AreDistinct s = tt
