-- ===== src/Prefix/Art/Inserts.antt =====
-- An insertion against a map from paths.
use agent_state_storage.Base.{
  ◌≡◌, refl, sym, ap, ◌∙◌, List, [], ◌∷◌, if◌then◌else◌, Option, some, none,
}
use agent_state_storage.Prefix.Art.{
  empty, ChunkHash, LeafData, Children, Node, leaf_node, inner_node, child, InsertResult, inserted,
  replaced, attach, data_of, below_of, insert_below, find_below, ArtIndex, insert, lookup_by_path,
}
use agent_state_storage.Prefix.Art.Nodes.{
  AreDistinct, OptionIsDistinct, child-IsDistinct, set_child-AreDistinct, no_children-AreDistinct,
}
use agent_state_storage.Prefix.Art.Paths.{same_path, find_below-read, find_below-insert_below}

-- The index holds each path once.
pub record IsValid (art : ArtIndex) : Type 0 where
  pub distinct : AreDistinct art.root

pub empty-IsValid : IsValid empty
unfolding empty
empty-IsValid = record { distinct = no_children-AreDistinct }

below_of-AreDistinct : (o : Option Node) → OptionIsDistinct o → AreDistinct (below_of o)
below_of-AreDistinct none h = no_children-AreDistinct
below_of-AreDistinct (some (leaf_node d)) h = no_children-AreDistinct
below_of-AreDistinct (some (inner_node e below)) h = h

attach-AreDistinct :
    (h : ChunkHash) (d : LeafData) (cs : Children) (o : Option Node)
    → OptionIsDistinct o
    → AreDistinct cs
    → AreDistinct (attach h d cs o).0
attach-AreDistinct h d cs (some (inner_node e below)) ho v =
    set_child-AreDistinct h (inner_node (some d) below) cs ho v
attach-AreDistinct h d cs (some (leaf_node old)) ho v =
    set_child-AreDistinct h (leaf_node d) cs tt v
attach-AreDistinct h d cs none ho v = set_child-AreDistinct h (leaf_node d) cs tt v

insert_below-AreDistinct :
    (p : List ChunkHash) (d : LeafData) (cs : Children)
    → AreDistinct cs
    → AreDistinct (insert_below p d cs).0
unfolding insert_below
insert_below-AreDistinct [] d cs v = v
insert_below-AreDistinct (h ∷ []) d cs v =
    attach-AreDistinct h d cs (child h cs) (child-IsDistinct h cs v) v
insert_below-AreDistinct (h ∷ g ∷ p) d cs v =
    let n = child h cs in
    let r = insert_below (g ∷ p) d (below_of n) in
    set_child-AreDistinct h (inner_node (data_of n) r.0) cs
      (insert_below-AreDistinct (g ∷ p) d (below_of n)
        (below_of-AreDistinct n (child-IsDistinct h cs v)))
      v

-- The result of an insertion tells whether the path had data.
abbrev pub result_for : Option LeafData → InsertResult
result_for none = inserted
result_for (some d) = replaced

attach_result :
    (h : ChunkHash) (d : LeafData) (cs : Children) (o : Option Node)
    → (attach h d cs o).1 ≡ result_for (data_of o)
attach_result h d cs (some (inner_node none below)) = refl
attach_result h d cs (some (inner_node (some e) below)) = refl
attach_result h d cs (some (leaf_node old)) = refl
attach_result h d cs none = refl

insert_below_result :
    (h : ChunkHash) (p : List ChunkHash) (d : LeafData) (cs : Children)
    → (insert_below (h ∷ p) d cs).1 ≡ result_for (find_below (h ∷ p) cs)
unfolding insert_below
insert_below_result h [] d cs =
    attach_result h d cs (child h cs) ∙ ap result_for (sym (find_below-read h [] cs))
insert_below_result h (g ∷ p) d cs =
    insert_below_result g p d (below_of (child h cs))
    ∙ ap result_for (sym (find_below-read h (g ∷ p) cs))

-- An insertion at a path that is not empty gives its data to that path and to no other, keeps the
-- index valid, and reports whether the path had data before.
pub insert_lem :
    (h : ChunkHash) (p : List ChunkHash) (d : LeafData) (art : ArtIndex)
    → IsValid art
    → IsValid (insert (h ∷ p) d art).0
      × ((q : List ChunkHash)
          → lookup_by_path q (insert (h ∷ p) d art).0
            ≡ (if same_path (h ∷ p) q then some d else lookup_by_path q art))
      × ((insert (h ∷ p) d art).1 ≡ result_for (lookup_by_path (h ∷ p) art))
unfolding insert lookup_by_path
insert_lem h p d art v = (
  record { distinct = insert_below-AreDistinct (h ∷ p) d art.root v.distinct },
  λ q. find_below-insert_below h p q d art.root,
  insert_below_result h p d art.root,
)
