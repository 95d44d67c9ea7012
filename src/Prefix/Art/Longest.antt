-- ===== src/Prefix/Art/Longest.antt =====
-- `Lookup` against the longest prefix that has data.
use agent_state_storage.Base.{
  ℕ, zero, suc, ◌+◌, ◌≤◌, ◌≡◌, refl, sym, ap, ◌∙◌, List, [], ◌∷◌, if◌then◌else◌, Option, some, none,
  is_some, arith, Option-cases, inl, inr, length, take,
}
use agent_state_storage.Prefix.Art.{
  ChunkHash, LeafData, Children, leaf_node, inner_node, child, data_of, find_below, ArtIndex,
  lookup_below, lookup, lookup_by_path,
}
use agent_state_storage.Prefix.Art.Paths.{read, find_below-read, find_below-no_children}

-- The reference: the longest of the first `k` prefixes of a path that has data, with the number of its
-- chunks counted from `i`, or `best` where none has. Longer prefixes are tried first.
unfoldable pub longest_from :
    ℕ
    → ℕ × Option LeafData
    → (List ChunkHash → Option LeafData)
    → List ChunkHash
    → ℕ
    → ℕ × Option LeafData
longest_from i best f p zero = best
longest_from i best f p (suc k) =
    let rest = longest_from i best f p k in
    if is_some (f (take (suc k) p)) then (i + suc k, f (take (suc k) p)) else rest

unfoldable pub longest_prefix :
    (List ChunkHash → Option LeafData) → List ChunkHash → ℕ × Option LeafData
unfolding longest_from
longest_prefix f p = longest_from 0 (0, none) f p (length p)

read-none : (q : List ChunkHash) → read q none ≡ none
read-none [] = refl
read-none (j ∷ q) = find_below-no_children (j ∷ q)

-- A hash with no node, or with a leaf, ends the walk.
longest_from-none :
    (h : ChunkHash) (p : List ChunkHash) (i n : ℕ) (best : ℕ × Option LeafData) (cs : Children)
    → child h cs ≡ none
    → longest_from i best (λ q. find_below q cs) (h ∷ p) n ≡ best
unfolding longest_from
longest_from-none h p i zero best cs e = refl
longest_from-none h p i (suc n) best cs e =
    let gone : find_below (h ∷ take n p) cs ≡ none =
      find_below-read h (take n p) cs ∙ ap (read (take n p)) e ∙ read-none (take n p) in
    rw (gone, longest_from) (longest_from-none h p i n best cs e)

longest_from-leaf :
    (h : ChunkHash) (p : List ChunkHash) (i n : ℕ) (best : ℕ × Option LeafData) (cs : Children)
    (d : LeafData)
    → child h cs ≡ some (leaf_node d)
    → n ≤ length p
    → longest_from i best (λ q. find_below q cs) (h ∷ p) (suc n) ≡ (i + 1, some d)
unfolding longest_from
longest_from-leaf h p i zero best cs d e le = rw (find_below-read h [] cs ∙ ap data_of e) refl
longest_from-leaf h [] i (suc n) best cs d e le = absurd (omega arith)
longest_from-leaf h (j ∷ p) i (suc n) best cs d e le =
    let gone : find_below (h ∷ j ∷ take n p) cs ≡ none =
      find_below-read h (j ∷ take n p) cs
      ∙ ap (read (j ∷ take n p)) e
      ∙ find_below-no_children (j ∷ take n p) in
    rw gone (longest_from-leaf h (j ∷ p) i n best cs d e (omega arith))

longest_from-inner :
    (h : ChunkHash) (p : List ChunkHash) (i n : ℕ) (best : ℕ × Option LeafData)
    (cs below : Children) (emb : Option LeafData)
    → child h cs ≡ some (inner_node emb below)
    → n ≤ length p
    → longest_from i best (λ q. find_below q cs) (h ∷ p) (suc n)
      ≡ longest_from
          (i + 1)
          (if is_some emb then (i + 1, emb) else best)
          (λ q. find_below q below)
          p
          n
unfolding longest_from
longest_from-inner h p i zero best cs below emb e le =
    rw (find_below-read h [] cs ∙ ap data_of e) refl
longest_from-inner h [] i (suc n) best cs below emb e le = absurd (omega arith)
longest_from-inner h (j ∷ p) i (suc n) best cs below emb e le =
    let same : find_below (h ∷ j ∷ take n p) cs ≡ find_below (j ∷ take n p) below =
      find_below-read h (j ∷ take n p) cs ∙ ap (read (j ∷ take n p)) e in
    let shift : i + suc (suc n) ≡ i + 1 + suc n = omega arith in
    rw (same, shift, longest_from-inner h (j ∷ p) i n best cs below emb e (omega arith)) refl

lookup_below-longest_from :
    (p : List ChunkHash) (i : ℕ) (best : ℕ × Option LeafData) (cs : Children)
    → lookup_below p i best cs ≡ longest_from i best (λ q. find_below q cs) p (length p)
unfolding lookup_below longest_from
lookup_below-longest_from [] i best cs = refl
lookup_below-longest_from (h ∷ p) i best cs = elim (Option-cases (child h cs)) [
  | inl e ↦ rw (e, lookup_below) (sym (longest_from-none h p i (suc (length p)) best cs e))
  | inr (leaf_node d, e) ↦
      rw (e, lookup_below) (sym (longest_from-leaf h p i (length p) best cs d e (omega arith)))
  | inr (inner_node emb below, e) ↦
      rw (e, lookup_below)
        (lookup_below-longest_from p (i + 1) (if is_some emb then (i + 1, emb) else best) below
          ∙ sym (longest_from-inner h p i (length p) best cs below emb e (omega arith)))
]

-- A lookup gives the longest prefix of the path that has data, with that data and the number of its
-- chunks, or 0 and nothing where no prefix has.
pub lookup-longest_prefix :
    (p : List ChunkHash) (art : ArtIndex)
    → lookup p art ≡ longest_prefix (λ q. lookup_by_path q art) p
unfolding lookup longest_prefix lookup_by_path
lookup-longest_prefix p art = lookup_below-longest_from p 0 (0, none) art.root
