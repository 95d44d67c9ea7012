-- ===== src/Prefix/Lpm/Isolation.antt =====
-- Requests of one namespace and entries of another.
use agent_state_storage.Base.{
  ℕ, zero, suc, ◌≡◌, ◌≢◌, refl, sym, ◌∙◌, List, ◌∷◌, length, take, if◌then◌else◌, Option, none,
  some, Bool-cases, inl, inr,
}
use agent_state_storage.Prefix.Art.{
  ChunkHash, LeafData, ArtIndex, insert, remove, lookup, lookup_by_path,
}
use agent_state_storage.Prefix.Art.Paths.{same_path}
use agent_state_storage.Prefix.Art.Nodes.{same_hash, same_hash_eq}
use agent_state_storage.Prefix.Art.Longest.{longest_from, longest_prefix, lookup-longest_prefix}
use agent_state_storage.Prefix.Art.Inserts.{IsValid, insert_lem}
use agent_state_storage.Prefix.Art.Removals.{remove_lem}
use agent_state_storage.Prefix.Lpm.{
  longest_prefix_match_ns, chunkify, chunkify_ns, namespace_fingerprint,
}

-- Only the prefixes of a path count.
longest_from-eq :
    (i : ℕ) (best : ℕ × Option LeafData) (f g : List ChunkHash → Option LeafData) (h : ChunkHash)
    (p : List ChunkHash) (k : ℕ)
    → ((q : List ChunkHash) → f (h ∷ q) ≡ g (h ∷ q))
    → longest_from i best f (h ∷ p) k ≡ longest_from i best g (h ∷ p) k
unfolding longest_from
longest_from-eq i best f g h p zero e = refl
longest_from-eq i best f g h p (suc k) e =
    rw (e (take k p), longest_from-eq i best f g h p k e) refl

pub lookup_scoped :
    (h : ChunkHash) (p : List ChunkHash) (art art' : ArtIndex)
    → ((q : List ChunkHash) → lookup_by_path (h ∷ q) art' ≡ lookup_by_path (h ∷ q) art)
    → lookup (h ∷ p) art' ≡ lookup (h ∷ p) art
unfolding longest_prefix
lookup_scoped h p art art' e =
    lookup-longest_prefix (h ∷ p) art'
    ∙ longest_from-eq 0 (0, none) (λ q. lookup_by_path q art') (λ q. lookup_by_path q art) h p
        (length (h ∷ p)) e
    ∙ sym (lookup-longest_prefix (h ∷ p) art)

apart :
    {A : Type 0} (h k : ChunkHash) (p q : List ChunkHash) (a b : A)
    → h ≢ k
    → (if same_path (h ∷ p) (k ∷ q) then a else b) ≡ b
unfolding same_path
apart h k p q a b ne = elim (Bool-cases (same_hash h k)) [
  | inl e ↦ absurd (ne (same_hash_eq h k e))
  | inr e ↦ rw e refl
]

module _ (hash : List ℕ → ChunkHash) where
  match_ns-scoped :
      (art art' : ArtIndex) (tokens : List ℕ) (tenant_hash model_hash : ℕ)
      → ((q : List ChunkHash)
          → lookup_by_path (namespace_fingerprint hash tenant_hash model_hash ∷ q) art'
            ≡ lookup_by_path (namespace_fingerprint hash tenant_hash model_hash ∷ q) art)
      → longest_prefix_match_ns hash art' tokens tenant_hash model_hash
        ≡ longest_prefix_match_ns hash art tokens tenant_hash model_hash
  unfolding longest_prefix_match_ns
  match_ns-scoped art art' tokens tenant_hash model_hash e =
      let same : lookup
            (chunkify_ns hash tokens (namespace_fingerprint hash tenant_hash model_hash)) art'
          ≡ lookup (chunkify_ns hash tokens (namespace_fingerprint hash tenant_hash model_hash))
              art =
        lookup_scoped (namespace_fingerprint hash tenant_hash model_hash) (chunkify hash tokens) art
          art' e in
      rw same refl

  -- With a path of another namespace inserted or removed, a request of this namespace gets the same
  -- answer. The fingerprints of the two have to differ.
  pub match_ns-isolated :
      (art : ArtIndex) (tokens : List ℕ) (tenant_hash model_hash tenant' model' : ℕ)
      (p : List ChunkHash) (d : LeafData)
      → IsValid art
      → namespace_fingerprint hash tenant' model'
        ≢ namespace_fingerprint hash tenant_hash model_hash
      → let path = namespace_fingerprint hash tenant' model' ∷ p in
        (longest_prefix_match_ns hash (insert path d art).0 tokens tenant_hash model_hash
          ≡ longest_prefix_match_ns hash art tokens tenant_hash model_hash)
        × (longest_prefix_match_ns hash (remove path art).0 tokens tenant_hash model_hash
            ≡ longest_prefix_match_ns hash art tokens tenant_hash model_hash)
  match_ns-isolated art tokens tenant_hash model_hash tenant' model' p d v ne =
      let ns = namespace_fingerprint hash tenant_hash model_hash in
      let other = namespace_fingerprint hash tenant' model' in
      let ins = (insert_lem other p d art v).1 in
      let rem = (remove_lem (other ∷ p) art v).1 in
      (
        match_ns-scoped art (insert (other ∷ p) d art).0 tokens tenant_hash model_hash
            (λ q. ins (ns ∷ q) ∙ apart other ns p q (some d) (lookup_by_path (ns ∷ q) art) ne),
        match_ns-scoped art (remove (other ∷ p) art).0 tokens tenant_hash model_hash
            (λ q. rem (ns ∷ q) ∙ apart other ns p q none (lookup_by_path (ns ∷ q) art) ne),
      )
