-- ===== src/Prefix/Lpm/Sealed.antt =====
-- What a request gets back: a sealed sequence in full, and never more tokens than it has.
use agent_state_storage.Base.{
  ℕ, zero, suc, ◌+◌, ◌-◌, ◌*◌, ◌/◌, ◌%◌, ◌≤◌, ◌<◌, ◌==◌, ltb, ◌≡◌, refl, ap, ◌∙◌, true, false, List,
  [], ◌∷◌, length, take, take_all, drop, Option, none, some, arith, Bool-cases, inl, inr,
}
use agent_state_storage.Base.Bytes.{u32_mod}
use agent_state_storage.Prefix.Art.{ChunkHash, LeafData, ArtIndex, insert, lookup, lookup_by_path}
use agent_state_storage.Prefix.Art.Paths.{same_path}
use agent_state_storage.Prefix.Art.Nodes.{same_hash_self}
use agent_state_storage.Prefix.Art.Longest.{longest_from, longest_prefix, lookup-longest_prefix}
use agent_state_storage.Prefix.Art.Inserts.{IsValid, insert_lem}
use agent_state_storage.Prefix.Lpm.{
  outcome, chunk_tokens, chunks_of, chunkify, chunkify_ns, namespace_fingerprint,
  longest_prefix_match_ns,
}

longest_from_most :
    (f : List ChunkHash → Option LeafData) (p : List ChunkHash) (k : ℕ)
    → (longest_from 0 (0, none) f p k).0 ≤ k
unfolding longest_from
longest_from_most f p zero = omega arith
longest_from_most f p (suc k) = ground (arith, longest_from_most f p k)

pub lookup_most : (p : List ChunkHash) (art : ArtIndex) → (lookup p art).0 ≤ length p
lookup_most p art =
    rw (lookup-longest_prefix p art)
      (unfold longest_prefix in longest_from_most (λ q. lookup_by_path q art) p (length p))

same_path_self : (p : List ChunkHash) → same_path p p ≡ true
unfolding same_path
same_path_self [] = refl
same_path_self (h ∷ p) = rw (same_hash_self h, same_path_self p) refl

-- A path that has data is found in full.
lookup_whole :
    (h : ChunkHash) (p : List ChunkHash) (d : LeafData) (art : ArtIndex)
    → lookup_by_path (h ∷ p) art ≡ some d
    → lookup (h ∷ p) art ≡ (suc (length p), some d)
unfolding longest_prefix longest_from
lookup_whole h p d art e =
    let all : take (length p) p ≡ p = take_all (length p) p (omega arith) in
    let zero_add : 0 + suc (length p) ≡ suc (length p) = omega arith in
    lookup-longest_prefix (h ∷ p) art ∙ rw (all, e, zero_add) refl

-- Nothing wraps for a request of fewer than 2^32 tokens.
outcome_whole :
    (n : ℕ) (leaf : Option LeafData)
    → n < u32_mod
    → outcome (n / chunk_tokens) leaf ≡ record {
      matched_chunks = n / chunk_tokens;
      matched_tokens = n / chunk_tokens * chunk_tokens;
      leaf = leaf;
    }
outcome_whole n leaf small =
    let c : n / chunk_tokens % u32_mod ≡ n / chunk_tokens = omega arith in
    let t : n / chunk_tokens * chunk_tokens % u32_mod ≡ n / chunk_tokens * chunk_tokens =
      omega arith in
    rw (c, t) refl

outcome_within :
    (n c : ℕ) (leaf : Option LeafData)
    → n < u32_mod
    → c ≤ n / chunk_tokens
    → ((outcome c leaf).matched_tokens ≤ n)
      × ((outcome c leaf).matched_tokens ≡ (outcome c leaf).matched_chunks * chunk_tokens)
outcome_within n c leaf small le = omega arith

module _ (hash : List ℕ → ChunkHash) where
  length-chunks_of : (n : ℕ) (tokens : List ℕ) → length (chunks_of hash n tokens) ≡ n
  unfolding chunks_of
  length-chunks_of zero tokens = refl
  length-chunks_of (suc n) tokens = omega (arith, length-chunks_of n (drop chunk_tokens tokens))

  length-chunkify : (tokens : List ℕ) → length (chunkify hash tokens) ≡ length tokens / chunk_tokens
  unfolding chunkify
  length-chunkify tokens = length-chunks_of (length tokens / chunk_tokens) tokens

  -- Whatever the index holds, a match covers at most the tokens of the request, and is as many chunks
  -- of 16 tokens.
  pub match_ns-within :
      (art : ArtIndex) (tokens : List ℕ) (tenant_hash model_hash : ℕ)
      → length tokens < u32_mod
      → let r = longest_prefix_match_ns hash art tokens tenant_hash model_hash in
        (r.matched_tokens ≤ length tokens) × (r.matched_tokens ≡ r.matched_chunks * chunk_tokens)
  unfolding longest_prefix_match_ns
  match_ns-within art tokens tenant_hash model_hash small =
      let ns = namespace_fingerprint hash tenant_hash model_hash in
      let n : length (chunkify_ns hash tokens ns) ≡ suc (length tokens / 16) =
        ap suc (length-chunkify tokens) in
      let most : (lookup (chunkify_ns hash tokens ns) art).0 ≤ length (chunkify_ns hash tokens ns) =
        lookup_most (chunkify_ns hash tokens ns) art in
      let c = (lookup (chunkify_ns hash tokens ns) art).0 in
      elim (Bool-cases (ltb (length (chunkify_ns hash tokens ns)) 2)) [
        | inl short ↦ rw short (omega arith)
        | inr long ↦ elim (Bool-cases (c == 0)) [
          | inl none_found ↦ rw (long, none_found) (omega arith)
          | inr found ↦
              rw (long, found)
                (outcome_within (length tokens) (c - 1) (lookup (chunkify_ns hash tokens ns) art).1
                  small (omega arith))
        ]
      ]

  -- A request for the tokens that were sealed last, of at least one chunk, gets all their whole
  -- chunks and the data they were sealed with.
  pub match_ns-insert :
      (art : ArtIndex) (tokens : List ℕ) (tenant_hash model_hash : ℕ) (d : LeafData)
      → IsValid art
      → chunk_tokens ≤ length tokens
      → length tokens < u32_mod
      → let path = chunkify_ns hash tokens (namespace_fingerprint hash tenant_hash model_hash) in
        longest_prefix_match_ns hash (insert path d art).0 tokens tenant_hash model_hash ≡ record {
          matched_chunks = length tokens / chunk_tokens;
          matched_tokens = length tokens / chunk_tokens * chunk_tokens;
          leaf = some d;
        }
  unfolding longest_prefix_match_ns
  match_ns-insert art tokens tenant_hash model_hash d v long small =
      let ns = namespace_fingerprint hash tenant_hash model_hash in
      let path = chunkify_ns hash tokens ns in
      let n = length-chunkify tokens in
      let two : ltb (length path) 2 ≡ false = ground (arith, n) in
      let found : lookup path (insert path d art).0
          ≡ (suc (length (chunkify hash tokens)), some d) =
        lookup_whole ns (chunkify hash tokens) d (insert path d art).0
          ((insert_lem ns (chunkify hash tokens) d art v).1 path ∙ rw (same_path_self path) refl) in
      let some_chunk : (suc (length (chunkify hash tokens)) == 0) ≡ false = ground arith in
      let c : suc (length (chunkify hash tokens)) - 1 ≡ length tokens / chunk_tokens =
        omega arith in
      rw (two, found, some_chunk, c) (outcome_whole (length tokens) (some d) small)
