-- ===== src/Prefix/Lpm.antt =====
-- src/kvstore-node/src/prefix/lpm.{h,cpp}: from token sequences to the index. A token is a 32-bit
-- number. `hash` is a parameter: the first eight bytes of `Blake3_128` of a byte string.
pub mod Isolation
pub mod Sealed
use agent_state_storage.Base.{
  ℕ, zero, suc, ◌+◌, ◌-◌, ◌*◌, ◌/◌, ◌%◌, ◌<◌, ◌==◌, ltb, Bool, true, false, List, [], ◌∷◌, ◌++◌,
  length, take, drop, if◌then◌else◌, Option, none, some,
}
use agent_state_storage.Base.Bytes.{u32_mod, put_u32}
use agent_state_storage.Prefix.Art.{ChunkHash, LeafData, ArtIndex, lookup}

abbrev pub chunk_tokens : ℕ
chunk_tokens = 16

pub record LpmOutcome : Type 0 where
  pub matched_tokens : ℕ
  pub matched_chunks : ℕ
  pub leaf : Option LeafData

abbrev pub no_match : LpmOutcome
no_match = record { matched_tokens = 0; matched_chunks = 0; leaf = none }

-- What the code stores into its result, with its 32-bit arithmetic.
abbrev pub outcome : ℕ → Option LeafData → LpmOutcome
outcome chunks leaf = record {
  matched_chunks = chunks % u32_mod;
  matched_tokens = chunks % u32_mod * chunk_tokens % u32_mod;
  leaf = leaf;
}

-- Tokens as little-endian words.
abbrev pub token_bytes : List ℕ → List ℕ
token_bytes [] = []
token_bytes (t ∷ tokens) = put_u32 t ++ token_bytes tokens

-- A 64-bit word in memory.
abbrev pub put_u64 : ℕ → List ℕ
put_u64 v = put_u32 v ++ put_u32 (v / u32_mod)

module _ (hash : List ℕ → ChunkHash) where
  -- The loop of `Chunkify`, with as many chunks to go.
  unfoldable pub chunks_of : ℕ → List ℕ → List ChunkHash
  chunks_of zero tokens = []
  chunks_of (suc n) tokens =
      hash (token_bytes (take chunk_tokens tokens)) ∷ chunks_of n (drop chunk_tokens tokens)

  unfoldable pub chunkify : List ℕ → List ChunkHash
  chunkify tokens = chunks_of (length tokens / chunk_tokens) tokens

  unfoldable pub namespace_fingerprint : ℕ → ℕ → ChunkHash
  namespace_fingerprint tenant_hash model_hash = hash (put_u64 tenant_hash ++ put_u64 model_hash)

  unfoldable pub chunkify_ns : List ℕ → ChunkHash → List ChunkHash
  unfolding chunkify
  chunkify_ns tokens ns = ns ∷ chunkify tokens

  -- `LongestPrefixMatch`
  unfoldable pub longest_prefix_match : ArtIndex → List ℕ → LpmOutcome
  longest_prefix_match art tokens =
      let chunks = chunkify tokens in
      let res = lookup chunks art in if length chunks == 0 then no_match else outcome res.0 res.1

  -- `LongestPrefixMatchNS`
  unfoldable pub longest_prefix_match_ns : ArtIndex → List ℕ → ℕ → ℕ → LpmOutcome
  unfolding chunkify_ns namespace_fingerprint
  longest_prefix_match_ns art tokens tenant_hash model_hash =
      let chunks = chunkify_ns tokens (namespace_fingerprint tenant_hash model_hash) in
      let res = lookup chunks art in
      if ltb (length chunks) 2
      then no_match
      else if res.0 == 0
      then no_match
      else outcome (res.0 - 1) res.1
