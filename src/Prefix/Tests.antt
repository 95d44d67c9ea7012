-- ===== src/Prefix/Tests.antt =====
-- A leaf that two lookups hold, and indexes of a few prefixes.
use agent_state_storage.Base.{
  ◌+◌, ◌*◌, ◌/◌, ◌%◌, ap, length, ℕ, none, some, is_some, if◌then◌else◌, ◌≡◌, ◌≢◌, refl, true,
  false, List, [], ◌∷◌, ◌⊎◌, inl, arith,
}
use agent_state_storage.Base.Bytes.{put_u32}
use agent_state_storage.Prefix.Refcount.{
  Operation, looks_up, lets_go, evicts, Leaf, run, IsLive, IsEvicted, run_cases, try_evict,
  try_evict_iff,
}
use agent_state_storage.Prefix.Art.{
  ChunkHash, LeafData, ArtIndex, empty, insert, insert_below, remove, lookup, lookup_below,
  lookup_by_path, child, set_child, walk_chain, splice,
}
use agent_state_storage.Prefix.Art.Paths.{same_path}
use agent_state_storage.Prefix.Art.Inserts.{IsValid, empty-IsValid, result_for, insert_lem}
use agent_state_storage.Prefix.Art.Removals.{remove_lem}
use agent_state_storage.Prefix.Art.Longest.{longest_prefix, lookup-longest_prefix}
use agent_state_storage.Prefix.Lpm.{
  chunk_tokens, chunkify_ns, namespace_fingerprint, longest_prefix_match_ns,
}
use agent_state_storage.Prefix.Lpm.Isolation.{match_ns-isolated}
use agent_state_storage.Prefix.Lpm.Sealed.{match_ns-insert}

abbrev sealed : Leaf
sealed = record { count = 1; holders = 0 }

abbrev os : List Operation
os = looks_up ∷ evicts ∷ lets_go ∷ evicts ∷ looks_up ∷ []

run_cases_example : IsLive (run sealed os) ⊎ IsEvicted (run sealed os)
run_cases_example = run_cases os sealed (omega arith) (inl refl)

abbrev gone : Leaf
gone = record { count = 0; holders = 0 }

try_evict_iff_example :
    ((sealed.holders ≡ 0) × ((try_evict sealed.count).1 ≡ true))
    ⊎ ((sealed.holders ≢ 0) × (try_evict sealed.count ≡ (sealed.count, false)))
try_evict_iff_example = try_evict_iff sealed refl

-- An index with a prefix and an extension of it, whose insertion demoted the first leaf.
abbrev chunk_a : ChunkHash
chunk_a = record { slot = 7; tail = 1 }

abbrev chunk_b : ChunkHash
chunk_b = record { slot = 7; tail = 2 }

abbrev leaf_of : ℕ → LeafData
leaf_of n = record { locator = n; residency = 1; sealed_at = 5; bytes_total = 64 }

abbrev one_prefix : ArtIndex
one_prefix = (insert (chunk_a ∷ []) (leaf_of 10) empty).0

one_prefix-IsValid : IsValid one_prefix
one_prefix-IsValid = (insert_lem chunk_a [] (leaf_of 10) empty empty-IsValid).0

abbrev two_prefixes : ArtIndex
two_prefixes = (insert (chunk_a ∷ chunk_b ∷ []) (leaf_of 20) one_prefix).0

two_prefixes-IsValid : IsValid two_prefixes
two_prefixes-IsValid =
    (insert_lem chunk_a (chunk_b ∷ []) (leaf_of 20) one_prefix one_prefix-IsValid).0

insert_lem_example :
    IsValid (insert (chunk_a ∷ chunk_b ∷ []) (leaf_of 30) two_prefixes).0
    × ((q : List ChunkHash)
        → lookup_by_path q (insert (chunk_a ∷ chunk_b ∷ []) (leaf_of 30) two_prefixes).0 ≡ (
            if same_path (chunk_a ∷ chunk_b ∷ []) q
            then some (leaf_of 30)
            else lookup_by_path q two_prefixes))
    × ((insert (chunk_a ∷ chunk_b ∷ []) (leaf_of 30) two_prefixes).1
        ≡ result_for (lookup_by_path (chunk_a ∷ chunk_b ∷ []) two_prefixes))
insert_lem_example =
    insert_lem chunk_a (chunk_b ∷ []) (leaf_of 30) two_prefixes two_prefixes-IsValid

remove_lem_example :
    IsValid (remove (chunk_a ∷ []) two_prefixes).0
    × ((q : List ChunkHash)
        → lookup_by_path q (remove (chunk_a ∷ []) two_prefixes).0
          ≡ (if same_path (chunk_a ∷ []) q then none else lookup_by_path q two_prefixes))
    × ((remove (chunk_a ∷ []) two_prefixes).1
        ≡ is_some (lookup_by_path (chunk_a ∷ []) two_prefixes))
remove_lem_example = remove_lem (chunk_a ∷ []) two_prefixes two_prefixes-IsValid

lookup-longest_prefix_example :
    lookup (chunk_a ∷ chunk_b ∷ chunk_b ∷ []) two_prefixes
    ≡ longest_prefix (λ q. lookup_by_path q two_prefixes) (chunk_a ∷ chunk_b ∷ chunk_b ∷ [])
lookup-longest_prefix_example =
    lookup-longest_prefix (chunk_a ∷ chunk_b ∷ chunk_b ∷ []) two_prefixes

-- A removed leaf of the trie leaves the longer prefix; a removed longer prefix leaves the shorter.
found_20 : lookup (chunk_a ∷ chunk_b ∷ chunk_b ∷ []) two_prefixes ≡ (2, some (leaf_of 20))
unfolding lookup lookup_below insert insert_below empty child set_child walk_chain splice
found_20 = refl

-- A hash for the examples: the sum of the bytes.
abbrev sum : List ℕ → ℕ
sum [] = 0
sum (b ∷ bs) = b + sum bs

abbrev byte_sum : List ℕ → ChunkHash
byte_sum bs = record { slot = sum bs % 256; tail = sum bs }

-- Seventeen tokens: one chunk, and one token over.
abbrev tokens : List ℕ
tokens = 1 ∷ 2 ∷ 3 ∷ 4 ∷ 5 ∷ 6 ∷ 7 ∷ 8 ∷ 9 ∷ 10 ∷ 11 ∷ 12 ∷ 13 ∷ 14 ∷ 15 ∷ 16 ∷ 17 ∷ []

other_namespace : namespace_fingerprint byte_sum 3 4 ≢ namespace_fingerprint byte_sum 1 2
unfolding namespace_fingerprint put_u32
other_namespace e = absurd (omega (arith, ap (λ (h : ChunkHash). h.tail) e))

match_ns-isolated_example :
    let path = namespace_fingerprint byte_sum 3 4 ∷ chunk_a ∷ [] in
    (longest_prefix_match_ns byte_sum (insert path (leaf_of 9) two_prefixes).0 tokens 1 2
      ≡ longest_prefix_match_ns byte_sum two_prefixes tokens 1 2)
    × (longest_prefix_match_ns byte_sum (remove path two_prefixes).0 tokens 1 2
        ≡ longest_prefix_match_ns byte_sum two_prefixes tokens 1 2)
match_ns-isolated_example =
    match_ns-isolated byte_sum two_prefixes tokens 1 2 3 4 (chunk_a ∷ []) (leaf_of 9)
      two_prefixes-IsValid other_namespace

match_ns-insert_example :
    let path = chunkify_ns byte_sum tokens (namespace_fingerprint byte_sum 1 2) in
    longest_prefix_match_ns byte_sum (insert path (leaf_of 9) two_prefixes).0 tokens 1 2 ≡ record {
      matched_chunks = length tokens / chunk_tokens;
      matched_tokens = length tokens / chunk_tokens * chunk_tokens;
      leaf = some (leaf_of 9);
    }
match_ns-insert_example =
    match_ns-insert byte_sum two_prefixes tokens 1 2 (leaf_of 9) two_prefixes-IsValid (omega arith)
      (omega arith)
