-- ===== src/Routing/Bloom.antt =====
-- `LocalBloom` and `AggregatedBloom` of src/kvstore-node/src/routing/bloom_sketch.{h,cpp}. The hash of
-- the facade is a parameter. A word is a number below 2 ^ 64; its bits go by division.
pub mod Words
pub mod Shipping
use agent_state_storage.Base.{
  ℕ, zero, suc, ◌+◌, ◌*◌, ◌/◌, ◌%◌, ◌<◌, ◌==◌, ltb, ◌≡◌, ◌||◌, Bool, true, false, List, [], ◌∷◌,
  ◌++◌, length, drop, if◌then◌else◌,
}
use agent_state_storage.Base.Bytes.{u32_mod, u64_mod, put_u32, get_u32}

pub record BloomParams : Type 0 where
  pub m_bits : ℕ
  pub k_hashes : ℕ

pub record HashPair : Type 0 where
  pub h1 : ℕ
  pub h2 : ℕ

pub record LocalBloom : Type 0 where
  pub params : BloomParams
  pub words : List ℕ
  pub inserts : ℕ

pub record AggregatedBloom : Type 0 where
  pub params : BloomParams
  pub words : List ℕ

-- `v + 63u & ~63u` on 32 bits.
unfoldable pub round_up_to_64 : ℕ → ℕ
round_up_to_64 v = (v + 63) % u32_mod / 64 * 64

unfoldable pub pair_for : (List ℕ → ℕ) → List ℕ → HashPair
pair_for blake3_64 key = record {
  h1 = blake3_64 key;
  h2 = blake3_64 (0xBE ∷ 0xEF ∷ 0xCA ∷ 0xFE ∷ key);
}

-- `n` words of zero.
abbrev pub zeros : ℕ → List ℕ
zeros zero = []
zeros (suc n) = 0 ∷ zeros n

unfoldable pub new_local : BloomParams → LocalBloom
new_local params = record { params = params; words = zeros (params.m_bits / 64); inserts = 0 }

-- `words_[i]`
abbrev pub word_at : ℕ → List ℕ → ℕ
word_at i [] = 0
word_at zero (w ∷ ws) = w
word_at (suc i) (w ∷ ws) = word_at i ws

-- `words_[i] = v`
abbrev pub set_word : ℕ → ℕ → List ℕ → List ℕ
set_word i v [] = []
set_word zero v (w ∷ ws) = v ∷ ws
set_word (suc i) v (w ∷ ws) = w ∷ set_word i v ws

-- `(w & (1ULL << i)) != 0`
unfoldable pub has_bit : ℕ → ℕ → Bool
has_bit w zero = w % 2 == 1
has_bit w (suc i) = has_bit (w / 2) i

-- `w | (1ULL << i)`
unfoldable pub with_bit : ℕ → ℕ → ℕ
with_bit w zero = w / 2 * 2 + 1
with_bit w (suc i) = w % 2 + with_bit (w / 2) i * 2

unfoldable pub set_bit : ℕ → List ℕ → List ℕ
unfolding with_bit
set_bit idx words = set_word (idx / 64) (with_bit (word_at (idx / 64) words) (idx % 64)) words

unfoldable pub test_bit : ℕ → List ℕ → Bool
unfolding has_bit
test_bit idx words = has_bit (word_at (idx / 64) words) (idx % 64)

-- `(hp.h1 + i * hp.h2) % m_bits` on 64 bits.
unfoldable pub bit_of : HashPair → ℕ → ℕ → ℕ
bit_of hp m_bits i = (hp.h1 + i * hp.h2) % u64_mod % m_bits

-- The loop of `Add` from `i` on, with `n` rounds left.
unfoldable pub set_bits : HashPair → ℕ → ℕ → ℕ → List ℕ → List ℕ
unfolding set_bit bit_of
set_bits hp m_bits i zero words = words
set_bits hp m_bits i (suc n) words =
    set_bits hp m_bits (i + 1) n (set_bit (bit_of hp m_bits i) words)

-- The loop of `MaybeContains` from `i` on, with `n` rounds left.
unfoldable pub test_bits : HashPair → ℕ → ℕ → ℕ → List ℕ → Bool
unfolding test_bit bit_of
test_bits hp m_bits i zero words = true
test_bits hp m_bits i (suc n) words =
    let rest = test_bits hp m_bits (i + 1) n words in
    if test_bit (bit_of hp m_bits i) words then rest else false

unfoldable pub add : (List ℕ → ℕ) → List ℕ → LocalBloom → LocalBloom
unfolding set_bits pair_for
add blake3_64 key b = record b {
  words = set_bits (pair_for blake3_64 key) b.params.m_bits 0 b.params.k_hashes b.words;
  inserts = (b.inserts + 1) % u64_mod;
}

unfoldable pub maybe_contains : (List ℕ → ℕ) → List ℕ → LocalBloom → Bool
unfolding test_bits pair_for
maybe_contains blake3_64 key b =
    test_bits (pair_for blake3_64 key) b.params.m_bits 0 b.params.k_hashes b.words

-- A word in memory, on a little-endian machine.
unfoldable pub put_word : ℕ → List ℕ
unfolding put_u32
put_word w = put_u32 (w % u32_mod) ++ put_u32 (w / u32_mod)

unfoldable pub get_word : List ℕ → ℕ
unfolding get_u32
get_word raw = get_u32 raw + get_u32 (drop 4 raw) * u32_mod

abbrev pub put_words : List ℕ → List ℕ
put_words [] = []
put_words (w ∷ ws) = put_word w ++ put_words ws

abbrev pub get_words : ℕ → List ℕ → List ℕ
get_words zero raw = []
get_words (suc n) raw = get_word raw ∷ get_words n (drop 8 raw)

unfoldable pub snapshot : LocalBloom → List ℕ
unfolding put_word
snapshot b = put_words b.words

unfoldable pub reset : LocalBloom → LocalBloom
reset b = record b { words = zeros (length b.words); inserts = 0 }

unfoldable pub new_aggregated : AggregatedBloom
new_aggregated = record { params = record { m_bits = 0; k_hashes = 0 }; words = [] }

-- A snapshot that is too short leaves the words zero.
unfoldable pub set : BloomParams → List ℕ → AggregatedBloom → AggregatedBloom
unfolding get_word
set params raw b =
    let n = params.m_bits / 64 in
    if ltb (length raw) (n * 8)
    then record { params = params; words = zeros n }
    else record { params = params; words = get_words n raw }

unfoldable pub aggregated_maybe_contains : (List ℕ → ℕ) → List ℕ → AggregatedBloom → Bool
unfolding test_bits pair_for
aggregated_maybe_contains blake3_64 key b =
    if (b.params.m_bits == 0) || (length b.words == 0)
    then false
    else test_bits (pair_for blake3_64 key) b.params.m_bits 0 b.params.k_hashes b.words
