-- ===== src/Routing/Tests.antt =====
-- A sketch of two words with three hashes, and a hash that adds up the bytes.
use agent_state_storage.Base.{ℕ, ◌+◌, ◌*◌, ◌%◌, ◌≡◌, refl, true, false, List, [], ◌∷◌, arith}
use agent_state_storage.Base.Bytes.{u64_mod, put_u32, get_u32}
use agent_state_storage.Routing.Bloom.{
  BloomParams, LocalBloom, round_up_to_64, pair_for, new_local, has_bit, with_bit, set_bit,
  test_bit, bit_of, set_bits, test_bits, add, maybe_contains, put_word, get_word, snapshot, reset,
  new_aggregated, set, aggregated_maybe_contains,
}
use agent_state_storage.Routing.Bloom.Shipping.{IsSized, accepts-add_all}

program : Unit {0}
unfolding round_up_to_64 pair_for new_local has_bit with_bit set_bit test_bit bit_of set_bits
    test_bits add maybe_contains put_word get_word put_u32 get_u32 snapshot reset new_aggregated set
    aggregated_maybe_contains
program = tt

abbrev toy_hash : List ℕ → ℕ
toy_hash [] = 5381
toy_hash (b ∷ bs) = (toy_hash bs * 33 + b) % u64_mod

abbrev params : BloomParams
params = record { m_bits = 128; k_hashes = 3 }

abbrev key : List ℕ
key = 1 ∷ 2 ∷ 3 ∷ []

abbrev later : List ℕ
later = 9 ∷ []

abbrev filled : LocalBloom
filled = add toy_hash later (add toy_hash key (add toy_hash (7 ∷ []) (new_local params)))

params-IsSized : IsSized params
unfolding program
params-IsSized = (omega arith, refl)

accepts-add_all_example :
    (maybe_contains toy_hash key filled ≡ true)
    × (aggregated_maybe_contains toy_hash key (set params (snapshot filled) new_aggregated) ≡ true)
accepts-add_all_example =
    accepts-add_all toy_hash params ((7 ∷ []) ∷ []) (later ∷ []) key new_aggregated params-IsSized

absent : maybe_contains toy_hash (4 ∷ []) filled ≡ false
unfolding program
absent = refl

gone : maybe_contains toy_hash key (reset filled) ≡ false
unfolding program
gone = refl

-- A snapshot that lost a byte on the way answers no.
truncated : aggregated_maybe_contains toy_hash key (set params (0 ∷ []) new_aggregated) ≡ false
unfolding program
truncated = refl

rounded : round_up_to_64 959 ≡ 960
unfolding program
rounded = refl
