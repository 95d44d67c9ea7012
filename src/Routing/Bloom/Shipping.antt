-- ===== src/Routing/Bloom/Shipping.antt =====
-- A sketch from its adds to the answers of the view that its snapshot was sent to.
use agent_state_storage.Base.{
  ℕ, zero, suc, ◌*◌, ◌/◌, ◌%◌, ◌<◌, ◌==◌, ltb, ◌≡◌, refl, ◌||◌, true, false, List, [], ◌∷◌, ◌++◌,
  length, drop, ap, ap₂, ◌∙◌, sym, subst, arith, All,
}
use agent_state_storage.Base.Bytes.{u64_mod, put_u32, get_u32}
use agent_state_storage.Routing.Bloom.{
  BloomParams, LocalBloom, AggregatedBloom, pair_for, zeros, new_local, set_bits, add,
  maybe_contains, put_word, get_word, put_words, get_words, snapshot, set,
  aggregated_maybe_contains,
}
use agent_state_storage.Routing.Bloom.Words.{
  set_bits-Covers, test_bits-Covers, test_bits-set_bits, length-set_bits, set_bits-bound,
}

get_word-put_word : (w : ℕ) (rest : List ℕ) → w < u64_mod → get_word (put_word w ++ rest) ≡ w
unfolding get_word put_word get_u32 put_u32
get_word-put_word w rest h = omega arith

drop-put_word : (w : ℕ) (rest : List ℕ) → drop 8 (put_word w ++ rest) ≡ rest
unfolding put_word put_u32
drop-put_word w rest = refl

get_words-put_words :
    (ws : List ℕ) → All (λ w. w < u64_mod) ws → get_words (length ws) (put_words ws) ≡ ws
get_words-put_words [] h = refl
get_words-put_words (w ∷ ws) h =
    ap₂ (λ a b. a ∷ b) (get_word-put_word w (put_words ws) h.0)
      (ap (get_words (length ws)) (drop-put_word w (put_words ws)) ∙ get_words-put_words ws h.1)

length-put_words : (ws : List ℕ) → length (put_words ws) ≡ length ws * 8
unfolding put_word put_u32
length-put_words [] = refl
length-put_words (w ∷ ws) = omega (arith, length-put_words ws)

length-zeros : (n : ℕ) → length (zeros n) ≡ n
length-zeros zero = refl
length-zeros (suc n) = ap suc (length-zeros n)

zeros-small : (n : ℕ) → All (λ w. w < u64_mod) (zeros n)
zeros-small zero = tt
zeros-small (suc n) = (omega arith, zeros-small n)

-- Keys that are added one after the other.
abbrev pub add_all : (List ℕ → ℕ) → List (List ℕ) → LocalBloom → LocalBloom
add_all blake3_64 [] b = b
add_all blake3_64 (key ∷ keys) b = add_all blake3_64 keys (add blake3_64 key b)

-- Parameters with whole words, and at least one.
abbrev pub IsSized : BloomParams → Type 0
IsSized params = (0 < params.m_bits) × (params.m_bits % 64 ≡ 0)

-- A sketch with the words that its parameters call for.
record IsValid (params : BloomParams) (b : LocalBloom) : Type 0 where
  same : b.params ≡ params
  covered : params.m_bits ≡ length b.words * 64
  small : All (λ w. w < u64_mod) b.words

new_local-IsValid : (params : BloomParams) → IsSized params → IsValid params (new_local params)
unfolding new_local
new_local-IsValid params sized = record {
  same = refl;
  covered = omega (arith, sized.1, length-zeros (params.m_bits / 64));
  small = zeros-small (params.m_bits / 64);
}

-- The words of a snapshot are the sketch's.
set-snapshot :
    (params : BloomParams) (b : LocalBloom) (old : AggregatedBloom)
    → IsValid params b
    → set params (snapshot b) old ≡ record { params = params; words = b.words }
unfolding set snapshot
set-snapshot params b old v =
    let whole : params.m_bits / 64 ≡ length b.words = omega (arith, v.covered) in
    let long_enough : ltb (length (put_words b.words)) (length b.words * 8) ≡ false =
      ground (arith, length-put_words b.words) in
    rw (whole, long_enough, get_words-put_words b.words v.small) refl

the_bits : (m n : ℕ) → 0 < m → m ≡ n * 64 → ((m == 0) || (n == 0)) ≡ false
the_bits m n some_bits e = ground arith

module _ (blake3_64 : List ℕ → ℕ) where
  add-IsValid :
      (params : BloomParams) (key : List ℕ) (b : LocalBloom)
      → IsValid params b
      → IsValid params (add blake3_64 key b)
  unfolding add
  add-IsValid params key b v =
      let hp = pair_for blake3_64 key in
      record {
        same = v.same;
        covered =
            v.covered
            ∙ ap (λ n. n * 64)
                (sym (length-set_bits hp b.params.m_bits 0 b.params.k_hashes b.words));
        small = set_bits-bound hp b.params.m_bits 0 b.params.k_hashes b.words v.small;
      }

  add_all-IsValid :
      (params : BloomParams) (keys : List (List ℕ)) (b : LocalBloom)
      → IsValid params b
      → IsValid params (add_all blake3_64 keys b)
  add_all-IsValid params [] b v = v
  add_all-IsValid params (key ∷ keys) b v =
      add_all-IsValid params keys (add blake3_64 key b) (add-IsValid params key b v)

  -- A key that is accepted is accepted after more keys.
  maybe_contains-add_all :
      (params : BloomParams) (key : List ℕ) (keys : List (List ℕ)) (b : LocalBloom)
      → maybe_contains blake3_64 key b ≡ true
      → maybe_contains blake3_64 key (add_all blake3_64 keys b) ≡ true
  unfolding maybe_contains add
  maybe_contains-add_all params key [] b h = h
  maybe_contains-add_all params key (k ∷ keys) b h =
      let m = b.params.m_bits in
      let n = b.params.k_hashes in
      let hp = pair_for blake3_64 k in
      maybe_contains-add_all params key keys (add blake3_64 k b) (
        test_bits-Covers (pair_for blake3_64 key) m 0 n b.words (set_bits hp m 0 n b.words)
          (set_bits-Covers hp m 0 n b.words) h)

  maybe_contains-add :
      (params : BloomParams) (key : List ℕ) (b : LocalBloom)
      → 0 < params.m_bits
      → IsValid params b
      → maybe_contains blake3_64 key (add blake3_64 key b) ≡ true
  unfolding maybe_contains add
  maybe_contains-add params key b some_bits v =
      test_bits-set_bits (pair_for blake3_64 key) b.params.m_bits 0 b.params.k_hashes b.words
        (subst (λ p. 0 < p.m_bits) (sym v.same) some_bits) (ap (λ p. p.m_bits) v.same ∙ v.covered)

  -- The view that a snapshot arrives at answers like the sketch.
  aggregated-snapshot :
      (params : BloomParams) (key : List ℕ) (b : LocalBloom) (old : AggregatedBloom)
      → 0 < params.m_bits
      → IsValid params b
      → aggregated_maybe_contains blake3_64 key (set params (snapshot b) old)
        ≡ maybe_contains blake3_64 key b
  unfolding aggregated_maybe_contains maybe_contains
  aggregated-snapshot params key b old some_bits v =
      rw
        (
          set-snapshot params b old v,
          the_bits params.m_bits (length b.words) some_bits v.covered,
          v.same,
        )
        refl

  -- No false negatives: a key that was added to a sketch of whole words is accepted there, whatever was
  -- added before and after, and by any view once a snapshot and the parameters have arrived.
  pub accepts-add_all :
      (params : BloomParams) (before after : List (List ℕ)) (key : List ℕ) (old : AggregatedBloom)
      → IsSized params
      → let b =
          add_all blake3_64 after
            (add blake3_64 key (add_all blake3_64 before (new_local params))) in
        (maybe_contains blake3_64 key b ≡ true)
        × (aggregated_maybe_contains blake3_64 key (set params (snapshot b) old) ≡ true)
  accepts-add_all params before after key old sized =
      let filled = add_all blake3_64 before (new_local params) in
      let v = add_all-IsValid params before (new_local params) (new_local-IsValid params sized) in
      let b = add_all blake3_64 after (add blake3_64 key filled) in
      let here =
        maybe_contains-add_all params key after (add blake3_64 key filled)
          (maybe_contains-add params key filled sized.0 v) in
      let shipped = aggregated-snapshot params key b old sized.0 (
        add_all-IsValid params after (add blake3_64 key filled)
          (add-IsValid params key filled v)) in
      (here, shipped ∙ here)
