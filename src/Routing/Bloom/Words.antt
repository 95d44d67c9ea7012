-- ===== src/Routing/Bloom/Words.antt =====
-- The bits of a sketch's words: what `SetBit` sets and what it leaves, and `Add` and `MaybeContains` on
-- the words.
use agent_state_storage.Base.{
  ℕ, zero, suc, ◌+◌, ◌*◌, ◌/◌, ◌%◌, ◌<◌, ◌^◌, ◌==◌, ◌≡◌, refl, Bool, true, false, List, [], ◌∷◌,
  length, if◌then◌else◌, ap, ◌∙◌, sym, subst, arith, All,
}
use agent_state_storage.Base.Bytes.{u64_mod}
use agent_state_storage.Routing.Bloom.{
  HashPair, word_at, set_word, has_bit, with_bit, set_bit, test_bit, bit_of, set_bits, test_bits,
}

div-glued : (w x : ℕ) → x ≡ (w % 2 + x * 2) / 2
div-glued w x = omega arith

mod-glued : (w x : ℕ) → w % 2 ≡ (w % 2 + x * 2) % 2
mod-glued w x = omega arith

div-odd : (x : ℕ) → x ≡ (x * 2 + 1) / 2
div-odd x = omega arith

has_bit-with_bit : (w i : ℕ) → has_bit (with_bit w i) i ≡ true
unfolding has_bit with_bit
has_bit-with_bit w zero = ground arith
has_bit-with_bit w (suc i) =
    subst (λ x. has_bit x i ≡ true) (div-glued w (with_bit (w / 2) i)) (has_bit-with_bit (w / 2) i)

has_bit-with_bit_kept : (w i j : ℕ) → has_bit w j ≡ true → has_bit (with_bit w i) j ≡ true
unfolding has_bit with_bit
has_bit-with_bit_kept w zero zero h = ground arith
has_bit-with_bit_kept w zero (suc j) h = subst (λ x. has_bit x j ≡ true) (div-odd (w / 2)) h
has_bit-with_bit_kept w (suc i) zero h =
    subst (λ x. (x == 1) ≡ true) (mod-glued w (with_bit (w / 2) i)) h
has_bit-with_bit_kept w (suc i) (suc j) h =
    subst (λ x. has_bit x j ≡ true) (div-glued w (with_bit (w / 2) i))
      (has_bit-with_bit_kept (w / 2) i j h)

word_at-set_word : (i v : ℕ) (ws : List ℕ) → i < length ws → word_at i (set_word i v ws) ≡ v
word_at-set_word i v [] h = omega arith
word_at-set_word zero v (w ∷ ws) h = refl
word_at-set_word (suc i) v (w ∷ ws) h = word_at-set_word i v ws (omega arith)

length-set_word : (i v : ℕ) (ws : List ℕ) → length (set_word i v ws) ≡ length ws
length-set_word i v [] = refl
length-set_word zero v (w ∷ ws) = refl
length-set_word (suc i) v (w ∷ ws) = ap suc (length-set_word i v ws)

-- A bit that the new word has if the old one has it is kept everywhere.
has_bit-set_word_kept :
    (i j v b : ℕ) (ws : List ℕ)
    → (has_bit (word_at i ws) b ≡ true → has_bit v b ≡ true)
    → has_bit (word_at j ws) b ≡ true
    → has_bit (word_at j (set_word i v ws)) b ≡ true
has_bit-set_word_kept i j v b [] grows h = h
has_bit-set_word_kept zero zero v b (w ∷ ws) grows h = grows h
has_bit-set_word_kept zero (suc j) v b (w ∷ ws) grows h = h
has_bit-set_word_kept (suc i) zero v b (w ∷ ws) grows h = h
has_bit-set_word_kept (suc i) (suc j) v b (w ∷ ws) grows h =
    has_bit-set_word_kept i j v b ws grows h

-- Words that have at least the bits of others.
pub Covers : List ℕ → List ℕ → Type 0
Covers ws ws' = (j : ℕ) → test_bit j ws ≡ true → test_bit j ws' ≡ true

set_bit-Covers : (idx : ℕ) (ws : List ℕ) → Covers ws (set_bit idx ws)
unfolding Covers set_bit test_bit
set_bit-Covers idx ws j h =
    has_bit-set_word_kept (idx / 64) (j / 64) (with_bit (word_at (idx / 64) ws) (idx % 64)) (j % 64)
      ws (has_bit-with_bit_kept (word_at (idx / 64) ws) (idx % 64) (j % 64)) h

test_bit-set_bit :
    (idx : ℕ) (ws : List ℕ) → idx / 64 < length ws → test_bit idx (set_bit idx ws) ≡ true
unfolding set_bit test_bit
test_bit-set_bit idx ws h =
    subst (λ x. has_bit x (idx % 64) ≡ true)
      (sym (word_at-set_word (idx / 64) (with_bit (word_at (idx / 64) ws) (idx % 64)) ws h))
      (has_bit-with_bit (word_at (idx / 64) ws) (idx % 64))

pub length-set_bits :
    (hp : HashPair) (m i n : ℕ) (ws : List ℕ) → length (set_bits hp m i n ws) ≡ length ws
unfolding set_bits set_bit
length-set_bits hp m i zero ws = refl
length-set_bits hp m i (suc n) ws =
    length-set_bits hp m (i + 1) n (set_bit (bit_of hp m i) ws)
    ∙ length-set_word (bit_of hp m i / 64)
        (with_bit (word_at (bit_of hp m i / 64) ws) (bit_of hp m i % 64)) ws

pub set_bits-Covers : (hp : HashPair) (m i n : ℕ) (ws : List ℕ) → Covers ws (set_bits hp m i n ws)
unfolding set_bits Covers
set_bits-Covers hp m i zero ws j h = h
set_bits-Covers hp m i (suc n) ws j h =
    set_bits-Covers hp m (i + 1) n (set_bit (bit_of hp m i) ws) j
      (set_bit-Covers (bit_of hp m i) ws j h)

both_if : {a b : Bool} → a ≡ true → b ≡ true → (if a then b else false) ≡ true
both_if p q = grind arith

if_both {ℓ} :
    {C : Type ℓ} (a b : Bool) → (if a then b else false) ≡ true → (a ≡ true → b ≡ true → C) → C
if_both true b h k = k refl h
if_both false b h k = absurd (grind arith)

-- What `MaybeContains` accepts, it still accepts when more bits are set.
pub test_bits-Covers :
    (hp : HashPair) (m i n : ℕ) (ws ws' : List ℕ)
    → Covers ws ws'
    → test_bits hp m i n ws ≡ true
    → test_bits hp m i n ws' ≡ true
unfolding test_bits Covers
test_bits-Covers hp m i zero ws ws' covers h = refl
test_bits-Covers hp m i (suc n) ws ws' covers h =
    if_both (test_bit (bit_of hp m i) ws) (test_bits hp m (i + 1) n ws) h (λ here rest.
      both_if (covers (bit_of hp m i) here) (test_bits-Covers hp m (i + 1) n ws ws' covers rest))

-- A sketch of `n` words has a word for every bit that a hash selects.
bit_of-bound :
    (hp : HashPair) (m i : ℕ) (ws : List ℕ)
    → 0 < m
    → m ≡ length ws * 64
    → bit_of hp m i / 64 < length ws
unfolding bit_of
bit_of-bound hp m i ws h e = omega arith

-- `MaybeContains` accepts the bits that `Add` has set.
pub test_bits-set_bits :
    (hp : HashPair) (m i n : ℕ) (ws : List ℕ)
    → 0 < m
    → m ≡ length ws * 64
    → test_bits hp m i n (set_bits hp m i n ws) ≡ true
unfolding test_bits set_bits Covers
test_bits-set_bits hp m i zero ws h e = refl
test_bits-set_bits hp m i (suc n) ws h e =
    both_if
      (set_bits-Covers hp m (i + 1) n (set_bit (bit_of hp m i) ws) (bit_of hp m i)
        (test_bit-set_bit (bit_of hp m i) ws (bit_of-bound hp m i ws h e)))
      (test_bits-set_bits hp m (i + 1) n (set_bit (bit_of hp m i) ws) h
        (e ∙ ap (λ l. l * 64) (sym (length-set_bits hp m i 1 ws))))

-- Setting a bit of a word that is `n` bits wide.
with_bit-bound : (w i n : ℕ) → i < n → w < 2 ^ n → with_bit w i < 2 ^ n
unfolding with_bit
with_bit-bound w zero (suc n) i_below h = omega arith
with_bit-bound w (suc i) (suc n) i_below h =
    let rest = with_bit-bound (w / 2) i n (omega arith) (omega arith) in omega arith
with_bit-bound w i zero i_below h = absurd (omega arith)

word_at-bound : (i : ℕ) (ws : List ℕ) → All (λ w. w < u64_mod) ws → word_at i ws < u64_mod
word_at-bound i [] h = omega arith
word_at-bound zero (w ∷ ws) h = h.0
word_at-bound (suc i) (w ∷ ws) h = word_at-bound i ws h.1

set_word-bound :
    (i v : ℕ) (ws : List ℕ)
    → v < u64_mod
    → All (λ w. w < u64_mod) ws
    → All (λ w. w < u64_mod) (set_word i v ws)
set_word-bound i v [] small h = h
set_word-bound zero v (w ∷ ws) small h = (small, h.1)
set_word-bound (suc i) v (w ∷ ws) small h = (h.0, set_word-bound i v ws small h.1)

pub set_bits-bound :
    (hp : HashPair) (m i n : ℕ) (ws : List ℕ)
    → All (λ w. w < u64_mod) ws
    → All (λ w. w < u64_mod) (set_bits hp m i n ws)
unfolding set_bits set_bit
set_bits-bound hp m i zero ws h = h
set_bits-bound hp m i (suc n) ws h =
    let bit = bit_of hp m i in
    set_bits-bound hp m (i + 1) n (set_bit bit ws) (
      set_word-bound (bit / 64) (with_bit (word_at (bit / 64) ws) (bit % 64)) ws
        (with_bit-bound (word_at (bit / 64) ws) (bit % 64) 64 (omega arith)
          (word_at-bound (bit / 64) ws h))
        h)
