-- ===== src/Session/Service/Digits.antt =====
-- The big-endian words in keys: they are ordered as the numbers are, and read back as written.
use native.Mathlib.Nat.{pow-succ'}
use agent_state_storage.Base.{
  ℕ, zero, suc, ◌+◌, ◌*◌, ◌/◌, ◌%◌, ◌^◌, ◌<◌, ltb, ◌==◌, ◌≡◌, refl, sym, ◌∙◌, true, ◌&&◌, ◌||◌,
  List, [], ◌∷◌, ◌++◌, length, length-append, arith, Bool-cases, inl, inr,
}
use agent_state_storage.Base.Bytes.{u32_mod, u64_mod}
use agent_state_storage.Session.Key.{key_lt, key_eq, key_eq_self, key_lt_irrefl}
use agent_state_storage.Session.Service.{put_u32_be, put_u64_be, get_u64_from, get_u64_be}

-- The last `n` digits in base 256, most significant first.
digits : ℕ → ℕ → List ℕ
digits zero v = []
digits (suc n) v = digits n (v / 256) ++ ((v % 256) ∷ [])

put_u64_be-digits : (v : ℕ) → put_u64_be v ≡ digits 8 v
unfolding put_u64_be digits
put_u64_be-digits v =
    let d1 : v / 2 ^ 8 % 256 ≡ v / 256 % 256 = omega arith in
    let d2 : v / 2 ^ 16 % 256 ≡ v / 256 / 256 % 256 = omega arith in
    let d3 : v / 2 ^ 24 % 256 ≡ v / 256 / 256 / 256 % 256 = omega arith in
    let d4 : v / 2 ^ 32 % 256 ≡ v / 256 / 256 / 256 / 256 % 256 = omega arith in
    let d5 : v / 2 ^ 40 % 256 ≡ v / 256 / 256 / 256 / 256 / 256 % 256 = omega arith in
    let d6 : v / 2 ^ 48 % 256 ≡ v / 256 / 256 / 256 / 256 / 256 / 256 % 256 = omega arith in
    let d7 : v / 2 ^ 56 % 256 ≡ v / 256 / 256 / 256 / 256 / 256 / 256 / 256 % 256 = omega arith in
    rw (d1, d2, d3, d4, d5, d6, d7) refl

key_lt-snoc :
    (xs ys : List ℕ) (x y : ℕ)
    → length xs ≡ length ys
    → key_lt (xs ++ (x ∷ [])) (ys ++ (y ∷ [])) ≡ (key_lt xs ys || (key_eq xs ys && ltb x y))
unfolding key_lt key_eq
key_lt-snoc [] [] x y e = ground arith
key_lt-snoc [] (b ∷ ys) x y e = absurd (omega arith)
key_lt-snoc (a ∷ xs) [] x y e = absurd (omega arith)
key_lt-snoc (a ∷ xs) (b ∷ ys) x y e = ground (arith, key_lt-snoc xs ys x y (omega arith))

length-digits : (n v : ℕ) → length (digits n v) ≡ n
unfolding digits
length-digits zero v = refl
length-digits (suc n) v =
    omega (arith, length-append (digits n (v / 256)) ((v % 256) ∷ []), length-digits n (v / 256))

-- Of two numbers with as many digits, the digits of the smaller come first.
digits-lt : (n a b : ℕ) → b < 256 ^ n → a < b → key_lt (digits n a) (digits n b) ≡ true
unfolding digits
digits-lt zero a b small l = absurd (omega arith)
digits-lt (suc n) a b small l =
    let snoc =
      key_lt-snoc (digits n (a / 256)) (digits n (b / 256)) (a % 256) (b % 256)
        (length-digits n (a / 256) ∙ sym (length-digits n (b / 256))) in
    elim (Bool-cases (a / 256 == b / 256)) [
      | inl same ↦
          let q : a / 256 ≡ b / 256 = ground arith in
          let r : ltb (a % 256) (b % 256) ≡ true = ground arith in
          rw snoc
            (rw (q, key_eq_self (digits n (b / 256)), key_lt_irrefl (digits n (b / 256)), r) refl)
      | inr less ↦
          let q : a / 256 < b / 256 = ground arith in
          let top : b / 256 < 256 ^ n = omega (arith, pow-succ' 256 n) in
          rw snoc (rw (digits-lt n (a / 256) (b / 256) top q) refl)
    ]

pub put_u64_be-lt : (a b : ℕ) → b < u64_mod → a < b → key_lt (put_u64_be a) (put_u64_be b) ≡ true
put_u64_be-lt a b small l =
    rw (put_u64_be-digits a, put_u64_be-digits b) (digits-lt 8 a b (omega arith) l)

get_u64_from-snoc :
    (xs : List ℕ) (v x : ℕ)
    → get_u64_from v (xs ++ (x ∷ [])) ≡ get_u64_from v xs * 256 % u64_mod + x
unfolding get_u64_from
get_u64_from-snoc [] v x = refl
get_u64_from-snoc (y ∷ xs) v x = get_u64_from-snoc xs (v * 256 % u64_mod + y) x

-- At most eight digits are read back in full.
get_u64_from-digits : (n v : ℕ) → v < 256 ^ n → v < u64_mod → get_u64_from 0 (digits n v) ≡ v
unfolding digits
get_u64_from-digits zero v small fits = unfold get_u64_from in omega arith
get_u64_from-digits (suc n) v small fits =
    let top : v / 256 < 256 ^ n = omega (arith, pow-succ' 256 n) in
    let above = get_u64_from-digits n (v / 256) top (omega arith) in
    get_u64_from-snoc (digits n (v / 256)) 0 (v % 256) ∙ omega (arith, above)

pub get_u64_be-put_u64_be : (v : ℕ) → v < u64_mod → get_u64_be (put_u64_be v) ≡ v
unfolding get_u64_be
get_u64_be-put_u64_be v small =
    rw (put_u64_be-digits v) (get_u64_from-digits 8 v (omega arith) small)

-- A length field tells which length it was.
pub put_u32_be-eq : (a b : ℕ) → a < u32_mod → b < u32_mod → put_u32_be a ≡ put_u32_be b → a ≡ b
unfolding put_u32_be
put_u32_be-eq a b sa sb e = ground arith
