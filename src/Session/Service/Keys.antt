-- ===== src/Session/Service/Keys.antt =====
-- Keys of different tenants, and of different kinds, are apart.
use mathlib.Core.List.{append_assoc, append-nil}
use agent_state_storage.Base.{
  subst, Bool-cases, inl, inr, ℕ, ◌%◌, ◌<◌, ◌≡◌, refl, sym, ap, ◌∙◌, true, false, List, [], ◌∷◌,
  ◌++◌, length, arith,
}
use agent_state_storage.Base.Bytes.{u32_mod}
use agent_state_storage.Session.Key.{prefix_matches, key_eq, key_eq→eq, key_eq_iff}
use agent_state_storage.Session.Key.Prefix.{matches_cons, matches_nil}
use agent_state_storage.Session.Service.{put_u32_be, encode_key, item_kind, item_prefix}
use agent_state_storage.Session.Service.Digits.{put_u32_be-eq}

-- Parts of the same length match apart.
matches_split :
    (a b x y : List ℕ)
    → length a ≡ length b
    → prefix_matches (a ++ x) (b ++ y) ≡ true
    → (a ≡ b) × (prefix_matches x y ≡ true)
matches_split [] [] x y e h = (refl, h)
matches_split [] (d ∷ b) x y e h = absurd (omega arith)
matches_split (c ∷ a) [] x y e h = absurd (omega arith)
matches_split (c ∷ a) (d ∷ b) x y e h =
    let both = matches_cons c (a ++ x) d (b ++ y) in
    let here : c ≡ d = ground arith in
    let rest = matches_split a b x y (omega arith) (ground arith) in
    (rw (here, rest.0) refl, rest.1)

pub matches_append : (p x y : List ℕ) → prefix_matches (p ++ x) (p ++ y) ≡ prefix_matches x y
matches_append [] x y = refl
matches_append (c ∷ p) x y =
    ground (arith, matches_cons c (p ++ x) c (p ++ y), matches_append p x y)

length-put_u32_be : (v : ℕ) → length (put_u32_be v) ≡ 4
unfolding put_u32_be
length-put_u32_be v = refl

-- A field with its length in front.
field_split :
    (a b x y : List ℕ)
    → length a < u32_mod
    → length b < u32_mod
    → prefix_matches
        (put_u32_be (length a % u32_mod) ++ (a ++ x))
        (put_u32_be (length b % u32_mod) ++ (b ++ y))
      ≡ true
    → (a ≡ b) × (prefix_matches x y ≡ true)
field_split a b x y sa sb h =
    let heads =
      matches_split (put_u32_be (length a % u32_mod)) (put_u32_be (length b % u32_mod)) (a ++ x)
        (b ++ y)
        (length-put_u32_be (length a % u32_mod) ∙ sym (length-put_u32_be (length b % u32_mod))) h in
    let same : length a % u32_mod ≡ length b % u32_mod =
      put_u32_be-eq (length a % u32_mod) (length b % u32_mod) (omega arith) (omega arith) heads.0 in
    matches_split a b x y (omega arith) heads.1

-- A key under a prefix of a tenant and a kind is a key of that tenant and that kind, and matches in
-- what follows them. Tenants are shorter than 2 ^ 32 bytes.
pub encode_key-isolated :
    (tenant tenant' : List ℕ) (kind kind' : ℕ) (rest rest' : List ℕ)
    → length tenant < u32_mod
    → length tenant' < u32_mod
    → prefix_matches (encode_key tenant kind rest) (encode_key tenant' kind' rest') ≡ true
    → (tenant ≡ tenant') × (kind ≡ kind') × (prefix_matches rest rest' ≡ true)
unfolding encode_key
encode_key-isolated tenant tenant' kind kind' rest rest' st st' h =
    let both = field_split tenant tenant' (kind ∷ rest) (kind' ∷ rest') st st' h in
    let last = matches_cons kind rest kind' rest' in
    (both.0, ground (arith, both.1), ground (arith, both.1))

encode_key-append :
    (tenant : List ℕ) (kind : ℕ) (rest more : List ℕ)
    → encode_key tenant kind rest ++ more ≡ encode_key tenant kind (rest ++ more)
unfolding encode_key
encode_key-append tenant kind rest more =
    append_assoc (put_u32_be (length tenant % u32_mod)) (tenant ++ (kind ∷ rest)) more
    ∙ ap (◌++◌ (put_u32_be (length tenant % u32_mod))) (append_assoc tenant (kind ∷ rest) more)

-- The same for sessions.
pub item_prefix-isolated :
    (tenant tenant' session session' : List ℕ) (rest : List ℕ)
    → length tenant < u32_mod
    → length tenant' < u32_mod
    → length session < u32_mod
    → length session' < u32_mod
    → prefix_matches (item_prefix tenant session ++ rest) (item_prefix tenant' session') ≡ true
    → (tenant ≡ tenant') × (session ≡ session')
unfolding item_prefix
item_prefix-isolated tenant tenant' session session' rest st st' ss ss' h =
    let l = put_u32_be (length session % u32_mod) in
    let l' = put_u32_be (length session' % u32_mod) in
    let grown : item_prefix tenant session ++ rest
        ≡ encode_key tenant item_kind (l ++ (session ++ rest)) =
      encode_key-append tenant item_kind (l ++ session) rest
      ∙ ap (encode_key tenant item_kind) (append_assoc l session rest) in
    let ends : l' ++ session' ≡ l' ++ (session' ++ []) = ap (◌++◌ l') (sym (append-nil session')) in
    let (t, k, r) =
      encode_key-isolated tenant tenant' item_kind item_kind (l ++ (session ++ rest))
        (l' ++ session') st st'
        (subst (λ key. prefix_matches key (item_prefix tenant' session') ≡ true) grown h) in
    (
      t,
      (field_split session session' rest [] ss ss'
          (subst (λ p. prefix_matches (l ++ (session ++ rest)) p ≡ true) ends r)).0,
    )

key_eq_append : (p x y : List ℕ) → key_eq (p ++ x) (p ++ y) ≡ key_eq x y
unfolding key_eq
key_eq_append [] x y = refl
key_eq_append (c ∷ p) x y = ground (arith, key_eq_append p x y)

-- Of one tenant and kind, keys are as their ends.
pub encode_key-eq :
    (tenant : List ℕ) (kind : ℕ) (rest rest' : List ℕ)
    → key_eq (encode_key tenant kind rest) (encode_key tenant kind rest') ≡ key_eq rest rest'
unfolding encode_key
encode_key-eq tenant kind rest rest' =
    key_eq_append (put_u32_be (length tenant % u32_mod)) (tenant ++ (kind ∷ rest))
      (tenant ++ (kind ∷ rest'))
    ∙ key_eq_append tenant (kind ∷ rest) (kind ∷ rest')
    ∙ key_eq_append (kind ∷ []) rest rest'

matches_self : (k : List ℕ) → prefix_matches k k ≡ true
matches_self [] = matches_nil []
matches_self (x ∷ k) = ground (arith, matches_cons x k x k, matches_self k)

-- Keys of different tenants differ.
pub encode_key-ne :
    (tenant tenant' : List ℕ) (kind : ℕ) (rest rest' : List ℕ)
    → length tenant < u32_mod
    → length tenant' < u32_mod
    → key_eq tenant tenant' ≡ false
    → key_eq (encode_key tenant kind rest) (encode_key tenant' kind rest') ≡ false
encode_key-ne tenant tenant' kind rest rest' st st' ne =
    elim (Bool-cases (key_eq (encode_key tenant kind rest) (encode_key tenant' kind rest'))) [
      | inr other ↦ other
      | inl same ↦
          let e = key_eq→eq (encode_key tenant kind rest) (encode_key tenant' kind rest') same in
          let m : prefix_matches (encode_key tenant kind rest) (encode_key tenant' kind rest')
              ≡ true =
            subst (λ k. prefix_matches (encode_key tenant kind rest) k ≡ true) e
              (matches_self (encode_key tenant kind rest)) in
          let t = (encode_key-isolated tenant tenant' kind kind rest rest' st st' m).0 in
          ground (arith, key_eq_iff tenant tenant')
    ]
