-- ===== src/Base/Bytes.antt =====
-- Little-endian 32-bit fields of the on-disk formats: `PutU32` and `GetU32` of
-- src/kvstore-node/src/session/ordered_log_store.cpp. A byte is a number below 256. On bytes the `|`
-- of `GetU32` joins disjoint bits, so it is `+`; what lies past the end of a buffer reads as 0.
use Prim.Native.Nat.{ℕ, zero, suc, ◌+◌, ◌*◌, ◌/◌, ◌%◌, ◌^◌, ◌≤◌, ◌<◌}
use mathlib.Core.Path.{◌≡◌, refl}
use mathlib.Core.List.{List, [], ◌∷◌, ◌++◌}
use native.Mathlib.Omega.{arith}
use agent_state_storage.Base.Lists.{length, take, drop, All}

abbrev pub u32_mod : ℕ
u32_mod = 2 ^ 32

abbrev pub u64_mod : ℕ
u64_mod = 2 ^ 64

abbrev pub IsByte : ℕ → Type 0
IsByte b = b < 256

-- `p[i]`
abbrev pub byte_at : ℕ → List ℕ → ℕ
byte_at i [] = 0
byte_at zero (x ∷ xs) = x
byte_at (suc i) (x ∷ xs) = byte_at i xs

unfoldable pub put_u32 : ℕ → List ℕ
put_u32 v = (v % 256) ∷ (v / 256 % 256) ∷ (v / 65536 % 256) ∷ (v / 16777216 % 256) ∷ []

unfoldable pub get_u32 : List ℕ → ℕ
get_u32 p = byte_at 0 p + byte_at 1 p * 256 + byte_at 2 p * 65536 + byte_at 3 p * 16777216

-- A 32-bit field reads back as written.
pub get_u32-put_u32 : (v : ℕ) (rest : List ℕ) → v < u32_mod → get_u32 (put_u32 v ++ rest) ≡ v
unfolding get_u32 put_u32
get_u32-put_u32 v rest h = omega arith

pub length-put_u32 : (v : ℕ) → length (put_u32 v) ≡ 4
unfolding put_u32
length-put_u32 v = refl

pub put_u32-IsByte : (v : ℕ) → All IsByte (put_u32 v)
unfolding put_u32
put_u32-IsByte v = omega arith

pub drop-put_u32 : (v : ℕ) (rest : List ℕ) → drop 4 (put_u32 v ++ rest) ≡ rest
unfolding put_u32
drop-put_u32 v rest = refl

pub length-put_u32_append : (v : ℕ) (rest : List ℕ) → length (put_u32 v ++ rest) ≡ length rest + 4
unfolding put_u32
length-put_u32_append v rest = omega arith

-- Only the first four bytes are read.
pub get_u32-take : (n : ℕ) (p : List ℕ) → 4 ≤ n → get_u32 (take n p) ≡ get_u32 p
unfolding get_u32
get_u32-take (suc (suc (suc (suc n)))) [] h = refl
get_u32-take (suc (suc (suc (suc n)))) (a ∷ []) h = refl
get_u32-take (suc (suc (suc (suc n)))) (a ∷ b ∷ []) h = refl
get_u32-take (suc (suc (suc (suc n)))) (a ∷ b ∷ c ∷ []) h = refl
get_u32-take (suc (suc (suc (suc n)))) (a ∷ b ∷ c ∷ d ∷ p) h = refl
get_u32-take n p h = absurd (omega arith)
