-- ===== src/Session/Crc.antt =====
-- `Crc32` of src/kvstore-node/src/session/ordered_log_store.cpp. A uint32_t is a number below
-- 2 ^ 32, `c >> 1` is `c / 2`, `0u - x` wraps, and `~c` is 2 ^ 32 - 1 - c.
use Prim.Native.Nat.{bit_and, bit_xor}
use agent_state_storage.Base.{ℕ, zero, suc, ◌-◌, ◌/◌, ◌%◌, ◌<◌, ◌≡◌, refl, List, [], ◌∷◌, arith}
use agent_state_storage.Base.Bytes.{u32_mod}

-- `c = (c >> 1) ^ (0xEDB88320u & (0u - (c & 1u)))`
crc_bit : ℕ → ℕ
crc_bit c = bit_xor (c / 2) (bit_and 0xEDB8_8320 ((u32_mod - bit_and c 1) % u32_mod))

crc_rounds : ℕ → ℕ → ℕ
unfolding crc_bit
crc_rounds zero c = c
crc_rounds (suc k) c = crc_rounds k (crc_bit c)

crc_bytes : ℕ → List ℕ → ℕ
unfolding crc_rounds
crc_bytes c [] = c
crc_bytes c (p ∷ ps) = crc_bytes (crc_rounds 8 (bit_xor c p)) ps

unfoldable pub crc32 : List ℕ → ℕ
unfolding crc_bytes
crc32 ps = u32_mod - 1 - crc_bytes 0xFFFF_FFFF ps

pub crc32-lt : (ps : List ℕ) → crc32 ps < u32_mod
unfolding crc32
crc32-lt ps = omega arith

-- The check value of CRC-32/IEEE: the digits "123456789".
crc32_check_value :
    crc32 (0x31 ∷ 0x32 ∷ 0x33 ∷ 0x34 ∷ 0x35 ∷ 0x36 ∷ 0x37 ∷ 0x38 ∷ 0x39 ∷ []) ≡ 0xCBF4_3926
unfolding crc32
crc32_check_value = refl
