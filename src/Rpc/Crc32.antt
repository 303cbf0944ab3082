-- ===== src/Rpc/Crc32.antt =====
-- raftkv/raft-rpc/src/RaftRpcCRC32.cpp. `CRC32Type` is std::uint32_t.
use Prim.Native.Nat.{bit_xor}
use ww_raft_kv.Prelude.{
  List, [], arith, if◌then◌else◌, refl, suc, zero, ℕ, ◌%◌, ◌/◌, ◌<◌, ◌==◌, ◌^◌, ◌∷◌, ◌≡◌,
}

-- `_Init`: eight rounds on a number below 256.
unfoldable pub rounds : ℕ → ℕ → ℕ
rounds zero c = c
rounds (suc n) c = rounds n (if c % 2 == 1 then bit_xor 0xEDB88320 (c / 2) else c / 2)

unfoldable pub table : ℕ → ℕ
table i = rounds 8 i

unfoldable pub run : List ℕ → ℕ → ℕ
run [] crc = crc
run (byte ∷ bytes) crc = run bytes (bit_xor (crc / 256) (table (bit_xor (crc % 256) byte)) % 2 ^ 32)

unfoldable pub crc32 : List ℕ → ℕ
crc32 bytes = bit_xor (run bytes 0xFFFFFFFF) 0xFFFFFFFF % 2 ^ 32

pub crc32_lt : (bytes : List ℕ) → crc32 bytes < 4294967296
unfolding crc32
crc32_lt bytes = omega arith

-- The value that is published for the text "123456789".
check_value : crc32 (49 ∷ 50 ∷ 51 ∷ 52 ∷ 53 ∷ 54 ∷ 55 ∷ 56 ∷ 57 ∷ []) ≡ 0xCBF43926
unfolding crc32 run table rounds
check_value = refl
