-- ===== src/Rpc/Bytes.antt =====
-- Numbers as bytes, in the two orders of <endian.h> that raftkv/raft-rpc uses.
use ww_raft_kv.Prelude.{
  List, Option, [], ap, arith, length, none, none-some, some, ℕ, ◌%◌, ◌*◌, ◌++◌, ◌+◌, ◌/◌, ◌<◌, ◌∷◌,
  ◌≡◌,
}

-- The bytes of a 32-bit number as the machine holds them, the lowest first.
unfoldable pub le32 : ℕ → List ℕ
le32 n = n % 256 ∷ n / 256 % 256 ∷ n / 65536 % 256 ∷ n / 16777216 % 256 ∷ []

-- `htobe32`: the highest byte first.
unfoldable pub be32 : ℕ → List ℕ
be32 n = n / 16777216 % 256 ∷ n / 65536 % 256 ∷ n / 256 % 256 ∷ n % 256 ∷ []

-- Numbers of 64 bits, as two of 32.
unfoldable pub le64 : ℕ → List ℕ
le64 n = le32 (n % 4294967296) ++ le32 (n / 4294967296)

unfoldable pub be64 : ℕ → List ℕ
be64 n = be32 (n / 4294967296) ++ be32 (n % 4294967296)

-- `be32toh` of the bytes in front, when there are four.
unfoldable pub word : List ℕ → Option (ℕ × List ℕ)
word (a ∷ b ∷ c ∷ d ∷ rest) = some (((a * 256 + b) * 256 + c) * 256 + d, rest)
word _ = none

word_value :
    (n : ℕ)
    → n < 4294967296
    → ((n / 16777216 % 256 * 256 + n / 65536 % 256) * 256 + n / 256 % 256) * 256 + n % 256 ≡ n
word_value n h = omega arith

pub word-be32 : (n : ℕ) (rest : List ℕ) → n < 4294967296 → word (be32 n ++ rest) ≡ some (n, rest)
unfolding word be32
word-be32 n rest h = ap (λ v. some (v, rest)) (word_value n h)

pub length-word :
    (b : List ℕ) (v : ℕ) (rest : List ℕ) → word b ≡ some (v, rest) → length b ≡ 4 + length rest
unfolding word
length-word [] v rest h = absurd (none-some h)
length-word (a ∷ []) v rest h = absurd (none-some h)
length-word (a ∷ b ∷ []) v rest h = absurd (none-some h)
length-word (a ∷ b ∷ c ∷ []) v rest h = absurd (none-some h)
length-word (a ∷ b ∷ c ∷ d ∷ r) v rest h =
    omega (arith, ap {B = ℕ} (λ o. elim o [ none ↦ 0 | some p ↦ length p.1 ]) h)
