-- ===== src/MemoryPool/Size/Classes.antt =====
-- raftkv/memory-pool/common/src/Size.cpp: sizes, their classes, and back.
use ww_raft_kv.MemoryPool.Size.{
  align, index_to_size, max_array_size, max_memory_size, round_up, size_to_index,
}
use ww_raft_kv.Prelude.{ap, arith, inl, inr, le-cases, sym, ℕ, ◌*◌, ◌+◌, ◌<◌, ◌∙◌, ◌≡◌, ◌≤◌, ◌⊎◌}

-- The class of a size that the pool manages is a place in the arrays of lists.
pub size_to_index-bound :
    (size : ℕ) → 0 < size → size ≤ max_memory_size → size_to_index size < max_array_size
unfolding size_to_index
size_to_index-bound size h k = ground arith

-- Every class has the index that its size leads to.
pub size_to_index-index_to_size :
    (index : ℕ) → index < max_array_size → size_to_index (index_to_size index) ≡ index
unfolding size_to_index index_to_size
size_to_index-index_to_size index h = ground arith

round_up-ge : (size : ℕ) → size ≤ max_memory_size → size ≤ round_up size
unfolding round_up align
round_up-ge size k = ground arith

-- The rounding of a size that the pool manages adds less than 8 bytes, or less than an eighth of
-- the size.
pub round_up-waste :
    (size : ℕ)
    → size ≤ max_memory_size
    → (round_up size < size + 8) ⊎ (8 * round_up size < 9 * size)
unfolding round_up align
round_up-waste size k = ground arith

by_8 : (size : ℕ) → 0 < size → size ≤ 128 → index_to_size (size_to_index size) ≡ round_up size
unfolding size_to_index index_to_size round_up align
by_8 size h k = ground arith

by_16 : (size : ℕ) → 128 < size → size ≤ 1024 → index_to_size (size_to_index size) ≡ round_up size
unfolding size_to_index index_to_size round_up align
by_16 size h k = ground arith

by_128 : (size : ℕ) → 1024 < size → size ≤ 8192 → index_to_size (size_to_index size) ≡ round_up size
unfolding size_to_index index_to_size round_up align
by_128 size h k = ground arith

by_1024 :
    (size : ℕ) → 8192 < size → size ≤ 65536 → index_to_size (size_to_index size) ≡ round_up size
unfolding size_to_index index_to_size round_up align
by_1024 size h k = ground arith

by_8192 :
    (size : ℕ) → 65536 < size → size ≤ 262144 → index_to_size (size_to_index size) ≡ round_up size
unfolding size_to_index index_to_size round_up align
by_8192 size h k = ground arith

-- The size of the class of a size is its rounding.
class_size :
    (size : ℕ)
    → 0 < size
    → size ≤ max_memory_size
    → index_to_size (size_to_index size) ≡ round_up size
class_size size h k = elim (le-cases size 128) [
  | inl a ↦ by_8 size h a
  | inr a ↦ elim (le-cases size 1024) [
    | inl b ↦ by_16 size a b
    | inr b ↦ elim (le-cases size 8192) [
      | inl c ↦ by_128 size b c
      | inr c ↦ elim (le-cases size 65536) [ inl d ↦ by_1024 size c d | inr d ↦ by_8192 size d k ]
    ]
  ]
]

-- A size that the pool manages and that is not 0 is not larger than its rounding. The rounding is
-- the size of the class of the size, and is in the same class.
pub round_up-class :
    (size : ℕ)
    → 0 < size
    → size ≤ max_memory_size
    → (size ≤ round_up size)
      × (index_to_size (size_to_index size) ≡ round_up size)
      × (size_to_index (round_up size) ≡ size_to_index size)
round_up-class size h k =
    let c = class_size size h k in
    (
      round_up-ge size k,
      c,
      ap size_to_index (sym c)
          ∙ size_to_index-index_to_size (size_to_index size) (size_to_index-bound size h k),
    )
