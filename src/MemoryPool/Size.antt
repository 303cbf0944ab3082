-- ===== src/MemoryPool/Size.antt =====
-- raftkv/memory-pool/common/src/Size.cpp: the classes of block sizes. `size_type` is
-- `std::size_t`: sums and differences wrap at 2 ^ 64.
pub mod Classes
use ww_raft_kv.Prelude.{if◌then◌else◌, leb, ℕ, ◌%◌, ◌*◌, ◌+◌, ◌-◌, ◌/◌, ◌^◌}

abbrev pub size_mod : ℕ
size_mod = 2 ^ 64

abbrev pub plus : ℕ → ℕ → ℕ
plus a b = (a + b) % size_mod

abbrev pub minus : ℕ → ℕ → ℕ
minus a b = (a + size_mod - b) % size_mod

unfoldable pub index_to_size : ℕ → ℕ
index_to_size index =
    if leb index 15
    then (index + 1) * 8
    else if leb index 71
    then 128 + 16 * (index - 15)
    else if leb index 127
    then 1024 + 128 * (index - 71)
    else if leb index 183
    then 8192 + 1024 * (index - 127)
    else if leb index 207
    then 65536 + 8192 * (index - 183)
    else 0

unfoldable pub size_to_index : ℕ → ℕ
size_to_index size =
    if leb size 128
    then minus (plus size 7 / 8) 1
    else if leb size 1024
    then 16 + (size - 129) / 16
    else if leb size 8192
    then 72 + (size - 1025) / 128
    else if leb size 65536
    then 128 + (size - 8193) / 1024
    else if leb size 262144
    then 184 + (size - 65537) / 8192
    else 0

-- `(_Size + step - 1) & ~(step - 1)`, where the step is a power of 2: the mask clears the bits
-- below the step, which leaves the multiple of the step at or below the sum.
unfoldable pub align : ℕ → ℕ → ℕ
align step size = plus size (step - 1) / step * step

unfoldable pub round_up : ℕ → ℕ
unfolding align
round_up size =
    if leb size 128
    then align 8 size
    else if leb size 1024
    then align 16 size
    else if leb size 8192
    then align 128 size
    else if leb size 65536
    then align 1024 size
    else align 8192 size

-- The largest block that the pool manages, and the number of classes.
abbrev pub max_memory_size : ℕ
max_memory_size = 4096 * 128 / 2

abbrev pub max_array_size : ℕ
max_array_size = 208
