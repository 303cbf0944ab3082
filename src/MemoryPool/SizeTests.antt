-- ===== src/MemoryPool/SizeTests.antt =====
-- Sizes of blocks.
use ww_raft_kv.MemoryPool.Size.{align, index_to_size, max_array_size, round_up, size_to_index}
use ww_raft_kv.MemoryPool.Size.Classes.{
  round_up-class, size_to_index-bound, size_to_index-index_to_size,
}
use ww_raft_kv.Prelude.{arith, refl, ◌<◌, ◌≡◌, ◌≤◌}

size_to_index-bound_example : size_to_index 5000 < max_array_size
size_to_index-bound_example = size_to_index-bound 5000 (omega arith) (omega arith)

size_to_index-index_to_size_example : size_to_index (index_to_size 130) ≡ 130
size_to_index-index_to_size_example = size_to_index-index_to_size 130 (omega arith)

round_up-class_example :
    (5000 ≤ round_up 5000)
    × (index_to_size (size_to_index 5000) ≡ round_up 5000)
    × (size_to_index (round_up 5000) ≡ size_to_index 5000)
round_up-class_example = round_up-class 5000 (omega arith) (omega arith)

round_up_129 : round_up 129 ≡ 144
unfolding round_up align
round_up_129 = refl
