-- ===== src/SkipList/EraseAt.antt =====
-- raftkv/kvstore/include/SkipList.h: `erase` at an iterator, which gives the iterator after it.
use ww_raft_kv.Prelude.{Option, false, length, none, some, suc, true, zero, ℕ, ◌-◌}
use ww_raft_kv.SkipList.Types.{Params, Pointer, SkipList, read, write, ◌>>=◌}
use ww_raft_kv.SkipList.Change.{destroy_node, lower, points_to}
use ww_raft_kv.SkipList.Iterator.{Iterator}

module _ {K V : Type 0} (o : Params K V) where
  -- The loop along a level to the node before the one at an address. A level has no more nodes
  -- than were made; past its end a null pointer is followed.
  unfoldable pub seek : ℕ → Pointer → ℕ → Pointer → SkipList K V → Option Pointer
  unfolding read points_to
  seek zero p level cur s = none
  seek (suc fuel) p level cur s = do
    next ← read s cur level
    elim (points_to o p next) [
      | true ↦ some cur
      | false ↦ elim next [ none ↦ none | some q ↦ seek fuel p level q s ]
    ]

  -- One level, from the head.
  unfoldable pub unlink_level : Pointer → ℕ → SkipList K V → Option (SkipList K V)
  unfolding seek read write
  unlink_level p level s = do
    before ← seek s.fresh p level s.head s
    after ← read s p level
    write s before level after

  -- The levels of the node from the highest down to 1.
  unfoldable pub unlink_down : Pointer → ℕ → SkipList K V → Option (SkipList K V)
  unfolding unlink_level
  unlink_down p zero s = some s
  unlink_down p (suc level) s = do t ← unlink_level p (suc level) s; unlink_down p level t

  unfoldable pub erase_at : Iterator → SkipList K V → Option (Iterator × SkipList K V)
  unfolding unlink_down unlink_level destroy_node lower
  erase_at none s = some (none, s)
  erase_at (some p) s = do
    node ← s.heap p
    t ← unlink_down p (length node.forward - 1) s
    next ← read t p 0
    u ← unlink_level p 0 t
    let v = destroy_node o p u
    level ← lower o v.current_level_index v
    some (next, record v { current_level_index = level; size = v.size - 1 })
