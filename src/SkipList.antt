-- ===== src/SkipList.antt =====
-- raftkv/kvstore/include/SkipList.h: the operations of a skip list. A result is missing where C++
-- leaves it open, or where a loop would not end.
pub mod Types
pub mod Change
pub mod Shape
pub mod Levels
pub mod Search
pub mod Order
pub mod Find
pub mod Writing
pub mod Apart
pub mod Link
pub mod Linking
pub mod Insert
pub mod Create
pub mod Inserted
pub mod Insertion
pub mod Assign
pub mod Unlink
pub mod Remove
pub mod Erase
pub mod Clear
pub mod EraseAt
pub mod Iterator
pub mod Visited
use ww_raft_kv.Prelude.{
  Bool, Option, false, if◌then◌else◌, none, some, suc, true, zero, ℕ, ◌%◌, ◌+◌, ◌-◌, ◌==◌,
}
use ww_raft_kv.SkipList.Types.{Params, Pointer, SkipList, key_at, put_at, read, ◌>>=◌}

module _ {K V : Type 0} (o : Params K V) where
  -- The loop that goes on at a level while the next key is smaller. The fuel bounds its rounds.
  unfoldable pub advance : K → ℕ → ℕ → SkipList K V → Pointer → Option Pointer
  unfolding read key_at
  advance key level zero s cur = none
  advance key level (suc fuel) s cur = do
    next ← read s cur level
    elim next [
      | none ↦ some cur
      | some q ↦ do
        other ← key_at s q
        elim (o.less other key) [ true ↦ advance key level fuel s q | false ↦ some cur ]
    ]

  -- Every round of that loop goes to another node, so there are not more than nodes were made.
  unfoldable pub go_level : K → ℕ → SkipList K V → Pointer → Option Pointer
  unfolding advance
  go_level key level s cur = advance key level s.fresh s cur

  -- The loop over the levels, from one down to 0.
  unfoldable pub descend : K → ℕ → SkipList K V → Pointer → Option Pointer
  unfolding go_level
  descend key zero s cur = go_level key 0 s cur
  descend key (suc level) s cur = do next ← go_level key (suc level) s cur; descend key level s next

  -- Whether a pointer is to a node with the key.
  unfoldable pub has_key : K → SkipList K V → Option Pointer → Option Bool
  unfolding key_at
  has_key key s none = some false
  has_key key s (some p) = do other ← key_at s p; some (o.equal other key)

  -- `_Find`, whose result is a null pointer if there is no such key.
  unfoldable pub find : K → SkipList K V → Option (Option Pointer)
  unfolding descend read has_key
  find key s = do
    cur ← descend key s.current_level_index s s.head
    next ← read s cur 0
    found ← has_key key s next
    some (if found then next else none)

  unfoldable pub contains : K → SkipList K V → Option Bool
  unfolding find
  contains key s = do found ← find key s; some (elim found [ none ↦ false | some p ↦ true ])

  -- `_Update_list`: the pointer at each level.
  abbrev pub UpdateList : Type 0
  UpdateList = ℕ → Option Pointer

  -- The loop of `_Find_with_update`, with the last node and the list.
  unfoldable pub descend_with_update :
      K → ℕ → SkipList K V → Pointer → UpdateList → Option (Pointer × UpdateList)
  unfolding go_level
  descend_with_update key zero s cur update_list = do
    next ← go_level key 0 s cur
    some (next, put_at 0 (some next) update_list)
  descend_with_update key (suc level) s cur update_list = do
    next ← go_level key (suc level) s cur
    descend_with_update key level s next (put_at (suc level) (some next) update_list)

  -- `_Find_with_update`, on a list of null pointers.
  unfoldable pub find_with_update : K → SkipList K V → Option (Option Pointer × UpdateList)
  unfolding descend_with_update read
  find_with_update key s = do
    found ← descend_with_update key s.current_level_index s s.head (λ level. none)
    next ← read s found.0 0
    some (next, found.1)

  -- The loop of `_Random_level`, with the rounds that the limit leaves, and the number of calls of
  -- `rand`, which is called before the limit is tested.
  unfoldable pub raise_level : ℕ → ℕ → ℕ → ℕ × ℕ
  raise_level zero level calls = (level, calls + 1)
  raise_level (suc rounds) level calls = elim (o.rand calls % 2 == 0) [
    | true ↦ (level, calls + 1)
    | false ↦ raise_level rounds (level + 1) (calls + 1)
  ]

  unfoldable pub random_level : SkipList K V → ℕ × ℕ
  unfolding raise_level
  random_level s = raise_level (s.max_level_index - 1) 1 s.rands
