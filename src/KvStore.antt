-- ===== src/KvStore.antt =====
-- raftkv/kvstore/include/KVStore.h: the map that the committed commands change. A result is
-- missing where the skip list below gives none.
pub mod Map
pub mod Update
pub mod Removal
mod Tests
use ww_raft_kv.Prelude.{Bool, Option, not, some, true, ◌==◌}
use ww_raft_kv.SkipList.Change.{erase, get_or_insert, insert}
use ww_raft_kv.SkipList.Types.{Params, SkipList, assign, value_at, ◌>>=◌}

module _ {K V : Type 0} (o : Params K V) where
  -- `get`, which inserts a key that is not there.
  unfoldable pub get : K → SkipList K V → Option (V × SkipList K V)
  unfolding get_or_insert value_at
  get key s = do
    got ← get_or_insert o key s
    p ← got.0
    value ← value_at got.1 p
    some (value, got.1)

  unfoldable pub put : K → V → SkipList K V → Option (Bool × SkipList K V)
  unfolding insert
  put key value s = do (at, new_node, t) ← insert o key value s; some (new_node, t)

  unfoldable pub update : K → V → SkipList K V → Option (Bool × SkipList K V)
  unfolding get_or_insert assign
  update key value s = do
    got ← get_or_insert o key s
    p ← got.0
    t ← assign got.1 p value
    some (true, t)

  unfoldable pub remove : K → SkipList K V → Option (Bool × SkipList K V)
  unfolding erase
  remove key s = do (count, t) ← erase o key s; some (not (count == 0), t)
