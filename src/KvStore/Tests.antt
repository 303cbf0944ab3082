-- ===== src/KvStore/Tests.antt =====
-- A store of numbers, with nodes of several levels.
use ww_raft_kv.KvStore.{get, put, remove, update}
use ww_raft_kv.KvStore.Map.{added, contains_lem, get_lem, is_none, new-Shape, or_else, put_lem}
use ww_raft_kv.KvStore.Removal.{remove_lem}
use ww_raft_kv.KvStore.Update.{update_lem}
use ww_raft_kv.Prelude.{
  List, Option, [], arith, false, if◌then◌else◌, ltb, none, not, refl, some, true, ℕ, ◌==◌, ◌∷◌,
  ◌≡◌,
}
use ww_raft_kv.SkipList.{
  advance, contains, descend, descend_with_update, find, find_with_update, go_level, has_key,
  raise_level, random_level,
}
use ww_raft_kv.SkipList.Change.{
  clear, create_and_insert, create_node, destroy_node, erase, erase_if, extend, get_or_insert,
  insert, insert_if, link, link_at, lower, new, points_to, unlink,
}
use ww_raft_kv.SkipList.Clear.{clear-Shape}
use ww_raft_kv.SkipList.EraseAt.{erase_at, seek, unlink_down, unlink_level}
use ww_raft_kv.SkipList.Insertion.{content}
use ww_raft_kv.SkipList.Iterator.{Iterator, begin, dereference, increment, pairs, visit}
use ww_raft_kv.SkipList.Order.{lookup}
use ww_raft_kv.SkipList.Shape.{Entry, IsOrder, Shape}
use ww_raft_kv.SkipList.Types.{Params, SkipList, key_at, read, set_forward, value_at, write, ◌>>=◌}

abbrev numbers : Params ℕ ℕ
numbers = record {
  less = ltb;
  equal = λ a b. a == b;
  default_key = 0;
  default_value = 0;
  rand = λ n. n;
}

numbers-IsOrder : IsOrder numbers
numbers-IsOrder = record {
  equal_iff = λ a b. ground arith;
  irreflexive = λ a. ground arith;
  transitive = λ a b c h k. ground arith;
  total = λ a b h k. ground arith;
}

-- A store in which one key has a value.
abbrev one_key :
    (t : SkipList ℕ ℕ) × (fs : List (Entry ℕ ℕ)) × (put numbers 5 50 (new numbers 3)
      ≡ some (true, t))
    × Shape numbers t fs
    × ((k : ℕ) → content numbers fs k ≡ added numbers (content numbers []) 5 50 k)
unfolding lookup
one_key = put_lem numbers numbers-IsOrder (new-Shape numbers 3) 5 50

put_lem_example :
    (t : SkipList ℕ ℕ) × (fs : List (Entry ℕ ℕ)) × (put numbers 3 30 one_key.0
      ≡ some (is_none (content numbers one_key.1 3), t))
    × Shape numbers t fs
    × ((k : ℕ) → content numbers fs k ≡ added numbers (content numbers one_key.1) 3 30 k)
put_lem_example = put_lem numbers numbers-IsOrder one_key.3 3 30

get_lem_example :
    (t : SkipList ℕ ℕ) × (fs : List (Entry ℕ ℕ)) × (get numbers 7 one_key.0
      ≡ some (or_else 0 (content numbers one_key.1 7), t))
    × Shape numbers t fs
    × ((k : ℕ) → content numbers fs k ≡ added numbers (content numbers one_key.1) 7 0 k)
get_lem_example = get_lem numbers numbers-IsOrder one_key.3 7

contains_lem_example :
    contains numbers 5 one_key.0 ≡ some (not (is_none (content numbers one_key.1 5)))
contains_lem_example = contains_lem numbers numbers-IsOrder one_key.3 5

update_lem_example :
    (t : SkipList ℕ ℕ) × (fs : List (Entry ℕ ℕ)) × (update numbers 5 55 one_key.0 ≡ some (true, t))
    × Shape numbers t fs
    × ((k : ℕ) → content numbers fs k ≡ (if 5 == k then some 55 else content numbers one_key.1 k))
update_lem_example = update_lem numbers numbers-IsOrder one_key.3 5 55

remove_lem_example :
    (t : SkipList ℕ ℕ) × (fs : List (Entry ℕ ℕ)) × (remove numbers 5 one_key.0
      ≡ some (not (is_none (content numbers one_key.1 5)), t))
    × Shape numbers t fs
    × ((k : ℕ) → content numbers fs k ≡ (if 5 == k then none else content numbers one_key.1 k))
remove_lem_example = remove_lem numbers numbers-IsOrder one_key.3 5

clear-Shape_example : (t : SkipList ℕ ℕ) × (clear numbers one_key.0 ≡ some t) × Shape numbers t []
clear-Shape_example = clear-Shape numbers one_key.0 one_key.3

-- Two keys, and the value of one of them.
run_get :
    (do
      r ← put numbers 5 50 (new numbers 3)
      q ← put numbers 3 30 r.1
      g ← get numbers 5 q.1
      some g.0)
    ≡ some 50
unfolding put get insert insert_if get_or_insert find_with_update descend_with_update go_level
    advance has_key create_and_insert create_node random_level raise_level extend link link_at read
    write set_forward key_at value_at new
run_get = refl

-- A key that is put, taken out, and asked for.
run_remove :
    (do r ← put numbers 5 50 (new numbers 3); q ← remove numbers 5 r.1; contains numbers 5 q.1)
    ≡ some false
unfolding put remove erase erase_if points_to unlink destroy_node lower contains find descend insert
    insert_if get_or_insert find_with_update descend_with_update go_level advance has_key
    create_and_insert create_node random_level raise_level extend link link_at read write
    set_forward key_at value_at new
run_remove = refl

-- The first of two keys is erased at an iterator, which goes to the second.
abbrev erase_first : Option ((ℕ × ℕ) × List (ℕ × ℕ) × ℕ)
erase_first = do
  r ← put numbers 5 50 (new numbers 3)
  q ← put numbers 3 30 r.1
  first ← begin q.1
  e ← erase_at numbers first q.1
  pair ← dereference e.1 e.0
  all ← pairs e.1
  some (pair, all, e.1.size)

run_erase_at : erase_first ≡ some ((5, 50), (5, 50) ∷ [], 1)
unfolding put insert insert_if find_with_update descend_with_update go_level advance has_key
    create_and_insert create_node random_level raise_level extend link link_at read write
    set_forward key_at value_at new begin increment dereference visit pairs erase_at unlink_down
    unlink_level seek points_to destroy_node lower
run_erase_at = refl

-- At an iterator past the end nothing is erased.
abbrev erase_end : Option (Iterator × ℕ)
erase_end = do
  r ← put numbers 5 50 (new numbers 3)
  e ← erase_at numbers none r.1
  some (e.0, e.1.size)

run_erase_at_end : erase_end ≡ some (none, 1)
unfolding put insert insert_if find_with_update descend_with_update go_level advance has_key
    create_and_insert create_node random_level raise_level extend link link_at read write
    set_forward key_at value_at new erase_at
run_erase_at_end = refl
