-- ===== src/SkipList/Change.antt =====
-- raftkv/kvstore/include/SkipList.h: the operations that change a skip list.
use ww_raft_kv.Prelude.{
  Bool, Option, false, max, none, replicate, some, suc, true, zero, ℕ, ◌+◌, ◌-◌, ◌==◌,
}
use ww_raft_kv.SkipList.{UpdateList, find_with_update, has_key, random_level}
use ww_raft_kv.SkipList.Iterator.{at}
use ww_raft_kv.SkipList.Shape.{before}
use ww_raft_kv.SkipList.Types.{Params, Pointer, SkipList, put_at, read, write, ◌>>=◌}

module _ {K V : Type 0} (o : Params K V) where
  -- `_Create_node`: `new` gives the next address.
  unfoldable pub create_node : K → V → ℕ → SkipList K V → Pointer × SkipList K V
  create_node key value level s = (
    s.fresh,
    record s {
      heap =
          put_at s.fresh
            (some (record { key = key; value = value; forward = replicate (level + 1) none }))
            s.heap;
      fresh = s.fresh + 1;
    },
  )

  -- The constructor, on an empty heap, from `_Max_level - 1`, so that a list has one level at least.
  -- With a `_Max_level` of 0 or less the index would be below 0; the program makes no such list.
  unfoldable pub new : ℕ → SkipList K V
  unfolding create_node
  new max_level_index =
      let empty_heap : SkipList K V = record {
        heap = λ p. none;
        fresh = 0;
        head = 0;
        max_level_index = max_level_index;
        current_level_index = 0;
        size = 0;
        rands = 0;
      } in
      (create_node o.default_key o.default_value max_level_index empty_heap).1

  -- The loop that puts the head in the list for the levels that are new.
  unfoldable pub extend : Pointer → ℕ → ℕ → UpdateList o → UpdateList o
  extend head level zero update_list = update_list
  extend head level (suc rounds) update_list =
      extend head (level + 1) rounds (put_at level (some head) update_list)

  -- One round of the loop that links a new node: the node before it at a level is in the list.
  unfoldable pub link_at : Pointer → UpdateList o → ℕ → SkipList K V → Option (SkipList K V)
  unfolding read write
  link_at p update_list level s = do
    before ← update_list level
    next ← read s before level
    t ← write s p level next
    write t before level (some p)

  unfoldable pub link : Pointer → UpdateList o → ℕ → ℕ → SkipList K V → Option (SkipList K V)
  unfolding link_at
  link p update_list level zero s = some s
  link p update_list level (suc rounds) s = do
    t ← link_at p update_list level s
    link p update_list (level + 1) rounds t

  unfoldable pub create_and_insert :
      K → V → UpdateList o → SkipList K V → Option (Pointer × SkipList K V)
  unfolding random_level create_node extend link
  create_and_insert key value update_list s = do
    let (level, calls) = random_level o s
    let new_level_index = level - 1
    let (p, t) = create_node key value new_level_index (record s { rands = calls })
    let u = record t { current_level_index = max s.current_level_index new_level_index }
    let extended =
        extend s.head (s.current_level_index + 1) (new_level_index - s.current_level_index)
          update_list
    linked ← link p extended 0 (new_level_index + 1) u
    some (p, record linked { size = linked.size + 1 })

  unfoldable pub insert_if :
      Bool
      → Option Pointer
      → K
      → V
      → UpdateList o
      → SkipList K V
      → Option (Option Pointer × Bool × SkipList K V)
  unfolding create_and_insert
  insert_if true at key value update_list s = some (at, false, s)
  insert_if false at key value update_list s = do
    made ← create_and_insert key value update_list s
    some (some made.0, true, made.1)

  -- `insert`: the pointer to the node with the key, and whether it is new.
  unfoldable pub insert : K → V → SkipList K V → Option (Option Pointer × Bool × SkipList K V)
  unfolding find_with_update has_key insert_if
  insert key value s = do
    found ← find_with_update o key s
    same ← has_key o key s found.0
    insert_if same found.0 key value found.1 s

  -- `_Get_or_insert`: a key that is not there gets the default value.
  unfoldable pub get_or_insert : K → SkipList K V → Option (Option Pointer × SkipList K V)
  unfolding find_with_update has_key insert_if
  get_or_insert key s = do
    found ← find_with_update o key s
    same ← has_key o key s found.0
    made ← insert_if same found.0 key o.default_value found.1 s
    some (made.0, made.2)

  -- The comparison of a pointer that may be null with the address of a node.
  unfoldable pub points_to : Pointer → Option Pointer → Bool
  points_to p none = false
  points_to p (some q) = q == p

  -- The loop that takes a node out of the levels that have it, and stops at the first that has not.
  unfoldable pub unlink : Pointer → UpdateList o → ℕ → ℕ → SkipList K V → Option (SkipList K V)
  unfolding read write points_to
  unlink p update_list level zero s = some s
  unlink p update_list level (suc rounds) s = do
    before ← update_list level
    next ← read s before level
    elim (points_to p next) [
      | false ↦ some s
      | true ↦ do
        after ← read s p level
        t ← write s before level after
        unlink p update_list (level + 1) rounds t
    ]

  -- `_Destroy_node`.
  unfoldable pub destroy_node : Pointer → SkipList K V → SkipList K V
  destroy_node p s = record s { heap = put_at p none s.heap }

  -- The loop that gives up empty levels: the highest level that is left, or 0.
  unfoldable pub lower : ℕ → SkipList K V → Option ℕ
  unfolding read
  lower zero s = some 0
  lower (suc level) s = do
    first ← read s s.head (suc level)
    elim first [ none ↦ lower level s | some p ↦ some (suc level) ]

  unfoldable pub erase_if :
      Bool → Option Pointer → UpdateList o → SkipList K V → Option (ℕ × SkipList K V)
  unfolding unlink destroy_node lower
  erase_if true (some p) update_list s = do
    t ← unlink p update_list 0 (s.current_level_index + 1) s
    let u = destroy_node p t
    level ← lower u.current_level_index u
    some (1, record u { current_level_index = level; size = u.size - 1 })
  erase_if _ _ update_list s = some (0, s)

  -- `erase` of a key: how many nodes are erased.
  unfoldable pub erase : K → SkipList K V → Option (ℕ × SkipList K V)
  unfolding find_with_update has_key erase_if
  erase key s = do
    found ← find_with_update o key s
    same ← has_key o key s found.0
    erase_if same found.0 found.1 s

  -- The loop of `clear` over the nodes of level 0.
  unfoldable pub destroy_all : ℕ → Option Pointer → SkipList K V → Option (SkipList K V)
  unfolding read destroy_node
  destroy_all fuel none s = some s
  destroy_all zero (some p) s = none
  destroy_all (suc fuel) (some p) s = do next ← read s p 0; destroy_all fuel next (destroy_node p s)

  -- The loop of `clear` over the levels of the head, from a level on.
  unfoldable pub clear_head : ℕ → ℕ → SkipList K V → Option (SkipList K V)
  unfolding write
  clear_head level zero s = some s
  clear_head level (suc rounds) s = do
    t ← write s s.head level none
    clear_head (level + 1) rounds t

  -- There are not more nodes than were made, which bounds the first loop.
  unfoldable pub clear : SkipList K V → Option (SkipList K V)
  unfolding destroy_all clear_head
  clear s = do
    first ← read s s.head 0
    t ← destroy_all s.fresh first s
    u ← clear_head 0 (t.current_level_index + 1) t
    some (record u { current_level_index = 0; size = 0 })

  -- The destructor.
  unfoldable pub destruct : SkipList K V → Option (SkipList K V)
  unfolding clear destroy_node
  destruct s = do t ← clear s; some (destroy_node t.head t)
