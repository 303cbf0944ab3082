-- ===== src/SkipList/Iterator.antt =====
-- raftkv/kvstore/include/SkipList.h: iterators, the element access with a check, and the size.
use ww_raft_kv.Prelude.{Bool, List, Option, [], none, some, suc, zero, ℕ, ◌==◌, ◌∷◌}
use ww_raft_kv.SkipList.{find}
use ww_raft_kv.SkipList.Types.{Params, Pointer, SkipList, key_at, read, value_at, ◌>>=◌}

-- An iterator holds the pointer to a node; the one past the end holds none.
abbrev pub Iterator : Type 0
Iterator = Option Pointer

module _ {K V : Type 0} where
  -- `operator++`, of which no result stands for an iterator past the end.
  unfoldable pub increment : SkipList K V → Iterator → Option Iterator
  unfolding read
  increment s none = none
  increment s (some p) = read s p 0

  -- `begin` steps on from the head.
  unfoldable pub begin : SkipList K V → Option Iterator
  unfolding increment
  begin s = increment s (some s.head)

  -- `operator*`: the key and the value.
  unfoldable pub dereference : SkipList K V → Iterator → Option (K × V)
  unfolding key_at value_at
  dereference s none = none
  dereference s (some p) = do key ← key_at s p; value ← value_at s p; some (key, value)

  -- The pairs that a `for` over a range visits, from an iterator to `end`. There are not more
  -- rounds than nodes were made.
  unfoldable pub visit : ℕ → Iterator → SkipList K V → Option (List (K × V))
  unfolding increment dereference
  visit fuel none s = some []
  visit zero (some p) s = none
  visit (suc fuel) (some p) s = do
    pair ← dereference s (some p)
    next ← increment s (some p)
    rest ← visit fuel next s
    some (pair ∷ rest)

  unfoldable pub pairs : SkipList K V → Option (List (K × V))
  unfolding begin visit
  pairs s = do first ← begin s; visit s.fresh first s

  unfoldable pub size : SkipList K V → ℕ
  size s = s.size

  unfoldable pub empty : SkipList K V → Bool
  empty s = s.size == 0

  -- `at`, whose inner result is missing where it throws `std::out_of_range`.
  unfoldable pub at : Params K V → K → SkipList K V → Option (Option V)
  unfolding find value_at
  at o key s = do
    found ← find o key s
    elim found [ none ↦ some none | some p ↦ do value ← value_at s p; some (some value) ]
