-- ===== src/SkipList/Visited.antt =====
-- raftkv/kvstore/include/SkipList.h: what the iterators visit.
use ww_raft_kv.Prelude.{
  List, [], arith, length, map, refl, some, subst, suc, zero, ℕ, ◌∷◌, ◌≡◌, ◌≤◌,
}
use ww_raft_kv.SkipList.Clear.{start_of}
use ww_raft_kv.SkipList.Iterator.{begin, dereference, increment, pairs, visit}
use ww_raft_kv.SkipList.Levels.{tall_zero}
use ww_raft_kv.SkipList.Shape.{AllHold, Entry, Holds, Shape, Walk}
use ww_raft_kv.SkipList.Types.{Params, Pointer, SkipList, key_at, read, value_at}

module _ {K V : Type 0} where
  -- The key and the value of an entry.
  unfoldable pub pair_of : Entry K V → K × V
  pair_of e = (e.key, e.value)

  read-first :
      (s : SkipList K V) (p : Pointer) (es : List (Entry K V))
      → Walk s 0 p es
      → read s p 0 ≡ some (start_of es)
  read-first s p [] w = w
  read-first s p (e ∷ es) w = w.0

  dereference-Holds :
      (s : SkipList K V) (e : Entry K V) → Holds s e → dereference s (some e.at) ≡ some (pair_of e)
  unfolding dereference key_at value_at pair_of
  dereference-Holds s e h = rw (h.found, h.key, h.value) refl

  visit-Walk :
      (s : SkipList K V) (fuel : ℕ) (p : Pointer) (es : List (Entry K V))
      → length es ≤ fuel
      → Walk s 0 p es
      → AllHold s es
      → visit fuel (start_of es) s ≡ some (map pair_of es)
  unfolding visit increment
  visit-Walk s fuel p [] f w h = refl
  visit-Walk s zero p (e ∷ es) f w h = absurd (omega (arith, f))
  visit-Walk s (suc fuel) p (e ∷ es) f w h =
      rw (dereference-Holds s e h.0, read-first s e.at es w.1)
        (rw (visit-Walk s fuel e.at es (omega (arith, f)) w.1 h.1) refl)

  -- On a skip list of the right shape, a loop over its range ends, and visits the keys with their
  -- values, each once and in the order of the keys.
  pub pairs_lem :
      (o : Params K V) {s : SkipList K V} {es : List (Entry K V)}
      → Shape o s es
      → pairs s ≡ some (map pair_of es)
  unfolding pairs begin increment
  pairs_lem o {s} {es} h =
      let w = subst (Walk s 0 s.head) (tall_zero es) (h.walks 0 (omega arith)) in
      rw (read-first s s.head es w)
        (visit-Walk s s.fresh s.head es (omega (arith, h.room)) w h.holds)
