-- ===== src/SkipList/Insert.antt =====
-- A new entry between the entries with smaller keys and the others.
use ww_raft_kv.Prelude.{
  Bool-cases, List, [], arith, inl, inr, none, none-some, suc, sym, true, zero, ℕ, ◌%◌, ◌++◌, ◌+◌,
  ◌-◌, ◌==◌, ◌∷◌, ◌≡◌, ◌≤◌,
}
use ww_raft_kv.SkipList.{raise_level, random_level}
use ww_raft_kv.SkipList.Order.{AllAbove-less, first_with, less_of_ne}
use ww_raft_kv.SkipList.Shape.{
  AllAbove, AllBelow, AllHold, AllLow, AllMade, Entry, Holds, IsOrder, NoneBelow, Sorted,
}
use ww_raft_kv.SkipList.Types.{Params, Pointer, SkipList}

module _ {K V : Type 0} (o : Params K V) where
  raise_level-bounds :
      (rounds level calls : ℕ)
      → (level ≤ (raise_level o rounds level calls).0)
        × ((raise_level o rounds level calls).0 ≤ level + rounds)
  unfolding raise_level
  raise_level-bounds zero level calls = (omega arith, omega arith)
  raise_level-bounds (suc rounds) level calls = elim (Bool-cases (o.rand calls % 2 == 0)) [
    | inl e ↦ rw (raise_level, e) (omega arith, omega arith)
    | inr e ↦
        let h = raise_level-bounds rounds (level + 1) (calls + 1) in
        rw (raise_level, e) (omega (arith, h.0), omega (arith, h.1))
  ]

  -- A new node has a level of the list.
  pub random_level-fits : (s : SkipList K V) → (random_level o s).0 - 1 ≤ s.max_level_index
  unfolding random_level
  random_level-fits s = omega (arith, (raise_level-bounds (s.max_level_index - 1) 1 s.rands).1)

  module _ (order : IsOrder o) (e : Entry K V) where
    pub AllAbove-from :
        (cs : List (Entry K V))
        → NoneBelow o e.key cs
        → Sorted o cs
        → first_with o e.key cs ≡ none
        → AllAbove o e.key cs
    unfolding first_with
    AllAbove-from [] n h f = tt
    AllAbove-from (c ∷ cs) n h f = elim (Bool-cases (o.equal c.key e.key)) [
      | inl q ↦ absurd (none-some (sym (rw q at f)))
      | inr q ↦
          let less = less_of_ne o order c.key e.key n.0 q in
          (less, AllAbove-less o order e.key c.key cs less h.0)
    ]

    AllAbove-insert :
        (a : K) (bs cs : List (Entry K V))
        → o.less a e.key ≡ true
        → AllAbove o a (bs ++ cs)
        → AllAbove o a (bs ++ e ∷ cs)
    AllAbove-insert a [] cs n h = (n, h)
    AllAbove-insert a (b ∷ bs) cs n h = (h.0, AllAbove-insert a bs cs n h.1)

    pub Sorted-insert :
        (bs cs : List (Entry K V))
        → AllBelow o e.key bs
        → AllAbove o e.key cs
        → Sorted o (bs ++ cs)
        → Sorted o (bs ++ e ∷ cs)
    Sorted-insert [] cs b a h = (a, h)
    Sorted-insert (x ∷ bs) cs b a h =
        (AllAbove-insert x.key bs cs b.0 h.0, Sorted-insert bs cs b.1 a h.1)

  pub AllLow-insert :
      (l m : ℕ) (e : Entry K V) (bs cs : List (Entry K V))
      → l ≤ m
      → e.top ≤ m
      → AllLow o l (bs ++ cs)
      → AllLow o m (bs ++ e ∷ cs)
  AllLow-insert l m e [] cs k n h = (n, AllLow-le cs h)
    where
      AllLow-le : (xs : List (Entry K V)) → AllLow o l xs → AllLow o m xs
      AllLow-le [] h' = tt
      AllLow-le (x ∷ xs) h' = (omega (arith, h'.0, k), AllLow-le xs h'.1)
  AllLow-insert l m e (b ∷ bs) cs k n h = (omega (arith, h.0, k), AllLow-insert l m e bs cs k n h.1)

module _ {K V : Type 0} where
  pub AllMade-insert :
      (fresh : Pointer) (e : Entry K V) (bs cs : List (Entry K V))
      → e.at ≡ fresh
      → AllMade fresh (bs ++ cs)
      → AllMade (fresh + 1) (bs ++ e ∷ cs)
  AllMade-insert fresh e [] cs n h = (omega (arith, n), AllMade-next cs h)
    where
      AllMade-next : (xs : List (Entry K V)) → AllMade fresh xs → AllMade (fresh + 1) xs
      AllMade-next [] h' = tt
      AllMade-next (x ∷ xs) h' = (omega (arith, h'.0), AllMade-next xs h'.1)
  AllMade-insert fresh e (b ∷ bs) cs n h = (omega (arith, h.0), AllMade-insert fresh e bs cs n h.1)

  pub AllHold-insert :
      (s : SkipList K V) (e : Entry K V) (bs cs : List (Entry K V))
      → Holds s e
      → AllHold s bs
      → AllHold s cs
      → AllHold s (bs ++ e ∷ cs)
  AllHold-insert s e [] cs n h k = (n, k)
  AllHold-insert s e (b ∷ bs) cs n h k = (h.0, AllHold-insert s e bs cs n h.1 k)

  pub AllHold-map :
      (s t : SkipList K V) (es : List (Entry K V))
      → ((e : Entry K V) → Holds s e → Holds t e)
      → AllHold s es
      → AllHold t es
  AllHold-map s t [] f h = tt
  AllHold-map s t (e ∷ es) f h = (f e h.0, AllHold-map s t es f h.1)
