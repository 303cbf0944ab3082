-- ===== src/SkipList/Remove.antt =====
-- Lists without one entry.
use ww_raft_kv.Prelude.{
  List, [], arith, inl, inr, le-cases, suc, sym, ℕ, ◌++◌, ◌∙◌, ◌∷◌, ◌≡◌, ◌≢◌, ◌≤◌,
}
use ww_raft_kv.SkipList.Levels.{tall_in, tall_out}
use ww_raft_kv.SkipList.Shape.{
  AllAbove, AllHold, AllLow, AllMade, Apart, Distinct, Entry, Sorted, tall,
}
use ww_raft_kv.SkipList.Types.{Params, Pointer, SkipList}

module _ {K V : Type 0} (x : Entry K V) where
  pub Apart-remove :
      (a : Pointer) (bs cs : List (Entry K V)) → Apart a (bs ++ x ∷ cs) → Apart a (bs ++ cs)
  Apart-remove a [] cs h = h.1
  Apart-remove a (b ∷ bs) cs h = (h.0, Apart-remove a bs cs h.1)

  pub Distinct-remove : (bs cs : List (Entry K V)) → Distinct (bs ++ x ∷ cs) → Distinct (bs ++ cs)
  Distinct-remove [] cs h = h.1
  Distinct-remove (b ∷ bs) cs h = (Apart-remove b.at bs cs h.0, Distinct-remove bs cs h.1)

  -- The other entries are at other addresses.
  pub Distinct-others : (bs cs : List (Entry K V)) → Distinct (bs ++ x ∷ cs) → Apart x.at (bs ++ cs)
  Distinct-others [] cs h = h.0
  Distinct-others (b ∷ bs) cs h =
      ((λ e. Apart-middle b.at bs cs h.0 (sym e)), Distinct-others bs cs h.1)
    where
      Apart-middle : (a : Pointer) (ys zs : List (Entry K V)) → Apart a (ys ++ x ∷ zs) → x.at ≢ a
      Apart-middle a [] zs k = k.0
      Apart-middle a (y ∷ ys) zs k = Apart-middle a ys zs k.1

  pub AllMade-remove :
      (fresh : Pointer) (bs cs : List (Entry K V))
      → AllMade fresh (bs ++ x ∷ cs)
      → AllMade fresh (bs ++ cs)
  AllMade-remove fresh [] cs h = h.1
  AllMade-remove fresh (b ∷ bs) cs h = (h.0, AllMade-remove fresh bs cs h.1)

  pub AllHold-remove :
      (s : SkipList K V) (bs cs : List (Entry K V))
      → AllHold s (bs ++ x ∷ cs)
      → AllHold s (bs ++ cs)
  AllHold-remove s [] cs h = h.1
  AllHold-remove s (b ∷ bs) cs h = (h.0, AllHold-remove s bs cs h.1)

  module _ (o : Params K V) where
    pub AllLow-remove :
        (l : ℕ) (bs cs : List (Entry K V)) → AllLow o l (bs ++ x ∷ cs) → AllLow o l (bs ++ cs)
    AllLow-remove l [] cs h = h.1
    AllLow-remove l (b ∷ bs) cs h = (h.0, AllLow-remove l bs cs h.1)

    pub AllLow-middle : (l : ℕ) (bs cs : List (Entry K V)) → AllLow o l (bs ++ x ∷ cs) → x.top ≤ l
    AllLow-middle l [] cs h = h.0
    AllLow-middle l (b ∷ bs) cs h = AllLow-middle l bs cs h.1

    AllAbove-remove :
        (k : K) (bs cs : List (Entry K V)) → AllAbove o k (bs ++ x ∷ cs) → AllAbove o k (bs ++ cs)
    AllAbove-remove k [] cs h = h.1
    AllAbove-remove k (b ∷ bs) cs h = (h.0, AllAbove-remove k bs cs h.1)

    pub Sorted-remove : (bs cs : List (Entry K V)) → Sorted o (bs ++ x ∷ cs) → Sorted o (bs ++ cs)
    Sorted-remove [] cs h = h.1
    Sorted-remove (b ∷ bs) cs h = (AllAbove-remove b.key bs cs h.0, Sorted-remove bs cs h.1)

module _ {K V : Type 0} (o : Params K V) where
  -- A level that has no entry is above all of them.
  pub AllLow-empty :
      (l : ℕ) (es : List (Entry K V)) → AllLow o (suc l) es → tall (suc l) es ≡ [] → AllLow o l es
  unfolding tall
  AllLow-empty l [] h e = tt
  AllLow-empty l (y ∷ es) h e = elim (le-cases (suc l) y.top) [
    | inl k ↦ absurd (cons_nil (sym (tall_in (suc l) y es k) ∙ e))
    | inr k ↦ (omega arith, AllLow-empty l es h.1 (sym (tall_out (suc l) y es k) ∙ e))
  ]
    where
      cons_nil : {z : Entry K V} {zs : List (Entry K V)} → z ∷ zs ≡ [] → ⊥
      cons_nil q = cc
