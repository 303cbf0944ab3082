-- ===== src/SkipList/Find.antt =====
-- The reading operations, and what the entries say.
use ww_raft_kv.Prelude.{
  Bool, Bool-cases, List, Option, [], ap, arith, false, if◌then◌else◌, inl, inr, length,
  length-append, none, refl, some, subst, suc, sym, true, ◌++◌, ◌∙◌, ◌∷◌, ◌≡◌,
}
use ww_raft_kv.SkipList.{descend, find, has_key}
use ww_raft_kv.SkipList.Levels.{Walk-append, tall_low, tall_zero}
use ww_raft_kv.SkipList.Order.{
  AllBelow-before, AllLow-before, NoneBelow-from, before-from, first_with, lookup, lookup-from,
}
use ww_raft_kv.SkipList.Search.{Parted, descend-pred, key_at-Holds}
use ww_raft_kv.SkipList.Shape.{AllHold, Entry, IsOrder, Shape, Walk, before, from, last_of, tall}
use ww_raft_kv.SkipList.Types.{Params, Pointer, SkipList, read}

module _ {K V : Type 0} (o : Params K V) (s : SkipList K V) where
  -- The address of an entry, or null.
  abbrev pub address : Option (Entry K V) → Option Pointer
  address none = none
  address (some e) = some e.at

  abbrev pub first_of : List (Entry K V) → Option (Entry K V)
  first_of [] = none
  first_of (e ∷ es) = some e

  AllHold-append : (xs ys : List (Entry K V)) → AllHold s (xs ++ ys) → AllHold s xs × AllHold s ys
  AllHold-append [] ys h = (tt, h)
  AllHold-append (x ∷ xs) ys h = let (a, b) = AllHold-append xs ys h.1 in ((h.0, a), b)

  read-first :
      (p : Pointer) (es : List (Entry K V))
      → Walk s 0 p es
      → read s p 0 ≡ some (address (first_of es))
  read-first p [] w = w
  read-first p (e ∷ es) w = w.0

  module _ (order : IsOrder o) {es : List (Entry K V)} (h : Shape o s es) (key : K) where
    pub Shape-Parted : Parted o s key (before o key es) (from o key es)
    Shape-Parted =
        let whole = before-from o key es in
        let held = AllHold-append (before o key es) (from o key es) (rw whole h.holds) in
        record {
          bs_hold = held.0;
          cs_hold = held.1;
          below = AllBelow-before o key es;
          above = NoneBelow-from o order key es h.sorted;
          few =
              omega
                (arith, length-append (before o key es) (from o key es), ap length whole, h.room);
          walks = λ l k. rw whole (h.walks l k);
        }

    abbrev pub last_before : Pointer
    last_before = last_of s.head (before o key es)

    pub tall_above : tall (suc s.current_level_index) (before o key es) ≡ []
    tall_above =
        tall_low o s.current_level_index (suc s.current_level_index) (before o key es)
          (AllLow-before o key s.current_level_index es h.low) (omega arith)

    search-ends : descend o key s.current_level_index s s.head ≡ some last_before
    search-ends =
        subst (λ xs. descend o key s.current_level_index s (last_of s.head xs) ≡ some last_before)
          tall_above
          (subst
            (λ xs.
              descend o key s.current_level_index s
                (last_of s.head (tall (suc s.current_level_index) (before o key es)))
              ≡ some (last_of s.head xs))
            (tall_zero (before o key es))
            (descend-pred o s Shape-Parted s.current_level_index h.current))

    pub next-read : read s last_before 0 ≡ some (address (first_of (from o key es)))
    next-read =
        let whole = before-from o key es in
        let w = subst (Walk s 0 s.head) (tall_zero es ∙ sym whole) (h.walks 0 (omega arith)) in
        read-first last_before (from o key es)
          (Walk-append s 0 s.head (before o key es) (from o key es) w)

  has_key-first :
      (key : K) (xs : List (Entry K V))
      → AllHold s xs
      → (b : Bool) × (has_key o key s (address (first_of xs)) ≡ some b)
        × ((if b then address (first_of xs) else none) ≡ address (first_with o key xs))
  unfolding has_key first_with
  has_key-first key [] k = (false, refl, refl)
  has_key-first key (x ∷ xs) k = elim (Bool-cases (o.equal x.key key)) [
    | inl e ↦ (true, rw (key_at-Holds o s x k.0) (ap some e), rw e refl)
    | inr e ↦ (false, rw (key_at-Holds o s x k.0) (ap some e), rw e refl)
  ]

  -- On a skip list of the right shape, whose keys are ordered, the search ends, and its result is
  -- the address of the entry with the key, or null if there is none.
  pub find-lookup :
      (order : IsOrder o) {es : List (Entry K V)} (h : Shape o s es) (key : K)
      → find o key s ≡ some (address (lookup o key es))
  unfolding find
  find-lookup order {es} h key =
      let p = Shape-Parted order h key in
      let (b, e, f) = has_key-first key (from o key es) p.cs_hold in
      rw (search-ends order h key, next-read order h key, e, f, lookup-from o order key es h.sorted)
        refl
