-- ===== src/SkipList/Assign.antt =====
-- raftkv/kvstore/include/SkipList.h, an assignment through the reference that `operator[]` gives.
use mathlib.Core.Option.{some-injective}
use ww_raft_kv.Prelude.{
  ==-cases, Bool-cases, List, [], ap, arith, eq→==, if◌then◌else◌, inl, inr, leb, length,
  length-map, map, ne→==, none, refl, some, subst, sym, ℕ, ◌+◌, ◌==◌, ◌∙◌, ◌∷◌, ◌≡◌,
}
use ww_raft_kv.SkipList.Order.{lookup}
use ww_raft_kv.SkipList.Shape.{
  AllAbove, AllHold, AllLow, AllMade, Apart, Distinct, Entry, Holds, Shape, Sorted, Stands, Walk,
  tall,
}
use ww_raft_kv.SkipList.Types.{
  Node, Params, Pointer, SkipList, put_at, put_at-here, put_at-there, read,
}

module _ {K V : Type 0} (p : Pointer) (v : V) where
  -- An entry after the assignment to the node at an address.
  abbrev pub revalued : Entry K V → Entry K V
  revalued e = record {
    at = e.at;
    key = e.key;
    value = if e.at == p then v else e.value;
    top = e.top;
  }

  tall-map : (l : ℕ) (es : List (Entry K V)) → tall l (map revalued es) ≡ map revalued (tall l es)
  unfolding tall
  tall-map l [] = refl
  tall-map l (e ∷ es) = elim (Bool-cases (leb l e.top)) [
    | inl k ↦ rw (k, tall-map l es) refl
    | inr k ↦ rw (k, tall-map l es) refl
  ]

  Apart-map : (a : Pointer) (es : List (Entry K V)) → Apart a es → Apart a (map revalued es)
  Apart-map a [] h = tt
  Apart-map a (e ∷ es) h = (h.0, Apart-map a es h.1)

  Distinct-map : (es : List (Entry K V)) → Distinct es → Distinct (map revalued es)
  Distinct-map [] h = tt
  Distinct-map (e ∷ es) h = (Apart-map e.at es h.0, Distinct-map es h.1)

  AllMade-map : (a : Pointer) (es : List (Entry K V)) → AllMade a es → AllMade a (map revalued es)
  AllMade-map a [] h = tt
  AllMade-map a (e ∷ es) h = (h.0, AllMade-map a es h.1)

  Walk-map :
      (s t : SkipList K V) (l : ℕ) (r : Pointer) (es : List (Entry K V))
      → ((q : Pointer) → read t q l ≡ read s q l)
      → Walk s l r es
      → Walk t l r (map revalued es)
  Walk-map s t l r [] h w = h r ∙ w
  Walk-map s t l r (e ∷ es) h w = (h r ∙ w.0, Walk-map s t l e.at es h w.1)

  module _ (o : Params K V) where
    AllLow-map : (l : ℕ) (es : List (Entry K V)) → AllLow o l es → AllLow o l (map revalued es)
    AllLow-map l [] h = tt
    AllLow-map l (e ∷ es) h = (h.0, AllLow-map l es h.1)

    AllAbove-map :
        (k : K) (es : List (Entry K V)) → AllAbove o k es → AllAbove o k (map revalued es)
    AllAbove-map k [] h = tt
    AllAbove-map k (e ∷ es) h = (h.0, AllAbove-map k es h.1)

    Sorted-map : (es : List (Entry K V)) → Sorted o es → Sorted o (map revalued es)
    Sorted-map [] h = tt
    Sorted-map (e ∷ es) h = (AllAbove-map e.key es h.0, Sorted-map es h.1)

    pub lookup-map :
        (k : K) (es : List (Entry K V))
        → lookup o k (map revalued es)
          ≡ elim (lookup o k es) [ none ↦ none | some e ↦ some (revalued e) ]
    unfolding lookup
    lookup-map k [] = refl
    lookup-map k (e ∷ es) = elim (Bool-cases (o.equal e.key k)) [
      | inl q ↦ rw q refl
      | inr q ↦ rw q (lookup-map k es)
    ]

  module _ (s : SkipList K V) (n : Node K V) (found : s.heap p ≡ some n) where
    abbrev pub assigned : SkipList K V
    assigned = record s { heap = put_at p (some (record n { value = v })) s.heap }

    assigned-read : (r : Pointer) (l : ℕ) → read assigned r l ≡ read s r l
    unfolding read
    assigned-read r l = elim (==-cases r p) [
      | inl same ↦
          rw (put_at-here p r (some (record n { value = v })) s.heap same, ap s.heap same ∙ found)
            refl
      | inr other ↦ rw (put_at-there p r (some (record n { value = v })) s.heap other) refl
    ]

    assigned-Holds : (e : Entry K V) → Holds s e → Holds assigned (revalued e)
    assigned-Holds e h = elim (==-cases e.at p) [
      | inl same ↦
          let node : h.node ≡ n = some-injective _ _ (sym h.found ∙ ap s.heap same ∙ found) in
          record {
            node = record n { value = v };
            found = put_at-here p e.at (some (record n { value = v })) s.heap same;
            key = ap (λ x. x.key) (sym node) ∙ h.key;
            value = rw (eq→== e.at p same) refl;
            levels = ap (λ x. length x.forward) (sym node) ∙ h.levels;
          }
      | inr other ↦ record {
        node = h.node;
        found = put_at-there p e.at (some (record n { value = v })) s.heap other ∙ h.found;
        key = h.key;
        value = rw (ne→== e.at p other) h.value;
        levels = h.levels;
      }
    ]

    assigned-AllHold : (es : List (Entry K V)) → AllHold s es → AllHold assigned (map revalued es)
    assigned-AllHold [] h = tt
    assigned-AllHold (e ∷ es) h = (assigned-Holds e h.0, assigned-AllHold es h.1)

    assigned-Stands : (r : Pointer) (m : ℕ) → Stands s r m → Stands assigned r m
    assigned-Stands r m h = elim (==-cases r p) [
      | inl same ↦
          let node : h.node ≡ n = some-injective _ _ (sym h.found ∙ ap s.heap same ∙ found) in
          record {
            node = record n { value = v };
            found = put_at-here p r (some (record n { value = v })) s.heap same;
            size = ap (λ x. length x.forward) (sym node) ∙ h.size;
          }
      | inr other ↦ record {
        node = h.node;
        found = put_at-there p r (some (record n { value = v })) s.heap other ∙ h.found;
        size = h.size;
      }
    ]

    pub assigned-Shape :
        (o : Params K V) (es : List (Entry K V)) → Shape o s es → Shape o assigned (map revalued es)
    assigned-Shape o es h = record {
      holds = assigned-AllHold es h.holds;
      walks = λ l k.
          subst (Walk assigned l s.head) (sym (tall-map l es))
            (Walk-map s assigned l s.head (tall l es) (λ q. assigned-read q l) (h.walks l k));
      sorted = Sorted-map o es h.sorted;
      head = assigned-Stands s.head (s.max_level_index + 1) h.head;
      head_made = h.head_made;
      head_apart = Apart-map s.head es h.head_apart;
      distinct = Distinct-map es h.distinct;
      made = AllMade-map s.fresh es h.made;
      size = h.size ∙ sym (length-map revalued es);
      low = AllLow-map o s.current_level_index es h.low;
      room = omega (arith, h.room, length-map revalued es);
      current = h.current;
    }
