-- ===== src/SkipList/Insertion.antt =====
-- raftkv/kvstore/include/SkipList.h, `insert`: what it does to the entries.
use ww_raft_kv.Prelude.{
  Bool, Bool-cases, List, Option, [], ap, false, if◌then◌else◌, inl, inr, none, none-some, refl,
  some, subst, suc, sym, true, ℕ, ◌++◌, ◌∙◌, ◌∷◌, ◌≡◌, ◌≤◌,
}
use ww_raft_kv.SkipList.{UpdateList, descend_with_update, find_with_update, has_key}
use ww_raft_kv.SkipList.Change.{get_or_insert, insert, insert_if}
use ww_raft_kv.SkipList.Find.{Shape-Parted, address, first_of, next-read, tall_above}
use ww_raft_kv.SkipList.Inserted.{create_and_insert-Shape, made_entry}
use ww_raft_kv.SkipList.Levels.{tall_zero}
use ww_raft_kv.SkipList.Order.{before-from, equal-ne, first_with, less-ne, lookup, lookup-from}
use ww_raft_kv.SkipList.Search.{descend_with_update-pred, key_at-Holds}
use ww_raft_kv.SkipList.Shape.{
  AllBelow, AllHold, Entry, IsOrder, Shape, before, from, last_of, tall,
}
use ww_raft_kv.SkipList.Types.{Params, SkipList}

module _ {K V : Type 0} (o : Params K V) where
  abbrev pub value_of : Option (Entry K V) → Option V
  value_of none = none
  value_of (some e) = some e.value

  -- The value that a key has.
  abbrev pub content : List (Entry K V) → K → Option V
  content es key = value_of (lookup o key es)

  pub has_key-absent :
      (s : SkipList K V) (key : K) (xs : List (Entry K V))
      → AllHold s xs
      → first_with o key xs ≡ none
      → has_key o key s (address o s (first_of o s xs)) ≡ some false
  unfolding has_key first_with
  has_key-absent s key [] h f = refl
  has_key-absent s key (x ∷ xs) h f = elim (Bool-cases (o.equal x.key key)) [
    | inl q ↦ absurd (none-some (sym (rw q at f)))
    | inr q ↦ rw (key_at-Holds o s x h.0) (ap some q)
  ]

  pub has_key-present :
      (s : SkipList K V) (key : K) (xs : List (Entry K V)) (e : Entry K V)
      → AllHold s xs
      → first_with o key xs ≡ some e
      → (has_key o key s (address o s (first_of o s xs)) ≡ some true)
        × (address o s (first_of o s xs) ≡ some e.at)
  unfolding has_key first_with
  has_key-present s key [] e h f = absurd (none-some f)
  has_key-present s key (x ∷ xs) e h f = elim (Bool-cases (o.equal x.key key)) [
    | inl q ↦ (rw (key_at-Holds o s x h.0) (ap some q), ap (λ y. address o s y) (rw q at f))
    | inr q ↦ absurd (none-some (rw q at f))
  ]

  module _ (order : IsOrder o) where
    -- The lookup in a list into which an entry was put, whose key it did not have.
    lookup-insert :
        (e : Entry K V) (bs cs : List (Entry K V)) (k : K)
        → AllBelow o e.key bs
        → lookup o k (bs ++ e ∷ cs) ≡ (if o.equal e.key k then some e else lookup o k (bs ++ cs))
    unfolding lookup
    lookup-insert e [] cs k b = refl
    lookup-insert e (x ∷ bs) cs k b = elim (Bool-cases (o.equal x.key k)) [
      | inl q ↦
          rw
            (
              q,
              equal-ne o order e.key k
                  (λ y. less-ne o order x.key e.key b.0 ((order.equal_iff x.key k).0 q ∙ sym y)),
            )
            refl
      | inr q ↦ rw q (lookup-insert e bs cs k b.1)
    ]

    value_of-if :
        (b : Bool) (e : Entry K V) (m : Option (Entry K V))
        → value_of (if b then some e else m) ≡ (if b then some e.value else value_of m)
    value_of-if true e m = refl
    value_of-if false e m = refl

    content-insert :
        (e : Entry K V) (bs cs es : List (Entry K V))
        → bs ++ cs ≡ es
        → AllBelow o e.key bs
        → (k : K)
        → content (bs ++ e ∷ cs) k ≡ (if o.equal e.key k then some e.value else content es k)
    content-insert e bs cs es whole b k =
        ap value_of (lookup-insert e bs cs k b)
        ∙ value_of-if (o.equal e.key k) e (lookup o k (bs ++ cs))
        ∙ ap (λ xs. if o.equal e.key k then some e.value else content xs k) whole

  module _ (order : IsOrder o) {s : SkipList K V} {es : List (Entry K V)} (h : Shape o s es)
      (key : K) where
    -- The search with its list of pointers.
    pub find_with_update-preds :
        (u : UpdateList o) × (find_with_update o key s
          ≡ some (address o s (first_of o s (from o key es)), u))
        × ((i : ℕ)
            → i ≤ s.current_level_index
            → u i ≡ some (last_of s.head (tall i (before o key es))))
    unfolding find_with_update
    find_with_update-preds =
        let p = Shape-Parted o s order h key in
        let (u, e, r) =
          descend_with_update-pred o s p s.current_level_index (λ level. none) h.current in
        let found : UpdateList o → List (Entry K V) → List (Entry K V) → Type 0 = λ v xs ys.
          descend_with_update o key s.current_level_index s (last_of s.head xs) (λ level. none)
          ≡ some (last_of s.head ys, v) in
        let ends : found u [] (before o key es) =
          subst (λ xs. found u xs (before o key es)) (tall_above o s order h key)
            (subst (found u (tall (suc s.current_level_index) (before o key es)))
              (tall_zero (before o key es)) e) in
        (u, rw (ends, next-read o s order h key) refl, r.inside)

    -- A key that is not there: one entry more, with the key and the value, in a new node.
    pub insert-absent :
        (value : V)
        → lookup o key es ≡ none
        → (t : SkipList K V) × (fs : List (Entry K V)) × (insert o key value s
            ≡ some (some s.fresh, true, t))
          × Shape o t fs
          × ((k : K) → content fs k ≡ (if o.equal key k then some value else content es k))
    unfolding insert insert_if
    insert-absent value absent =
        let (u, e, preds) = find_with_update-preds in
        let p = Shape-Parted o s order h key in
        let none_first = sym (lookup-from o order key es h.sorted) ∙ absent in
        let same = has_key-absent s key (from o key es) p.cs_hold none_first in
        let (t, made, shape) = create_and_insert-Shape o order h key value u preds none_first in
        let entry = made_entry o order h key value in
        (
          t,
          before o key es ++ entry ∷ from o key es,
          rw (e, same, made) refl,
          shape,
          content-insert order entry (before o key es) (from o key es) es (before-from o key es)
              p.below,
        )

    -- A key that is there: nothing changes.
    pub insert-present :
        (value : V) (x : Entry K V)
        → lookup o key es ≡ some x
        → insert o key value s ≡ some (some x.at, false, s)
    unfolding insert insert_if
    insert-present value x present =
        let (u, e, preds) = find_with_update-preds in
        let p = Shape-Parted o s order h key in
        let first = sym (lookup-from o order key es h.sorted) ∙ present in
        let (same, at) = has_key-present s key (from o key es) x p.cs_hold first in
        rw (e, same, at) refl

    pub get_or_insert-present :
        (x : Entry K V) → lookup o key es ≡ some x → get_or_insert o key s ≡ some (some x.at, s)
    unfolding get_or_insert insert_if
    get_or_insert-present x present =
        let (u, e, preds) = find_with_update-preds in
        let p = Shape-Parted o s order h key in
        let first = sym (lookup-from o order key es h.sorted) ∙ present in
        let (same, at) = has_key-present s key (from o key es) x p.cs_hold first in
        rw (e, same, at) refl

    pub get_or_insert-absent :
        lookup o key es ≡ none
        → (t : SkipList K V) × (fs : List (Entry K V)) × (get_or_insert o key s
            ≡ some (some s.fresh, t))
          × Shape o t fs
          × (lookup o key fs ≡ some (made_entry o order h key o.default_value))
          × ((k : K)
              → content fs k ≡ (if o.equal key k then some o.default_value else content es k))
    unfolding get_or_insert insert_if
    get_or_insert-absent absent =
        let (u, e, preds) = find_with_update-preds in
        let p = Shape-Parted o s order h key in
        let none_first = sym (lookup-from o order key es h.sorted) ∙ absent in
        let same = has_key-absent s key (from o key es) p.cs_hold none_first in
        let (t, made, shape) =
          create_and_insert-Shape o order h key o.default_value u preds none_first in
        let entry = made_entry o order h key o.default_value in
        let bs = before o key es in
        let cs = from o key es in
        (
          t,
          bs ++ entry ∷ cs,
          rw (e, same, made) refl,
          shape,
          lookup-insert order entry bs cs key p.below ∙ rw ((order.equal_iff key key).1 refl) refl,
          content-insert order entry bs cs es (before-from o key es) p.below,
        )
