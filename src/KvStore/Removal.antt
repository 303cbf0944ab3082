-- ===== src/KvStore/Removal.antt =====
-- raftkv/kvstore/include/KVStore.h, `remove`.
use ww_raft_kv.KvStore.{remove}
use ww_raft_kv.KvStore.Map.{is_none}
use ww_raft_kv.KvStore.Update.{lookup-key}
use ww_raft_kv.Prelude.{
  Bool, Bool-cases, List, Option, Option-cases, [], ap, arith, false, if◌then◌else◌, inl, inr, none,
  not, refl, some, subst, sym, true, ◌++◌, ◌+◌, ◌∙◌, ◌∷◌, ◌≡◌,
}
use ww_raft_kv.SkipList.Change.{erase, erase_if}
use ww_raft_kv.SkipList.Erase.{erase_if-Shape, first_with-cons, start-Leaving}
use ww_raft_kv.SkipList.Find.{Shape-Parted}
use ww_raft_kv.SkipList.Insertion.{
  content, find_with_update-preds, has_key-absent, has_key-present, value_of,
}
use ww_raft_kv.SkipList.Order.{before-from, equal-ne, less-ne, lookup, lookup-AllAbove, lookup-from}
use ww_raft_kv.SkipList.Remove.{AllLow-middle}
use ww_raft_kv.SkipList.Shape.{AllAbove, AllBelow, Entry, IsOrder, Shape, Sorted, before, from}
use ww_raft_kv.SkipList.Types.{Params, SkipList}
use ww_raft_kv.SkipList.Unlink.{unlink-Leaving}

module _ {K V : Type 0} (o : Params K V) (order : IsOrder o) where
  -- The lookup in a list from which an entry was taken.
  lookup-remove :
      (x : Entry K V) (bs cs : List (Entry K V)) (k : K)
      → Sorted o (bs ++ x ∷ cs)
      → AllBelow o x.key bs
      → lookup o k (bs ++ cs) ≡ (if o.equal x.key k then none else lookup o k (bs ++ x ∷ cs))
  unfolding lookup
  lookup-remove x [] cs k h b = elim (Bool-cases (o.equal x.key k)) [
    | inl q ↦ rw q (
        lookup-AllAbove o order k cs
          (subst (λ y. AllAbove o y cs) ((order.equal_iff x.key k).0 q) h.0))
    | inr q ↦ rw q refl
  ]
  lookup-remove x (y ∷ bs) cs k h b = elim (Bool-cases (o.equal y.key k)) [
    | inl q ↦
        rw
          (
            q,
            equal-ne o order x.key k
                (λ e. less-ne o order y.key x.key b.0 ((order.equal_iff y.key k).0 q ∙ sym e)),
          )
          refl
    | inr q ↦ rw q (lookup-remove x bs cs k h.1 b.1)
  ]

  value_of-if_none :
      (b : Bool) (m : Option (Entry K V))
      → value_of o (if b then none else m) ≡ (if b then none else value_of o m)
  value_of-if_none true m = refl
  value_of-if_none false m = refl

  module _ {s : SkipList K V} {es : List (Entry K V)} (h : Shape o s es) (key : K) where
    remove-absent : lookup o key es ≡ none → remove o key s ≡ some (false, s)
    unfolding remove erase erase_if
    remove-absent absent =
        let (u, e, preds) = find_with_update-preds o order h key in
        let p = Shape-Parted o s order h key in
        let none_first = sym (lookup-from o order key es h.sorted) ∙ absent in
        let same = has_key-absent o s key (from o key es) p.cs_hold none_first in rw (e, same) refl

    nothing_lost :
        lookup o key es ≡ none
        → (k : K) → content o es k ≡ (if o.equal key k then none else content o es k)
    nothing_lost e k = elim (Bool-cases (o.equal key k)) [
      | inl q ↦
          rw q (ap (value_of o) (subst (λ y. lookup o y es ≡ none) ((order.equal_iff key k).0 q) e))
      | inr q ↦ rw q refl
    ]

    remove-present :
        (x : Entry K V)
        → lookup o key es ≡ some x
        → (t : SkipList K V) × (fs : List (Entry K V)) × (remove o key s ≡ some (true, t))
          × Shape o t fs
          × ((k : K) → content o fs k ≡ (if o.equal key k then none else content o es k))
    unfolding remove erase
    remove-present x present =
        let (u, e, preds) = find_with_update-preds o order h key in
        let p = Shape-Parted o s order h key in
        let bs = before o key es in
        let first = sym (lookup-from o order key es h.sorted) ∙ present in
        let (same, at) = has_key-present o s key (from o key es) x p.cs_hold first in
        let (zs, split) = first_with-cons o key (from o key es) x first in
        let whole : bs ++ x ∷ zs ≡ es = ap (λ ys. bs ++ ys) (sym split) ∙ before-from o key es in
        let shape = subst (Shape o s) (sym whole) h in
        let (t, cut, g) =
          unlink-Leaving o s x bs zs u s.current_level_index preds h.current
            (AllLow-middle x o s.current_level_index bs zs shape.low) shape.head_apart
            shape.distinct 0 (s.current_level_index + 1) s (omega arith) (omega arith)
            (start-Leaving o x bs zs shape) in
        let (v, gone, left) = erase_if-Shape o x bs zs shape t g u cut in
        let same_key = lookup-key o order key es present in
        let below = subst (λ y. AllBelow o y bs) (sym same_key) p.below in
        (
          v,
          bs ++ zs,
          rw (e, same, at, gone) refl,
          left,
          λ k.
              ap (value_of o) (lookup-remove x bs zs k shape.sorted below)
              ∙ value_of-if_none (o.equal x.key k) (lookup o k (bs ++ x ∷ zs))
              ∙ ap (λ y. if o.equal y k then none else content o (bs ++ x ∷ zs) k) same_key
              ∙ ap (λ ys. if o.equal key k then none else content o ys k) whole,
        )

    -- On a skip list of the right shape, whose keys are ordered, `remove` answers whether the key
    -- was there. The key has no value afterwards, every other key keeps its own, and the shape is
    -- kept.
    pub remove_lem :
        (t : SkipList K V) × (fs : List (Entry K V)) × (remove o key s
          ≡ some (not (is_none (content o es key)), t))
        × Shape o t fs
        × ((k : K) → content o fs k ≡ (if o.equal key k then none else content o es k))
    remove_lem = elim (Option-cases (lookup o key es)) [
      | inl e ↦ (s, es, remove-absent e ∙ rw e refl, h, nothing_lost e)
      | inr (x, e) ↦
          let (t, fs, gone, left, values) = remove-present x e in
          (t, fs, gone ∙ rw e refl, left, values)
    ]
