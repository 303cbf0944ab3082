-- ===== src/KvStore/Update.antt =====
-- raftkv/kvstore/include/KVStore.h, `update`.
use mathlib.Core.Option.{some-injective}
use ww_raft_kv.KvStore.{update}
use ww_raft_kv.KvStore.Map.{lookup-Holds}
use ww_raft_kv.Prelude.{
  Bool, Bool-cases, List, Option-cases, [], ap, eq→==, false, if◌then◌else◌, inl, inr, map, ne→==,
  none-some, refl, some, subst, sym, true, true-false, ◌∙◌, ◌∷◌, ◌≡◌, ◌≢◌,
}
use ww_raft_kv.SkipList.Assign.{assigned, assigned-Shape, lookup-map, revalued}
use ww_raft_kv.SkipList.Insertion.{content, get_or_insert-absent, get_or_insert-present}
use ww_raft_kv.SkipList.Order.{lookup}
use ww_raft_kv.SkipList.Shape.{Entry, Holds, IsOrder, Shape}
use ww_raft_kv.SkipList.Types.{Params, SkipList, assign}

if-if :
    {A : Type 0} (b : Bool) (x y z m : A)
    → m ≡ (if b then y else z)
    → (if b then x else m) ≡ (if b then x else z)
if-if true x y z m h = refl
if-if false x y z m h = h

module _ {K V : Type 0} (o : Params K V) (order : IsOrder o) where
  pub lookup-key :
      (k : K) (es : List (Entry K V)) {e : Entry K V} → lookup o k es ≡ some e → e.key ≡ k
  unfolding lookup
  lookup-key k [] h = absurd (none-some h)
  lookup-key k (x ∷ es) h = elim (Bool-cases (o.equal x.key k)) [
    | inl q ↦ ap (λ y. y.key) (sym (some-injective _ _ (rw q at h))) ∙ (order.equal_iff x.key k).0 q
    | inr q ↦ lookup-key k es (rw q at h)
  ]

  same_node :
      (s : SkipList K V) {e x : Entry K V} → Holds s e → Holds s x → e.at ≡ x.at → e.key ≡ x.key
  same_node s h k same =
      sym h.key
      ∙ ap (λ n. n.key) (some-injective _ _ (sym h.found ∙ ap s.heap same ∙ k.found))
      ∙ k.key

  module _ {s : SkipList K V} {es : List (Entry K V)} (h : Shape o s es) (key : K) (x : Entry K V)
      (there : lookup o key es ≡ some x) (v : V) where
    -- No other key has the node.
    other_node :
        (k : K) (e : Entry K V) → lookup o k es ≡ some e → o.equal key k ≡ false → e.at ≢ x.at
    other_node k e found differs same =
        let keys =
          same_node s (lookup-Holds o s k es e h.holds found)
            (lookup-Holds o s key es x h.holds there) same in
        let same_key : key ≡ k = sym (lookup-key key es there) ∙ sym keys ∙ lookup-key k es found in
        true-false (sym ((order.equal_iff key k).1 same_key) ∙ differs)

    same_entry : (k : K) → o.equal key k ≡ true → lookup o k es ≡ some x
    same_entry k q = subst (λ y. lookup o y es ≡ some x) ((order.equal_iff key k).0 q) there

    content-revalued :
        (k : K)
        → content o (map (revalued x.at v) es) k
          ≡ (if o.equal key k then some v else content o es k)
    content-revalued k = elim (Bool-cases (o.equal key k)) [
      | inl q ↦ rw (q, lookup-map x.at v o k es, same_entry k q) (rw (eq→== x.at x.at refl) refl)
      | inr q ↦ elim (Option-cases (lookup o k es)) [
        | inl e ↦ rw (q, lookup-map x.at v o k es, e) refl
        | inr (e, f) ↦
            rw (q, lookup-map x.at v o k es, f) (rw (ne→== e.at x.at (other_node k e f q)) refl)
      ]
    ]

    assign-value :
        (t : SkipList K V) × (fs : List (Entry K V)) × (assign s x.at v ≡ some t)
        × Shape o t fs
        × ((k : K) → content o fs k ≡ (if o.equal key k then some v else content o es k))
    unfolding assign
    assign-value =
        let held = lookup-Holds o s key es x h.holds there in
        (
          assigned x.at v s held.node held.found,
          map (revalued x.at v) es,
          rw held.found refl,
          assigned-Shape x.at v s held.node held.found o es h,
          content-revalued,
        )

  -- On a skip list of the right shape, whose keys are ordered, `update` answers true whether the
  -- key was there or not. The key has the value afterwards, every other key keeps its own, and the
  -- shape is kept.
  pub update_lem :
      {s : SkipList K V} {es : List (Entry K V)} (h : Shape o s es) (key : K) (value : V)
      → (t : SkipList K V) × (fs : List (Entry K V)) × (update o key value s ≡ some (true, t))
        × Shape o t fs
        × ((k : K) → content o fs k ≡ (if o.equal key k then some value else content o es k))
  unfolding update
  update_lem {s} {es} h key value = elim (Option-cases (lookup o key es)) [
    | inl e ↦
        let (t, fs, made, shape, there, values) = get_or_insert-absent o order h key e in
        let (u, gs, done_so, kept, after) = assign-value shape key _ there value in
        (
          u,
          gs,
          rw (made, done_so) refl,
          kept,
          λ k. after k ∙ if-if (o.equal key k) _ _ _ _ (values k),
        )
    | inr (x, e) ↦
        let (u, gs, done_so, kept, after) = assign-value h key x e value in
        (u, gs, rw (get_or_insert-present o order h key x e, done_so) refl, kept, after)
  ]
