-- ===== src/Clerk/Snapshot/Installed.antt =====
-- raftkv/raft-app/src/RaftClerk.cpp: the map that the pairs of a snapshot make.
use mathlib.Core.Path.{fun_ext}
use text.Mathlib.Text.{◌==◌ as str_eq}
use text.Mathlib.TextEquality.{eq_iff}
use ww_raft_kv.Clerk.Command.{Store}
use ww_raft_kv.Clerk.Command.Effect.{Content, content}
use ww_raft_kv.Clerk.Snapshot.{install, restore_pairs}
use ww_raft_kv.Clerk.State.{RaftSnapshotData}
use ww_raft_kv.Clerk.Text.{text_params}
use ww_raft_kv.Clerk.Text.Order.{text_params-IsOrder}
use ww_raft_kv.KvStore.Update.{update_lem}
use ww_raft_kv.Prelude.{
  Bool-cases, List, Option, String, [], ap, if◌then◌else◌, inl, inr, map, none, refl, some, subst,
  true, ℕ, ◌∙◌, ◌∷◌, ◌≡◌,
}
use ww_raft_kv.SkipList.Order.{lookup, lookup-AllAbove}
use ww_raft_kv.SkipList.Shape.{AllAbove, Entry, Shape, Sorted}
use ww_raft_kv.SkipList.Visited.{pair_of}

-- The map after values are given to keys one after the other.
abbrev pub installed : RaftSnapshotData → Content → Content
installed [] f = f
installed ((key, value) ∷ rest) f = installed rest (λ k. if str_eq key k then some value else f k)

-- The map without a key.
abbrev pub nothing : Content
nothing key = none

module _ (rand : ℕ → ℕ) where
  pub content_empty : content rand [] ≡ nothing
  unfolding lookup
  content_empty = refl

  -- On a store of the right shape no pair fails.
  pub install_lem :
      (entries : RaftSnapshotData) {kv : Store} {es : List (Entry String String)} {f : Content}
      → Shape (text_params rand) kv es
      → content rand es ≡ f
      → (t : Store) × (fs : List (Entry String String)) × (install rand entries kv ≡ some (true, t))
        × (restore_pairs rand entries kv ≡ some t)
        × Shape (text_params rand) t fs
        × (content rand fs ≡ installed entries f)
  unfolding install restore_pairs text_params
  install_lem [] {kv} {es} h same = (kv, es, refl, refl, h, same)
  install_lem ((key, value) ∷ rest) {f} h same =
      let (t, fs, e, shape, values) =
        update_lem (text_params rand) (text_params-IsOrder rand) h key value in
      let stored = fun_ext values ∙ ap (λ g k. if str_eq key k then some value else g k) same in
      let (u, gs, ran, restored, kept, after) = install_lem rest shape stored in
      (u, gs, rw e ran, rw e restored, kept, after)

  abbrev first_of : Option String → Option String → Option String
  first_of none b = b
  first_of (some a) b = some a

  -- The pairs of sorted entries, put in a map, are there as in the entries.
  installed-pairs :
      (es : List (Entry String String)) (f : Content) (k : String)
      → Sorted (text_params rand) es
      → installed (map pair_of es) f k ≡ first_of (content rand es k) (f k)
  unfolding lookup pair_of text_params
  installed-pairs [] f k h = refl
  installed-pairs (e ∷ es) f k h = elim (Bool-cases (str_eq e.key k)) [
    | inl q ↦
        let last = lookup-AllAbove (text_params rand) (text_params-IsOrder rand) k es in
        let above = subst (λ x. AllAbove (text_params rand) x es) ((eq_iff e.key k).0 q) h.0 in
        rw q (installed-pairs es _ k h.1 ∙ rw (q, last above) refl)
    | inr q ↦ rw q (installed-pairs es _ k h.1 ∙ rw q refl)
  ]

  -- A snapshot of a store, put in a map with nothing in it, makes the map of the store.
  pub installed-pairs_lem :
      {kv : Store} {es : List (Entry String String)}
      → Shape (text_params rand) kv es
      → installed (map pair_of es) nothing ≡ content rand es
  installed-pairs_lem {es} h =
      fun_ext (λ k. installed-pairs es nothing k h.sorted ∙ first_of-none (content rand es k))
    where
      first_of-none : (a : Option String) → first_of a none ≡ a
      first_of-none none = refl
      first_of-none (some a) = refl
