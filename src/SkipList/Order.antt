-- ===== src/SkipList/Order.antt =====
-- Sorted entries, parted by a key.
use ww_raft_kv.Prelude.{
  Bool-cases, List, Option, [], ap, false, if◌then◌else◌, inl, inr, none, refl, some, sym, true,
  true-false, ℕ, ◌++◌, ◌∙◌, ◌∷◌, ◌≡◌, ◌≢◌,
}
use ww_raft_kv.SkipList.Shape.{
  AllAbove, AllBelow, AllLow, Entry, IsOrder, NoneBelow, Sorted, before, from,
}
use ww_raft_kv.SkipList.Types.{Params}

module _ {K V : Type 0} (o : Params K V) where
  pub before-from : (key : K) (es : List (Entry K V)) → before o key es ++ from o key es ≡ es
  unfolding before from
  before-from key [] = refl
  before-from key (e ∷ es) = elim (Bool-cases (o.less e.key key)) [
    | inl h ↦ rw (h, before-from key es) refl
    | inr h ↦ rw h refl
  ]

  pub AllBelow-before : (key : K) (es : List (Entry K V)) → AllBelow o key (before o key es)
  unfolding before
  AllBelow-before key [] = tt
  AllBelow-before key (e ∷ es) = elim (Bool-cases (o.less e.key key)) [
    | inl h ↦ rw h (h, AllBelow-before key es)
    | inr h ↦ rw h tt
  ]

  pub AllLow-before :
      (key : K) (l : ℕ) (es : List (Entry K V)) → AllLow o l es → AllLow o l (before o key es)
  unfolding before
  AllLow-before key l [] h = tt
  AllLow-before key l (e ∷ es) h = elim (Bool-cases (o.less e.key key)) [
    | inl k ↦ rw k (h.0, AllLow-before key l es h.1)
    | inr k ↦ rw k tt
  ]

  pub Sorted-right : (xs ys : List (Entry K V)) → Sorted o (xs ++ ys) → Sorted o ys
  Sorted-right [] ys h = h
  Sorted-right (x ∷ xs) ys h = Sorted-right xs ys h.1

  -- The entry with a key, in the list.
  unfoldable pub lookup : K → List (Entry K V) → Option (Entry K V)
  lookup key [] = none
  lookup key (e ∷ es) = if o.equal e.key key then some e else lookup key es

  -- The first entry, if it has the key.
  unfoldable pub first_with : K → List (Entry K V) → Option (Entry K V)
  first_with key [] = none
  first_with key (e ∷ es) = if o.equal e.key key then some e else none

  module _ (order : IsOrder o) where
    not_less : (key a b : K) → o.less a key ≡ false → o.less a b ≡ true → o.less b key ≡ false
    not_less key a b h k = elim (Bool-cases (o.less b key)) [
      | inl e ↦ absurd (true-false (sym (order.transitive a b key k e) ∙ h))
      | inr e ↦ e
    ]

    NoneBelow-AllAbove :
        (key a : K) (es : List (Entry K V))
        → o.less a key ≡ false
        → AllAbove o a es
        → NoneBelow o key es
    NoneBelow-AllAbove key a [] h k = tt
    NoneBelow-AllAbove key a (e ∷ es) h k =
        (not_less key a e.key h k.0, NoneBelow-AllAbove key a es h k.1)

    pub NoneBelow-from :
        (key : K) (es : List (Entry K V)) → Sorted o es → NoneBelow o key (from o key es)
    unfolding from
    NoneBelow-from key [] h = tt
    NoneBelow-from key (e ∷ es) h = elim (Bool-cases (o.less e.key key)) [
      | inl l ↦ rw l (NoneBelow-from key es h.1)
      | inr l ↦ rw l (l, NoneBelow-AllAbove key e.key es l h.0)
    ]

    pub less-ne : (a b : K) → o.less a b ≡ true → a ≢ b
    less-ne a b h e = true-false (sym h ∙ ap (λ x. o.less x b) e ∙ order.irreflexive b)

    pub equal-ne : (a b : K) → a ≢ b → o.equal a b ≡ false
    equal-ne a b n = elim (Bool-cases (o.equal a b)) [
      | inl e ↦ absurd (n ((order.equal_iff a b).0 e))
      | inr e ↦ e
    ]

    pub AllAbove-less :
        (a b : K) (es : List (Entry K V)) → o.less a b ≡ true → AllAbove o b es → AllAbove o a es
    AllAbove-less a b [] h k = tt
    AllAbove-less a b (e ∷ es) h k = (order.transitive a b e.key h k.0, AllAbove-less a b es h k.1)

    -- Of two keys that are not equal one is smaller.
    pub less_of_ne : (a b : K) → o.less a b ≡ false → o.equal a b ≡ false → o.less b a ≡ true
    less_of_ne a b h k = elim (Bool-cases (o.less b a)) [
      | inl e ↦ e
      | inr e ↦ absurd (true-false (sym ((order.equal_iff a b).1 (order.total a b h e)) ∙ k))
    ]

    -- A key before the first is not in the list.
    pub lookup-AllAbove :
        (key : K) (es : List (Entry K V)) → AllAbove o key es → lookup key es ≡ none
    unfolding lookup
    lookup-AllAbove key [] h = refl
    lookup-AllAbove key (e ∷ es) h =
        rw (equal-ne e.key key (λ x. less-ne key e.key h.0 (sym x))) (lookup-AllAbove key es h.1)

    pub lookup-from :
        (key : K) (es : List (Entry K V))
        → Sorted o es
        → lookup key es ≡ first_with key (from o key es)
    unfolding lookup first_with from
    lookup-from key [] h = refl
    lookup-from key (e ∷ es) h = elim (Bool-cases (o.less e.key key)) [
      | inl l ↦ rw (l, equal-ne e.key key (less-ne e.key key l)) (lookup-from key es h.1)
      | inr l ↦ elim (Bool-cases (o.equal e.key key)) [
        | inl q ↦ rw (l, q) refl
        | inr q ↦
            rw (l, q)
              (lookup-AllAbove key es (AllAbove-less key e.key es (less_of_ne e.key key l q) h.0))
      ]
    ]
