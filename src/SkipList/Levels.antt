-- ===== src/SkipList/Levels.antt =====
-- The entries of a level, and what a search finds when it comes down by one level.
use ww_raft_kv.Prelude.{
  Bool-cases, List, [], ap, arith, inl, inr, leb, length, refl, subst, suc, ℕ, ◌++◌, ◌<◌, ◌∙◌, ◌∷◌,
  ◌≡◌, ◌≤◌, ◌⊎◌,
}
use ww_raft_kv.SkipList.Shape.{AllBelow, AllHold, AllLow, Entry, NoneBelow, Walk, last_of, tall}
use ww_raft_kv.SkipList.Types.{Params, Pointer, SkipList}

compare-cases : (l top : ℕ) → (top < l) ⊎ ((top ≡ l) ⊎ (suc l ≤ top))
compare-cases l top = ground arith

module _ {K V : Type 0} where
  pub tall_in :
      (l : ℕ) (x : Entry K V) (xs : List (Entry K V)) → l ≤ x.top → tall l (x ∷ xs) ≡ x ∷ tall l xs
  unfolding tall
  tall_in l x xs h = ground arith

  pub tall_out :
      (l : ℕ) (x : Entry K V) (xs : List (Entry K V)) → x.top < l → tall l (x ∷ xs) ≡ tall l xs
  unfolding tall
  tall_out l x xs h = ground arith

  pub tall-append : (l : ℕ) (xs ys : List (Entry K V)) → tall l (xs ++ ys) ≡ tall l xs ++ tall l ys
  unfolding tall
  tall-append l [] ys = refl
  tall-append l (x ∷ xs) ys = elim (Bool-cases (leb l x.top)) [
    | inl e ↦ rw (e, tall-append l xs ys) refl
    | inr e ↦ rw (e, tall-append l xs ys) refl
  ]

  pub tall_zero : (xs : List (Entry K V)) → tall 0 xs ≡ xs
  unfolding tall
  tall_zero [] = refl
  tall_zero (x ∷ xs) = tall_in 0 x xs (omega arith) ∙ ap (x ∷◌) (tall_zero xs)

  pub length-tall : (l : ℕ) (xs : List (Entry K V)) → length (tall l xs) ≤ length xs
  unfolding tall
  length-tall l [] = omega arith
  length-tall l (x ∷ xs) = ground (arith, length-tall l xs)

  pub List-cases :
      (xs : List (Entry K V))
      → (xs ≡ []) ⊎ ((y : Entry K V) × (ys : List (Entry K V)) × (xs ≡ y ∷ ys))
  List-cases [] = inl refl
  List-cases (x ∷ xs) = inr (x, xs, refl)

  pub last_of-any :
      (p q : Pointer) (x : Entry K V) (xs ys : List (Entry K V))
      → ys ≡ x ∷ xs
      → last_of p ys ≡ last_of q ys
  last_of-any p q x xs ys e = rw e refl

  module _ (o : Params K V) where
    pub tall_low : (l m : ℕ) (xs : List (Entry K V)) → AllLow o l xs → l < m → tall m xs ≡ []
    unfolding tall
    tall_low l m [] h k = refl
    tall_low l m (x ∷ xs) h k = ground (arith, tall_low l m xs h.1 k)

    pub AllBelow-tall :
        (key : K) (l : ℕ) (xs : List (Entry K V)) → AllBelow o key xs → AllBelow o key (tall l xs)
    unfolding tall
    AllBelow-tall key l [] h = tt
    AllBelow-tall key l (x ∷ xs) h = elim (Bool-cases (leb l x.top)) [
      | inl e ↦ rw e (h.0, AllBelow-tall key l xs h.1)
      | inr e ↦ rw e (AllBelow-tall key l xs h.1)
    ]

    pub NoneBelow-tall :
        (key : K) (l : ℕ) (xs : List (Entry K V)) → NoneBelow o key xs → NoneBelow o key (tall l xs)
    unfolding tall
    NoneBelow-tall key l [] h = tt
    NoneBelow-tall key l (x ∷ xs) h = elim (Bool-cases (leb l x.top)) [
      | inl e ↦ rw e (h.0, NoneBelow-tall key l xs h.1)
      | inr e ↦ rw e (NoneBelow-tall key l xs h.1)
    ]

  module _ (s : SkipList K V) where
    pub AllHold-tall : (l : ℕ) (xs : List (Entry K V)) → AllHold s xs → AllHold s (tall l xs)
    unfolding tall
    AllHold-tall l [] h = tt
    AllHold-tall l (x ∷ xs) h = elim (Bool-cases (leb l x.top)) [
      | inl e ↦ rw e (h.0, AllHold-tall l xs h.1)
      | inr e ↦ rw e (AllHold-tall l xs h.1)
    ]

    pub Walk-append :
        (l : ℕ) (p : Pointer) (xs ys : List (Entry K V))
        → Walk s l p (xs ++ ys)
        → Walk s l (last_of p xs) ys
    Walk-append l p [] ys w = w
    Walk-append l p (x ∷ xs) ys w = Walk-append l x.at xs ys w.1

  module _ (o : Params K V) (s : SkipList K V) where
    -- What is left of a level, from a node on that the level above has.
    pub record Resumed (key : K) (l : ℕ) (cur target : Pointer) (n : ℕ) (ys : List (Entry K V))
        : Type 0 where
      pub left : List (Entry K V)
      pub walk : Walk s l cur (left ++ ys)
      pub last : last_of cur left ≡ target
      pub holds : AllHold s left
      pub below : AllBelow o key left
      pub few : length left ≤ n

    -- One more entry, that neither level has.
    Resumed-more :
        {key : K} {l : ℕ} {cur target : Pointer} {n : ℕ} {ys : List (Entry K V)}
        → Resumed key l cur target n ys
        → Resumed key l cur target (suc n) ys
    Resumed-more r = record {
      left = r.left;
      walk = r.walk;
      last = r.last;
      holds = r.holds;
      below = r.below;
      few = omega (arith, r.few);
    }

    -- The entry is the last that the level above has, or it is only on this level.
    resume_here :
        (key : K) (l : ℕ) (p cur : Pointer) (x : Entry K V) (xs ys : List (Entry K V))
        → AllHold s (x ∷ xs)
        → AllBelow o key (x ∷ xs)
        → Walk s l p (x ∷ tall l xs ++ ys)
        → cur ≡ p
        → Resumed key l cur (last_of x.at (tall l xs)) (suc (length xs)) ys
    resume_here key l p cur x xs ys h b w e = record {
      left = x ∷ tall l xs;
      walk = rw e w;
      last = refl;
      holds = (h.0, AllHold-tall s l xs h.1);
      below = (b.0, AllBelow-tall o key l xs b.1);
      few = omega (arith, length-tall l xs);
    }

    pub resume :
        (key : K) (l : ℕ) (p : Pointer) (xs ys : List (Entry K V))
        → AllHold s xs
        → AllBelow o key xs
        → Walk s l p (tall l xs ++ ys)
        → Resumed key l (last_of p (tall (suc l) xs)) (last_of p (tall l xs)) (length xs) ys
    resume key l p [] ys h b w =
        unfold tall in
        record { left = []; walk = w; last = refl; holds = tt; below = tt; few = omega arith }
    resume key l p (x ∷ xs) ys h b w = elim (compare-cases l x.top) [
      | inl out ↦
          let v = subst (λ es. Walk s l p (es ++ ys)) (tall_out l x xs out) w in
          rw (tall_out l x xs out, tall_out (suc l) x xs (omega arith))
            (Resumed-more (resume key l p xs ys h.1 b.1 v))
      | inr (inl only) ↦
          let v = subst (λ es. Walk s l p (es ++ ys)) (tall_in l x xs (omega arith)) w in
          rw (tall_in l x xs (omega arith), tall_out (suc l) x xs (omega arith))
            (elim (List-cases (tall (suc l) xs)) [
              | inl e ↦ resume_here key l p _ x xs ys h b v (rw e refl)
              | inr (y, zs, e) ↦
                  rw (last_of-any p x.at y zs (tall (suc l) xs) e)
                    (Resumed-more (resume key l x.at xs ys h.1 b.1 v.1))
            ])
      | inr (inr both) ↦
          let v = subst (λ es. Walk s l p (es ++ ys)) (tall_in l x xs (omega arith)) w in
          rw (tall_in l x xs (omega arith), tall_in (suc l) x xs both)
            (Resumed-more (resume key l x.at xs ys h.1 b.1 v.1))
    ]
