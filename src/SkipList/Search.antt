-- ===== src/SkipList/Search.antt =====
-- The search for a key goes to the last node before it, at every level.
use ww_raft_kv.Prelude.{
  List, [], ap, arith, inl, inr, le-cases, length, refl, some, subst, suc, zero, ℕ, ◌++◌, ◌<◌, ◌∙◌,
  ◌∷◌, ◌≡◌, ◌≤◌,
}
use ww_raft_kv.SkipList.{UpdateList, advance, descend, descend_with_update, go_level}
use ww_raft_kv.SkipList.Levels.{AllHold-tall, NoneBelow-tall, resume, tall-append}
use ww_raft_kv.SkipList.Shape.{AllBelow, AllHold, Entry, Holds, NoneBelow, Walk, last_of, tall}
use ww_raft_kv.SkipList.Types.{Params, Pointer, SkipList, key_at, put_at, put_at-here, put_at-there}

module _ {K V : Type 0} (o : Params K V) (s : SkipList K V) where
  pub key_at-Holds : (e : Entry K V) → Holds s e → key_at s e.at ≡ some e.key
  unfolding key_at
  key_at-Holds e h = rw h.found (ap some h.key)

  -- At a level, the loop passes the entries with smaller keys, and no other.
  advance-passes :
      (key : K) (level fuel : ℕ) (p : Pointer) (xs ys : List (Entry K V))
      → AllHold s xs
      → AllHold s ys
      → AllBelow o key xs
      → NoneBelow o key ys
      → Walk s level p (xs ++ ys)
      → length xs < fuel
      → advance o key level fuel s p ≡ some (last_of p xs)
  unfolding advance
  advance-passes key level zero p xs ys h k a n w f = elim f [ ]
  advance-passes key level (suc fuel) p [] [] h k a n w f = rw w refl
  advance-passes key level (suc fuel) p [] (y ∷ ys) h k a n w f =
      rw w.0 (rw (key_at-Holds y k.0) (rw n.0 refl))
  advance-passes key level (suc fuel) p (x ∷ xs) ys h k a n w f = rw w.0 (
      rw (key_at-Holds x h.0)
        (rw a.0 (advance-passes key level fuel x.at xs ys h.1 k a.1 n w.1 (omega arith))))

  -- The entries of the list in two parts, by their keys.
  pub record Parted (key : K) (bs cs : List (Entry K V)) : Type 0 where
    pub bs_hold : AllHold s bs
    pub cs_hold : AllHold s cs
    pub below : AllBelow o key bs
    pub above : NoneBelow o key cs
    pub few : length bs < s.fresh
    pub walks : (l : ℕ) → l ≤ s.max_level_index → Walk s l s.head (tall l (bs ++ cs))

  module _ {key : K} {bs cs : List (Entry K V)} (h : Parted key bs cs) where
    -- The last node before the key, at a level.
    abbrev pred : ℕ → Pointer
    pred l = last_of s.head (tall l bs)

    go_level-pred :
        (l : ℕ) → l ≤ s.max_level_index → go_level o key l s (pred (suc l)) ≡ some (pred l)
    unfolding go_level
    go_level-pred l k =
        let w = subst (Walk s l s.head) (tall-append l bs cs) (h.walks l k) in
        let r = resume o s key l s.head bs (tall l cs) h.bs_hold h.below w in
        advance-passes key l s.fresh (pred (suc l)) r.left (tall l cs) r.holds
          (AllHold-tall s l cs h.cs_hold) r.below (NoneBelow-tall o key l cs h.above) r.walk
          (omega (arith, r.few, h.few))
        ∙ ap some r.last

    pub descend-pred :
        (l : ℕ) → l ≤ s.max_level_index → descend o key l s (pred (suc l)) ≡ some (pred 0)
    unfolding descend
    descend-pred zero k = go_level-pred 0 k
    descend-pred (suc l) k = rw (go_level-pred (suc l) k) (descend-pred l (omega arith))

    -- What the list of pointers holds after the loop: the nodes before the key, on its levels.
    pub record Updated (l : ℕ) (u v : UpdateList o) : Type 0 where
      pub inside : (i : ℕ) → i ≤ l → v i ≡ some (pred i)
      pub outside : (i : ℕ) → l < i → v i ≡ u i

    pub descend_with_update-pred :
        (l : ℕ) (u : UpdateList o)
        → l ≤ s.max_level_index
        → (v : UpdateList o) × (descend_with_update o key l s (pred (suc l)) u ≡ some (pred 0, v))
          × Updated l u v
    unfolding descend_with_update
    descend_with_update-pred zero u k =
        let v = put_at 0 (some (pred 0)) u in
        (
          v,
          rw (go_level-pred 0 k) refl,
          record {
            inside =
                λ i e. put_at-here 0 i _ u (omega arith) ∙ ap (λ j. some (pred j)) (omega arith);
            outside = λ i e. put_at-there 0 i _ u (omega arith);
          },
        )
    descend_with_update-pred (suc l) u k =
        let (v, e, r) =
          descend_with_update-pred l (put_at (suc l) (some (pred (suc l))) u) (omega arith) in
        (
          v,
          rw (go_level-pred (suc l) k) e,
          record {
            inside = λ i f. elim (le-cases i l) [
              | inl g ↦ r.inside i g
              | inr g ↦
                  r.outside i g
                  ∙ put_at-here (suc l) i _ u (omega arith)
                  ∙ ap (λ j. some (pred j)) (omega arith)
            ];
            outside = λ i f. r.outside i (omega arith) ∙ put_at-there (suc l) i _ u (omega arith);
          },
        )
