-- ===== src/SkipList/Unlink.antt =====
-- raftkv/kvstore/include/SkipList.h, `erase` of a key: the loop that takes a node out.
use ww_raft_kv.Prelude.{
  Bool, List, Option, [], ap, arith, eq→==, false, inl, inr, le-cases, ne→==, none, refl, some,
  subst, suc, sym, true, zero, ℕ, ◌++◌, ◌+◌, ◌<◌, ◌∙◌, ◌∷◌, ◌≡◌, ◌≢◌, ◌≤◌,
}
use ww_raft_kv.SkipList.{UpdateList}
use ww_raft_kv.SkipList.Apart.{Apart-tall, Distinct-tall}
use ww_raft_kv.SkipList.Change.{points_to, unlink}
use ww_raft_kv.SkipList.Levels.{Walk-append, tall-append, tall_in, tall_out}
use ww_raft_kv.SkipList.Link.{Walk-Apart, Walk-same, last_of-Apart}
use ww_raft_kv.SkipList.Linking.{Kept, Kept-Written, Walk-reads}
use ww_raft_kv.SkipList.Shape.{Apart, Distinct, Entry, Walk, last_of, tall}
use ww_raft_kv.SkipList.Types.{Params, Pointer, SkipList, read, write, ◌>>=◌}
use ww_raft_kv.SkipList.Writing.{write-Written}

module _ {K V : Type 0} where
  -- The pointer that led to a node leads to what came after it.
  Walk-unlinked :
      (s t : SkipList K V) (l : ℕ) (p : Pointer) (x : Entry K V) (xs ys : List (Entry K V))
      → ((r : Pointer) → r ≢ last_of p xs → read t r l ≡ read s r l)
      → read t (last_of p xs) l ≡ read s x.at l
      → Apart p (xs ++ x ∷ ys)
      → Distinct (xs ++ x ∷ ys)
      → Walk s l p (xs ++ x ∷ ys)
      → Walk t l p (xs ++ ys)
  Walk-unlinked s t l p x [] [] h after a d w = after ∙ w.1
  Walk-unlinked s t l p x [] (y ∷ ys) h after a d w =
      (after ∙ w.1.0, Walk-Apart s t l p p y.at ys (λ r n m. h r n) a.1.0 a.1.0 a.1.1 a.1.1 w.1.1)
  Walk-unlinked s t l p x (z ∷ zs) ys h after a d w = (
    h p (last_of-Apart p z zs (x ∷ ys) a) ∙ w.0,
    Walk-unlinked s t l z.at x zs ys h after d.0 d.1 w.1,
  )

module _ {K V : Type 0} (o : Params K V) where
  points_to_self : (p : Pointer) → points_to o p (some p) ≡ true
  unfolding points_to
  points_to_self p = eq→== p p refl

  -- The rest of a round, when it is known whether the pointer is to the node.
  round_rest :
      Pointer → UpdateList o → ℕ → ℕ → SkipList K V → Pointer → Bool → Option (SkipList K V)
  round_rest p u l rounds s b false = some s
  round_rest p u l rounds s b true = do
    after ← read s p l
    t ← write s b l after
    unlink o p u (l + 1) rounds t

  unlink_round :
      (p : Pointer) (u : UpdateList o) (l rounds : ℕ) (s : SkipList K V) {b : Pointer}
      {next : Option Pointer}
      → u l ≡ some b
      → read s b l ≡ some next
      → unlink o p u l (suc rounds) s ≡ round_rest p u l rounds s b (points_to o p next)
  unfolding unlink round_rest
  unlink_round p u l rounds s {b} {next} a c = rw (a, c) (on_bool (points_to o p next))
    where
      on_bool :
          (z : Bool)
          → elim z [
            | false ↦ some s
            | true ↦ do after ← read s p l; t ← write s b l after; unlink o p u (l + 1) rounds t
          ]
            ≡ round_rest p u l rounds s b z
      on_bool true = refl
      on_bool false = refl

  unlink_step :
      (p : Pointer) (u : UpdateList o) (l rounds : ℕ) (s : SkipList K V) {b : Pointer}
      {next after : Option Pointer} {t : SkipList K V}
      → u l ≡ some b
      → read s b l ≡ some next
      → points_to o p next ≡ true
      → read s p l ≡ some after
      → write s b l after ≡ some t
      → unlink o p u l (suc rounds) s ≡ unlink o p u (l + 1) rounds t
  unfolding round_rest
  unlink_step p u l rounds s {b} a c f d e =
      unlink_round p u l rounds s a c ∙ ap (round_rest p u l rounds s b) f ∙ rw (d, e) refl

  unlink_stop :
      (p : Pointer) (u : UpdateList o) (l rounds : ℕ) (s : SkipList K V) {b : Pointer}
      {next : Option Pointer}
      → u l ≡ some b
      → read s b l ≡ some next
      → points_to o p next ≡ false
      → unlink o p u l (suc rounds) s ≡ some s
  unfolding round_rest
  unlink_stop p u l rounds s {b} a c f =
      unlink_round p u l rounds s a c ∙ ap (round_rest p u l rounds s b) f

module _ {K V : Type 0} (o : Params K V) (s : SkipList K V) (x : Entry K V)
    (bs cs : List (Entry K V)) where
  -- The lists of a skip list while an entry is taken out: the levels below one have lost it.
  pub record Leaving (l : ℕ) (t : SkipList K V) : Type 0 where
    pub kept : Kept s t
    pub gone : (i : ℕ) → i < l → i ≤ s.max_level_index → Walk t i s.head (tall i bs ++ tall i cs)
    pub stays :
        (i : ℕ) → l ≤ i → i ≤ s.max_level_index → Walk t i s.head (tall i bs ++ tall i (x ∷ cs))

  module _ (u : UpdateList o) (current : ℕ)
      (preds : (i : ℕ) → i ≤ current → u i ≡ some (last_of s.head (tall i bs)))
      (fits : current ≤ s.max_level_index) (low : x.top ≤ current)
      (head_apart : Apart s.head (bs ++ x ∷ cs)) (distinct : Distinct (bs ++ x ∷ cs)) where
    -- A level that the node has.
    unlink_here :
        (l : ℕ) (t : SkipList K V)
        → l ≤ x.top
        → Leaving l t
        → let pred = last_of s.head (tall l bs) in
          (after : Option Pointer) × (v : SkipList K V) × (read t pred l ≡ some (some x.at))
          × (read t x.at l ≡ some after)
          × (write t pred l after ≡ some v)
          × Leaving (suc l) v
    unlink_here l t k h =
        let bl = tall l bs in
        let cl = tall l cs in
        let pred = last_of s.head bl in
        let same = tall-append l bs (x ∷ cs) ∙ ap (λ ys. bl ++ ys) (tall_in l x cs k) in
        let w =
          subst (λ ys. Walk t l s.head (bl ++ ys)) (tall_in l x cs k)
            (h.stays l (omega arith) (omega arith)) in
        let rest = Walk-append t l s.head bl (x ∷ cl) w in
        let (after, own) = Walk-reads t l x.at cl rest.1 in
        let (v, e, written) = write-Written t pred l after rest.0 in
        let apart = subst (Apart s.head) same (Apart-tall s.head l (bs ++ x ∷ cs) head_apart) in
        let differ = subst Distinct same (Distinct-tall l (bs ++ x ∷ cs) distinct) in
        let here =
          Walk-unlinked t v l s.head x bl cl (λ r n. written.there r l (inl n))
            (written.here ∙ sym own) apart differ w in
        (
          after,
          v,
          rest.0,
          own,
          e,
          record {
            kept = Kept-Written h.kept written;
            gone = λ i a b. elim (le-cases l i) [
              | inl level ↦ subst (λ j. Walk v j s.head (tall j bs ++ tall j cs)) (omega arith) here
              | inr below ↦
                  Walk-same t v i s.head (tall i bs ++ tall i cs)
                    (λ r. written.there r i (inr (λ y. omega (arith, y, below)))) (h.gone i below b)
            ];
            stays = λ i a b.
                Walk-same t v i s.head (tall i bs ++ tall i (x ∷ cs))
                  (λ r. written.there r i (inr (λ y. omega (arith, y, a))))
                  (h.stays i (omega arith) b);
          },
        )

    -- The first level that the node does not have: the loop stops.
    not_pointed :
        (l : ℕ) (t : SkipList K V)
        → x.top < l
        → l ≤ current
        → Leaving l t
        → (next : Option Pointer) × (read t (last_of s.head (tall l bs)) l ≡ some next)
          × (points_to o x.at next ≡ false)
    unfolding points_to
    not_pointed l t k m h =
        let w =
          subst (λ ys. Walk t l s.head (tall l bs ++ ys)) (tall_out l x cs k)
            (h.stays l (omega arith) (omega arith)) in
        first_apart (tall l cs) (Apart-tall x.at l cs (Distinct-middle bs distinct))
          (Walk-append t l s.head (tall l bs) (tall l cs) w)
      where
        Distinct-middle : (ys : List (Entry K V)) → Distinct (ys ++ x ∷ cs) → Apart x.at cs
        Distinct-middle [] d = d.0
        Distinct-middle (y ∷ ys) d = Distinct-middle ys d.1

        first_apart :
            (ys : List (Entry K V))
            → Apart x.at ys
            → Walk t l (last_of s.head (tall l bs)) ys
            → (next : Option Pointer) × (read t (last_of s.head (tall l bs)) l ≡ some next)
              × (points_to o x.at next ≡ false)
        first_apart [] a v = (none, v, refl)
        first_apart (y ∷ ys) a v = (some y.at, v.0, ne→== y.at x.at a.0)

    pub unlink-Leaving :
        (l rounds : ℕ) (t : SkipList K V)
        → l + rounds ≡ current + 1
        → l ≤ x.top + 1
        → Leaving l t
        → (v : SkipList K V) × (unlink o x.at u l rounds t ≡ some v) × Leaving (x.top + 1) v
    unfolding unlink
    unlink-Leaving l zero t k m h = (t, refl, subst (λ j. Leaving j t) (omega arith) h)
    unlink-Leaving l (suc rounds) t k m h = elim (le-cases l x.top) [
      | inl has ↦
          let (after, v, leads, own, e, g) = unlink_here l t has h in
          let hit = points_to_self o x.at in
          let (y, f, z) =
            unlink-Leaving (l + 1) rounds v (omega arith) (omega arith)
              (subst (λ j. Leaving j v) (omega arith) g) in
          (y, unlink_step o x.at u l rounds t (preds l (omega arith)) leads hit own e ∙ f, z)
      | inr has_not ↦
          let (next, leads, away) = not_pointed l t has_not (omega arith) h in
          (
            t,
            unlink_stop o x.at u l rounds t (preds l (omega arith)) leads away,
            subst (λ j. Leaving j t) (omega arith) h,
          )
    ]
