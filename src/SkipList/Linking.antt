-- ===== src/SkipList/Linking.antt =====
-- The loop that links a new node, level by level.
use ww_raft_kv.Prelude.{
  List, Option, [], arith, get_elem?-lt, inl, inr, le-cases, none, refl, some, subst, suc, sym,
  zero, ℕ, ◌++◌, ◌+◌, ◌<◌, ◌∙◌, ◌∷◌, ◌≡◌, ◌≢◌, ◌≤◌,
}
use ww_raft_kv.SkipList.{UpdateList}
use ww_raft_kv.SkipList.Apart.{Apart-tall, Apart-left, Distinct-tall, last_of-ne}
use ww_raft_kv.SkipList.Change.{link, link_at}
use ww_raft_kv.SkipList.Levels.{Walk-append, tall-append}
use ww_raft_kv.SkipList.Link.{Walk-linked, Walk-same}
use ww_raft_kv.SkipList.Shape.{Apart, Distinct, Entry, Holds, Stands, Walk, last_of, tall}
use ww_raft_kv.SkipList.Types.{Params, Pointer, SkipList, read}
use ww_raft_kv.SkipList.Writing.{Written, write-Written}

module _ {K V : Type 0} where
  -- All of a skip list but its pointers.
  pub record Kept (s t : SkipList K V) : Type 0 where
    pub holds : (e : Entry K V) → Holds s e → Holds t e
    pub stands : (r : Pointer) (n : ℕ) → Stands s r n → Stands t r n
    pub fresh : t.fresh ≡ s.fresh
    pub head : t.head ≡ s.head
    pub max_level_index : t.max_level_index ≡ s.max_level_index
    pub current_level_index : t.current_level_index ≡ s.current_level_index
    pub size : t.size ≡ s.size

  pub Kept-refl : (s : SkipList K V) → Kept s s
  Kept-refl s = record {
    holds = λ e h. h;
    stands = λ r n h. h;
    fresh = refl;
    head = refl;
    max_level_index = refl;
    current_level_index = refl;
    size = refl;
  }

  pub Kept-Written :
      {s t u : SkipList K V} {p : Pointer} {l : ℕ} {q : Option Pointer}
      → Kept s t
      → Written t p l q u
      → Kept s u
  Kept-Written k w = record {
    holds = λ e h. w.holds e (k.holds e h);
    stands = λ r n h. w.stands r n (k.stands r n h);
    fresh = w.fresh ∙ k.fresh;
    head = w.head ∙ k.head;
    max_level_index = w.max_level_index ∙ k.max_level_index;
    current_level_index = w.current_level_index ∙ k.current_level_index;
    size = w.size ∙ k.size;
  }

  pub Stands-reads :
      {s : SkipList K V} {p : Pointer} {n : ℕ} (l : ℕ)
      → Stands s p n
      → l < n
      → (q : Option Pointer) × (read s p l ≡ some q)
  unfolding read
  Stands-reads {s} {p} l h k =
      let (q, e) = get_elem?-lt h.node.forward l (omega (arith, h.size)) in (q, rw h.found e)

  pub Walk-reads :
      (s : SkipList K V) (l : ℕ) (p : Pointer) (es : List (Entry K V))
      → Walk s l p es
      → (q : Option Pointer) × (read s p l ≡ some q)
  Walk-reads s l p [] w = (none, w)
  Walk-reads s l p (e ∷ es) w = (some e.at, w.0)

-- The lists of a skip list while a new entry is linked: the levels below one have it.
module _ {K V : Type 0} (o : Params K V) (s : SkipList K V) (e : Entry K V)
    (bs cs : List (Entry K V)) where
  pub record Halfway (l : ℕ) (t : SkipList K V) : Type 0 where
    pub kept : Kept s t
    pub linked :
        (i : ℕ) → i < l → i ≤ s.max_level_index → Walk t i s.head (tall i bs ++ e ∷ tall i cs)
    pub waits : (i : ℕ) → l ≤ i → i ≤ s.max_level_index → Walk t i s.head (tall i bs ++ tall i cs)

  module _ (u : UpdateList o)
      (preds : (i : ℕ) → i ≤ e.top → u i ≡ some (last_of s.head (tall i bs)))
      (stands : Stands s e.at (e.top + 1)) (fits : e.top ≤ s.max_level_index)
      (not_head : s.head ≢ e.at) (apart : Apart e.at (bs ++ cs))
      (head_apart : Apart s.head (bs ++ cs)) (distinct : Distinct (bs ++ cs)) where
    link_at-Halfway :
        (l : ℕ) (t : SkipList K V)
        → l ≤ e.top
        → Halfway l t
        → (v : SkipList K V) × (link_at o e.at u l t ≡ some v) × Halfway (suc l) v
    unfolding link_at
    link_at-Halfway l t k h =
        let bl = tall l bs in
        let cl = tall l cs in
        let pred = last_of s.head bl in
        let w = h.waits l (omega arith) (omega arith) in
        let same = tall-append l bs cs in
        let new_apart = subst (Apart e.at) same (Apart-tall e.at l (bs ++ cs) apart) in
        let ahead = subst (Apart s.head) same (Apart-tall s.head l (bs ++ cs) head_apart) in
        let differ = subst Distinct same (Distinct-tall l (bs ++ cs) distinct) in
        let pred_ne = last_of-ne e.at s.head bl not_head (Apart-left e.at bl cl new_apart) in
        let (next, before_next) = Walk-reads t l pred cl (Walk-append t l s.head bl cl w) in
        let (old, own) = Stands-reads l (h.kept.stands e.at (e.top + 1) stands) (omega arith) in
        let (t1, e1, w1) = write-Written t e.at l next own in
        let (t2, e2, w2) =
          write-Written t1 pred l (some e.at) (w1.there pred l (inl pred_ne) ∙ before_next) in
        let others : (r : Pointer) (i : ℕ) → i ≢ l → read t2 r i ≡ read t r i =
          λ r i n. w2.there r i (inr n) ∙ w1.there r i (inr n) in
        let after : read t2 e.at l ≡ read t pred l =
          w2.there e.at l (inl (λ x. pred_ne (sym x))) ∙ w1.here ∙ sym before_next in
        let here =
          Walk-linked t t2 l s.head e bl cl (λ r n m. w2.there r l (inl n) ∙ w1.there r l (inl m))
            w2.here after not_head ahead new_apart differ w in
        (
          t2,
          rw (preds l k) (rw before_next (rw e1 e2)),
          record {
            kept = Kept-Written (Kept-Written h.kept w1) w2;
            linked = λ i a b. elim (le-cases l i) [
              | inl level ↦
                  subst (λ j. Walk t2 j s.head (tall j bs ++ e ∷ tall j cs)) (omega arith) here
              | inr below ↦
                  Walk-same t t2 i s.head (tall i bs ++ e ∷ tall i cs)
                    (λ r. others r i (λ x. omega (arith, x, below))) (h.linked i below b)
            ];
            waits = λ i a b.
                Walk-same t t2 i s.head (tall i bs ++ tall i cs)
                  (λ r. others r i (λ x. omega (arith, x, a))) (h.waits i (omega arith) b);
          },
        )

    pub link-Halfway :
        (l rounds : ℕ) (t : SkipList K V)
        → l + rounds ≡ e.top + 1
        → Halfway l t
        → (v : SkipList K V) × (link o e.at u l rounds t ≡ some v) × Halfway (e.top + 1) v
    unfolding link
    link-Halfway l zero t k h = (t, refl, subst (λ j. Halfway j t) (omega arith) h)
    link-Halfway l (suc rounds) t k h =
        let (v, a, b) = link_at-Halfway l t (omega arith) h in
        let (w, c, d) =
          link-Halfway (l + 1) rounds v (omega arith) (subst (λ j. Halfway j v) (omega arith) b) in
        (w, rw a c, d)
