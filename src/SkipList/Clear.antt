-- ===== src/SkipList/Clear.antt =====
-- raftkv/kvstore/include/SkipList.h, `clear`, and the shape.
use ww_raft_kv.Prelude.{
  ==-cases, List, Option, [], ap, arith, inl, inr, le-cases, length, none, refl, some, subst, suc,
  sym, zero, ℕ, ◌+◌, ◌<◌, ◌∙◌, ◌∷◌, ◌≡◌, ◌≢◌, ◌≤◌,
}
use ww_raft_kv.SkipList.Change.{clear, clear_head, destroy_all, destroy_node}
use ww_raft_kv.SkipList.Erase.{destroyed-read}
use ww_raft_kv.SkipList.Levels.{tall_low, tall_zero}
use ww_raft_kv.SkipList.Link.{Walk-Apart}
use ww_raft_kv.SkipList.Linking.{Stands-reads}
use ww_raft_kv.SkipList.Shape.{Apart, Distinct, Entry, Shape, Stands, Walk, tall}
use ww_raft_kv.SkipList.Types.{Params, Pointer, SkipList, put_at, put_at-there, read, write}
use ww_raft_kv.SkipList.Writing.{write-Written}

module _ {K V : Type 0} where
  abbrev pub start_of : List (Entry K V) → Option Pointer
  start_of [] = none
  start_of (e ∷ es) = some e.at

  -- The pointers of level 0 from the first entry on.
  abbrev Chain : SkipList K V → List (Entry K V) → Type 0
  Chain t [] = Unit
  Chain t (e ∷ es) = Walk t 0 e.at es

  read-start :
      (t : SkipList K V) (p : Pointer) (es : List (Entry K V))
      → Walk t 0 p es
      → read t p 0 ≡ some (start_of es)
  read-start t p [] w = w
  read-start t p (e ∷ es) w = w.0

  Chain-rest : (t : SkipList K V) (p : Pointer) (es : List (Entry K V)) → Walk t 0 p es → Chain t es
  Chain-rest t p [] w = tt
  Chain-rest t p (e ∷ es) w = w.1

  Chain-destroyed :
      (a : Pointer) (t : SkipList K V) (es : List (Entry K V))
      → Apart a es
      → Chain t es
      → Chain (record t { heap = put_at a none t.heap }) es
  Chain-destroyed a t [] n w = tt
  Chain-destroyed a t (e ∷ es) n w =
      Walk-Apart t (record t { heap = put_at a none t.heap }) 0 a a e.at es
        (λ r x y. destroyed-read a t r 0 x) n.0 n.0 n.1 n.1 w

  -- The head, and all but the heap, as they were.
  record HeadKept (s t : SkipList K V) : Type 0 where
    reads : (l : ℕ) → read t s.head l ≡ read s s.head l
    stands : (n : ℕ) → Stands s s.head n → Stands t s.head n
    fresh : t.fresh ≡ s.fresh
    head : t.head ≡ s.head
    max_level_index : t.max_level_index ≡ s.max_level_index
    current_level_index : t.current_level_index ≡ s.current_level_index

  HeadKept-destroyed :
      (a : Pointer) (s t : SkipList K V)
      → s.head ≢ a
      → HeadKept s t
      → HeadKept s (record t { heap = put_at a none t.heap })
  HeadKept-destroyed a s t n c = record {
    reads = λ l. destroyed-read a t s.head l n ∙ c.reads l;
    stands = λ m k.
        let h = c.stands m k in
        record {
          node = h.node;
          found = put_at-there a s.head none t.heap n ∙ h.found;
          size = h.size;
        };
    fresh = c.fresh;
    head = c.head;
    max_level_index = c.max_level_index;
    current_level_index = c.current_level_index;
  }

module _ {K V : Type 0} (o : Params K V) (s : SkipList K V) where
  destroy_all-HeadKept :
      (fuel : ℕ) (es : List (Entry K V)) (t : SkipList K V)
      → length es < fuel
      → Distinct es
      → Apart s.head es
      → Chain t es
      → HeadKept s t
      → (v : SkipList K V) × (destroy_all o fuel (start_of es) t ≡ some v) × HeadKept s v
  unfolding destroy_all destroy_node
  destroy_all-HeadKept fuel [] t f d a w c = (t, refl, c)
  destroy_all-HeadKept zero (x ∷ es) t f d a w c = absurd (omega (arith, f))
  destroy_all-HeadKept (suc fuel) (x ∷ es) t f d a w c =
      let (v, e, k) =
        destroy_all-HeadKept fuel es (record t { heap = put_at x.at none t.heap })
          (omega (arith, f)) d.1 a.1 (Chain-destroyed x.at t es d.0 (Chain-rest t x.at es w))
          (HeadKept-destroyed x.at s t (λ q. a.0 (sym q)) c) in
      (v, rw (read-start t x.at es w) e, k)

  -- The head without pointers on the levels below one.
  record Blank (l : ℕ) (t : SkipList K V) : Type 0 where
    blank : (i : ℕ) → i < l → i ≤ s.max_level_index → read t s.head i ≡ some none
    above : (i : ℕ) → l ≤ i → read t s.head i ≡ read s s.head i
    stands : Stands t s.head (s.max_level_index + 1)
    fresh : t.fresh ≡ s.fresh
    head : t.head ≡ s.head
    max_level_index : t.max_level_index ≡ s.max_level_index
    current_level_index : t.current_level_index ≡ s.current_level_index

  level-Blank :
      (l : ℕ) (t : SkipList K V)
      → l ≤ s.max_level_index
      → Blank l t
      → (v : SkipList K V) × (write t t.head l none ≡ some v) × Blank (suc l) v
  level-Blank l t k b =
      let (old, e) = Stands-reads l b.stands (omega (arith, k)) in
      let (v, f, w) = write-Written t s.head l none e in
      (
        v,
        ap (λ p. write t p l none) b.head ∙ f,
        record {
          blank = λ i m n. elim (==-cases i l) [
            | inl same ↦ subst (λ j. read v s.head j ≡ some none) (sym same) w.here
            | inr other ↦ w.there s.head i (inr other) ∙ b.blank i (omega (arith, m, other)) n
          ];
          above = λ i m.
              w.there s.head i (inr (λ q. omega (arith, q, m))) ∙ b.above i (omega (arith, m));
          stands = w.stands s.head (s.max_level_index + 1) b.stands;
          fresh = w.fresh ∙ b.fresh;
          head = w.head ∙ b.head;
          max_level_index = w.max_level_index ∙ b.max_level_index;
          current_level_index = w.current_level_index ∙ b.current_level_index;
        },
      )

  clear_head-Blank :
      (l rounds : ℕ) (t : SkipList K V)
      → l + rounds ≤ s.max_level_index + 1
      → Blank l t
      → (v : SkipList K V) × (clear_head o l rounds t ≡ some v) × Blank (l + rounds) v
  unfolding clear_head
  clear_head-Blank l zero t k b = (t, refl, subst (λ j. Blank j t) (omega arith) b)
  clear_head-Blank l (suc rounds) t k b =
      let (v, e, c) = level-Blank l t (omega (arith, k)) b in
      let (w, f, d) =
        clear_head-Blank (l + 1) rounds v (omega (arith, k))
          (subst (λ j. Blank j v) (omega arith) c) in
      (w, rw e f, subst (λ j. Blank j w) (omega arith) d)

  blank_Shape :
      {es : List (Entry K V)}
      → Shape o s es
      → (w : SkipList K V) → Blank (s.current_level_index + 1) w
      → Shape o (record w { current_level_index = 0; size = 0 }) []
  unfolding tall read
  blank_Shape {es} h w b = record {
    holds = tt;
    walks = λ l k.
        subst (λ r. read w r l ≡ some none) (sym b.head)
          (no_entry l (omega (arith, k, b.max_level_index)));
    sorted = tt;
    head = record {
      node = b.stands.node;
      found = ap w.heap b.head ∙ b.stands.found;
      size = b.stands.size ∙ ap (λ n. n + 1) (sym b.max_level_index);
    };
    head_made = omega (arith, b.head, b.fresh, h.head_made);
    head_apart = tt;
    distinct = tt;
    made = tt;
    size = refl;
    low = tt;
    room = omega (arith, b.fresh, h.room);
    current = omega arith;
  }
    where
      no_entry : (l : ℕ) → l ≤ s.max_level_index → read w s.head l ≡ some none
      no_entry l k = elim (le-cases l s.current_level_index) [
        | inl m ↦ b.blank l (omega (arith, m)) k
        | inr m ↦
            b.above l (omega (arith, m))
            ∙ subst (Walk s l s.head) (tall_low o s.current_level_index l es h.low m) (h.walks l k)
      ]

  -- On a skip list of the right shape, `clear` ends, and the list has the shape of one with no
  -- entry.
  pub clear-Shape :
      {es : List (Entry K V)}
      → Shape o s es
      → (t : SkipList K V) × (clear o s ≡ some t) × Shape o t []
  unfolding clear
  clear-Shape {es} h =
      let w0 = subst (Walk s 0 s.head) (tall_zero es) (h.walks 0 (omega arith)) in
      let kept : HeadKept s s = record {
        reads = λ l. refl;
        stands = λ n k. k;
        fresh = refl;
        head = refl;
        max_level_index = refl;
        current_level_index = refl;
      } in
      let (t, e, k) =
        destroy_all-HeadKept s.fresh es s h.room h.distinct h.head_apart (Chain-rest s s.head es w0)
          kept in
      let start : Blank 0 t = record {
        blank = λ i m n. absurd (omega (arith, m));
        above = λ i m. k.reads i;
        stands = k.stands (s.max_level_index + 1) h.head;
        fresh = k.fresh;
        head = k.head;
        max_level_index = k.max_level_index;
        current_level_index = k.current_level_index;
      } in
      let all_levels : 0 + (s.current_level_index + 1) ≡ s.current_level_index + 1 = omega arith in
      let (w, f, b) =
        clear_head-Blank 0 (s.current_level_index + 1) t (omega (arith, h.current)) start in
      (
        record w { current_level_index = 0; size = 0 },
        rw (read-start s s.head es w0, e, k.current_level_index, f) refl,
        blank_Shape h w (subst (λ j. Blank j w) all_levels b),
      )
