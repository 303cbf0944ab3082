-- ===== src/SkipList/Inserted.antt =====
-- raftkv/kvstore/include/SkipList.h, `_Create_and_insert` and `_Insert`, and the shape.
use ww_raft_kv.Prelude.{
  List, ap, arith, inl, inr, le-cases, length, length-append, max, none, refl, some, subst, sym, ℕ,
  ◌++◌, ◌+◌, ◌-◌, ◌∙◌, ◌∷◌, ◌≡◌, ◌≢◌, ◌≤◌,
}
use ww_raft_kv.SkipList.{UpdateList, random_level}
use ww_raft_kv.SkipList.Apart.{
  AllMade-Apart, Apart-insert, Apart-left, Apart-right, Apart-tall, Distinct-insert,
}
use ww_raft_kv.SkipList.Change.{create_and_insert, create_node, extend}
use ww_raft_kv.SkipList.Create.{
  created, created-AllHold, created-Holds, created-Stands, created-Walk, created-head, extend-preds,
  new_entry,
}
use ww_raft_kv.SkipList.Find.{Shape-Parted}
use ww_raft_kv.SkipList.Insert.{
  AllAbove-from, AllHold-insert, AllHold-map, AllLow-insert, AllMade-insert, Sorted-insert,
  random_level-fits,
}
use ww_raft_kv.SkipList.Levels.{tall-append, tall_in, tall_out}
use ww_raft_kv.SkipList.Link.{Walk-same}
use ww_raft_kv.SkipList.Linking.{Halfway, Kept-refl, link-Halfway}
use ww_raft_kv.SkipList.Order.{AllLow-before, Sorted-right, before-from, first_with}
use ww_raft_kv.SkipList.Shape.{
  Apart, Distinct, Entry, Holds, IsOrder, Shape, Stands, Walk, before, from, last_of, tall,
}
use ww_raft_kv.SkipList.Types.{Params, Pointer, SkipList, read}

module _ {K V : Type 0} where
  -- The number of nodes is no part of the heap.
  resized-Walk :
      (s : SkipList K V) (n l : ℕ) (p : Pointer) (es : List (Entry K V))
      → Walk s l p es
      → Walk (record s { size = n }) l p es
  unfolding read
  resized-Walk s n l p es w = Walk-same s (record s { size = n }) l p es (λ r. refl) w

  resized-Holds :
      (s : SkipList K V) (n : ℕ) (e : Entry K V) → Holds s e → Holds (record s { size = n }) e
  resized-Holds s n e h = record {
    node = h.node;
    found = h.found;
    key = h.key;
    value = h.value;
    levels = h.levels;
  }

  resized-Stands :
      (s : SkipList K V) (n : ℕ) (p : Pointer) (m : ℕ)
      → Stands s p m
      → Stands (record s { size = n }) p m
  resized-Stands s n p m h = record { node = h.node; found = h.found; size = h.size }

module _ {K V : Type 0} (o : Params K V) (order : IsOrder o) {s : SkipList K V}
    {es : List (Entry K V)} (h : Shape o s es) (key : K) (value : V) where
  abbrev bs : List (Entry K V)
  bs = before o key es

  abbrev cs : List (Entry K V)
  cs = from o key es

  abbrev pub new_top : ℕ
  new_top = (random_level o s).0 - 1

  abbrev start : SkipList K V
  start = created o s key value new_top (random_level o s).1

  -- The entry that is made.
  abbrev pub made_entry : Entry K V
  made_entry = new_entry o s key value new_top (random_level o s).1

  whole : bs ++ cs ≡ es
  whole = before-from o key es

  apart : Apart s.fresh (bs ++ cs)
  apart = rw whole (AllMade-Apart s.fresh es h.made)

  not_head : s.head ≢ s.fresh
  not_head e = omega (arith, e, h.head_made)

  head-Apart : Apart s.head (bs ++ cs)
  head-Apart = rw whole h.head_apart

  distinct : Distinct (bs ++ cs)
  distinct = rw whole h.distinct

  start-Halfway : Halfway o start made_entry bs cs 0 start
  start-Halfway = record {
    kept = Kept-refl start;
    linked = λ i a b. absurd (omega (arith, a));
    waits = λ i a b. subst (Walk start i s.head) (tall-append i bs cs) (
        created-Walk o s key value new_top (random_level o s).1 i (tall i (bs ++ cs)) not_head
          (Apart-tall s.fresh i (bs ++ cs) apart) (rw whole (h.walks i b)));
  }

  -- A level of the new list, as the loop left it.
  linked-Walk :
      (w : SkipList K V)
      → Halfway o start made_entry bs cs (new_top + 1) w
      → (l : ℕ) → l ≤ s.max_level_index
      → Walk w l s.head (tall l (bs ++ made_entry ∷ cs))
  linked-Walk w f l k = elim (le-cases l new_top) [
    | inl m ↦
        subst (Walk w l s.head)
          (ap (λ xs. tall l bs ++ xs) (sym (tall_in l made_entry cs m))
            ∙ sym (tall-append l bs (made_entry ∷ cs)))
          (f.linked l (omega arith) k)
    | inr m ↦
        subst (Walk w l s.head)
          (ap (λ xs. tall l bs ++ xs) (sym (tall_out l made_entry cs m))
            ∙ sym (tall-append l bs (made_entry ∷ cs)))
          (f.waits l (omega arith) k)
  ]

  linked_Shape :
      first_with o key cs ≡ none
      → (w : SkipList K V) → Halfway o start made_entry bs cs (new_top + 1) w
      → Shape o (record w { size = w.size + 1 }) (bs ++ made_entry ∷ cs)
  linked_Shape absent w f =
      let p = Shape-Parted o s order h key in
      let k = f.kept in
      let calls = (random_level o s).1 in
      let longer : length (bs ++ made_entry ∷ cs) ≡ length es + 1 =
        omega (arith, length-append bs (made_entry ∷ cs), length-append bs cs, ap length whole) in
      record {
        holds =
            AllHold-map start (record w { size = w.size + 1 }) (bs ++ made_entry ∷ cs)
              (λ e x. resized-Holds w (w.size + 1) e (k.holds e x))
              (AllHold-insert start made_entry bs cs (created-Holds o s key value new_top calls)
                (created-AllHold o s key value new_top calls bs (Apart-left s.fresh bs cs apart)
                  p.bs_hold)
                (created-AllHold o s key value new_top calls cs (Apart-right s.fresh bs cs apart)
                  p.cs_hold));
        walks = λ l m.
            subst (λ r. Walk (record w { size = w.size + 1 }) l r (tall l (bs ++ made_entry ∷ cs)))
              (sym k.head)
              (resized-Walk w (w.size + 1) l s.head (tall l (bs ++ made_entry ∷ cs))
                (linked-Walk w f l (omega (arith, m, k.max_level_index))));
        sorted =
            Sorted-insert o order made_entry bs cs p.below
              (AllAbove-from o order made_entry cs p.above
                (Sorted-right o bs cs (rw whole h.sorted)) absent)
              (rw whole h.sorted);
        head = resized-Stands w (w.size + 1) w.head (w.max_level_index + 1) (
            simp (k.head, k.max_level_index)
              (k.stands s.head (s.max_level_index + 1) (
                created-head o s key value new_top calls (s.max_level_index + 1) not_head h.head)));
        head_made = omega (arith, k.head, k.fresh, h.head_made);
        head_apart =
            rw k.head (Apart-insert s.head made_entry bs cs (λ e. not_head (sym e)) head-Apart);
        distinct = Distinct-insert made_entry bs cs apart distinct;
        made = rw k.fresh (AllMade-insert s.fresh made_entry bs cs refl (rw whole h.made));
        size = omega (arith, k.size, longer, h.size);
        low = rw k.current_level_index (
            AllLow-insert o s.current_level_index (max s.current_level_index new_top) made_entry bs
              cs (omega arith) (omega arith) (rw whole h.low));
        room = omega (arith, k.fresh, longer, h.room);
        current =
            omega
              (arith, k.current_level_index, k.max_level_index, h.current, random_level-fits o s);
      }

  -- A key that is not there gets a new node, and the shape is kept.
  pub create_and_insert-Shape :
      (u : UpdateList o)
      → ((i : ℕ) → i ≤ s.current_level_index → u i ≡ some (last_of s.head (tall i bs)))
      → first_with o key cs ≡ none
      → (v : SkipList K V) × (create_and_insert o key value u s ≡ some (s.fresh, v))
        × Shape o v (bs ++ made_entry ∷ cs)
  unfolding create_and_insert create_node
  create_and_insert-Shape u preds absent =
      let low = AllLow-before o key s.current_level_index es h.low in
      let extended =
        extend o s.head (s.current_level_index + 1) (new_top - s.current_level_index) u in
      let (w, e, f) =
        link-Halfway o start made_entry bs cs extended
          (extend-preds o s.head s.current_level_index new_top u bs preds low)
          (created-Stands o s key value new_top (random_level o s).1) (random_level-fits o s)
          not_head apart head-Apart distinct 0 (new_top + 1) start (omega arith) start-Halfway in
      (record w { size = w.size + 1 }, rw e refl, linked_Shape absent w f)
