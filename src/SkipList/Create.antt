-- ===== src/SkipList/Create.antt =====
-- A new node on the heap, and the list of pointers for all of its levels.
use ww_raft_kv.Prelude.{
  List, [], ap, arith, inl, inr, le-cases, length, max, none, refl, replicate, some, suc, sym, zero,
  ℕ, ◌+◌, ◌-◌, ◌<◌, ◌∙◌, ◌∷◌, ◌≡◌, ◌≢◌, ◌≤◌,
}
use ww_raft_kv.SkipList.{UpdateList}
use ww_raft_kv.SkipList.Change.{extend}
use ww_raft_kv.SkipList.Levels.{tall_low}
use ww_raft_kv.SkipList.Link.{Walk-Apart}
use ww_raft_kv.SkipList.Shape.{AllHold, AllLow, Apart, Entry, Holds, Stands, Walk, last_of, tall}
use ww_raft_kv.SkipList.Types.{
  Node, Params, Pointer, SkipList, put_at, put_at-here, put_at-there, read,
}

module _ {K V : Type 0} (o : Params K V) where
  module _ (head : Pointer) where
    extend-below :
        (level rounds : ℕ) (u : UpdateList o) (i : ℕ)
        → i < level
        → extend o head level rounds u i ≡ u i
    unfolding extend
    extend-below level zero u i h = refl
    extend-below level (suc rounds) u i h =
        extend-below (level + 1) rounds (put_at level (some head) u) i (omega arith)
        ∙ put_at-there level i (some head) u (λ e. omega (arith, e, h))

    extend-above :
        (level rounds : ℕ) (u : UpdateList o) (i : ℕ)
        → level ≤ i
        → i < level + rounds
        → extend o head level rounds u i ≡ some head
    unfolding extend
    extend-above level zero u i h k = absurd (omega (arith, h, k))
    extend-above level (suc rounds) u i h k = elim (le-cases (suc level) i) [
      | inl m ↦
          extend-above (level + 1) rounds (put_at level (some head) u) i (omega arith) (omega arith)
      | inr m ↦
          extend-below (level + 1) rounds (put_at level (some head) u) i (omega arith)
          ∙ put_at-here level i (some head) u (omega arith)
    ]

    -- The nodes before the new one, at all of its levels: the head where the list had none.
    pub extend-preds :
        (current top : ℕ) (u : UpdateList o) (bs : List (Entry K V))
        → ((i : ℕ) → i ≤ current → u i ≡ some (last_of head (tall i bs)))
        → AllLow o current bs
        → (i : ℕ) → i ≤ top
        → extend o head (current + 1) (top - current) u i ≡ some (last_of head (tall i bs))
    extend-preds current top u bs h low i k = elim (le-cases i current) [
      | inl m ↦ extend-below (current + 1) (top - current) u i (omega arith) ∙ h i m
      | inr m ↦
          extend-above (current + 1) (top - current) u i (omega arith) (omega arith)
          ∙ ap (λ xs. some (last_of head xs)) (sym (tall_low o current i bs low m))
    ]

  module _ (s : SkipList K V) (key : K) (value : V) (top calls : ℕ) where
    abbrev pub new_node : Node K V
    new_node = record { key = key; value = value; forward = replicate (top + 1) none }

    -- The state before the new node is linked.
    abbrev pub created : SkipList K V
    created = record s {
      heap = put_at s.fresh (some new_node) s.heap;
      fresh = s.fresh + 1;
      current_level_index = max s.current_level_index top;
      rands = calls;
    }

    abbrev pub new_entry : Entry K V
    new_entry = record { at = s.fresh; key = key; value = value; top = top }

    pub created-reads : (r : Pointer) (l : ℕ) → r ≢ s.fresh → read created r l ≡ read s r l
    unfolding read
    created-reads r l n = rw (put_at-there s.fresh r (some new_node) s.heap n) refl

    length-replicate : {A : Type 0} (n : ℕ) (a : A) → length (replicate n a) ≡ n
    length-replicate zero a = refl
    length-replicate (suc n) a = ap suc (length-replicate n a)

    pub created-Stands : Stands created s.fresh (top + 1)
    created-Stands = record {
      node = new_node;
      found = put_at-here s.fresh s.fresh (some new_node) s.heap refl;
      size = length-replicate (top + 1) none;
    }

    pub created-Holds : Holds created new_entry
    created-Holds = record {
      node = new_node;
      found = put_at-here s.fresh s.fresh (some new_node) s.heap refl;
      key = refl;
      value = refl;
      levels = length-replicate (top + 1) none;
    }

    pub created-AllHold :
        (es : List (Entry K V)) → Apart s.fresh es → AllHold s es → AllHold created es
    created-AllHold [] a h = tt
    created-AllHold (e ∷ es) a h = (
      record {
        node = h.0.node;
        found = put_at-there s.fresh e.at (some new_node) s.heap a.0 ∙ h.0.found;
        key = h.0.key;
        value = h.0.value;
        levels = h.0.levels;
      },
      created-AllHold es a.1 h.1,
    )

    pub created-head : (n : ℕ) → s.head ≢ s.fresh → Stands s s.head n → Stands created s.head n
    created-head n a h = record {
      node = h.node;
      found = put_at-there s.fresh s.head (some new_node) s.heap a ∙ h.found;
      size = h.size;
    }

    pub created-Walk :
        (l : ℕ) (es : List (Entry K V))
        → s.head ≢ s.fresh
        → Apart s.fresh es
        → Walk s l s.head es
        → Walk created l s.head es
    created-Walk l es n a w =
        Walk-Apart s created l s.fresh s.fresh s.head es (λ r h k. created-reads r l h) n n a a w
