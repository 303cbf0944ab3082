-- ===== src/SkipList/Writing.antt =====
-- What an assignment to a pointer changes.
use mathlib.Core.Option.{some-injective}
use ww_raft_kv.Prelude.{
  ==-cases, List, Option, Option-cases, [], ap, get_elem?, inl, inr, length, none-some, refl, some,
  suc, sym, zero, ℕ, ◌∙◌, ◌∷◌, ◌≡◌, ◌≢◌, ◌⊎◌,
}
use ww_raft_kv.SkipList.Shape.{Entry, Holds, Stands}
use ww_raft_kv.SkipList.Types.{
  Node, Pointer, SkipList, put_at, put_at-here, put_at-there, read, set_elem, set_forward, write,
}

set_elem-here :
    {A : Type 0} (xs : List A) (i : ℕ) (a : A) {x : A}
    → get_elem? xs i ≡ some x
    → get_elem? (set_elem xs i a) i ≡ some a
set_elem-here [] i a h = cc
set_elem-here (x ∷ xs) zero a h = refl
set_elem-here (x ∷ xs) (suc i) a h = set_elem-here xs i a h

set_elem-there :
    {A : Type 0} (xs : List A) (i j : ℕ) (a : A)
    → j ≢ i
    → get_elem? (set_elem xs i a) j ≡ get_elem? xs j
set_elem-there [] i j a n = refl
set_elem-there (x ∷ xs) zero zero a n = absurd (n refl)
set_elem-there (x ∷ xs) zero (suc j) a n = refl
set_elem-there (x ∷ xs) (suc i) zero a n = refl
set_elem-there (x ∷ xs) (suc i) (suc j) a n = set_elem-there xs i j a (λ e. n (ap suc e))

length-set_elem : {A : Type 0} (xs : List A) (i : ℕ) (a : A) → length (set_elem xs i a) ≡ length xs
length-set_elem [] i a = refl
length-set_elem (x ∷ xs) zero a = refl
length-set_elem (x ∷ xs) (suc i) a = ap suc (length-set_elem xs i a)

module _ {K V : Type 0} where
  -- What an assignment to a pointer leaves as it was, and the pointer after it.
  pub record Written (s : SkipList K V) (p : Pointer) (level : ℕ) (q : Option Pointer)
      (t : SkipList K V) : Type 0 where
    pub here : read t p level ≡ some q
    pub there : (r : Pointer) (i : ℕ) → (r ≢ p) ⊎ (i ≢ level) → read t r i ≡ read s r i
    pub holds : (e : Entry K V) → Holds s e → Holds t e
    pub stands : (r : Pointer) (n : ℕ) → Stands s r n → Stands t r n
    pub fresh : t.fresh ≡ s.fresh
    pub head : t.head ≡ s.head
    pub max_level_index : t.max_level_index ≡ s.max_level_index
    pub current_level_index : t.current_level_index ≡ s.current_level_index
    pub size : t.size ≡ s.size

  node_of_read :
      (s : SkipList K V) (p : Pointer) (level : ℕ) {old : Option Pointer}
      → read s p level ≡ some old
      → (n : Node K V) × (s.heap p ≡ some n) × (get_elem? n.forward level ≡ some old)
  unfolding read
  node_of_read s p level h = elim (Option-cases (s.heap p)) [
    | inl e ↦ absurd (none-some (rw e at h))
    | inr (n, e) ↦ (n, e, rw e at h)
  ]

  module _ (s : SkipList K V) (p : Pointer) (level : ℕ) (q : Option Pointer) {old : Option Pointer}
      (n : Node K V) (e : s.heap p ≡ some n) (g : get_elem? n.forward level ≡ some old) where
    abbrev written : SkipList K V
    unfolding set_forward
    written = record s { heap = put_at p (some (set_forward level q n)) s.heap }

    -- A node that was on the heap is there, with as many levels and the same key and value.
    kept :
        (r : Pointer) (x : Node K V)
        → s.heap r ≡ some x
        → (y : Node K V) × (written.heap r ≡ some y)
          × (y.key ≡ x.key)
          × (y.value ≡ x.value)
          × (length y.forward ≡ length x.forward)
    unfolding set_forward
    kept r x f = elim (==-cases r p) [
      | inl same ↦
          let node : x ≡ n = some-injective _ _ (sym f ∙ ap s.heap same ∙ e) in
          (
            set_forward level q n,
            put_at-here p r _ s.heap same,
            ap (λ y. y.key) (sym node),
            ap (λ y. y.value) (sym node),
            length-set_elem n.forward level q ∙ ap (λ y. length y.forward) (sym node),
          )
      | inr other ↦ (x, put_at-there p r _ s.heap other ∙ f, refl, refl, refl)
    ]

    read-there : (r : Pointer) (i : ℕ) → (r ≢ p) ⊎ (i ≢ level) → read written r i ≡ read s r i
    unfolding read set_forward
    read-there r i (inl other) =
        rw (put_at-there p r (some (set_forward level q n)) s.heap other) refl
    read-there r i (inr other) = elim (==-cases r p) [
      | inl same ↦
          rw (put_at-here p r (some (set_forward level q n)) s.heap same, ap s.heap same ∙ e)
            (set_elem-there n.forward level i q other)
      | inr apart ↦ rw (put_at-there p r (some (set_forward level q n)) s.heap apart) refl
    ]

    written-Written : Written s p level q written
    unfolding read set_forward
    written-Written = record {
      here =
          rw (put_at-here p p (some (set_forward level q n)) s.heap refl)
            (set_elem-here n.forward level q g);
      there = read-there;
      holds = λ x h.
          let (y, f, k, v, l) = kept x.at h.node h.found in
          record {
            node = y;
            found = f;
            key = k ∙ h.key;
            value = v ∙ h.value;
            levels = l ∙ h.levels;
          };
      stands = λ r m h.
          let (y, f, k, v, l) = kept r h.node h.found in
          record { node = y; found = f; size = l ∙ h.size };
      fresh = refl;
      head = refl;
      max_level_index = refl;
      current_level_index = refl;
      size = refl;
    }

  -- A pointer that can be read can be assigned.
  pub write-Written :
      (s : SkipList K V) (p : Pointer) (level : ℕ) (q : Option Pointer) {old : Option Pointer}
      → read s p level ≡ some old
      → (t : SkipList K V) × (write s p level q ≡ some t) × Written s p level q t
  unfolding write
  write-Written s p level q h =
      let (n, e, g) = node_of_read s p level h in
      (written s p level q n e g, rw (e, g) refl, written-Written s p level q n e g)
