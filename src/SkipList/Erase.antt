-- ===== src/SkipList/Erase.antt =====
-- raftkv/kvstore/include/SkipList.h, `erase` of a key, and the shape.
use mathlib.Core.Option.{some-injective}
use ww_raft_kv.Prelude.{
  Bool-cases, List, [], ap, arith, inl, inr, le-cases, length, length-append, none, none-some, refl,
  some, subst, suc, sym, true, zero, ℕ, ◌++◌, ◌+◌, ◌-◌, ◌∙◌, ◌∷◌, ◌≡◌, ◌≢◌, ◌≤◌,
}
use ww_raft_kv.SkipList.{UpdateList}
use ww_raft_kv.SkipList.Apart.{Apart-tall}
use ww_raft_kv.SkipList.Change.{destroy_node, erase_if, lower, unlink}
use ww_raft_kv.SkipList.Levels.{List-cases, tall-append, tall_out}
use ww_raft_kv.SkipList.Link.{Walk-Apart, Walk-same}
use ww_raft_kv.SkipList.Linking.{Kept-refl}
use ww_raft_kv.SkipList.Order.{first_with}
use ww_raft_kv.SkipList.Remove.{
  AllHold-remove, AllLow-empty, AllLow-remove, AllMade-remove, Apart-remove, Distinct-others,
  Distinct-remove, Sorted-remove,
}
use ww_raft_kv.SkipList.Shape.{AllHold, AllLow, AllMade, Apart, Entry, Shape, Walk, tall}
use ww_raft_kv.SkipList.Types.{Params, Pointer, SkipList, put_at, put_at-there, read}
use ww_raft_kv.SkipList.Unlink.{Leaving}

module _ {K V : Type 0} (o : Params K V) where
  pub first_with-cons :
      (key : K) (ys : List (Entry K V)) (x : Entry K V)
      → first_with o key ys ≡ some x
      → (zs : List (Entry K V)) × (ys ≡ x ∷ zs)
  unfolding first_with
  first_with-cons key [] x f = absurd (none-some f)
  first_with-cons key (y ∷ ys) x f = elim (Bool-cases (o.equal y.key key)) [
    | inl q ↦ (ys, ap (λ z. z ∷ ys) (some-injective _ _ (rw q at f)))
    | inr q ↦ absurd (none-some (rw q at f))
  ]

  -- The loop that gives up empty levels leaves a level that no entry is above.
  lower_lem :
      (es : List (Entry K V)) (d : SkipList K V) (l : ℕ)
      → ((i : ℕ) → i ≤ l → Walk d i d.head (tall i es))
      → AllLow o l es
      → (m : ℕ) × (lower o l d ≡ some m) × (m ≤ l) × AllLow o m es
  unfolding lower
  lower_lem es d zero w h = (0, refl, omega arith, h)
  lower_lem es d (suc l) w h = elim (List-cases (tall (suc l) es)) [
    | inl e ↦
        let v = subst (Walk d (suc l) d.head) e (w (suc l) (omega arith)) in
        let (m, f, g, k) = lower_lem es d l (λ i a. w i (omega arith)) (AllLow-empty o l es h e) in
        (m, rw v f, omega (arith, g), k)
    | inr (y, ys, e) ↦
        let v = subst (Walk d (suc l) d.head) e (w (suc l) (omega arith)) in
        (suc l, rw v.0 refl, omega arith, h)
  ]

module _ {K V : Type 0} (a : Pointer) (t : SkipList K V) where
  pub destroyed-read :
      (r : Pointer) (l : ℕ)
      → r ≢ a
      → read (record t { heap = put_at a none t.heap }) r l ≡ read t r l
  unfolding read
  destroyed-read r l n = rw (put_at-there a r none t.heap n) refl

module _ {K V : Type 0} (o : Params K V) {s : SkipList K V} (x : Entry K V)
    (bs zs : List (Entry K V)) (h : Shape o s (bs ++ x ∷ zs)) where
  pub start-Leaving : Leaving o s x bs zs 0 s
  start-Leaving = record {
    kept = Kept-refl s;
    gone = λ i a b. absurd (omega (arith, a));
    stays = λ i a b. subst (Walk s i s.head) (tall-append i bs (x ∷ zs)) (h.walks i b);
  }

  others : Apart x.at (bs ++ zs)
  others = Distinct-others x bs zs h.distinct

  not_head : s.head ≢ x.at
  not_head e = Apart-entry bs h.head_apart (sym e)
    where
      Apart-entry : (ys : List (Entry K V)) → Apart s.head (ys ++ x ∷ zs) → x.at ≢ s.head
      Apart-entry [] k = k.0
      Apart-entry (y ∷ ys) k = Apart-entry ys k.1

  -- What is left, after the last round of the loop.
  left-Walk :
      (t : SkipList K V)
      → Leaving o s x bs zs (x.top + 1) t
      → (l : ℕ) → l ≤ s.max_level_index
      → Walk t l s.head (tall l (bs ++ zs))
  left-Walk t g l k = subst (Walk t l s.head) (sym (tall-append l bs zs)) (elim (le-cases l x.top) [
    | inl m ↦ g.gone l (omega arith) k
    | inr m ↦
        subst (λ ys. Walk t l s.head (tall l bs ++ ys)) (tall_out l x zs m)
          (g.stays l (omega arith) k)
  ])

  module _ (t : SkipList K V) (g : Leaving o s x bs zs (x.top + 1) t) where
    abbrev destroyed : SkipList K V
    destroyed = record t { heap = put_at x.at none t.heap }

    destroyed-Walk : (l : ℕ) → l ≤ s.max_level_index → Walk destroyed l s.head (tall l (bs ++ zs))
    destroyed-Walk l k =
        Walk-Apart t destroyed l x.at x.at s.head (tall l (bs ++ zs))
          (λ r n m. destroyed-read x.at t r l n) not_head not_head
          (Apart-tall x.at l (bs ++ zs) others) (Apart-tall x.at l (bs ++ zs) others)
          (left-Walk t g l k)

    abbrev erased : ℕ → SkipList K V
    erased m = record destroyed { current_level_index = m; size = t.size - 1 }

    erased-AllHold :
        (m : ℕ) (es : List (Entry K V)) → Apart x.at es → AllHold s es → AllHold (erased m) es
    erased-AllHold m [] a k = tt
    erased-AllHold m (e ∷ es) a k =
        let held = g.kept.holds e k.0 in
        (
          record {
            node = held.node;
            found = put_at-there x.at e.at none t.heap a.0 ∙ held.found;
            key = held.key;
            value = held.value;
            levels = held.levels;
          },
          erased-AllHold m es a.1 k.1,
        )

    erased-Walk : (m l : ℕ) → l ≤ s.max_level_index → Walk (erased m) l s.head (tall l (bs ++ zs))
    unfolding read
    erased-Walk m l k =
        Walk-same destroyed (erased m) l s.head (tall l (bs ++ zs)) (λ r. refl) (destroyed-Walk l k)

    erased-Shape :
        (m : ℕ) → m ≤ s.current_level_index → AllLow o m (bs ++ zs) → Shape o (erased m) (bs ++ zs)
    erased-Shape m fits low =
        let k = g.kept in
        let stands = k.stands s.head (s.max_level_index + 1) h.head in
        let shorter : length (bs ++ x ∷ zs) ≡ length (bs ++ zs) + 1 =
          omega (arith, length-append bs (x ∷ zs), length-append bs zs) in
        record {
          holds = erased-AllHold m (bs ++ zs) others (AllHold-remove x s bs zs h.holds);
          walks = λ l f.
              subst (λ r. Walk (erased m) l r (tall l (bs ++ zs))) (sym k.head)
                (erased-Walk m l (omega (arith, f, k.max_level_index)));
          sorted = Sorted-remove x o bs zs h.sorted;
          head = record {
            node = stands.node;
            found =
                put_at-there x.at t.head none t.heap (λ e. not_head (sym k.head ∙ e))
                ∙ ap t.heap k.head
                ∙ stands.found;
            size = stands.size ∙ ap (λ n. n + 1) (sym k.max_level_index);
          };
          head_made = omega (arith, k.head, k.fresh, h.head_made);
          head_apart =
              subst (λ r. Apart r (bs ++ zs)) (sym k.head)
                (Apart-remove x s.head bs zs h.head_apart);
          distinct = Distinct-remove x bs zs h.distinct;
          made =
              subst (λ f. AllMade f (bs ++ zs)) (sym k.fresh)
                (AllMade-remove x s.fresh bs zs h.made);
          size = omega (arith, k.size, h.size, shorter);
          low = low;
          room = omega (arith, k.fresh, h.room, shorter);
          current = omega (arith, fits, h.current, k.max_level_index);
        }

    -- The node is destroyed, and the empty levels are given up.
    pub erase_if-Shape :
        (u : UpdateList o)
        → unlink o x.at u 0 (s.current_level_index + 1) s ≡ some t
        → (v : SkipList K V) × (erase_if o true (some x.at) u s ≡ some (1, v))
          × Shape o v (bs ++ zs)
    unfolding erase_if destroy_node
    erase_if-Shape u e =
        let k = g.kept in
        let low =
          subst (λ c. AllLow o c (bs ++ zs)) (sym k.current_level_index)
            (AllLow-remove x o s.current_level_index bs zs h.low) in
        let (m, f, fits, lowered) =
          lower_lem o (bs ++ zs) destroyed t.current_level_index
            (λ i a.
              subst (λ r. Walk destroyed i r (tall i (bs ++ zs))) (sym k.head)
                (destroyed-Walk i (omega (arith, a, k.current_level_index, h.current))))
            low in
        (
          erased m,
          rw (e, f) refl,
          erased-Shape m (omega (arith, fits, k.current_level_index)) lowered,
        )
