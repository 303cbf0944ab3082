-- ===== src/KvStore/Map.antt =====
-- raftkv/kvstore/include/KVStore.h: the operations as those of a map from keys to values.
use mathlib.Core.Option.{some-injective}
use ww_raft_kv.KvStore.{get, put}
use ww_raft_kv.Prelude.{
  Bool, Bool-cases, List, Option, Option-cases, [], ap, arith, false, get_elem?, if◌then◌else◌, inl,
  inr, length, none, none-some, not, refl, replicate, some, subst, suc, true, zero, ℕ, ◌&&◌, ◌+◌,
  ◌<◌, ◌∙◌, ◌∷◌, ◌≡◌,
}
use ww_raft_kv.SkipList.{contains}
use ww_raft_kv.SkipList.Change.{create_node, new}
use ww_raft_kv.SkipList.Find.{find-lookup}
use ww_raft_kv.SkipList.Insertion.{
  content, get_or_insert-absent, get_or_insert-present, insert-absent, insert-present,
}
use ww_raft_kv.SkipList.Order.{lookup}
use ww_raft_kv.SkipList.Shape.{AllHold, Entry, Holds, IsOrder, Shape, tall}
use ww_raft_kv.SkipList.Types.{Params, SkipList, read, value_at}

abbrev pub is_none : {A : Type 0} → Option A → Bool
is_none none = true
is_none (some a) = false

abbrev pub or_else : {A : Type 0} → A → Option A → A
or_else a none = a
or_else a (some b) = b

get_elem?-replicate : {A : Type 0} (n i : ℕ) (a : A) → i < n → get_elem? (replicate n a) i ≡ some a
get_elem?-replicate zero i a h = elim h [ ]
get_elem?-replicate (suc n) zero a h = refl
get_elem?-replicate (suc n) (suc i) a h = get_elem?-replicate n i a (omega arith)

length-replicate : {A : Type 0} (n : ℕ) (a : A) → length (replicate n a) ≡ n
length-replicate zero a = refl
length-replicate (suc n) a = ap suc (length-replicate n a)

module _ {K V : Type 0} (o : Params K V) where
  -- A new store, of one level or more, has the shape of a skip list with no entry.
  pub new-Shape : (max_level_index : ℕ) → Shape o (new o max_level_index) []
  unfolding new create_node read tall
  new-Shape max_level_index = record {
    holds = tt;
    walks = λ level h. get_elem?-replicate (max_level_index + 1) level none (omega arith);
    sorted = tt;
    head = record { node = _; found = refl; size = length-replicate (max_level_index + 1) none };
    head_made = omega arith;
    head_apart = tt;
    distinct = tt;
    made = tt;
    size = refl;
    low = tt;
    room = omega arith;
    current = omega arith;
  }

  pub lookup-Holds :
      (s : SkipList K V) (key : K) (es : List (Entry K V)) (x : Entry K V)
      → AllHold s es
      → lookup o key es ≡ some x
      → Holds s x
  unfolding lookup
  lookup-Holds s key [] x h e = absurd (none-some e)
  lookup-Holds s key (y ∷ es) x h e = elim (Bool-cases (o.equal y.key key)) [
    | inl q ↦ subst (Holds s) (some-injective _ _ (rw q at e)) h.0
    | inr q ↦ lookup-Holds s key es x h.1 (rw q at e)
  ]

  value_at-Holds : (s : SkipList K V) (x : Entry K V) → Holds s x → value_at s x.at ≡ some x.value
  unfolding value_at
  value_at-Holds s x h = rw h.found (ap some h.value)

  -- What a map has after a value is given to a key that was not there.
  abbrev pub added : (K → Option V) → K → V → K → Option V
  added f key value k = if is_none (f key) && o.equal key k then some value else f k

  module _ (order : IsOrder o) {s : SkipList K V} {es : List (Entry K V)} (h : Shape o s es)
      (key : K) where
    -- On a skip list of the right shape, whose keys are ordered, `contains` answers whether the
    -- map has the key.
    pub contains_lem : contains o key s ≡ some (not (is_none (content o es key)))
    unfolding contains
    contains_lem = elim (Option-cases (lookup o key es)) [
      | inl e ↦ rw (find-lookup o s order h key) (rw e refl)
      | inr (x, e) ↦ rw (find-lookup o s order h key) (rw e refl)
    ]

    -- On a skip list of the right shape, whose keys are ordered, `put` answers whether the key is
    -- new. A new key gets the value, every other key keeps its own, and the shape is kept.
    pub put_lem :
        (value : V)
        → (t : SkipList K V) × (fs : List (Entry K V)) × (put o key value s
            ≡ some (is_none (content o es key), t))
          × Shape o t fs
          × ((k : K) → content o fs k ≡ added (content o es) key value k)
    unfolding put
    put_lem value = elim (Option-cases (lookup o key es)) [
      | inl e ↦
          let (t, fs, made, shape, values) = insert-absent o order h key value e in
          (t, fs, rw made (rw e refl), shape, λ k. values k ∙ rw e refl)
      | inr (x, e) ↦
          (s, es, rw (insert-present o order h key value x e) (rw e refl), h, λ k. rw e refl)
    ]

    -- On a skip list of the right shape, whose keys are ordered, `get` answers with the value of
    -- the key, or with the default value if it is not there. Then the key has the default value
    -- afterwards; every other key keeps its own, and the shape is kept.
    pub get_lem :
        (t : SkipList K V) × (fs : List (Entry K V)) × (get o key s
          ≡ some (or_else o.default_value (content o es key), t))
        × Shape o t fs
        × ((k : K) → content o fs k ≡ added (content o es) key o.default_value k)
    unfolding get
    get_lem = elim (Option-cases (lookup o key es)) [
      | inl e ↦
          let (t, fs, made, shape, there, values) = get_or_insert-absent o order h key e in
          (
            t,
            fs,
            rw made (rw (value_at-Holds t _ (lookup-Holds t key fs _ shape.holds there), e) refl),
            shape,
            λ k. values k ∙ rw e refl,
          )
      | inr (x, e) ↦ (
        s,
        es,
        rw (get_or_insert-present o order h key x e)
            (rw (value_at-Holds s x (lookup-Holds s key es x h.holds e), e) refl),
        h,
        λ k. rw e refl,
      )
    ]
