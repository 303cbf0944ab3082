-- ===== src/SkipList/Shape.antt =====
-- The shape of a skip list: its nodes in order of their keys, and the list that each level is.
-- What is asked of the operators of the key type.
use ww_raft_kv.Prelude.{
  List, [], false, if◌then◌else◌, leb, length, none, some, true, ℕ, ◌+◌, ◌<◌, ◌↔◌, ◌∷◌, ◌≡◌, ◌≢◌,
  ◌≤◌,
}
use ww_raft_kv.SkipList.Types.{Node, Params, Pointer, SkipList, read}

pub record IsOrder {K V : Type 0} (o : Params K V) : Type 0 where
  pub equal_iff : (a b : K) → (o.equal a b ≡ true) ↔ (a ≡ b)
  pub irreflexive : (a : K) → o.less a a ≡ false
  pub transitive : (a b c : K) → o.less a b ≡ true → o.less b c ≡ true → o.less a c ≡ true
  pub total : (a b : K) → o.less a b ≡ false → o.less b a ≡ false → a ≡ b

-- A node as the proofs see it: its address, what it holds, and its highest level.
pub record Entry (K V : Type 0) : Type 0 where
  pub at : Pointer
  pub key : K
  pub value : V
  pub top : ℕ

module _ {K V : Type 0} where
  -- The entries that a level has.
  unfoldable pub tall : ℕ → List (Entry K V) → List (Entry K V)
  tall level [] = []
  tall level (e ∷ es) = if leb level e.top then e ∷ tall level es else tall level es

  -- From a node on, the pointers of a level lead over entries, and the last of them is null.
  abbrev pub Walk : SkipList K V → ℕ → Pointer → List (Entry K V) → Type 0
  Walk s level p [] = read s p level ≡ some none
  Walk s level p (e ∷ es) = (read s p level ≡ some (some e.at)) × Walk s level e.at es

  -- The node of an entry is on the heap.
  pub record Holds (s : SkipList K V) (e : Entry K V) : Type 0 where
    pub node : Node K V
    pub found : s.heap e.at ≡ some node
    pub key : node.key ≡ e.key
    pub value : node.value ≡ e.value
    pub levels : length node.forward ≡ e.top + 1

  abbrev pub AllHold : SkipList K V → List (Entry K V) → Type 0
  AllHold s [] = Unit
  AllHold s (e ∷ es) = Holds s e × AllHold s es

  -- A node at an address, with a number of levels.
  pub record Stands (s : SkipList K V) (p : Pointer) (levels : ℕ) : Type 0 where
    pub node : Node K V
    pub found : s.heap p ≡ some node
    pub size : length node.forward ≡ levels

  -- No entry is at an address.
  abbrev pub Apart : Pointer → List (Entry K V) → Type 0
  Apart p [] = Unit
  Apart p (e ∷ es) = (e.at ≢ p) × Apart p es

  -- No two entries are at one address.
  abbrev pub Distinct : List (Entry K V) → Type 0
  Distinct [] = Unit
  Distinct (e ∷ es) = Apart e.at es × Distinct es

  abbrev pub AllMade : Pointer → List (Entry K V) → Type 0
  AllMade fresh [] = Unit
  AllMade fresh (e ∷ es) = (e.at < fresh) × AllMade fresh es

  -- The node that a walk over entries ends at.
  abbrev pub last_of : Pointer → List (Entry K V) → Pointer
  last_of p [] = p
  last_of p (e ∷ es) = last_of e.at es

  module _ (o : Params K V) where
    -- All keys are smaller than one.
    abbrev pub AllBelow : K → List (Entry K V) → Type 0
    AllBelow key [] = Unit
    AllBelow key (e ∷ es) = (o.less e.key key ≡ true) × AllBelow key es

    -- No key is smaller than one.
    abbrev pub NoneBelow : K → List (Entry K V) → Type 0
    NoneBelow key [] = Unit
    NoneBelow key (e ∷ es) = (o.less e.key key ≡ false) × NoneBelow key es

    -- All keys are larger than one.
    abbrev pub AllAbove : K → List (Entry K V) → Type 0
    AllAbove key [] = Unit
    AllAbove key (e ∷ es) = (o.less key e.key ≡ true) × AllAbove key es

    abbrev pub Sorted : List (Entry K V) → Type 0
    Sorted [] = Unit
    Sorted (e ∷ es) = AllAbove e.key es × Sorted es

    -- The entries with smaller keys, and the others.
    unfoldable pub before : K → List (Entry K V) → List (Entry K V)
    before key [] = []
    before key (e ∷ es) = if o.less e.key key then e ∷ before key es else []

    unfoldable pub from : K → List (Entry K V) → List (Entry K V)
    from key [] = []
    from key (e ∷ es) = if o.less e.key key then from key es else e ∷ es

    abbrev pub AllLow : ℕ → List (Entry K V) → Type 0
    AllLow level [] = Unit
    AllLow level (e ∷ es) = (e.top ≤ level) × AllLow level es

    -- The state has exactly these nodes, and each level is the list of those that reach it.
    pub record Shape (s : SkipList K V) (es : List (Entry K V)) : Type 0 where
      pub holds : AllHold s es
      pub walks : (level : ℕ) → level ≤ s.max_level_index → Walk s level s.head (tall level es)
      pub sorted : Sorted es
      pub head : Stands s s.head (s.max_level_index + 1)
      pub head_made : s.head < s.fresh
      pub head_apart : Apart s.head es
      pub distinct : Distinct es
      pub made : AllMade s.fresh es
      pub size : s.size ≡ length es
      pub low : AllLow s.current_level_index es
      pub room : length es < s.fresh
      pub current : s.current_level_index ≤ s.max_level_index
