-- ===== src/SkipList/Types.antt =====
-- raftkv/kvstore/include/SkipList.h: the nodes of a skip list, on a heap, and the reading and
-- writing of their pointers.
use ww_raft_kv.Prelude.{
  Bool, List, Option, [], eq→==, get_elem?, if◌then◌else◌, ne→==, none, refl, some, suc, zero, ℕ,
  ◌==◌, ◌∷◌, ◌≡◌, ◌≢◌,
}

-- What the template is given: the operators of the key type, the values of the default
-- constructors, and the n-th result of `rand`.
pub record Params (K V : Type 0) : Type 0 where
  pub less : K → K → Bool
  pub equal : K → K → Bool
  pub default_key : K
  pub default_value : V
  pub rand : ℕ → ℕ

-- The address of a node on the heap.
abbrev pub Pointer : Type 0
Pointer = ℕ

pub record Node (K V : Type 0) : Type 0 where
  pub key : K
  pub value : V
  pub forward : List (Option Pointer)

-- `fresh` is the next address that `new` returns, `rands` the number of calls of `rand`.
pub record SkipList (K V : Type 0) : Type 0 where
  pub heap : Pointer → Option (Node K V)
  pub fresh : Pointer
  pub head : Pointer
  pub max_level_index : ℕ
  pub current_level_index : ℕ
  pub size : ℕ
  pub rands : ℕ

-- A step on a result that may be missing: here, of a step whose result C++ leaves open.
infixl 5 ◌>>=◌
abbrev pub ◌>>=◌ {ℓ κ} : {A : Type ℓ} {B : Type κ} → Option A → (A → Option B) → Option B
none >>= f = none
some a >>= f = f a

abbrev pub set_elem {ℓ} : {A : Type ℓ} → List A → ℕ → A → List A
set_elem [] i a = []
set_elem (x ∷ xs) zero a = a ∷ xs
set_elem (x ∷ xs) (suc i) a = x ∷ set_elem xs i a

-- The heap with another content at an address.
abbrev pub put_at {ℓ} : {A : Type ℓ} → Pointer → A → (Pointer → A) → Pointer → A
put_at p a h q = if q == p then a else h q

module _ {K V : Type 0} where
  -- `_Node->forward(_Level)`. There is no result for an address that holds no node, nor for a
  -- level that the node does not have.
  unfoldable pub read : SkipList K V → Pointer → ℕ → Option (Option Pointer)
  read s p level = do node ← s.heap p; get_elem? node.forward level

  unfoldable pub set_forward : ℕ → Option Pointer → Node K V → Node K V
  set_forward level q node = record node { forward = set_elem node.forward level q }

  -- An assignment to `_Node->forward(_Level)`.
  unfoldable pub write : SkipList K V → Pointer → ℕ → Option Pointer → Option (SkipList K V)
  unfolding set_forward
  write s p level q = do
    node ← s.heap p
    old ← get_elem? node.forward level
    some (record s { heap = put_at p (some (set_forward level q node)) s.heap })

  unfoldable pub key_at : SkipList K V → Pointer → Option K
  key_at s p = do node ← s.heap p; some node.key

  unfoldable pub value_at : SkipList K V → Pointer → Option V
  value_at s p = do node ← s.heap p; some node.value

  -- `_Node->set_value` and assignments through a reference to the value.
  unfoldable pub assign : SkipList K V → Pointer → V → Option (SkipList K V)
  assign s p v = do
    node ← s.heap p
    some (record s { heap = put_at p (some (record node { value = v })) s.heap })

pub put_at-here {ℓ} :
    {A : Type ℓ} (p q : Pointer) (a : A) (h : Pointer → A) → q ≡ p → put_at p a h q ≡ a
put_at-here p q a h e = rw (eq→== q p e) refl

pub put_at-there {ℓ} :
    {A : Type ℓ} (p q : Pointer) (a : A) (h : Pointer → A) → q ≢ p → put_at p a h q ≡ h q
put_at-there p q a h n = rw (ne→== q p n) refl
