-- ===== src/Raft/Integrity/Invariant.antt =====
-- The invariant on the log and its indexes, and what it takes to keep it.
use ww_raft_kv.Prelude.{
  Bool, List, Option, ap, arith, false, if◌then◌else◌, length, refl, suc, true, ◌∙◌, ◌≡◌, ◌≢◌, ◌≤◌,
}
use ww_raft_kv.Raft.Frame.{Keeps, final, returns}
use ww_raft_kv.Raft.Log.Contiguous.{IsContiguous}
use ww_raft_kv.Raft.Persist.{new}
use ww_raft_kv.Raft.State.{Outcome, Platform, Raft, RaftPersistData, done, failed, follower, ◌>>=◌}
use ww_raft_kv.Raft.Types.{NodeId, RaftPeer}

pub record Inv (s : Raft) : Type 0 where
  pub contiguous : IsContiguous s
  pub base : s.base_index ≡ suc s.last_included_index
  pub applied_ge : s.last_included_index ≤ s.last_applied_index
  pub applied_le : s.last_applied_index ≤ s.last_log_index
  pub commit_le : s.last_commit_index ≤ s.last_log_index
  pub ranked : s.role ≢ follower → 1 ≤ s.term

pub new-Inv :
    (id : NodeId) (peers : List RaftPeer) (p : Platform) (disk : Option RaftPersistData)
    → Inv (new id peers p disk)
unfolding new
new-Inv id peers p disk = record {
  contiguous = omega arith;
  base = refl;
  applied_ge = omega arith;
  applied_le = omega arith;
  commit_le = omega arith;
  ranked = λ h. absurd (h refl);
}

-- The fields that the invariant reads are as they were.
pub Inv-of_fields :
    {s : Raft} (t : Raft)
    → t.logs ≡ s.logs
    → t.base_index ≡ s.base_index
    → t.last_log_index ≡ s.last_log_index
    → t.last_included_index ≡ s.last_included_index
    → t.last_applied_index ≡ s.last_applied_index
    → t.last_commit_index ≡ s.last_commit_index
    → (t.role ≢ follower → 1 ≤ t.term)
    → Inv s
    → Inv t
Inv-of_fields {s} t l b i n a c r v = record {
  contiguous = record {
    base = omega (arith, b, v.contiguous.base);
    span = omega (arith, b, i, v.contiguous.span, ap length l);
  };
  base = omega (arith, b, n, v.base);
  applied_ge = omega (arith, n, a, v.applied_ge);
  applied_le = omega (arith, i, a, v.applied_le);
  commit_le = omega (arith, i, c, v.commit_le);
  ranked = r;
}

pub Inv-Keeps : {s t : Raft} → Keeps s t → Inv s → Inv t
Inv-Keeps {s} {t} k v =
    Inv-of_fields t k.logs k.base_index k.last_log_index k.last_included_index k.last_applied_index
      k.last_commit_index (λ h. omega (arith, k.term, v.ranked (λ e. h (k.role ∙ e)))) v

-- A call returns, and the state that it returns has the invariant.
abbrev pub Good : Outcome Raft → Type 0
Good (done t) = Inv t
Good (failed e t) = ⊥

pub Good-if :
    (b : Bool) (m n : Outcome Raft)
    → (b ≡ true → Good m)
    → (b ≡ false → Good n)
    → Good (if b then m else n)
Good-if true m n h k = h refl
Good-if false m n h k = k refl

pub Good-bind :
    (m : Outcome Raft) (f : Raft → Outcome Raft)
    → Good m
    → ((t : Raft) → m ≡ done t → Inv t → Good (f t))
    → Good (m >>= f)
Good-bind (done t) f h k = k t refl h
Good-bind (failed e t) f h k = absurd h

pub Good-reads {ℓ} :
    {A : Type ℓ} (m : Outcome A) (f : A → Outcome Raft)
    → returns m ≡ true
    → ((a : A) → m ≡ done a → Good (f a))
    → Good (m >>= f)
Good-reads (done a) f h k = k a refl
Good-reads (failed e t) f h k = cc

pub Good-of_Keeps :
    {s : Raft} (m : Outcome Raft) → returns m ≡ true → Keeps s (final m) → Inv s → Good m
Good-of_Keeps (done t) h k v = Inv-Keeps k v
Good-of_Keeps (failed e t) h k v = cc

pub returns_of_Good : (m : Outcome Raft) → Good m → (t : Raft) × (m ≡ done t) × Inv t
returns_of_Good (done t) v = (t, refl, v)
returns_of_Good (failed e t) v = absurd v

pub returns-bind {ℓ κ} :
    {A : Type ℓ} {B : Type κ} (m : Outcome A) (f : A → Outcome B)
    → returns m ≡ true
    → ((a : A) → m ≡ done a → returns (f a) ≡ true)
    → returns (m >>= f) ≡ true
returns-bind (done a) f h k = k a refl
returns-bind (failed e t) f h k = cc

pub returns-if {ℓ} :
    {A : Type ℓ} (b : Bool) (m n : Outcome A)
    → (b ≡ true → returns m ≡ true)
    → (b ≡ false → returns n ≡ true)
    → returns (if b then m else n) ≡ true
returns-if true m n h k = h refl
returns-if false m n h k = k refl
