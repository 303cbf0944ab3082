-- ===== src/Raft/Frame.antt =====
-- What a call leaves as it was, whether it returns or ends the process.
use ww_raft_kv.Prelude.{
  Bool, Option, arith, false, if◌then◌else◌, inl, inr, none, refl, some, true, ◌∙◌, ◌≡◌, ◌⊎◌,
}
use ww_raft_kv.Raft.State.{Fault, Outcome, Raft, done, failed, or_fail, ◌>>=◌}

-- The state that a call reached.
abbrev pub final : Outcome Raft → Raft
final (done s) = s
final (failed e s) = s

abbrev pub returns {ℓ} : {A : Type ℓ} → Outcome A → Bool
returns (done a) = true
returns (failed e s) = false

pub Outcome-cases {ℓ} :
    {A : Type ℓ} (o : Outcome A)
    → ((a : A) × (o ≡ done a)) ⊎ ((e : Fault) × (t : Raft) × (o ≡ failed e t))
Outcome-cases (done a) = inl (a, refl)
Outcome-cases (failed e t) = inr (e, t, refl)

-- All but the queue to the application, the flags of work under way, the time of the next
-- heartbeat, and the number of calls of libraries.
pub record Keeps (s t : Raft) : Type 0 where
  pub id : t.id ≡ s.id
  pub role : t.role ≡ s.role
  pub term : t.term ≡ s.term
  pub vote_count : t.vote_count ≡ s.vote_count
  pub voted_for : t.voted_for ≡ s.voted_for
  pub leader_id : t.leader_id ≡ s.leader_id
  pub logs : t.logs ≡ s.logs
  pub base_index : t.base_index ≡ s.base_index
  pub last_log_index : t.last_log_index ≡ s.last_log_index
  pub last_log_term : t.last_log_term ≡ s.last_log_term
  pub last_included_index : t.last_included_index ≡ s.last_included_index
  pub last_included_term : t.last_included_term ≡ s.last_included_term
  pub last_commit_index : t.last_commit_index ≡ s.last_commit_index
  pub last_applied_index : t.last_applied_index ≡ s.last_applied_index
  pub peers : t.peers ≡ s.peers
  pub platform : t.platform ≡ s.platform
  pub disk : t.disk ≡ s.disk

pub Keeps-refl : (s : Raft) → Keeps s s
Keeps-refl s = ground arith

pub Keeps-trans : {s t u : Raft} → Keeps s t → Keeps t u → Keeps s u
Keeps-trans h k = record {
  id = k.id ∙ h.id;
  role = k.role ∙ h.role;
  term = k.term ∙ h.term;
  vote_count = k.vote_count ∙ h.vote_count;
  voted_for = k.voted_for ∙ h.voted_for;
  leader_id = k.leader_id ∙ h.leader_id;
  logs = k.logs ∙ h.logs;
  base_index = k.base_index ∙ h.base_index;
  last_log_index = k.last_log_index ∙ h.last_log_index;
  last_log_term = k.last_log_term ∙ h.last_log_term;
  last_included_index = k.last_included_index ∙ h.last_included_index;
  last_included_term = k.last_included_term ∙ h.last_included_term;
  last_commit_index = k.last_commit_index ∙ h.last_commit_index;
  last_applied_index = k.last_applied_index ∙ h.last_applied_index;
  peers = k.peers ∙ h.peers;
  platform = k.platform ∙ h.platform;
  disk = k.disk ∙ h.disk;
}

-- A relation to the start that two steps keep is kept by one after the other.
pub final-bind :
    (P : Raft → Type 0) (m : Outcome Raft) (f : Raft → Outcome Raft)
    → P (final m)
    → ((t : Raft) → m ≡ done t → P t → P (final (f t)))
    → P (final (m >>= f))
final-bind P (done t) f h k = k t refl h
final-bind P (failed e t) f h k = h

module _ {ℓ} (P : Raft → Type ℓ) where
  pub final-if :
      (b : Bool) (m n : Outcome Raft)
      → (b ≡ true → P (final m))
      → (b ≡ false → P (final n))
      → P (final (if b then m else n))
  final-if true m n h k = h refl
  final-if false m n h k = k refl

  pub if_lem :
      (b : Bool) (s t : Raft) → (b ≡ true → P s) → (b ≡ false → P t) → P (if b then s else t)
  if_lem true s t h k = h refl
  if_lem false s t h k = k refl

-- A call that only reads, and ends where it began if it faults.
abbrev pub Reads {ℓ} : {A : Type ℓ} → Raft → Outcome A → Type 0
Reads s (done a) = Unit {0}
Reads s (failed e t) = t ≡ s

pub final-bind_reads {ℓ} :
    {A : Type ℓ} (P : Raft → Type 0) (s : Raft) (m : Outcome A) (f : A → Outcome Raft)
    → Reads s m
    → P s
    → ((a : A) → m ≡ done a → P (final (f a)))
    → P (final (m >>= f))
final-bind_reads P s (done a) f r h k = k a refl
final-bind_reads P s (failed e t) f r h k = rw r h

pub Reads-if {ℓ} :
    {A : Type ℓ} (s : Raft) (b : Bool) (m n : Outcome A)
    → Reads s m
    → Reads s n
    → Reads s (if b then m else n)
Reads-if s true m n h k = h
Reads-if s false m n h k = k

pub Reads-bind {ℓ κ} :
    {A : Type ℓ} {B : Type κ} (s : Raft) (m : Outcome A) (f : A → Outcome B)
    → Reads s m
    → ((a : A) → Reads s (f a))
    → Reads s (m >>= f)
Reads-bind s (done a) f h k = k a
Reads-bind s (failed e t) f h k = h

pub Reads-or_fail {ℓ} : {A : Type ℓ} (e : Fault) (s : Raft) (o : Option A) → Reads s (or_fail e s o)
Reads-or_fail e s none = refl
Reads-or_fail e s (some a) = tt

pub done_of_returns {ℓ} : {A : Type ℓ} (o : Outcome A) → returns o ≡ true → (a : A) × (o ≡ done a)
done_of_returns (done a) h = (a, refl)
done_of_returns (failed e t) h = cc
