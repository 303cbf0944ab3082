-- ===== src/Raft/State.antt =====
-- raftkv/raft-core/include/Raft.h and RaftChannel.h: the state of a node, its two queues, what it
-- takes from the machine below it, and how a call of a handler ends.
use ww_raft_kv.Prelude.{Bool, List, Option, String, [], none, some, ℕ, ◌++◌, ◌∷◌}
use ww_raft_kv.Raft.Message.{OperationType, RaftMessage}
use ww_raft_kv.Raft.Types.{LogIndex, NodeId, RaftLogEntry, RaftPeer, TermId}

pub data RaftRole : Type 0 where
  follower candidate leader : RaftRole

-- The fields of raftkv/raft-core/proto/RaftPersist.proto. An entry has lost its client there.
pub record RaftPersistLogEntry : Type 0 where
  pub term : TermId
  pub command : String

pub record RaftPersistData : Type 0 where
  pub term : TermId
  pub voted_for : NodeId
  pub entries : List RaftPersistLogEntry
  pub last_included_index : LogIndex
  pub last_included_term : TermId

-- What the n-th call of a library returns: the steady clock in milliseconds, a draw from a
-- uniform distribution between two bounds, and whether a message was coded, a file opened, and
-- what a file holds parsed. `unset`,
-- `unset_id` and `unset_op` are the values of fields that a constructor
-- leaves unset.
pub record Platform : Type 0 where
  pub now : ℕ → ℕ
  pub draw : ℕ → ℕ → ℕ → ℕ
  pub serializes : ℕ → Bool
  pub opens : ℕ → Bool
  pub parses : ℕ → Bool
  pub unset : ℕ
  pub unset_id : NodeId
  pub unset_op : OperationType

pub record Raft : Type 0 where
  pub id : NodeId
  pub role : RaftRole
  pub term : TermId
  pub vote_count : ℕ
  pub voted_for : NodeId
  pub leader_id : NodeId
  pub logs : List RaftLogEntry
  pub base_index : LogIndex
  pub last_log_index : LogIndex
  pub last_log_term : TermId
  pub last_included_index : LogIndex
  pub last_included_term : TermId
  pub last_commit_index : LogIndex
  pub last_applied_index : LogIndex
  pub is_applying : Bool
  pub is_snapshoting : Bool
  pub peers : List RaftPeer
  pub inner_channel : List RaftMessage
  pub outter_channel : List RaftMessage
  pub election_timeout_min : ℕ
  pub election_timeout_max : ℕ
  pub heartbeat_timeout : ℕ
  pub election_deadline : ℕ
  pub heartbeat_deadline : ℕ
  pub running : Bool
  pub platform : Platform
  pub calls : ℕ
  pub disk : Option RaftPersistData

-- `out_of_range` is the exception of that name, which no caller catches; `undefined` is a step
-- past the end of a vector, whose result C++ leaves open. With `negative_index` the model ends where
-- the code would go on: an index below 0 is to be stored, which no message of the application has.
pub data Fault : Type 0 where
  out_of_range undefined negative_index : Fault

-- A call returns, or it ends the process with the state that it had reached.
pub data Outcome {ℓ} (A : Type ℓ) : Type ℓ where
  done : A → Outcome A
  failed : Fault → Raft → Outcome A

infixl 5 ◌>>=◌
abbrev pub ◌>>=◌ {ℓ κ} : {A : Type ℓ} {B : Type κ} → Outcome A → (A → Outcome B) → Outcome B
done a >>= f = f a
failed e s >>= f = failed e s

-- A step past an `Option` that the code reads with a check.
abbrev pub or_fail {ℓ} : {A : Type ℓ} → Fault → Raft → Option A → Outcome A
or_fail e s none = failed e s
or_fail e s (some a) = done a

-- `RaftChannel::push` on the queue to the application.
unfoldable pub push : RaftMessage → Raft → Raft
push m s = record s { inner_channel = s.inner_channel ++ m ∷ [] }

-- `Raft::step`: a message from the application, to the other queue.
unfoldable pub step : RaftMessage → Raft → Raft
step m s = record s { outter_channel = s.outter_channel ++ m ∷ [] }

-- `RaftChannel::pop`, which blocks on an empty queue.
unfoldable pub pop : List RaftMessage → Option (RaftMessage × List RaftMessage)
pop [] = none
pop (m ∷ ms) = some (m, ms)

unfoldable pub take_ready :
    Raft → Option (RaftMessage × List RaftMessage) → Option (RaftMessage × Raft)
take_ready s none = none
take_ready s (some (m, ms)) = some (m, record s { inner_channel = ms })

-- `Raft::readReady`: the application takes a message.
unfoldable pub read_ready : Raft → Option (RaftMessage × Raft)
unfolding pop take_ready
read_ready s = take_ready s (pop s.inner_channel)
