-- ===== src/Clerk/State.antt =====
-- raftkv/raft-app/include/RaftClerk.h and RaftPeerNet.h: the state of the application layer, the
-- messages of raftkv/raft-rpc/proto, and what is taken from the libraries below.
use ww_raft_kv.Prelude.{Bool, List, Option, String, ℕ}
use ww_raft_kv.Raft.State.{Raft}
use ww_raft_kv.Raft.Types.{LogIndex, NodeId, SequenceType, TermId}
use ww_raft_kv.Clerk.Command.{StatusCode, Store}

pub record RaftPeerNet : Type 0 where
  pub id : NodeId
  pub ip : String
  pub port : String
  pub kv_port : String

-- raftkv/raft-rpc/proto/Raft.proto. The fields that the program does not set are left out. The
-- terms, of 64 bits, are those of the program; only the sign of the larger ones is read differently
-- on the wire.
pub record ProtoLogEntry : Type 0 where
  pub term : TermId
  pub command : String

pub record ProtoRequestVoteRequest : Type 0 where
  pub term : TermId
  pub candidate_id : NodeId
  pub last_log_index : LogIndex
  pub last_log_term : TermId

pub record ProtoRequestVoteResponse : Type 0 where
  pub term : TermId
  pub vote_granted : Bool

pub record ProtoAppendEntriesRequest : Type 0 where
  pub term : TermId
  pub leader_id : NodeId
  pub prev_log_index : LogIndex
  pub prev_log_term : TermId
  pub entries : List ProtoLogEntry
  pub leader_commit : LogIndex

pub record ProtoAppendEntriesResponse : Type 0 where
  pub term : TermId
  pub success : Bool
  pub last_log_index : LogIndex

pub record ProtoInstallSnapshotRequest : Type 0 where
  pub term : TermId
  pub leader_id : NodeId
  pub last_included_index : LogIndex
  pub last_included_term : TermId
  pub snapshot : String

pub record ProtoInstallSnapshotResponse : Type 0 where
  pub term : TermId

-- raftkv/raft-rpc/proto/KVOperation.proto. The type is the number of an enum, which may be one
-- that the program does not know.
pub record ProtoKvOperationRequest : Type 0 where
  pub op_type : ℕ
  pub uuid : String
  pub key : String
  pub value : String

pub data Payload : Type 0 where
  not_set : Payload
  payload : String → Payload
  address : String → Payload

pub record ProtoKvOperationResponse : Type 0 where
  pub status_code : StatusCode
  pub payload : Payload

pub data Response : Type 0 where
  request_vote_reply : ProtoRequestVoteResponse → Response
  append_entries_reply : ProtoAppendEntriesResponse → Response
  install_snapshot_reply : ProtoInstallSnapshotResponse → Response
  kv_operation_reply : ProtoKvOperationResponse → Response

-- The method of a service that was called, which fixes the type of the response.
pub data Method : Type 0 where
  request_vote append_entries install_snapshot execute : Method

-- A `RaftRpcServerClosure` of raftkv/raft-rpc: it waits on a connection for its response.
pub record Closure : Type 0 where
  pub sequence_id : SequenceType
  pub method : Method
  pub connection : ℕ

-- A call of a client's method, on the peer that the client connects to, with the node id that is
-- bound into the callback.
pub data Call : Type 0 where
  call_request_vote : RaftPeerNet → ProtoRequestVoteRequest → Call
  call_append_entries : RaftPeerNet → NodeId → ProtoAppendEntriesRequest → Call
  call_install_snapshot : RaftPeerNet → NodeId → ProtoInstallSnapshotRequest → Call

-- raftkv/raft-rpc/proto/RaftSnapshot.proto: the pairs of a snapshot.
abbrev pub RaftSnapshotData : Type 0
RaftSnapshotData = List (String × String)

-- `SerializeToString` and `ParseFromString` of that message, whether the n-th file that is opened
-- opens, and the n-th result of `rand`.
pub record Host : Type 0 where
  pub serialize : RaftSnapshotData → Option String
  pub parse : String → Option RaftSnapshotData
  pub opens : ℕ → Bool
  pub rand : ℕ → ℕ

abbrev pub Requests : Type 0
Requests = List (SequenceType × Closure)

-- `calls` and `replies` are what was handed to the network, `file` the content of the snapshot
-- file, `opened` the number of files that were opened. A client is null for the node itself.
pub record RaftClerk : Type 0 where
  pub raft : Raft
  pub peers : List RaftPeerNet
  pub kv_store : Store
  pub clients : List (Option RaftPeerNet)
  pub running : Bool
  pub pending_requests : Requests
  pub pending_kv_requests : List (String × Requests)
  pub calls : List Call
  pub replies : List (Closure × Response)
  pub file : Option String
  pub opened : ℕ
  pub host : Host
