-- ===== src/Raft/Message.antt =====
-- raftkv/raft-core/include/RaftMessage.h and RaftMessage.cpp: the messages between the consensus
-- layer and the application layer. A message type is a constructor, its class the record under it.
use ww_raft_kv.Prelude.{String, ℤ, Bool, List}
use ww_raft_kv.Raft.Types.{LogIndex, NodeId, TermId, SequenceType, RaftLogEntry}

pub data OperationType : Type 0 where
  put update delete get : OperationType

pub record RequestVoteRequest : Type 0 where
  pub seq : SequenceType
  pub from : NodeId
  pub to : NodeId
  pub term : TermId
  pub last_log_index : LogIndex
  pub last_log_term : TermId

pub record RequestVoteResponse : Type 0 where
  pub seq : SequenceType
  pub term : TermId
  pub vote_granted : Bool

pub record AppendEntriesRequest : Type 0 where
  pub seq : SequenceType
  pub term : TermId
  pub from : NodeId
  pub to : NodeId
  pub prev_log_index : LogIndex
  pub prev_log_term : TermId
  pub leader_commit : LogIndex
  pub entries : List RaftLogEntry

pub record AppendEntriesResponse : Type 0 where
  pub seq : SequenceType
  pub from : NodeId
  pub term : TermId
  pub success : Bool
  pub last_log_index : LogIndex

pub record InstallSnapshotRequest : Type 0 where
  pub seq : SequenceType
  pub term : TermId
  pub from : NodeId
  pub to : NodeId
  pub last_included_index : LogIndex
  pub last_included_term : TermId
  pub snapshot : String

pub record InstallSnapshotResponse : Type 0 where
  pub seq : SequenceType
  pub term : TermId
  pub from : NodeId

pub record KvOperationRequest : Type 0 where
  pub seq : SequenceType
  pub uuid : String
  pub op_type : OperationType
  pub key : String
  pub value : String

pub record KvOperationResponse : Type 0 where
  pub seq : SequenceType
  pub uuid : String
  pub leader_id : NodeId
  pub op_type : OperationType
  pub key : String
  pub value : String
  pub success : Bool

pub record ApplyCommitLogsRequest : Type 0 where
  pub last_commit_index : LogIndex
  pub entries : List RaftLogEntry

pub record ApplyCommitLogsResponse : Type 0 where
  pub last_commit_index : LogIndex

pub record GenerateSnapshotRequest : Type 0 where
  pub last_applied_index : LogIndex
  pub last_applied_term : TermId

-- The index is signed here: -1, with the term 0, says that no snapshot was made.
pub record GenerateSnapshotResponse : Type 0 where
  pub last_applied_index : ℤ
  pub last_applied_term : TermId

pub record ApplySnapshotRequest : Type 0 where
  pub seq : SequenceType
  pub last_included_index : LogIndex
  pub last_included_term : TermId
  pub snapshot : String

-- The index is signed here: -1, with the term 0, says that the snapshot was not applied.
pub record ApplySnapshotResponse : Type 0 where
  pub seq : SequenceType
  pub last_included_index : ℤ
  pub last_included_term : TermId

pub data RaftMessage : Type 0 where
  append_entries_request : AppendEntriesRequest → RaftMessage
  append_entries_response : AppendEntriesResponse → RaftMessage
  request_vote_request : RequestVoteRequest → RaftMessage
  request_vote_response : RequestVoteResponse → RaftMessage
  install_snapshot_request : InstallSnapshotRequest → RaftMessage
  install_snapshot_response : InstallSnapshotResponse → RaftMessage
  kv_operation_request : KvOperationRequest → RaftMessage
  kv_operation_response : KvOperationResponse → RaftMessage
  apply_commit_logs_request : ApplyCommitLogsRequest → RaftMessage
  apply_commit_logs_response : ApplyCommitLogsResponse → RaftMessage
  generate_snapshot_request : GenerateSnapshotRequest → RaftMessage
  generate_snapshot_response : GenerateSnapshotResponse → RaftMessage
  apply_snapshot_request : ApplySnapshotRequest → RaftMessage
  apply_snapshot_response : ApplySnapshotResponse → RaftMessage
  shutdown : RaftMessage
