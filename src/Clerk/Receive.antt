-- ===== src/Clerk/Receive.antt =====
-- raftkv/raft-app/src/RaftClerk.cpp: what comes in from the network goes to the consensus layer.
use text.Mathlib.Text.{◌==◌ as str_eq}
use ww_raft_kv.Clerk.Apply.{step_raft}
use ww_raft_kv.Clerk.State.{
  Closure, ProtoAppendEntriesRequest, ProtoAppendEntriesResponse, ProtoInstallSnapshotRequest,
  ProtoInstallSnapshotResponse, ProtoKvOperationRequest, ProtoLogEntry, ProtoRequestVoteRequest,
  ProtoRequestVoteResponse, RaftClerk, Requests,
}
use ww_raft_kv.Prelude.{
  String, [], if◌then◌else◌, ltb, map, negsuc, none, pos, some, ℕ, ℤ, ◌%◌, ◌-◌, ◌==◌, ◌^◌,
}
use ww_raft_kv.Raft.Message.{
  KvOperationRequest, OperationType, append_entries_request, append_entries_response,
  install_snapshot_request, install_snapshot_response, kv_operation_request, request_vote_request,
  request_vote_response,
}
use ww_raft_kv.Raft.Types.{NodeId, RaftLogEntry, TermId, term_mod}
use ww_raft_kv.Table

-- `_Pending_requests[sequence_id] = done`.
unfoldable pub register : Closure → RaftClerk → RaftClerk
register done c = record c {
  pending_requests = Table.assign ◌==◌ done.sequence_id done c.pending_requests;
}

unfoldable pub handle_request_vote_request :
    ProtoRequestVoteRequest → Closure → RaftClerk → RaftClerk
unfolding register step_raft
handle_request_vote_request r done c =
    step_raft
      (request_vote_request (record {
        seq = done.sequence_id;
        from = r.candidate_id;
        to = c.raft.platform.unset_id;
        term = r.term;
        last_log_index = r.last_log_index;
        last_log_term = r.last_log_term;
      }))
      (register done c)

unfoldable pub handle_request_vote_response : ProtoRequestVoteResponse → RaftClerk → RaftClerk
unfolding step_raft
handle_request_vote_response r c =
    step_raft
      (request_vote_response
        (record { seq = c.raft.platform.unset; term = r.term; vote_granted = r.vote_granted }))
      c

-- The term of the entry before the new ones goes through a variable of type `LogIndex`: an `int`,
-- of 32 bits.
unfoldable pub int_of : ℕ → ℤ
int_of n = if ltb (n % 2 ^ 32) (2 ^ 31) then pos (n % 2 ^ 32) else negsuc (2 ^ 32 - 1 - n % 2 ^ 32)

unfoldable pub term_of_int : ℤ → TermId
term_of_int (pos n) = n
term_of_int (negsuc n) = term_mod - 1 - n

unfoldable pub received_entry : ProtoLogEntry → RaftLogEntry
received_entry e = record { uuid = ""; sequence_id = 0; term = e.term; command = e.command }

unfoldable pub handle_append_entries_request :
    ProtoAppendEntriesRequest → Closure → RaftClerk → RaftClerk
unfolding register step_raft int_of term_of_int received_entry
handle_append_entries_request r done c =
    step_raft
      (append_entries_request (record {
        seq = done.sequence_id;
        term = r.term;
        from = r.leader_id;
        to = c.raft.platform.unset_id;
        prev_log_index = r.prev_log_index;
        prev_log_term = term_of_int (int_of r.prev_log_term);
        leader_commit = r.leader_commit;
        entries = map received_entry r.entries;
      }))
      (register done c)

unfoldable pub handle_append_entries_response :
    NodeId → ProtoAppendEntriesResponse → RaftClerk → RaftClerk
unfolding step_raft
handle_append_entries_response id r c =
    step_raft
      (append_entries_response (record {
        seq = c.raft.platform.unset;
        from = id;
        term = r.term;
        success = r.success;
        last_log_index = r.last_log_index;
      }))
      c

unfoldable pub handle_install_snapshot_request :
    ProtoInstallSnapshotRequest → Closure → RaftClerk → RaftClerk
unfolding register step_raft
handle_install_snapshot_request r done c =
    step_raft
      (install_snapshot_request (record {
        seq = done.sequence_id;
        term = r.term;
        from = r.leader_id;
        to = c.raft.platform.unset_id;
        last_included_index = r.last_included_index;
        last_included_term = r.last_included_term;
        snapshot = r.snapshot;
      }))
      (register done c)

unfoldable pub handle_install_snapshot_response :
    NodeId → ProtoInstallSnapshotResponse → RaftClerk → RaftClerk
unfolding step_raft
handle_install_snapshot_response id r c =
    step_raft
      (install_snapshot_response (record { seq = c.raft.platform.unset; term = r.term; from = id }))
      c

-- A number that stands for no operation leaves the field unset.
unfoldable pub op_type_of : ℕ → OperationType → OperationType
op_type_of number unset_op =
    if number == 0
    then OperationType.put
    else if number == 1
    then OperationType.update
    else if number == 2
    then OperationType.delete
    else if number == 3
    then OperationType.get
    else unset_op

-- `_Pending_kv_requests[uuid]`, which makes an empty table where there is none.
abbrev pub requests_of : String → RaftClerk → Requests
requests_of uuid c = elim (Table.lookup str_eq uuid c.pending_kv_requests) [
  | none ↦ []
  | some client_requests ↦ client_requests
]

unfoldable pub register_kv : String → Closure → RaftClerk → RaftClerk
register_kv uuid done c =
    let client_requests = Table.assign ◌==◌ done.sequence_id done (requests_of uuid c) in
    record c {
      pending_kv_requests = Table.assign str_eq uuid client_requests c.pending_kv_requests;
    }

abbrev pub kv_message : ProtoKvOperationRequest → Closure → RaftClerk → KvOperationRequest
unfolding op_type_of
kv_message r done c = record {
  seq = done.sequence_id;
  uuid = r.uuid;
  op_type = op_type_of r.op_type c.raft.platform.unset_op;
  key = r.key;
  value = r.value;
}

unfoldable pub handle_kv_operation_request :
    ProtoKvOperationRequest → Closure → RaftClerk → RaftClerk
unfolding op_type_of register_kv step_raft
handle_kv_operation_request r done c =
    step_raft (kv_operation_request (kv_message r done c)) (register_kv r.uuid done c)
