-- ===== src/Raft/Client.antt =====
-- raftkv/raft-core/src/Raft.cpp: operations of clients.
use ww_raft_kv.Prelude.{◌+◌, String, Bool, true, false, not, [], ◌∷◌, ◌++◌, if◌then◌else◌}
use Prim.Native.String.{◌++◌ as str_append}
use ww_raft_kv.Raft.Types.{NodeId, RaftLogEntry}
use ww_raft_kv.Raft.Message.{
  OperationType, put, update, delete, get, KvOperationRequest, RaftMessage, kv_operation_response,
}
use ww_raft_kv.Raft.State.{Raft, Outcome, done, push}
use ww_raft_kv.Raft.Persist.{persist}
use ww_raft_kv.Raft.Role.{send_append_entries}
use ww_raft_kv.Raft.Vote.{is_leader}

unfoldable pub operation_response : KvOperationRequest → Bool → NodeId → OperationType → RaftMessage
operation_response m success leader_id op_type = kv_operation_response (record {
  seq = m.seq;
  uuid = m.uuid;
  leader_id = leader_id;
  op_type = op_type;
  key = m.key;
  value = m.value;
  success = success;
})

-- The command of a log entry. `get` has none.
unfoldable pub command_of : OperationType → String → String → String
command_of put key value = str_append "put " (str_append key (str_append " " value))
command_of update key value = str_append "update " (str_append key (str_append " " value))
command_of delete key value = str_append "delete " key
command_of get key value = ""

unfoldable pub new_entry : KvOperationRequest → Raft → RaftLogEntry
unfolding command_of
new_entry m s = record {
  uuid = m.uuid;
  sequence_id = m.seq;
  term = s.term;
  command = command_of m.op_type m.key m.value;
}

unfoldable pub append_entry : KvOperationRequest → Raft → Raft
unfolding new_entry persist
append_entry m s =
    let t = persist (record s { logs = s.logs ++ new_entry m s ∷ [] }) in
    record t { last_log_index = t.last_log_index + 1; last_log_term = t.term }

abbrev pub is_get : OperationType → Bool
is_get get = true
is_get _ = false

-- A leader logs a change and sends it out; it hands a read to the application at once.
unfoldable pub handle_kv_operation_request : KvOperationRequest → Raft → Outcome Raft
unfolding operation_response append_entry send_append_entries push
handle_kv_operation_request m s =
    if not (is_leader s.role)
    then done (push (operation_response m false s.leader_id s.platform.unset_op) s)
    else if not (is_get m.op_type)
    then send_append_entries false (append_entry m s)
    else done (push (operation_response m true s.platform.unset_id get) s)
