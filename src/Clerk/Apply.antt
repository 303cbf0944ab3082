-- ===== src/Clerk/Apply.antt =====
-- raftkv/raft-app/src/RaftClerk.cpp: what changes the map of the node, and the answers to clients.
use Prim.Native.String.{◌++◌ as str_append}
use text.Mathlib.Text.{◌==◌ as str_eq}
use ww_raft_kv.Clerk.Command.{StatusCode, apply_command, default, not_found}
use ww_raft_kv.Clerk.Send.{run}
use ww_raft_kv.Clerk.State.{
  ProtoKvOperationResponse, RaftClerk, RaftPeerNet, address, kv_operation_reply, not_set, payload,
}
use ww_raft_kv.Clerk.Text.{text_params}
use ww_raft_kv.Prelude.{
  Bool, List, Option, String, [], false, get_elem?, if◌then◌else◌, leb, negsuc, none, not, pos,
  some, true, ℕ, ◌&&◌, ◌==◌, ◌∷◌,
}
use ww_raft_kv.Raft.Message.{
  ApplyCommitLogsRequest, KvOperationResponse, OperationType, RaftMessage,
  apply_commit_logs_response,
}
use ww_raft_kv.Raft.Types.{NodeId, RaftLogEntry, SequenceType}
use ww_raft_kv.SkipList.Types.{◌>>=◌}
use ww_raft_kv.KvStore
use ww_raft_kv.Raft.State
use ww_raft_kv.Table

-- `_Peers[id]`.
unfoldable pub peer_at : NodeId → List RaftPeerNet → Option RaftPeerNet
peer_at (pos i) peers = get_elem? peers i
peer_at (negsuc i) peers = none

-- The place in a literal of a length that the program reaches by adding a number to the literal.
-- From its start to its end the text can be read.
unfoldable pub literal_offset : ℕ → NodeId → Option ℕ
literal_offset size (pos i) = if leb i size then some i else none
literal_offset size (negsuc i) = none

-- The text of the log's line, "not leader, redirect to node: ", has 30 characters.
unfoldable pub redirect_response : NodeId → RaftClerk → Option ProtoKvOperationResponse
unfolding peer_at literal_offset
redirect_response leader_id c = do
  logged ← literal_offset 30 leader_id
  peer ← peer_at leader_id c.peers
  some (record {
    status_code = StatusCode.redirect;
    payload = address (str_append peer.ip (str_append ":" peer.kv_port));
  })

-- The closure of a client's request is run on the response, and taken out of the table.
unfoldable pub respond_kv :
    String → SequenceType → ProtoKvOperationResponse → RaftClerk → Option RaftClerk
unfolding run
respond_kv uuid sequence_id response c = do
  client_requests ← Table.lookup str_eq uuid c.pending_kv_requests
  done ← Table.lookup ◌==◌ sequence_id client_requests
  d ← run done (kv_operation_reply response) c
  let left = Table.erase ◌==◌ sequence_id client_requests
  some (record d { pending_kv_requests = Table.assign str_eq uuid left d.pending_kv_requests })

unfoldable pub read_key : String → RaftClerk → Option (ProtoKvOperationResponse × RaftClerk)
read_key key c = do
  r ← KvStore.get (text_params c.host.rand) key c.kv_store
  let d = record c { kv_store = r.1 }
  some (
    if str_eq r.0 ""
        then record { status_code = not_found; payload = not_set }
        else record { status_code = StatusCode.success; payload = payload r.0 },
    d,
  )

-- A read is done here, on the map of the leader. A response to another operation, which the
-- consensus layer never sends, stays as it was made.
unfoldable pub kv_response :
    Bool
    → OperationType
    → KvOperationResponse
    → RaftClerk
    → Option (ProtoKvOperationResponse × RaftClerk)
unfolding read_key redirect_response
kv_response true OperationType.get m c = read_key m.key c
kv_response true _ m c = some (record { status_code = default; payload = not_set }, c)
kv_response false _ m c = do response ← redirect_response m.leader_id c; some (response, c)

unfoldable pub send_kv_operation_response : KvOperationResponse → RaftClerk → Option RaftClerk
unfolding kv_response respond_kv
send_kv_operation_response m c = do
  r ← kv_response m.success m.op_type m c
  respond_kv m.uuid m.seq r.0 r.1

-- `_Raft->step`.
unfoldable pub step_raft : RaftMessage → RaftClerk → RaftClerk
step_raft m c = record c { raft = State.step m c.raft }

-- The client of an entry is answered only on the node that has logged the entry as the leader.
abbrev pub has_client : RaftLogEntry → Bool
has_client e = not (str_eq e.uuid "") && not (e.sequence_id == 0)

unfoldable pub answer_client : RaftLogEntry → StatusCode → RaftClerk → Option RaftClerk
unfolding respond_kv
answer_client e status c =
    if has_client e
    then respond_kv e.uuid e.sequence_id (record { status_code = status; payload = not_set }) c
    else some c

unfoldable pub apply_entry : RaftLogEntry → RaftClerk → Option RaftClerk
unfolding answer_client
apply_entry e c = do
  r ← apply_command c.host.rand e.command c.kv_store
  answer_client e r.0 (record c { kv_store = r.1 })

unfoldable pub apply_entries : List RaftLogEntry → RaftClerk → Option RaftClerk
unfolding apply_entry
apply_entries [] c = some c
apply_entries (e ∷ es) c = do d ← apply_entry e c; apply_entries es d

unfoldable pub apply_commit_logs : ApplyCommitLogsRequest → RaftClerk → Option RaftClerk
unfolding apply_entries step_raft
apply_commit_logs m c = do
  d ← apply_entries m.entries c
  some (
      step_raft (apply_commit_logs_response (record { last_commit_index = m.last_commit_index })) d)
