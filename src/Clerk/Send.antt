-- ===== src/Clerk/Send.antt =====
-- raftkv/raft-app/src/RaftClerk.cpp: the messages of the consensus layer that go out to the
-- network. A result is missing where C++ leaves it open: a null pointer is followed, a step is taken
-- past the end of a vector, or a message is taken for one of another type.
use ww_raft_kv.Clerk.State.{
  Call, Closure, Method, ProtoLogEntry, RaftClerk, RaftPeerNet, Response, append_entries,
  append_entries_reply, call_append_entries, call_install_snapshot, call_request_vote, execute,
  install_snapshot, install_snapshot_reply, kv_operation_reply, request_vote, request_vote_reply,
}
use ww_raft_kv.Prelude.{
  Bool, List, Option, String, [], false, get_elem?, if◌then◌else◌, map, negsuc, none, pos, some,
  true, ◌++◌, ◌+◌, ◌==◌, ◌∷◌,
}
use ww_raft_kv.Raft.Types.{NodeId, RaftLogEntry, SequenceType}
use ww_raft_kv.SkipList.Types.{◌>>=◌}
use ww_raft_kv.Table
use ww_raft_kv.Raft.Message.{
  AppendEntriesRequest, AppendEntriesResponse, InstallSnapshotRequest, InstallSnapshotResponse,
  RequestVoteRequest, RequestVoteResponse,
}

-- `static_cast` of the response of a closure to the type that is filled in.
abbrev pub fits : Method → Response → Bool
fits request_vote (request_vote_reply r) = true
fits append_entries (append_entries_reply r) = true
fits install_snapshot (install_snapshot_reply r) = true
fits execute (kv_operation_reply r) = true
fits _ _ = false

-- `Run` of a closure, on the response that was filled in.
unfoldable pub run : Closure → Response → RaftClerk → Option RaftClerk
run done response c =
    if fits done.method response
    then some (record c { replies = c.replies ++ (done, response) ∷ [] })
    else none

-- The closure is looked up, run on the response, and taken out of the table.
unfoldable pub respond : SequenceType → Response → RaftClerk → Option RaftClerk
unfolding run
respond sequence_id response c = do
  done ← Table.lookup ◌==◌ sequence_id c.pending_requests
  d ← run done response c
  some (record d { pending_requests = Table.erase ◌==◌ sequence_id d.pending_requests })

unfoldable pub send_request_vote_response : RequestVoteResponse → RaftClerk → Option RaftClerk
unfolding respond
send_request_vote_response m =
    respond m.seq (request_vote_reply (record { term = m.term; vote_granted = m.vote_granted }))

unfoldable pub send_append_entries_response : AppendEntriesResponse → RaftClerk → Option RaftClerk
unfolding respond
send_append_entries_response m = respond m.seq (
    append_entries_reply
      (record { term = m.term; success = m.success; last_log_index = m.last_log_index }))

unfoldable pub send_install_snapshot_response :
    InstallSnapshotResponse → RaftClerk → Option RaftClerk
unfolding respond
send_install_snapshot_response m = respond m.seq (install_snapshot_reply (record { term = m.term }))

-- `_Clients[id]`, which must not be null.
unfoldable pub client_at : NodeId → List (Option RaftPeerNet) → Option RaftPeerNet
client_at (pos i) clients = do client ← get_elem? clients i; client
client_at (negsuc i) clients = none

unfoldable pub call : Call → RaftClerk → RaftClerk
call request c = record c { calls = c.calls ++ request ∷ [] }

unfoldable pub send_request_vote_request : RequestVoteRequest → RaftClerk → Option RaftClerk
unfolding client_at call
send_request_vote_request m c = do
  client ← client_at m.to c.clients
  some (
      call
        (call_request_vote client (record {
          term = m.term;
          candidate_id = m.from;
          last_log_index = m.last_log_index;
          last_log_term = m.last_log_term;
        }))
        c)

-- An entry loses its client on the wire.
unfoldable pub proto_entry : RaftLogEntry → ProtoLogEntry
proto_entry e = record { term = e.term; command = e.command }

unfoldable pub send_append_entries_request : AppendEntriesRequest → RaftClerk → Option RaftClerk
unfolding client_at call proto_entry
send_append_entries_request m c = do
  client ← client_at m.to c.clients
  some (
      call
        (call_append_entries client m.to (record {
          term = m.term;
          leader_id = m.from;
          prev_log_index = m.prev_log_index;
          prev_log_term = m.prev_log_term;
          entries = map proto_entry m.entries;
          leader_commit = m.leader_commit;
        }))
        c)

-- A file to read: it must be there, and open.
unfoldable pub open_in : RaftClerk → Option String × RaftClerk
open_in c = (if c.host.opens c.opened then c.file else none, record c { opened = c.opened + 1 })

-- What is done with the content of the file. With no file, nothing is sent.
unfoldable pub send_snapshot : InstallSnapshotRequest → Option String × RaftClerk → Option RaftClerk
unfolding client_at call
send_snapshot m (none, c) = some c
send_snapshot m (some text, c) = do
  client ← client_at m.to c.clients
  some (
      call
        (call_install_snapshot client m.to (record {
          term = m.term;
          leader_id = m.from;
          last_included_index = m.last_included_index;
          last_included_term = m.last_included_term;
          snapshot = text;
        }))
        c)

-- The snapshot goes out as it stands in the file.
unfoldable pub send_install_snapshot_request : InstallSnapshotRequest → RaftClerk → Option RaftClerk
unfolding open_in send_snapshot
send_install_snapshot_request m c = send_snapshot m (open_in c)
