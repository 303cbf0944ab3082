-- ===== src/Raft/Dispatch.antt =====
-- raftkv/raft-core/src/Raft.cpp: the two threads of a node, each a loop, and what they do in one
-- round. The rounds of the two are taken one at a time.
use ww_raft_kv.Prelude.{List, Option, false, if◌then◌else◌, leb, none, not, some, true, ◌&&◌, ◌+◌}
use ww_raft_kv.Raft.Append.{handle_append_entries_request, handle_append_entries_response}
use ww_raft_kv.Raft.Client.{handle_kv_operation_request}
use ww_raft_kv.Raft.Commit.{handle_apply_commit_logs}
use ww_raft_kv.Raft.Message.{
  RaftMessage, append_entries_request, append_entries_response, apply_commit_logs_response,
  apply_snapshot_response, generate_snapshot_response, install_snapshot_request,
  install_snapshot_response, kv_operation_request, request_vote_request, request_vote_response,
  shutdown,
}
use ww_raft_kv.Raft.Role.{become_candidate, send_append_entries}
use ww_raft_kv.Raft.Snapshot.{
  handle_apply_snapshot, handle_generate_snapshot, handle_install_snapshot_request,
  handle_install_snapshot_response,
}
use ww_raft_kv.Raft.State.{Outcome, Raft, done, pop, push}
use ww_raft_kv.Raft.Vote.{handle_request_vote_request, handle_request_vote_response, is_leader}

unfoldable pub handle_shutdown : Raft → Raft
unfolding push
handle_shutdown s = push shutdown (record s { running = false })

-- A message that is sent to the application only falls under `default`.
unfoldable pub handle_message : RaftMessage → Raft → Outcome Raft
unfolding handle_shutdown
handle_message (request_vote_request m) s = done (handle_request_vote_request m s)
handle_message (request_vote_response m) s = handle_request_vote_response m s
handle_message (append_entries_request m) s = handle_append_entries_request m s
handle_message (append_entries_response m) s = handle_append_entries_response m s
handle_message (install_snapshot_request m) s = done (handle_install_snapshot_request m s)
handle_message (install_snapshot_response m) s = done (handle_install_snapshot_response m s)
handle_message (kv_operation_request m) s = handle_kv_operation_request m s
handle_message (apply_commit_logs_response m) s = handle_apply_commit_logs m s
handle_message (generate_snapshot_response m) s = handle_generate_snapshot m s
handle_message (apply_snapshot_response m) s = handle_apply_snapshot m s
handle_message shutdown s = done (handle_shutdown s)
handle_message _ s = done s

-- One round of `_RaftLoop`, up to the sleep: the clock is read once.
unfoldable pub raft_loop : Raft → Outcome Raft
raft_loop s =
    let now = s.platform.now s.calls in
    let t = record s { calls = s.calls + 1 } in
    if not (is_leader t.role) && leb t.election_deadline now
    then done (become_candidate t)
    else if is_leader t.role && leb t.heartbeat_deadline now
    then send_append_entries true t
    else done t

unfoldable pub take_message : Raft → Option (RaftMessage × List RaftMessage) → Outcome Raft
unfolding handle_message
take_message s none = done s
take_message s (some (m, ms)) = handle_message m (record s { outter_channel = ms })

-- One round of `_GetOutterMessage`: no message, no round.
unfoldable pub get_outter_message : Raft → Outcome Raft
unfolding pop take_message
get_outter_message s = take_message s (pop s.outter_channel)

-- `start` and `startMessage`.
unfoldable pub start : Raft → Raft
start s = record s { running = true }
