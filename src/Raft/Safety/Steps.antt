-- ===== src/Raft/Safety/Steps.antt =====
-- Every message, and every round of the timer.
use ww_raft_kv.Prelude.{leb, not, refl, true, ◌&&◌, ◌+◌, ◌<◌}
use ww_raft_kv.Raft.Dispatch.{handle_message, raft_loop}
use ww_raft_kv.Raft.Frame.{final, final-if}
use ww_raft_kv.Raft.Message.{
  RaftMessage, append_entries_request, append_entries_response, apply_commit_logs_response,
  apply_snapshot_response, generate_snapshot_response, install_snapshot_request,
  install_snapshot_response, kv_operation_request, request_vote_request, request_vote_response,
  shutdown,
}
use ww_raft_kv.Raft.Role.{send_append_entries}
use ww_raft_kv.Raft.Role.Keep.{send_append_entries-Keeps}
use ww_raft_kv.Raft.Safety.Advance.{
  Advance, Advance-refl, Keeps-Stays, Stays, Stays-Advance, Stays-trans, Stays-of_disk,
  Stays→Advance,
}
use ww_raft_kv.Raft.Safety.Entries.{append_entries_request-Advance, append_entries_response-Advance}
use ww_raft_kv.Raft.Safety.Snapshots.{
  apply_commit-Stays, apply_snapshot-Stays, generate_snapshot-Stays,
  install_snapshot_request-Advance, install_snapshot_response-Advance, kv_operation-Stays,
}
use ww_raft_kv.Raft.Safety.Votes.{
  become_candidate-Advance, request_vote_request-Advance, request_vote_response-Advance,
}
use ww_raft_kv.Raft.State.{Raft, done}
use ww_raft_kv.Raft.Types.{term_mod}
use ww_raft_kv.Raft.Vote.{is_leader}

pub handle_message-Advance : (m : RaftMessage) (s : Raft) → Advance s (final (handle_message m s))
unfolding handle_message
handle_message-Advance (request_vote_request m) s = request_vote_request-Advance m s
handle_message-Advance (request_vote_response m) s = request_vote_response-Advance m s
handle_message-Advance (append_entries_request m) s = append_entries_request-Advance m s
handle_message-Advance (append_entries_response m) s = append_entries_response-Advance m s
handle_message-Advance (install_snapshot_request m) s = install_snapshot_request-Advance m s
handle_message-Advance (install_snapshot_response m) s = install_snapshot_response-Advance m s
handle_message-Advance (kv_operation_request m) s = Stays→Advance (kv_operation-Stays m s)
handle_message-Advance (apply_commit_logs_response m) s = Stays→Advance (apply_commit-Stays m s)
handle_message-Advance (generate_snapshot_response m) s =
    Stays→Advance (generate_snapshot-Stays m s)
handle_message-Advance (apply_snapshot_response m) s = Stays→Advance (apply_snapshot-Stays m s)
handle_message-Advance shutdown s = Stays→Advance (Stays-of_disk _ refl refl refl refl refl)
handle_message-Advance _ s = Advance-refl s

pub raft_loop-Advance : (s : Raft) → s.term + 1 < term_mod → Advance s (final (raft_loop s))
unfolding raft_loop
raft_loop-Advance s h =
    let t = record s { calls = s.calls + 1 } in
    let read : Stays s t = Stays-of_disk t refl refl refl refl refl in
    let now = s.platform.now s.calls in
    final-if (Advance s) (not (is_leader t.role) && leb t.election_deadline now) _ _
      (λ _. Stays-Advance read (become_candidate-Advance t h))
      λ _.
        final-if (Advance s) (is_leader t.role && leb t.heartbeat_deadline now)
          (send_append_entries true t) (done t)
          (λ _. Stays→Advance (Stays-trans read (Keeps-Stays (send_append_entries-Keeps true t))))
          (λ _. Stays→Advance read)
