-- ===== src/Raft/Integrity/Messages.antt =====
-- Every message that fits, and every round of the timer, on a whole log.
use ww_raft_kv.Prelude.{arith, leb, not, refl, true, ◌&&◌, ◌+◌, ◌<◌, ◌≡◌}
use ww_raft_kv.Raft.Dispatch.{handle_message, raft_loop}
use ww_raft_kv.Raft.Integrity.Answers.{append_entries_response-Good}
use ww_raft_kv.Raft.Integrity.Entries.{NoConflict, append_entries_request-Good}
use ww_raft_kv.Raft.Integrity.Invariant.{
  Good, Good-if, Inv, Inv-Keeps, Inv-of_fields, returns_of_Good,
}
use ww_raft_kv.Raft.Integrity.Sending.{send_append_entries-Good}
use ww_raft_kv.Raft.Integrity.Snapshots.{
  AppliedFits, NotApplied, SnapshotFits, apply_commit-Good, apply_snapshot-Good,
  generate_snapshot-Good, install_snapshot_request-Inv, install_snapshot_response-Inv,
  kv_operation-Good,
}
use ww_raft_kv.Raft.Integrity.Votes.{request_vote_request-Inv, request_vote_response-Good}
use ww_raft_kv.Raft.Message.{
  RaftMessage, append_entries_request, append_entries_response, apply_commit_logs_response,
  apply_snapshot_response, generate_snapshot_response, install_snapshot_request,
  install_snapshot_response, kv_operation_request, request_vote_request, request_vote_response,
  shutdown,
}
use ww_raft_kv.Raft.Role.{become_candidate, campaign, send_append_entries}
use ww_raft_kv.Raft.Role.Keep.{request_votes-Keeps}
use ww_raft_kv.Raft.State.{Raft, done}
use ww_raft_kv.Raft.Timer.{reset_election_deadline}
use ww_raft_kv.Raft.Types.{term_mod}
use ww_raft_kv.Raft.Vote.{is_leader}

-- What is asked of a message: a leader's entries contradict none that the node has, the application
-- answers about entries that the node has, about a snapshot of its own from the last one on and of
-- entries that are applied, and about no snapshot of another node.
abbrev pub Fits : RaftMessage → Raft → Type 0
Fits (append_entries_request m) s = NoConflict m s
Fits (apply_commit_logs_response m) s = AppliedFits m s
Fits (generate_snapshot_response m) s = SnapshotFits m s
Fits (apply_snapshot_response m) s = NotApplied m
Fits _ s = Unit

message-Good : (m : RaftMessage) (s : Raft) → Inv s → Fits m s → Good (handle_message m s)
unfolding handle_message
message-Good (request_vote_request m) s v f = request_vote_request-Inv m s v
message-Good (request_vote_response m) s v f = request_vote_response-Good m s v
message-Good (append_entries_request m) s v f = append_entries_request-Good m s v f
message-Good (append_entries_response m) s v f = append_entries_response-Good m s v
message-Good (install_snapshot_request m) s v f = install_snapshot_request-Inv m s v
message-Good (install_snapshot_response m) s v f = install_snapshot_response-Inv m s v
message-Good (kv_operation_request m) s v f = kv_operation-Good m s v
message-Good (apply_commit_logs_response m) s v f = apply_commit-Good m s v f
message-Good (generate_snapshot_response m) s v f = generate_snapshot-Good m s v f
message-Good (apply_snapshot_response m) s v f = apply_snapshot-Good m s v f
message-Good shutdown s v f = Inv-of_fields _ refl refl refl refl refl refl v.ranked v
message-Good _ s v f = v

-- On a whole log, with every index in its bounds, the handling of a message that fits returns, and
-- the log is whole after it. A message fits unless it is one of four: a leader's request that
-- contradicts an entry of the node; an answer of the application that it has applied entries up to
-- an index before the node's snapshot or past its log; its answer that it has made a snapshot up to
-- an index before the node's last snapshot or past the last index that the node knows to be applied;
-- or its answer that it has applied a leader's snapshot.
pub handle_message-Inv :
    (m : RaftMessage) (s : Raft)
    → Inv s
    → Fits m s
    → (t : Raft) × (handle_message m s ≡ done t) × Inv t
handle_message-Inv m s v f = returns_of_Good (handle_message m s) (message-Good m s v f)

become_candidate-Inv : (s : Raft) → s.term + 1 < term_mod → Inv s → Inv (become_candidate s)
unfolding become_candidate reset_election_deadline
become_candidate-Inv s h v =
    let t = campaign s in
    let w : Inv t =
      unfold campaign in Inv-of_fields t refl refl refl refl refl refl (λ _. omega arith) v in
    let x = Inv-Keeps (request_votes-Keeps t.peers t) w in
    Inv-of_fields _ refl refl refl refl refl refl x.ranked x

raft_loop-Good : (s : Raft) → s.term + 1 < term_mod → Inv s → Good (raft_loop s)
unfolding raft_loop
raft_loop-Good s h v =
    let t = record s { calls = s.calls + 1 } in
    let w : Inv t = Inv-of_fields t refl refl refl refl refl refl v.ranked v in
    let now = s.platform.now s.calls in
    Good-if (not (is_leader t.role) && leb t.election_deadline now) _ _
      (λ _. become_candidate-Inv t h w)
      λ _.
        Good-if (is_leader t.role && leb t.heartbeat_deadline now) (send_append_entries true t)
          (done t) (λ _. send_append_entries-Good true t w) (λ _. w)

-- On a whole log, in a term that is not the last of its type, a round of the timer returns, and
-- the log is whole after it.
pub raft_loop-Inv :
    (s : Raft) → Inv s → s.term + 1 < term_mod → (t : Raft) × (raft_loop s ≡ done t) × Inv t
raft_loop-Inv s v h = returns_of_Good (raft_loop s) (raft_loop-Good s h v)
