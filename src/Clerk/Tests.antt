-- ===== src/Clerk/Tests.antt =====
-- The node of Fixtures at work.
use mathlib.Core.Logic.{if_neg, if_pos}
use mathlib.Core.Option.{some-injective}
use ww_raft_kv.Clerk.Apply.{apply_commit_logs, step_raft}
use ww_raft_kv.Clerk.Clients.{Served, get-Served, no_leader_undefined}
use ww_raft_kv.Clerk.Command.{Store, apply_command}
use ww_raft_kv.Clerk.Command.Effect.{Steps, content}
use ww_raft_kv.Clerk.Command.RoundTrip.{
  apply_command-command_of, apply_command-split_key, requested,
}
use ww_raft_kv.Clerk.Dispatch.{handle_message, max_level}
use ww_raft_kv.Clerk.Entries.{
  Serves, answer_of, commands, no_client, none_left, run_commands, with_client,
}
use ww_raft_kv.Clerk.Entries.Commit.{apply_commit_logs_agree, apply_commit_logs_lem}
use ww_raft_kv.Clerk.Fixtures.{
  closure, count_up, fresh_node, full_node, host, one_key, pairs_discrete, peer, texts,
}
use ww_raft_kv.Clerk.Receive.{handle_kv_operation_request, handle_request_vote_request}
use ww_raft_kv.Clerk.Replies.{handle_message-answers, same_number_undefined}
use ww_raft_kv.Clerk.Rounds.{round}
use ww_raft_kv.Clerk.Send.{client_at, send_install_snapshot_request}
use ww_raft_kv.Clerk.Snapshot.{apply_snapshot, generate_snapshot}
use ww_raft_kv.Clerk.Snapshot.Answered.{
  AppliedSnapshot, Generated, NotAppliedSnapshot, NotGenerated, apply_snapshot-answers,
  generate_snapshot-answers,
}
use ww_raft_kv.Clerk.Snapshot.Transfer.{snapshot_transfer}
use ww_raft_kv.Clerk.State.{
  ProtoInstallSnapshotRequest, ProtoKvOperationRequest, ProtoRequestVoteRequest, RaftClerk,
  RaftSnapshotData, Response, append_entries, call_install_snapshot, execute, request_vote,
  request_vote_reply,
}
use ww_raft_kv.Clerk.Wire.{Carried, append_entries-Carried}
use ww_raft_kv.KvStore.Map.{new-Shape}
use ww_raft_kv.Prelude.{
  List, String, [], ap, arith, if◌then◌else◌, map, none, none-some, pos, refl, some, subst, sym,
  true, ℕ, ◌-◌, ◌==◌, ◌∙◌, ◌∷◌, ◌≡◌, ◌⊎◌,
}
use ww_raft_kv.Raft.Client.{command_of}
use ww_raft_kv.Raft.Message.{
  AppendEntriesRequest, ApplyCommitLogsRequest, ApplySnapshotRequest, InstallSnapshotRequest,
  OperationType, RaftMessage, apply_commit_logs_response, request_vote_response,
}
use ww_raft_kv.Raft.State.{Platform}
use ww_raft_kv.Raft.Types.{RaftLogEntry}
use ww_raft_kv.SkipList.Shape.{Entry, Shape}
use ww_raft_kv.SkipList.Visited.{pair_of}
use ww_raft_kv.Raft.Persist
use ww_raft_kv.Raft.State
use ww_raft_kv.Table

apply_command-command_of_example :
    Steps count_up
      (requested OperationType.put "b" "2" (content count_up one_key.1))
      (apply_command count_up (command_of OperationType.put "b" "2") one_key.0)
apply_command-command_of_example =
    apply_command-command_of count_up OperationType.put "b" "2" one_key.3 (refl, tt) (refl, tt)

apply_command-split_key_example :
    Steps count_up
      (requested OperationType.put "a" "key" (content count_up one_key.1))
      (apply_command count_up (command_of OperationType.put "a key" "2") one_key.0)
apply_command-split_key_example =
    apply_command-split_key count_up "a" "key" "2" one_key.3 (refl, tt) (refl, (refl, (refl, tt)))

-- One entry of a client that waits, and one that no client waits for.
abbrev entry : String → ℕ → String → RaftLogEntry
entry uuid n command = record { uuid = uuid; sequence_id = n; term = 1; command = command }

abbrev commit : ApplyCommitLogsRequest
commit = record {
  last_commit_index = 2;
  entries = entry "client" 7 "put b 2" ∷ entry "" 0 "delete a" ∷ [];
}

abbrev foreign_commit : ApplyCommitLogsRequest
foreign_commit = record {
  last_commit_index = 2;
  entries = entry "" 0 "put b 2" ∷ entry "" 0 "delete a" ∷ [];
}

abbrev serving_node : RaftClerk
serving_node = record full_node {
  pending_kv_requests = ("client", (7, closure execute 7 1) ∷ []) ∷ [];
}

abbrev served :
    Serves commit.entries serving_node.pending_kv_requests
      (content count_up one_key.1)
      ((closure execute 7 1, answer_of (entry "client" 7 "put b 2") (content count_up one_key.1))
        ∷ [])
      (("client", []) ∷ [])
unfolding Table.lookup Table.assign Table.erase
served = with_client refl refl refl refl (no_client refl none_left)

abbrev nobody_served : Serves foreign_commit.entries [] (content count_up one_key.1) [] []
nobody_served = no_client refl (no_client refl none_left)

apply_commit_logs_lem_example :
    (t : Store) × (fs : List (Entry String String)) × (apply_commit_logs commit serving_node
      ≡ some (
          step_raft
            (apply_commit_logs_response (record { last_commit_index = 2 }))
            (record serving_node {
              kv_store = t;
              pending_kv_requests = ("client", []) ∷ [];
              replies =
                  (
                    closure execute 7 1,
                    answer_of (entry "client" 7 "put b 2") (content count_up one_key.1),
                  )
                  ∷ [];
            })))
    × Shape texts t fs
    × (content count_up fs ≡ run_commands (commands commit.entries) (content count_up one_key.1))
apply_commit_logs_lem_example = apply_commit_logs_lem commit serving_node one_key.3 served

apply_commit_logs_agree_example :
    (c' d' : RaftClerk) × (gs hs : List (Entry String String)) × (apply_commit_logs commit
        serving_node
      ≡ some c')
    × (apply_commit_logs foreign_commit full_node ≡ some d')
    × Shape texts c'.kv_store gs
    × Shape texts d'.kv_store hs
    × (content count_up gs ≡ content count_up hs)
apply_commit_logs_agree_example =
    apply_commit_logs_agree commit foreign_commit serving_node full_node one_key.3 one_key.3 refl
      refl served nobody_served

generate_snapshot-answers_example :
    (d : RaftClerk) × (generate_snapshot
        (record { last_applied_index = 3; last_applied_term = 1 })
        full_node
      ≡ some d)
    × (Generated (record { last_applied_index = 3; last_applied_term = 1 }) full_node one_key.1 d
        ⊎ NotGenerated full_node d)
generate_snapshot-answers_example =
    generate_snapshot-answers full_node one_key.3
      (record { last_applied_index = 3; last_applied_term = 1 })

abbrev snapshot : ApplySnapshotRequest
snapshot = record { seq = 4; last_included_index = 3; last_included_term = 1; snapshot = "one" }

apply_snapshot-answers_example :
    (d : RaftClerk) × (apply_snapshot snapshot full_node ≡ some d)
    × (AppliedSnapshot full_node one_key.3 snapshot d
        ⊎ NotAppliedSnapshot full_node one_key.3 snapshot d)
apply_snapshot-answers_example = apply_snapshot-answers full_node one_key.3 snapshot

abbrev install_request : InstallSnapshotRequest
install_request = record {
  seq = 0;
  term = 1;
  from = pos 0;
  to = pos 1;
  last_included_index = 3;
  last_included_term = 1;
  snapshot = "";
}

one_coded : host.serialize (map pair_of one_key.1) ≡ some "one"
one_coded = if_pos (pairs_discrete _ _) refl (some "one") none

host_law :
    (entries : RaftSnapshotData) (coded : String)
    → host.serialize entries ≡ some coded
    → host.parse coded ≡ some entries
host_law entries coded e = elim (pairs_discrete entries (map pair_of one_key.1)) [
  | yes p ↦
      let text = some-injective _ _ (sym (if_pos (pairs_discrete entries _) p _ _) ∙ e) in
      subst (λ t. host.parse t ≡ some entries) text (ap some (sym p))
  | no n ↦ absurd (none-some (sym (if_neg (pairs_discrete entries _) n _ _) ∙ e))
]

snapshot_transfer_example :
    (a' a'' b' : RaftClerk) × (q : ProtoInstallSnapshotRequest) × (gs : List (Entry String String))
    × (generate_snapshot (record { last_applied_index = 3; last_applied_term = 1 }) full_node
        ≡ some a')
    × (send_install_snapshot_request install_request a' ≡ some a'')
    × (a''.calls ≡ call_install_snapshot (peer 1) (pos 1) q ∷ [])
    × (q.snapshot ≡ "one")
    × (apply_snapshot snapshot fresh_node ≡ some b')
    × Shape texts b'.kv_store gs
    × (content count_up gs ≡ content count_up one_key.1)
unfolding client_at
snapshot_transfer_example =
    snapshot_transfer (record { last_applied_index = 3; last_applied_term = 1 }) install_request
      snapshot full_node fresh_node (peer 1) "one" one_key.3 (new-Shape texts (max_level - 1))
      one_coded host_law refl refl refl refl refl

abbrev waiting_node : RaftClerk
waiting_node = record full_node { pending_requests = (1, closure request_vote 1 5) ∷ [] }

abbrev vote : ℕ → RaftMessage
vote n = request_vote_response (record { seq = n; term = 2; vote_granted = true })

abbrev vote_reply : Response
vote_reply = request_vote_reply (record { term = 2; vote_granted = true })

handle_message-answers_example :
    (d : RaftClerk) × (handle_message (vote 1) waiting_node ≡ some d)
    × (d.replies ≡ (closure request_vote 1 5, vote_reply) ∷ [])
    × ((k : ℕ)
        → Table.lookup ◌==◌ k d.pending_requests
          ≡ (if 1 == k then none else Table.lookup ◌==◌ k waiting_node.pending_requests))
unfolding Table.lookup
handle_message-answers_example =
    handle_message-answers (vote 1) 1 vote_reply (closure request_vote 1 5) waiting_node refl refl
      refl

abbrev vote_request : ℕ → ProtoRequestVoteRequest
vote_request id = record { term = 2; candidate_id = pos id; last_log_index = 0; last_log_term = 0 }

-- The first requests of two nodes.
same_number_undefined_example :
    (d : RaftClerk) × (handle_message (vote 1) (
        handle_request_vote_request
          (vote_request 2)
          (closure request_vote 1 6)
          (handle_request_vote_request (vote_request 1) (closure request_vote 1 5) full_node))
      ≡ some d)
    × (d.replies ≡ (closure request_vote 1 6, vote_reply) ∷ [])
    × (handle_message (vote 1) d ≡ none)
same_number_undefined_example =
    same_number_undefined (vote_request 1) (vote_request 2) (closure request_vote 1 5)
      (closure request_vote 1 6) (vote 1) (vote 1) vote_reply vote_reply full_node refl refl refl
      refl

abbrev read_request : ProtoKvOperationRequest
read_request = record { op_type = 3; uuid = "client"; key = "a"; value = "" }

no_leader_undefined_example :
    round (handle_kv_operation_request read_request (closure execute 7 1) full_node) ≡ none
unfolding Persist.new
no_leader_undefined_example =
    no_leader_undefined read_request (closure execute 7 1) full_node refl refl refl refl

abbrev leading_node : RaftClerk
unfolding Persist.new
leading_node = record full_node { raft = record full_node.raft { role = State.leader } }

get-Served_example :
    Served leading_node one_key.1 "a"
      (closure execute 7 1)
      (round (handle_kv_operation_request read_request (closure execute 7 1) leading_node))
unfolding Persist.new
get-Served_example =
    get-Served read_request (closure execute 7 1) leading_node refl refl refl refl refl one_key.3

abbrev entries_request : AppendEntriesRequest
entries_request = record {
  seq = 0;
  term = 2;
  from = pos 0;
  to = pos 1;
  prev_log_index = 1;
  prev_log_term = 1;
  leader_commit = 1;
  entries = entry "client" 7 "put b 2" ∷ [];
}

first_peer : client_at entries_request.to full_node.clients ≡ some (peer 1)
unfolding client_at
first_peer = refl

append_entries-Carried_example :
    Carried entries_request full_node fresh_node (closure append_entries 3 5) (peer 1) first_peer 1
append_entries-Carried_example =
    append_entries-Carried entries_request full_node fresh_node (closure append_entries 3 5)
      (peer 1) first_peer (omega arith)
