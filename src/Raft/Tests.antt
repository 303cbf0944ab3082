-- ===== src/Raft/Tests.antt =====
-- Runs of the consensus layer on small nodes.
use ww_raft_kv.Prelude.{
  List, [], arith, eq_ℤ, false, if◌then◌else◌, inr, none, pos, refl, true, ◌++◌, ◌↔◌, ◌∷◌, ◌≡◌, ◌≢◌,
}
use ww_raft_kv.Raft.Append.{
  acknowledge, commit_at, commit_majority, found_peer, handle_append_entries_request,
  handle_append_entries_response, insert_sorted, majority_match, match_index_of, peer_answered,
  sort,
}
use ww_raft_kv.Raft.Append.Majority.{IsMajority, answered, answered-IsMajority}
use ww_raft_kv.Raft.Append.Requests.{Grown, accepted_at_end, conflict_faults}
use ww_raft_kv.Raft.Commit.{
  apply_commit_logs, check_if_need_snapshot, collect, generate_snapshot, hand_over,
}
use ww_raft_kv.Raft.Commit.Range.{apply_commit_logs-entries}
use ww_raft_kv.Raft.Dispatch.{handle_message, raft_loop}
use ww_raft_kv.Raft.Frame.{final}
use ww_raft_kv.Raft.Integrity.Invariant.{Inv, new-Inv}
use ww_raft_kv.Raft.Integrity.Messages.{handle_message-Inv, raft_loop-Inv}
use ww_raft_kv.Raft.Log.{get_log_at, get_term_at, log_match, log_up_to_date}
use ww_raft_kv.Raft.Message.{
  AppendEntriesRequest, AppendEntriesResponse, RequestVoteRequest, append_entries_request,
  apply_commit_logs_request, get, request_vote_response,
}
use ww_raft_kv.Raft.Persist.{new}
use ww_raft_kv.Raft.Role.{become_leader}
use ww_raft_kv.Raft.Safety.Advance.{Writes}
use ww_raft_kv.Raft.Safety.Restarts.{Readable}
use ww_raft_kv.Raft.Snapshot.{handle_apply_snapshot}
use ww_raft_kv.Raft.Snapshot.Alignment.{apply_snapshot-misaligned}
use ww_raft_kv.Raft.State.{
  Platform, Raft, RaftRole, candidate, done, failed, follower, leader, out_of_range, push,
}
use ww_raft_kv.Raft.Types.{
  LogIndex, NodeId, RaftLogEntry, RaftPeer, TermId, find_peer, no_node, set_match_index,
  set_next_index, update_peer,
}
use ww_raft_kv.Raft.Vote.{handle_request_vote_request}
use ww_raft_kv.Raft.Vote.Election.{new_leader_grants}
use ww_raft_kv.Raft.Vote.Grant.{AtLeast, deserves, log_up_to_date_iff, vote_answer, voted_for-after}

-- A machine on which no call of a library fails, and whose clock counts the calls.
abbrev pub machine : Platform
machine = record {
  now = λ n. n;
  draw = λ n lo hi. lo;
  serializes = λ n. true;
  opens = λ n. true;
  parses = λ n. true;
  unset = 0;
  unset_id = pos 0;
  unset_op = get;
}

pub machine-Readable : Readable machine
machine-Readable n = (refl, refl)

pub machine-Writes : Writes machine
machine-Writes n = (refl, refl)

abbrev pub three_peers : List RaftPeer
three_peers =
    record { id = pos 1; next_index = 3; match_index = 0 }
    ∷ record { id = pos 2; next_index = 3; match_index = 2 }
    ∷ record { id = pos 3; next_index = 2; match_index = 0 }
    ∷ []

abbrev entry : TermId → RaftLogEntry
entry term = record { uuid = "client"; sequence_id = 7; term = term; command = "put a b" }

-- A node in term 3, with entries of the terms 1 and 3, the first of them committed and applied.
abbrev pub node : RaftRole → Raft
node role = record {
  id = pos 1;
  role = role;
  term = 3;
  vote_count = 1;
  voted_for = pos 1;
  leader_id = pos 1;
  logs = entry 1 ∷ entry 3 ∷ [];
  base_index = 1;
  last_log_index = 2;
  last_log_term = 3;
  last_included_index = 0;
  last_included_term = 0;
  last_commit_index = 1;
  last_applied_index = 1;
  is_applying = false;
  is_snapshoting = false;
  peers = three_peers;
  inner_channel = [];
  outter_channel = [];
  election_timeout_min = 150;
  election_timeout_max = 300;
  heartbeat_timeout = 50;
  election_deadline = 0;
  heartbeat_deadline = 0;
  running = true;
  platform = machine;
  calls = 0;
  disk = none;
}

node-Inv : (role : RaftRole) → Inv (node role)
node-Inv role = record {
  contiguous = record { base = omega arith; span = omega arith };
  base = refl;
  applied_ge = omega arith;
  applied_le = omega arith;
  commit_le = omega arith;
  ranked = λ _. omega arith;
}

-- A node with one entry that is committed and not yet applied.
abbrev behind : Raft
behind = record (node follower) { last_commit_index = 2 }

behind-Inv : Inv behind
behind-Inv = record {
  contiguous = record { base = omega arith; span = omega arith };
  base = refl;
  applied_ge = omega arith;
  applied_le = omega arith;
  commit_le = omega arith;
  ranked = λ _. omega arith;
}

abbrev vote_request_of : NodeId → TermId → RequestVoteRequest
vote_request_of from term = record {
  seq = 5;
  from = from;
  to = pos 1;
  term = term;
  last_log_index = 2;
  last_log_term = 3;
}

abbrev entries_request_of : LogIndex → TermId → AppendEntriesRequest
entries_request_of prev_log_index prev_log_term = record {
  seq = 6;
  term = 4;
  from = pos 2;
  to = pos 1;
  prev_log_index = prev_log_index;
  prev_log_term = prev_log_term;
  leader_commit = 2;
  entries = entry 4 ∷ [];
}

vote_answer_example :
    (handle_request_vote_request (vote_request_of (pos 2) 4) (node candidate)).inner_channel
    ≡ request_vote_response (record {
      seq = 5;
      term = 4;
      vote_granted = deserves (vote_request_of (pos 2) 4) (node candidate);
    })
      ∷ []
vote_answer_example = vote_answer (vote_request_of (pos 2) 4) (node candidate)

voted_for-after_example :
    (handle_request_vote_request (vote_request_of (pos 2) 4) (node candidate)).voted_for
    ≡ (if deserves (vote_request_of (pos 2) 4) (node candidate) then pos 2 else no_node)
voted_for-after_example = voted_for-after (vote_request_of (pos 2) 4) (node candidate)

granted : deserves (vote_request_of (pos 2) 4) (node candidate) ≡ true
unfolding deserves eq_ℤ
granted = refl

log_up_to_date_iff_example : (log_up_to_date (node leader) 1 4 ≡ true) ↔ AtLeast 3 2 4 1
log_up_to_date_iff_example = log_up_to_date_iff (node leader) 1 4

new_leader_grants_example :
    let t = final (become_leader (node candidate)) in
    let u = handle_request_vote_request (vote_request_of (pos 2) 3) t in
    (u.role ≡ leader)
    × (u.term ≡ 3)
    × (u.voted_for ≡ pos 2)
    × (u.inner_channel
        ≡ t.inner_channel
          ++ request_vote_response (record { seq = 5; term = 3; vote_granted = true }) ∷ [])
new_leader_grants_example =
    new_leader_grants (vote_request_of (pos 2) 3) (node candidate) refl (inr (refl, omega arith))

handle_message-Inv_example :
    (t : Raft) × (handle_message (append_entries_request (entries_request_of 2 3)) (node follower)
      ≡ done t)
    × Inv t
unfolding get_term_at
handle_message-Inv_example =
    handle_message-Inv (append_entries_request (entries_request_of 2 3)) (node follower)
      (node-Inv follower) (λ h k. refl)

raft_loop-Inv_example : (t : Raft) × (raft_loop (node follower) ≡ done t) × Inv t
raft_loop-Inv_example = raft_loop-Inv (node follower) (node-Inv follower) (omega arith)

new-Inv_example : Inv (new (pos 1) three_peers machine none)
new-Inv_example = new-Inv (pos 1) three_peers machine none

conflict_faults_example :
    (t : Raft) × (handle_append_entries_request (entries_request_of 2 2) (node follower)
      ≡ failed out_of_range t)
unfolding get_term_at
conflict_faults_example =
    conflict_faults (entries_request_of 2 2) (node follower) (node-Inv follower) (omega arith)
      (record {
        above = omega arith;
        within = omega arith;
        found_term = 3;
        found = refl;
        differs = λ e. omega arith;
      })

accepted_at_end_example :
    (t : Raft) × (handle_append_entries_request (entries_request_of 1 1) (node follower) ≡ done t)
    × Inv t
    × Grown (entry 4 ∷ []) (node follower) t
unfolding log_match get_term_at
accepted_at_end_example =
    accepted_at_end (entries_request_of 1 1) (node follower) (node-Inv follower) (omega arith) refl

apply_snapshot-misaligned_example :
    (t : Raft) × (handle_apply_snapshot
        (record { seq = 8; last_included_index = pos 9; last_included_term = 3 })
        (node follower)
      ≡ done t)
    × (t.last_included_index ≡ 9)
    × (t.base_index ≢ 10)
apply_snapshot-misaligned_example =
    apply_snapshot-misaligned
      (record { seq = 8; last_included_index = pos 9; last_included_term = 3 }) (node follower) 9
      (node-Inv follower) refl (λ e. omega arith)

apply_commit_logs-entries_example :
    apply_commit_logs behind
    ≡ done (record behind {
      is_applying = true;
      inner_channel =
          apply_commit_logs_request (record { last_commit_index = 2; entries = entry 3 ∷ [] }) ∷ [];
    })
apply_commit_logs-entries_example = apply_commit_logs-entries behind behind-Inv refl

abbrev success_from_3 : AppendEntriesResponse
success_from_3 = record { seq = 9; from = pos 3; term = 3; success = true; last_log_index = 2 }

answered-IsMajority_example :
    IsMajority
      (answered success_from_3 (node leader)).last_commit_index
      (answered success_from_3 (node leader))
unfolding handle_append_entries_response found_peer peer_answered find_peer update_peer acknowledge
    set_next_index set_match_index commit_majority majority_match sort insert_sorted match_index_of
    get_term_at commit_at apply_commit_logs hand_over collect get_log_at push check_if_need_snapshot
    generate_snapshot eq_ℤ
answered-IsMajority_example =
    answered-IsMajority success_from_3 (node leader) ((λ e. refl), ((λ e. cc), ((λ e. cc), tt)))
      (λ e. cc) (λ e. omega arith) (omega arith)
