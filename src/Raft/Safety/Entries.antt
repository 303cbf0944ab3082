-- ===== src/Raft/Safety/Entries.antt =====
-- The handlers of replication.
use ww_raft_kv.Prelude.{
  List, Option, [], arith, false, if◌then◌else◌, ltb, ltb→lt, min, none, not, refl, some, true,
  ◌++◌, ◌==◌, ◌∷◌,
}
use ww_raft_kv.Raft.Append.{
  accept_entries, acknowledge, advance_commit, append_response, commit_at, commit_majority,
  found_peer, handle_append_entries_request, handle_append_entries_response, majority_match,
  match_entries, peer_answered, refuse_entries, store_entries,
}
use ww_raft_kv.Raft.Commit.{apply_commit_logs, check_if_need_snapshot}
use ww_raft_kv.Raft.Commit.Keep.{apply_commit_logs-Keeps, check_if_need_snapshot-Keeps}
use ww_raft_kv.Raft.Frame.{final, final-bind, final-bind_reads, final-if}
use ww_raft_kv.Raft.Log.{get_term_at, log_match, truncate_after}
use ww_raft_kv.Raft.Log.Reading.{get_term_at-Reads, log_match-Reads}
use ww_raft_kv.Raft.Message.{AppendEntriesRequest, AppendEntriesResponse, RaftMessage}
use ww_raft_kv.Raft.Safety.Advance.{
  Advance, Advance-refl, Keeps-Stays, Stays, Stays-refl, Stays-trans, Stays-of_disk,
  Stays-of_persist, Stays→Advance,
}
use ww_raft_kv.Raft.Safety.Votes.{Advance-newer, become_follower-Advance}
use ww_raft_kv.Raft.State.{Raft, done, push}
use ww_raft_kv.Raft.Timer.{reset_election_deadline}
use ww_raft_kv.Raft.Types.{LogIndex, RaftLogEntry, RaftPeer, no_node, update_peer}
use ww_raft_kv.Raft.Vote.{is_leader}

truncate_after-Stays : (i : LogIndex) (s : Raft) → Stays s (truncate_after i s)
unfolding truncate_after
truncate_after-Stays i s =
    Stays-of_disk _ (ground arith) (ground arith) (ground arith) (ground arith) (ground arith)

push-Stays : (m : RaftMessage) (s : Raft) → Stays s (push m s)
unfolding push
push-Stays m s = Stays-of_disk _ refl refl refl refl refl

refuse_entries-Stays : (m : AppendEntriesRequest) (s : Raft) → Stays s (final (refuse_entries m s))
unfolding refuse_entries
refuse_entries-Stays m s =
    let r = append_response m s false s.platform.unset in
    let t = truncate_after m.prev_log_index s in
    let told = Stays-trans (truncate_after-Stays m.prev_log_index s) (push-Stays r t) in
    final-bind_reads (Stays s) (push r t) (get_term_at (push r t) m.prev_log_index)
      (λ _. done (push r t)) (get_term_at-Reads (push r t) m.prev_log_index) told (λ _ _. told)

store_entries-Stays : (es : List RaftLogEntry) (s : Raft) → Stays s (store_entries es s)
unfolding store_entries
store_entries-Stays [] s = Stays-refl s
store_entries-Stays (e ∷ es) s =
    Stays-of_persist (record s { logs = s.logs ++ e ∷ es }) _ refl refl refl refl
      (Stays-of_disk _ refl refl refl refl refl)

advance_commit-Stays : (i : LogIndex) (s : Raft) → Stays s (final (advance_commit i s))
unfolding advance_commit
advance_commit-Stays i s =
    let t = record s { last_commit_index = min i s.last_log_index } in
    final-if (Stays s) (ltb s.last_commit_index i) (apply_commit_logs t) (done s)
      (λ _.
        Stays-trans (Stays-of_disk t refl refl refl refl refl)
          (Keeps-Stays (apply_commit_logs-Keeps t)))
      (λ _. Stays-refl s)

reset-Stays : (s : Raft) → Stays s (reset_election_deadline s)
unfolding reset_election_deadline
reset-Stays s = Stays-of_disk _ refl refl refl refl refl

accept_entries-Stays : (m : AppendEntriesRequest) (s : Raft) → Stays s (final (accept_entries m s))
unfolding accept_entries
accept_entries-Stays m s =
    let t = reset_election_deadline s in
    let u = store_entries m.entries t in
    final-bind (Stays s) (advance_commit m.leader_commit u)
      (λ v. done (push (append_response m v true v.last_log_index) v))
      (Stays-trans (reset-Stays s)
        (Stays-trans (store_entries-Stays m.entries t) (advance_commit-Stays m.leader_commit u)))
      λ v e h. Stays-trans h (push-Stays _ v)

match_entries-Stays : (m : AppendEntriesRequest) (s : Raft) → Stays s (final (match_entries m s))
unfolding match_entries
match_entries-Stays m s =
    final-bind_reads (Stays s) s (log_match s m.prev_log_index m.prev_log_term)
      (λ matched. if matched then accept_entries m s else refuse_entries m s)
      (log_match-Reads s m.prev_log_index m.prev_log_term) (Stays-refl s)
      λ matched e.
        final-if (Stays s) matched (accept_entries m s) (refuse_entries m s)
          (λ _. accept_entries-Stays m s) (λ _. refuse_entries-Stays m s)

pub append_entries_request-Advance :
    (m : AppendEntriesRequest) (s : Raft) → Advance s (final (handle_append_entries_request m s))
unfolding handle_append_entries_request
append_entries_request-Advance m s =
    final-if (Advance s) (ltb m.term s.term) _ _ (λ _. Stays→Advance (push-Stays _ s))
      (λ _.
        Advance-newer (λ t. final (match_entries m t))
          (λ t. Stays→Advance (match_entries-Stays m t)) m.term m.from s)

pub commit_at-Stays : (i : LogIndex) (s : Raft) → Stays s (final (commit_at i s))
unfolding commit_at
commit_at-Stays i s =
    let t = record s { last_commit_index = i } in
    final-bind (Stays s) (apply_commit_logs t) check_if_need_snapshot
      (Stays-trans (Stays-of_disk t refl refl refl refl refl)
        (Keeps-Stays (apply_commit_logs-Keeps t)))
      λ u e h. Stays-trans h (Keeps-Stays (check_if_need_snapshot-Keeps u))

commit_majority-Stays : (s : Raft) → Stays s (final (commit_majority s))
unfolding commit_majority
commit_majority-Stays s =
    final-bind_reads (Stays s) s (get_term_at s (majority_match s))
      (λ term. if term == s.term then commit_at (majority_match s) s else done s)
      (get_term_at-Reads s (majority_match s)) (Stays-refl s)
      λ term e.
        final-if (Stays s) (term == s.term) (commit_at (majority_match s) s) (done s)
          (λ _. commit_at-Stays _ s) (λ _. Stays-refl s)

peer_answered-Stays : (m : AppendEntriesResponse) (s : Raft) → Stays s (final (peer_answered m s))
unfolding peer_answered
peer_answered-Stays m s =
    let t = record s { peers = update_peer m.from (acknowledge m.last_log_index) s.peers } in
    final-if (Stays s) (not m.success) _ (commit_majority t)
      (λ _. Stays-of_disk _ refl refl refl refl refl)
      (λ _. Stays-trans (Stays-of_disk t refl refl refl refl refl) (commit_majority-Stays t))

found_peer-Stays :
    (m : AppendEntriesResponse) (s : Raft) (o : Option RaftPeer)
    → Stays s (final (found_peer m s o))
unfolding found_peer
found_peer-Stays m s none = Stays-refl s
found_peer-Stays m s (some p) = peer_answered-Stays m s

pub append_entries_response-Advance :
    (m : AppendEntriesResponse) (s : Raft) → Advance s (final (handle_append_entries_response m s))
unfolding handle_append_entries_response
append_entries_response-Advance m s =
    final-if (Advance s) (not (is_leader s.role)) _ _ (λ _. Advance-refl s)
      λ _.
        final-if (Advance s) (ltb s.term m.term) _ _
          (λ h. become_follower-Advance no_node m.term s (ltb→lt _ _ h))
          λ _. Stays→Advance (found_peer-Stays m s _)
