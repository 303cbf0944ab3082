-- ===== src/Raft/Integrity/Answers.antt =====
-- The handler of the answers to a leader's entries.
use ww_raft_kv.Prelude.{Option, arith, if◌then◌else◌, ltb, none, not, refl, some, ◌==◌, ◌≡◌, ◌≤◌}
use ww_raft_kv.Raft.Append.{
  acknowledge, commit_at, commit_majority, found_peer, handle_append_entries_response,
  majority_match, peer_answered,
}
use ww_raft_kv.Raft.Commit.{apply_commit_logs, check_if_need_snapshot}
use ww_raft_kv.Raft.Integrity.Invariant.{Good, Good-bind, Good-if, Good-reads, Inv, Inv-of_fields}
use ww_raft_kv.Raft.Integrity.Sending.{apply_commit_logs-Good, check_if_need_snapshot-Good}
use ww_raft_kv.Raft.Integrity.Votes.{become_follower-Inv}
use ww_raft_kv.Raft.Log.{get_term_at}
use ww_raft_kv.Raft.Log.Contiguous.{get_term_at-returns}
use ww_raft_kv.Raft.Message.{AppendEntriesResponse}
use ww_raft_kv.Raft.State.{Raft, done}
use ww_raft_kv.Raft.Types.{LogIndex, RaftPeer, TermId, find_peer, no_node, update_peer}
use ww_raft_kv.Raft.Vote.{is_leader}

-- A term that is not 0 is the term of an entry that the node has.
term_in_log :
    (i : LogIndex) (s : Raft) {x : TermId}
    → Inv s
    → get_term_at s i ≡ done x
    → 1 ≤ x
    → i ≤ s.last_log_index
unfolding get_term_at
term_in_log i s v h k = ground (arith, v.applied_ge, v.applied_le)

commit_at-Good : (i : LogIndex) (s : Raft) → Inv s → i ≤ s.last_log_index → Good (commit_at i s)
unfolding commit_at
commit_at-Good i s v h =
    let t = record s { last_commit_index = i } in
    Good-bind (apply_commit_logs t) check_if_need_snapshot
      (apply_commit_logs-Good t (record {
        contiguous = record { base = v.contiguous.base; span = v.contiguous.span };
        base = v.base;
        applied_ge = v.applied_ge;
        applied_le = v.applied_le;
        commit_le = h;
        ranked = v.ranked;
      }))
      λ u e w. check_if_need_snapshot-Good u w

commit_majority-Good : (s : Raft) → 1 ≤ s.term → Inv s → Good (commit_majority s)
unfolding commit_majority
commit_majority-Good s led v =
    Good-reads (get_term_at s (majority_match s))
      (λ term. if term == s.term then commit_at (majority_match s) s else done s)
      (get_term_at-returns s v.contiguous (majority_match s))
      λ term e.
        Good-if (term == s.term) (commit_at (majority_match s) s) (done s)
          (λ same.
            commit_at-Good (majority_match s) s v
              (term_in_log (majority_match s) s v e (ground arith)))
          (λ _. v)

found_peer-Good :
    (m : AppendEntriesResponse) (s : Raft) (o : Option RaftPeer)
    → 1 ≤ s.term
    → Inv s
    → Good (found_peer m s o)
unfolding found_peer peer_answered
found_peer-Good m s none led v = v
found_peer-Good m s (some p) led v =
    let t = record s { peers = update_peer m.from (acknowledge m.last_log_index) s.peers } in
    Good-if (not m.success) _ (commit_majority t)
      (λ _. Inv-of_fields _ refl refl refl refl refl refl v.ranked v)
      (λ _. commit_majority-Good t led (Inv-of_fields t refl refl refl refl refl refl v.ranked v))

pub append_entries_response-Good :
    (m : AppendEntriesResponse) (s : Raft) → Inv s → Good (handle_append_entries_response m s)
unfolding handle_append_entries_response
append_entries_response-Good m s v =
    Good-if (not (is_leader s.role)) _ _ (λ _. v)
      λ leads.
        Good-if (ltb s.term m.term) _ _ (λ _. become_follower-Inv no_node m.term s v)
          λ _.
            found_peer-Good m s (find_peer m.from s.peers)
              (v.ranked (λ e. ground (arith, e, leads))) v
