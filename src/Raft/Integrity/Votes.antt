-- ===== src/Raft/Integrity/Votes.antt =====
-- The handlers of votes.
use ww_raft_kv.Prelude.{arith, length, ltb, not, refl, true, ◌+◌, ◌/◌, ◌≤◌}
use ww_raft_kv.Raft.Frame.{if_lem}
use ww_raft_kv.Raft.Integrity.Invariant.{Good, Good-bind, Good-if, Inv, Inv-of_fields}
use ww_raft_kv.Raft.Integrity.Sending.{send_append_entries-Good}
use ww_raft_kv.Raft.Message.{RequestVoteRequest, RequestVoteResponse}
use ww_raft_kv.Raft.Role.{become_follower, become_leader, elected, send_append_entries}
use ww_raft_kv.Raft.State.{Raft, done}
use ww_raft_kv.Raft.Timer.{reset_heartbeat_deadline}
use ww_raft_kv.Raft.Types.{NodeId, TermId, no_node}
use ww_raft_kv.Raft.Vote.{
  cast_vote, count_vote, handle_request_vote_request, handle_request_vote_response, is_candidate,
}

pub become_follower-Inv :
    (id : NodeId) (term : TermId) (s : Raft) → Inv s → Inv (become_follower id term s)
unfolding become_follower
become_follower-Inv id term s v =
    Inv-of_fields _ refl refl refl refl refl refl (λ h. absurd (h refl)) v

cast_vote-Inv : (m : RequestVoteRequest) (s : Raft) → Inv s → Inv (cast_vote m s)
unfolding cast_vote
cast_vote-Inv m s v =
    Inv-of_fields _ (ground arith) (ground arith) (ground arith) (ground arith) (ground arith)
      (ground arith) (ground (arith, v.ranked)) v

pub request_vote_request-Inv :
    (m : RequestVoteRequest) (s : Raft) → Inv s → Inv (handle_request_vote_request m s)
unfolding handle_request_vote_request
request_vote_request-Inv m s v =
    if_lem Inv (ltb m.term s.term) _ _
      (λ _. Inv-of_fields _ refl refl refl refl refl refl v.ranked v)
      λ _.
        cast_vote-Inv m _ (
          if_lem Inv (ltb s.term m.term) _ _ (λ _. become_follower-Inv no_node m.term s v) (λ _. v))

elected-Inv : (s : Raft) → 1 ≤ s.term → Inv s → Inv (elected s)
unfolding elected
elected-Inv s led v = Inv-of_fields _ refl refl refl refl refl refl (λ h. led) v

become_leader-Good : (s : Raft) → 1 ≤ s.term → Inv s → Good (become_leader s)
unfolding become_leader
become_leader-Good s led v =
    Good-bind (send_append_entries true (elected s)) (λ t. done (reset_heartbeat_deadline t))
      (send_append_entries-Good true (elected s) (elected-Inv s led v))
      λ t e w. Inv-of_fields _ refl refl refl refl refl refl w.ranked w

pub request_vote_response-Good :
    (m : RequestVoteResponse) (s : Raft) → Inv s → Good (handle_request_vote_response m s)
unfolding handle_request_vote_response count_vote
request_vote_response-Good m s v =
    Good-if (not (is_candidate s.role)) _ _ (λ _. v)
      λ stands.
        Good-if (ltb s.term m.term) _ _ (λ _. become_follower-Inv no_node m.term s v)
          λ _.
            Good-if (ltb m.term s.term) _ _ (λ _. v)
              λ _.
                Good-if m.vote_granted _ _
                  (λ _.
                    let t = record s { vote_count = s.vote_count + 1 } in
                    let w : Inv t = Inv-of_fields t refl refl refl refl refl refl v.ranked v in
                    Good-if (ltb (length t.peers / 2) t.vote_count) (become_leader t) (done t)
                      (λ _. become_leader-Good t (v.ranked (λ e. ground (arith, e, stands))) w)
                      (λ _. w))
                  λ _. v
