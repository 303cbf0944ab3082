-- ===== src/Raft/Safety/Votes.antt =====
-- The handlers of votes.
use ww_raft_kv.Prelude.{
  arith, eq_ℤ-ne, eq_ℤ→eq, if◌then◌else◌, inr, length, ltb, ltb→lt, not, refl, true, ◌+◌, ◌/◌, ◌<◌,
}
use ww_raft_kv.Raft.Frame.{Keeps, Keeps-trans, final, final-bind, final-if, if_lem}
use ww_raft_kv.Raft.Message.{RequestVoteRequest, RequestVoteResponse}
use ww_raft_kv.Raft.Role.{
  become_candidate, become_follower, become_leader, campaign, elected, send_append_entries,
}
use ww_raft_kv.Raft.Role.Keep.{request_votes-Keeps, send_append_entries-Keeps}
use ww_raft_kv.Raft.Safety.Advance.{
  Advance, Advance-Stays, Advance-refl, Advance-trans, Keeps-Stays, Stays, Stays-Advance,
  Stays-of_disk, Stays→Advance, persist-IsSaved,
}
use ww_raft_kv.Raft.State.{Raft, done, leader}
use ww_raft_kv.Raft.Timer.{reset_election_deadline, reset_heartbeat_deadline}
use ww_raft_kv.Raft.Types.{NodeId, TermId, no_node, term_mod}
use ww_raft_kv.Raft.Vote.{
  cast_vote, count_vote, handle_request_vote_request, handle_request_vote_response, is_candidate,
}

pub become_follower-Advance :
    (id : NodeId) (term : TermId) (s : Raft) → s.term < term → Advance s (become_follower id term s)
unfolding become_follower
become_follower-Advance id term s h = record {
  term = omega arith;
  vote = λ e n. absurd (omega arith);
  lead = λ e l. absurd (omega arith);
  platform = refl;
  saved = λ w i. persist-IsSaved _ w;
}

campaign-Advance : (s : Raft) → s.term + 1 < term_mod → Advance s (campaign s)
unfolding campaign
campaign-Advance s h = record {
  term = omega arith;
  vote = λ e n. absurd (omega arith);
  lead = λ e l. absurd (omega arith);
  platform = refl;
  saved = λ w i. persist-IsSaved _ w;
}

reset_election_deadline-Keeps : (s : Raft) → Keeps s (reset_election_deadline s)
unfolding reset_election_deadline
reset_election_deadline-Keeps s = ground arith

pub become_candidate-Advance : (s : Raft) → s.term + 1 < term_mod → Advance s (become_candidate s)
unfolding become_candidate
become_candidate-Advance s h = Advance-Stays (campaign-Advance s h) (
    Keeps-Stays
      (Keeps-trans (request_votes-Keeps s.peers (campaign s)) (reset_election_deadline-Keeps _)))

-- A step that comes after the step down before a newer term.
pub Advance-newer :
    (f : Raft → Raft)
    → ((t : Raft) → Advance t (f t))
    → (term : TermId) (id : NodeId) (s : Raft)
    → Advance s (f (if ltb s.term term then become_follower id term s else s))
Advance-newer f h term id s =
    if_lem (λ t. Advance s (f t)) (ltb s.term term) _ _
      (λ e. Advance-trans (become_follower-Advance id term s (ltb→lt _ _ e)) (h _)) (λ _. h s)

cast_vote-Advance : (m : RequestVoteRequest) (s : Raft) → Advance s (cast_vote m s)
unfolding cast_vote
cast_vote-Advance m s = record {
  term = ground arith;
  vote = λ e n. ground (arith, eq_ℤ-ne s.voted_for no_node n, eq_ℤ→eq s.voted_for m.from);
  lead = λ e l. ground (arith, l);
  platform = ground arith;
  saved = λ w i. ground (arith, i.term, i.vote, w s.calls, w (s.calls + 1));
}

-- No answer to a request, and no answer to an own request, takes back a vote but a leader's.
pub request_vote_request-Advance :
    (m : RequestVoteRequest) (s : Raft) → Advance s (handle_request_vote_request m s)
unfolding handle_request_vote_request
request_vote_request-Advance m s =
    if_lem (Advance s) (ltb m.term s.term) _ _ (λ _. Stays→Advance (Keeps-Stays (ground arith)))
      (λ _. Advance-newer (cast_vote m) (cast_vote-Advance m) m.term no_node s)

elected-Advance : (s : Raft) → Advance s (elected s)
unfolding elected
elected-Advance s = record {
  term = omega arith;
  vote = λ e n. inr refl;
  lead = λ e l. refl;
  platform = refl;
  saved = λ w i.
      let kept =
        persist-IsSaved
          (record s { role = leader; leader_id = s.id; vote_count = 0; voted_for = no_node }) w in
      record { term = kept.term; vote = kept.vote };
}

pub become_leader-Advance : (s : Raft) → Advance s (final (become_leader s))
unfolding become_leader
become_leader-Advance s =
    final-bind (Advance s) (send_append_entries true (elected s))
      (λ t. done (reset_heartbeat_deadline t))
      (Advance-Stays (elected-Advance s) (Keeps-Stays (send_append_entries-Keeps true (elected s))))
      λ t e h. Advance-Stays h (Keeps-Stays (ground arith))

count_vote-Advance : (s : Raft) → Advance s (final (count_vote s))
unfolding count_vote
count_vote-Advance s =
    let t = record s { vote_count = s.vote_count + 1 } in
    let counted : Stays s t = Stays-of_disk t refl refl refl refl refl in
    final-if (Advance s) (ltb (length t.peers / 2) t.vote_count) (become_leader t) (done t)
      (λ _. Stays-Advance counted (become_leader-Advance t)) (λ _. Stays→Advance counted)

pub request_vote_response-Advance :
    (m : RequestVoteResponse) (s : Raft) → Advance s (final (handle_request_vote_response m s))
unfolding handle_request_vote_response count_vote
request_vote_response-Advance m s =
    final-if (Advance s) (not (is_candidate s.role)) _ _ (λ _. Advance-refl s)
      λ _.
        final-if (Advance s) (ltb s.term m.term) _ _
          (λ h. become_follower-Advance no_node m.term s (ltb→lt _ _ h))
          λ _.
            final-if (Advance s) (ltb m.term s.term) _ _ (λ _. Advance-refl s)
              λ _.
                final-if (Advance s) m.vote_granted _ _ (λ _. count_vote-Advance s)
                  (λ _. Advance-refl s)
