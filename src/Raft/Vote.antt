-- ===== src/Raft/Vote.antt =====
-- raftkv/raft-core/src/Raft.cpp: requests for votes, and the answers to them.
pub mod Grant
pub mod Election
use ww_raft_kv.Prelude.{Bool, eq_ℤ, false, if◌then◌else◌, length, ltb, not, true, ◌&&◌, ◌+◌, ◌/◌}
use ww_raft_kv.Raft.Log.{log_up_to_date}
use ww_raft_kv.Raft.Message.{
  RaftMessage, RequestVoteRequest, RequestVoteResponse, request_vote_response,
}
use ww_raft_kv.Raft.Persist.{persist}
use ww_raft_kv.Raft.Role.{become_follower, become_leader}
use ww_raft_kv.Raft.State.{Outcome, Raft, RaftRole, candidate, done, leader, push}
use ww_raft_kv.Raft.Types.{no_node}

unfoldable pub vote_response : RequestVoteRequest → Raft → Bool → RaftMessage
vote_response m s granted =
    request_vote_response (record { seq = m.seq; term = s.term; vote_granted = granted })

-- The steps after the comparison of the terms.
unfoldable pub cast_vote : RequestVoteRequest → Raft → Raft
unfolding vote_response log_up_to_date persist push
cast_vote m s =
    if not (eq_ℤ s.voted_for no_node) && not (eq_ℤ s.voted_for m.from)
    then push (vote_response m s false) s
    else if not (log_up_to_date s m.last_log_index m.last_log_term)
    then push (vote_response m s false) s
    else push (vote_response m s true) (persist (record s { voted_for = m.from }))

unfoldable pub handle_request_vote_request : RequestVoteRequest → Raft → Raft
unfolding cast_vote become_follower
handle_request_vote_request m s =
    if ltb m.term s.term
    then push (vote_response m s false) s
    else cast_vote m (if ltb s.term m.term then become_follower no_node m.term s else s)

-- A vote for the node is counted, and more than half of the peers elect it.
unfoldable pub count_vote : Raft → Outcome Raft
unfolding become_leader
count_vote s =
    let t = record s { vote_count = s.vote_count + 1 } in
    if ltb (length t.peers / 2) t.vote_count then become_leader t else done t

abbrev pub is_candidate : RaftRole → Bool
is_candidate candidate = true
is_candidate _ = false

abbrev pub is_leader : RaftRole → Bool
is_leader leader = true
is_leader _ = false

unfoldable pub handle_request_vote_response : RequestVoteResponse → Raft → Outcome Raft
unfolding count_vote become_follower
handle_request_vote_response m s =
    if not (is_candidate s.role)
    then done s
    else if ltb s.term m.term
    then done (become_follower no_node m.term s)
    else if ltb m.term s.term
    then done s
    else if m.vote_granted
    then count_vote s
    else done s
