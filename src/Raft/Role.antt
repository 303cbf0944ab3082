-- ===== src/Raft/Role.antt =====
-- raftkv/raft-core/src/Raft.cpp: the changes of role, and what a leader sends its peers.
pub mod Keep
use ww_raft_kv.Prelude.{◌+◌, ◌-◌, ◌%◌, eq_ℤ, Bool, true, List, [], ◌∷◌, ltb, if◌then◌else◌}
use ww_raft_kv.Raft.Types.{
  LogIndex, NodeId, TermId, RaftLogEntry, RaftPeer, term_mod, no_node, set_next_index,
  set_match_index,
}
use ww_raft_kv.Raft.Message.{
  RaftMessage, append_entries_request, request_vote_request, install_snapshot_request,
}
use ww_raft_kv.Raft.State.{follower, candidate, leader, Raft, Outcome, done, ◌>>=◌, push}
use ww_raft_kv.Raft.Log.{get_term_at, get_log_from}
use ww_raft_kv.Raft.Timer.{reset_election_deadline, reset_heartbeat_deadline}
use ww_raft_kv.Raft.Persist.{persist}

unfoldable pub become_follower : NodeId → TermId → Raft → Raft
unfolding reset_election_deadline persist
become_follower leader_id leader_term s = persist (
    reset_election_deadline (record s {
      role = follower;
      term = leader_term;
      leader_id = leader_id;
      voted_for = no_node;
    }))

unfoldable pub vote_request : Raft → RaftPeer → RaftMessage
vote_request s peer = request_vote_request (record {
  seq = s.platform.unset;
  from = s.id;
  to = peer.id;
  term = s.term;
  last_log_index = s.last_log_index;
  last_log_term = s.last_log_term;
})

-- The loop that asks every other peer for its vote.
unfoldable pub request_votes : List RaftPeer → Raft → Raft
unfolding vote_request push
request_votes [] s = s
request_votes (p ∷ ps) s =
    request_votes ps (if eq_ℤ p.id s.id then s else push (vote_request s p) s)

-- `++_Term` wraps at the width of `std::size_t`.
unfoldable pub campaign : Raft → Raft
unfolding persist
campaign s = persist (record s {
  role = candidate;
  term = (s.term + 1) % term_mod;
  voted_for = s.id;
  vote_count = 1;
})

unfoldable pub become_candidate : Raft → Raft
unfolding campaign request_votes reset_election_deadline
become_candidate s = let t = campaign s in reset_election_deadline (request_votes t.peers t)

unfoldable pub snapshot_request : Raft → RaftPeer → RaftMessage
snapshot_request s peer = install_snapshot_request (record {
  seq = s.platform.unset;
  term = s.term;
  from = s.id;
  to = peer.id;
  last_included_index = s.last_included_index;
  last_included_term = s.last_included_term;
  snapshot = "";
})

unfoldable pub entries_request : Raft → RaftPeer → TermId → List RaftLogEntry → RaftMessage
entries_request s peer prev_term entries = append_entries_request (record {
  seq = s.platform.unset;
  term = s.term;
  from = s.id;
  to = peer.id;
  prev_log_index = peer.next_index - 1;
  prev_log_term = prev_term;
  leader_commit = s.last_commit_index;
  entries = entries;
})

-- One round of the loop of `_SendAppendEntries`.
unfoldable pub send_to : Bool → RaftPeer → Raft → Outcome Raft
unfolding snapshot_request entries_request get_term_at get_log_from push
send_to is_heartbeat peer s =
    if eq_ℤ peer.id s.id
    then done s
    else if ltb peer.next_index s.base_index
    then done (push (snapshot_request s peer) s)
    else do
      prev_term ← get_term_at s (peer.next_index - 1)
      entries ← if is_heartbeat then done [] else get_log_from s peer.next_index
      done (push (entries_request s peer prev_term entries) s)

unfoldable pub send_all : Bool → List RaftPeer → Raft → Outcome Raft
unfolding send_to
send_all is_heartbeat [] s = done s
send_all is_heartbeat (p ∷ ps) s = do t ← send_to is_heartbeat p s; send_all is_heartbeat ps t

unfoldable pub send_append_entries : Bool → Raft → Outcome Raft
unfolding send_all reset_heartbeat_deadline
send_append_entries is_heartbeat s = do
  t ← send_all is_heartbeat s.peers s
  done (reset_heartbeat_deadline t)

-- The loop that resets the progress of every other peer.
unfoldable pub reset_peers : NodeId → LogIndex → List RaftPeer → List RaftPeer
unfolding set_next_index set_match_index
reset_peers id next_index [] = []
reset_peers id next_index (p ∷ ps) =
    (if eq_ℤ p.id id then p else set_next_index next_index (set_match_index 0 p))
    ∷ reset_peers id next_index ps

unfoldable pub elected : Raft → Raft
unfolding persist reset_peers
elected s =
    let t =
      persist (record s { role = leader; leader_id = s.id; vote_count = 0; voted_for = no_node }) in
    record t { peers = reset_peers t.id (t.last_log_index + 1) t.peers }

unfoldable pub become_leader : Raft → Outcome Raft
unfolding elected send_append_entries reset_heartbeat_deadline
become_leader s = do t ← send_append_entries true (elected s); done (reset_heartbeat_deadline t)
