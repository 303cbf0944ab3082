-- ===== src/Raft/Append.antt =====
-- raftkv/raft-core/src/Raft.cpp: replication, on the follower's and on the leader's side.
pub mod Sorting
pub mod Majority
pub mod Requests
use ww_raft_kv.Prelude.{
  Bool, List, Option, [], false, get_or, if◌then◌else◌, leb, length, ltb, map, min, none, not, some,
  true, ℕ, ◌++◌, ◌+◌, ◌-◌, ◌/◌, ◌==◌, ◌∷◌,
}
use ww_raft_kv.Raft.Commit.{apply_commit_logs, check_if_need_snapshot}
use ww_raft_kv.Raft.Log.{get_term_at, log_match, truncate_after}
use ww_raft_kv.Raft.Message.{
  AppendEntriesRequest, AppendEntriesResponse, RaftMessage, append_entries_response,
}
use ww_raft_kv.Raft.Persist.{persist}
use ww_raft_kv.Raft.Role.{become_follower}
use ww_raft_kv.Raft.State.{Outcome, Raft, done, push, ◌>>=◌}
use ww_raft_kv.Raft.Timer.{reset_election_deadline}
use ww_raft_kv.Raft.Types.{
  LogIndex, RaftLogEntry, RaftPeer, TermId, find_peer, no_node, set_match_index, set_next_index,
  update_peer,
}
use ww_raft_kv.Raft.Vote.{is_leader}

unfoldable pub append_response : AppendEntriesRequest → Raft → Bool → LogIndex → RaftMessage
append_response m s success last_log_index = append_entries_response (record {
  seq = m.seq;
  from = s.id;
  term = s.term;
  success = success;
  last_log_index = last_log_index;
})

-- The log does not have the entry before the new ones. The term at that index is read once more,
-- for a line of the program's own log.
unfoldable pub refuse_entries : AppendEntriesRequest → Raft → Outcome Raft
unfolding append_response truncate_after get_term_at push
refuse_entries m s = do
  let t = push (append_response m s false s.platform.unset) (truncate_after m.prev_log_index s)
  term ← get_term_at t m.prev_log_index
  done t

-- The term of the entry at the back; the code asks for it when there is one.
unfoldable pub back_term : List RaftLogEntry → TermId
back_term [] = 0
back_term (e ∷ []) = e.term
back_term (e ∷ f ∷ es) = back_term (f ∷ es)

unfoldable pub store_entries : List RaftLogEntry → Raft → Raft
unfolding persist back_term
store_entries [] s = s
store_entries (e ∷ es) s =
    let t = persist (record s { logs = s.logs ++ e ∷ es }) in
    record t { last_log_index = t.base_index + length t.logs - 1; last_log_term = back_term t.logs }

unfoldable pub advance_commit : LogIndex → Raft → Outcome Raft
unfolding apply_commit_logs
advance_commit leader_commit s =
    if ltb s.last_commit_index leader_commit
    then apply_commit_logs (record s { last_commit_index = min leader_commit s.last_log_index })
    else done s

unfoldable pub accept_entries : AppendEntriesRequest → Raft → Outcome Raft
unfolding reset_election_deadline store_entries advance_commit append_response push
accept_entries m s = do
  t ← advance_commit m.leader_commit (store_entries m.entries (reset_election_deadline s))
  done (push (append_response m t true t.last_log_index) t)

-- The steps after the comparison of the terms.
unfoldable pub match_entries : AppendEntriesRequest → Raft → Outcome Raft
unfolding log_match refuse_entries accept_entries
match_entries m s = do
  matched ← log_match s m.prev_log_index m.prev_log_term
  if matched then accept_entries m s else refuse_entries m s

unfoldable pub handle_append_entries_request : AppendEntriesRequest → Raft → Outcome Raft
unfolding match_entries become_follower
handle_append_entries_request m s =
    if ltb m.term s.term
    then done (push (append_response m s false s.platform.unset) s)
    else match_entries m (if ltb s.term m.term then become_follower m.from m.term s else s)

-- `std::sort`, up to the order of equal elements, which numbers do not show.
unfoldable pub insert_sorted : ℕ → List ℕ → List ℕ
insert_sorted a [] = a ∷ []
insert_sorted a (b ∷ bs) = if leb a b then a ∷ b ∷ bs else b ∷ insert_sorted a bs

unfoldable pub sort : List ℕ → List ℕ
unfolding insert_sorted
sort [] = []
sort (a ∷ bs) = insert_sorted a (sort bs)

unfoldable pub match_index_of : RaftPeer → LogIndex
match_index_of p = p.match_index

-- The index that is held to be on most nodes.
unfoldable pub majority_match : Raft → LogIndex
unfolding sort match_index_of
majority_match s =
    let match_indexes = s.last_log_index ∷ map match_index_of s.peers in
    get_or (sort match_indexes) (length match_indexes / 2) 0

unfoldable pub commit_at : LogIndex → Raft → Outcome Raft
unfolding apply_commit_logs check_if_need_snapshot
commit_at index s = do
  t ← apply_commit_logs (record s { last_commit_index = index })
  check_if_need_snapshot t

unfoldable pub commit_majority : Raft → Outcome Raft
unfolding majority_match get_term_at commit_at
commit_majority s = do
  term ← get_term_at s (majority_match s)
  if term == s.term then commit_at (majority_match s) s else done s

-- After a failed append the leader goes back by one index, and not below 1.
unfoldable pub step_back : RaftPeer → RaftPeer
unfolding set_next_index
step_back p = if ltb 1 p.next_index then set_next_index (p.next_index - 1) p else p

unfoldable pub acknowledge : LogIndex → RaftPeer → RaftPeer
unfolding set_next_index set_match_index
acknowledge i p = set_match_index i (set_next_index (i + 1) p)

unfoldable pub peer_answered : AppendEntriesResponse → Raft → Outcome Raft
unfolding step_back acknowledge update_peer commit_majority
peer_answered m s =
    if not m.success
    then done (record s { peers = update_peer m.from step_back s.peers })
    else commit_majority
        (record s { peers = update_peer m.from (acknowledge m.last_log_index) s.peers })

-- No peer with that id: the answer is dropped.
unfoldable pub found_peer : AppendEntriesResponse → Raft → Option RaftPeer → Outcome Raft
unfolding peer_answered
found_peer m s none = done s
found_peer m s (some p) = peer_answered m s

unfoldable pub handle_append_entries_response : AppendEntriesResponse → Raft → Outcome Raft
unfolding become_follower find_peer found_peer
handle_append_entries_response m s =
    if not (is_leader s.role)
    then done s
    else if ltb s.term m.term
    then done (become_follower no_node m.term s)
    else found_peer m s (find_peer m.from s.peers)
