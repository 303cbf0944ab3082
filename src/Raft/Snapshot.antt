-- ===== src/Raft/Snapshot.antt =====
-- raftkv/raft-core/src/Raft.cpp: snapshots, installed from a leader or made by the node.
pub mod Alignment
use ww_raft_kv.Prelude.{Bool, eq_ℤ, false, if◌then◌else◌, ltb, negsuc, not, pos, ℤ, ◌&&◌, ◌+◌, ◌==◌}
use ww_raft_kv.Raft.Log.{truncate_before}
use ww_raft_kv.Raft.Message.{
  ApplySnapshotResponse, GenerateSnapshotResponse, InstallSnapshotRequest, InstallSnapshotResponse,
  RaftMessage, apply_snapshot_request, install_snapshot_response,
}
use ww_raft_kv.Raft.Persist.{persist}
use ww_raft_kv.Raft.Role.{become_follower}
use ww_raft_kv.Raft.State.{Outcome, Raft, done, failed, negative_index, push, ◌>>=◌}
use ww_raft_kv.Raft.Timer.{reset_election_deadline}
use ww_raft_kv.Raft.Types.{
  LogIndex, RaftPeer, SequenceType, TermId, no_node, set_match_index, set_next_index, update_peer,
}
use ww_raft_kv.Raft.Vote.{is_leader}

unfoldable pub snapshot_response : SequenceType → TermId → Raft → RaftMessage
snapshot_response seq term s =
    install_snapshot_response (record { seq = seq; term = term; from = s.platform.unset_id })

-- The steps after the comparison of the terms. The answer waits for the application.
unfoldable pub install_snapshot : InstallSnapshotRequest → Raft → Raft
unfolding snapshot_response reset_election_deadline push
install_snapshot m s =
    if ltb m.last_included_index s.last_included_index
    then push (snapshot_response m.seq s.term s) s
    else push
        (apply_snapshot_request (record {
          seq = m.seq;
          last_included_index = m.last_included_index;
          last_included_term = m.last_included_term;
          snapshot = m.snapshot;
        }))
        (reset_election_deadline s)

unfoldable pub handle_install_snapshot_request : InstallSnapshotRequest → Raft → Raft
unfolding install_snapshot become_follower
handle_install_snapshot_request m s =
    if ltb m.term s.term
    then push (snapshot_response m.seq s.term s) s
    else install_snapshot m (if ltb s.term m.term then become_follower m.from m.term s else s)

unfoldable pub acknowledge_snapshot : LogIndex → RaftPeer → RaftPeer
unfolding set_next_index set_match_index
acknowledge_snapshot i p = set_match_index i (set_next_index (i + 1) p)

-- `update_peer` changes nothing when no peer has the id, as the code returns then.
unfoldable pub handle_install_snapshot_response : InstallSnapshotResponse → Raft → Raft
unfolding become_follower acknowledge_snapshot update_peer
handle_install_snapshot_response m s =
    if not (is_leader s.role)
    then s
    else if ltb m.term s.term
    then s
    else if ltb s.term m.term
    then become_follower no_node m.term s
    else record s {
      peers = update_peer m.from (acknowledge_snapshot s.last_included_index) s.peers;
    }

-- The application says by -1, with the term 0, that it failed.
abbrev pub is_failure : ℤ → TermId → Bool
is_failure index term = eq_ℤ index (negsuc 0) && term == 0

-- The code stores any other index, one below 0 included. The application sends none, and the
-- record has no place for one: the model ends there.
unfoldable pub finish_generate : ℤ → TermId → Raft → Outcome Raft
unfolding truncate_before persist
finish_generate (negsuc n) term s = failed negative_index s
finish_generate (pos index) term s = do
  t ← truncate_before (index + 1) s
  let u = persist (record t { last_included_index = index; last_included_term = term })
  done (record u { is_snapshoting = false })

unfoldable pub handle_generate_snapshot : GenerateSnapshotResponse → Raft → Outcome Raft
unfolding finish_generate eq_ℤ
handle_generate_snapshot m s =
    if is_failure m.last_applied_index m.last_applied_term
    then done s
    else finish_generate m.last_applied_index m.last_applied_term s

unfoldable pub finish_apply : ℤ → TermId → SequenceType → Raft → Outcome Raft
unfolding snapshot_response truncate_before push
finish_apply (negsuc n) term sequence s = failed negative_index s
finish_apply (pos index) term sequence s = do
  t ← truncate_before index s
  let u = record t { last_included_index = index; last_included_term = term }
  done (push (snapshot_response sequence s.term u) u)

unfoldable pub handle_apply_snapshot : ApplySnapshotResponse → Raft → Outcome Raft
unfolding snapshot_response finish_apply push eq_ℤ
handle_apply_snapshot m s =
    if is_failure m.last_included_index m.last_included_term
    then done (push (snapshot_response m.seq 0 s) s)
    else finish_apply m.last_included_index m.last_included_term m.seq s
