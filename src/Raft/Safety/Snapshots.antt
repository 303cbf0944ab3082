-- ===== src/Raft/Safety/Snapshots.antt =====
-- The handlers of snapshots, of the answers of the application, and of clients.
use ww_raft_kv.Prelude.{[], arith, false, ltb, ltb→lt, negsuc, not, pos, refl, ℤ, ◌++◌, ◌+◌, ◌∷◌}
use ww_raft_kv.Raft.Client.{append_entry, handle_kv_operation_request, is_get, new_entry}
use ww_raft_kv.Raft.Commit.{handle_apply_commit_logs}
use ww_raft_kv.Raft.Commit.Keep.{check_if_need_snapshot-Keeps}
use ww_raft_kv.Raft.Frame.{final, final-bind, final-if, if_lem}
use ww_raft_kv.Raft.Log.{truncate_before}
use ww_raft_kv.Raft.Message.{
  ApplyCommitLogsResponse, ApplySnapshotResponse, GenerateSnapshotResponse, InstallSnapshotRequest,
  InstallSnapshotResponse, KvOperationRequest,
}
use ww_raft_kv.Raft.Role.{send_append_entries}
use ww_raft_kv.Raft.Role.Keep.{send_append_entries-Keeps}
use ww_raft_kv.Raft.Safety.Advance.{
  Advance, Advance-refl, Keeps-Stays, Stays, Stays-of_disk, Stays-of_persist, Stays-refl,
  Stays-trans, Stays→Advance,
}
use ww_raft_kv.Raft.Safety.Votes.{Advance-newer, become_follower-Advance}
use ww_raft_kv.Raft.Snapshot.{
  finish_apply, finish_generate, handle_apply_snapshot, handle_generate_snapshot,
  handle_install_snapshot_request, handle_install_snapshot_response, install_snapshot, is_failure,
}
use ww_raft_kv.Raft.State.{Raft}
use ww_raft_kv.Raft.Types.{LogIndex, SequenceType, TermId, no_node}
use ww_raft_kv.Raft.Vote.{is_leader}

install_snapshot-Stays : (m : InstallSnapshotRequest) (s : Raft) → Stays s (install_snapshot m s)
unfolding install_snapshot
install_snapshot-Stays m s =
    Stays-of_disk _ (ground arith) (ground arith) (ground arith) (ground arith) (ground arith)

pub install_snapshot_request-Advance :
    (m : InstallSnapshotRequest) (s : Raft) → Advance s (handle_install_snapshot_request m s)
unfolding handle_install_snapshot_request
install_snapshot_request-Advance m s =
    if_lem (Advance s) (ltb m.term s.term) _ _
      (λ _. Stays→Advance (Stays-of_disk _ refl refl refl refl refl))
      (λ _.
        Advance-newer (install_snapshot m) (λ t. Stays→Advance (install_snapshot-Stays m t)) m.term
          m.from s)

pub install_snapshot_response-Advance :
    (m : InstallSnapshotResponse) (s : Raft) → Advance s (handle_install_snapshot_response m s)
unfolding handle_install_snapshot_response
install_snapshot_response-Advance m s =
    if_lem (Advance s) (not (is_leader s.role)) _ _ (λ _. Advance-refl s)
      λ _.
        if_lem (Advance s) (ltb m.term s.term) _ _ (λ _. Advance-refl s)
          λ _.
            if_lem (Advance s) (ltb s.term m.term) _ _
              (λ h. become_follower-Advance no_node m.term s (ltb→lt _ _ h))
              λ _. Stays→Advance (Stays-of_disk _ refl refl refl refl refl)

truncate_before-Stays : (i : LogIndex) (s : Raft) → Stays s (final (truncate_before i s))
unfolding truncate_before
truncate_before-Stays i s =
    Stays-of_disk _ (ground arith) (ground arith) (ground arith) (ground arith) (ground arith)

finish_generate-Stays :
    (i : ℤ) (term : TermId) (s : Raft) → Stays s (final (finish_generate i term s))
unfolding finish_generate
finish_generate-Stays (negsuc n) term s = Stays-refl s
finish_generate-Stays (pos i) term s =
    final-bind (Stays s) (truncate_before (i + 1) s) _ (truncate_before-Stays _ s) λ t e h.
      Stays-trans h (
        Stays-of_persist (record t { last_included_index = i; last_included_term = term }) _ refl
          refl refl refl (Stays-of_disk _ refl refl refl refl refl))

finish_apply-Stays :
    (i : ℤ) (term : TermId) (sequence : SequenceType) (s : Raft)
    → Stays s (final (finish_apply i term sequence s))
unfolding finish_apply
finish_apply-Stays (negsuc n) term sequence s = Stays-refl s
finish_apply-Stays (pos i) term sequence s =
    final-bind (Stays s) (truncate_before i s) _ (truncate_before-Stays _ s)
      λ t e h. Stays-trans h (Stays-of_disk _ refl refl refl refl refl)

pub generate_snapshot-Stays :
    (m : GenerateSnapshotResponse) (s : Raft) → Stays s (final (handle_generate_snapshot m s))
unfolding handle_generate_snapshot
generate_snapshot-Stays m s =
    final-if (Stays s) (is_failure m.last_applied_index m.last_applied_term) _ _ (λ _. Stays-refl s)
      λ _. finish_generate-Stays m.last_applied_index m.last_applied_term s

pub apply_snapshot-Stays :
    (m : ApplySnapshotResponse) (s : Raft) → Stays s (final (handle_apply_snapshot m s))
unfolding handle_apply_snapshot
apply_snapshot-Stays m s =
    final-if (Stays s) (is_failure m.last_included_index m.last_included_term) _ _
      (λ _. Stays-of_disk _ refl refl refl refl refl)
      λ _. finish_apply-Stays m.last_included_index m.last_included_term m.seq s

pub apply_commit-Stays :
    (m : ApplyCommitLogsResponse) (s : Raft) → Stays s (final (handle_apply_commit_logs m s))
unfolding handle_apply_commit_logs
apply_commit-Stays m s =
    let t = record s { last_applied_index = m.last_commit_index; is_applying = false } in
    Stays-trans (Stays-of_disk t refl refl refl refl refl)
      (Keeps-Stays (check_if_need_snapshot-Keeps t))

append_entry-Stays : (m : KvOperationRequest) (s : Raft) → Stays s (append_entry m s)
unfolding append_entry
append_entry-Stays m s =
    Stays-of_persist (record s { logs = s.logs ++ new_entry m s ∷ [] }) _ refl refl refl refl
      (Stays-of_disk _ refl refl refl refl refl)

pub kv_operation-Stays :
    (m : KvOperationRequest) (s : Raft) → Stays s (final (handle_kv_operation_request m s))
unfolding handle_kv_operation_request
kv_operation-Stays m s =
    final-if (Stays s) (not (is_leader s.role)) _ _ (λ _. Stays-of_disk _ refl refl refl refl refl)
      λ _.
        final-if (Stays s) (not (is_get m.op_type)) (send_append_entries false (append_entry m s)) _
          (λ _.
            Stays-trans (append_entry-Stays m s)
              (Keeps-Stays (send_append_entries-Keeps false (append_entry m s))))
          λ _. Stays-of_disk _ refl refl refl refl refl
