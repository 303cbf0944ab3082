-- ===== src/Raft/Integrity/Snapshots.antt =====
-- The handlers of snapshots, of the answers of the application, and of clients.
use ww_raft_kv.Prelude.{
  Bool-cases, [], ap, arith, drop, false, inl, inr, leb, length, length-append, length-drop, ltb,
  not, pos, refl, subst, sym, true, ℕ, ◌+◌, ◌-◌, ◌∷◌, ◌≡◌, ◌≤◌, ◌⊎◌,
}
use ww_raft_kv.Raft.Client.{append_entry, handle_kv_operation_request, is_get, new_entry}
use ww_raft_kv.Raft.Commit.{handle_apply_commit_logs}
use ww_raft_kv.Raft.Frame.{if_lem}
use ww_raft_kv.Raft.Integrity.Invariant.{Good, Good-if, Inv, Inv-of_fields}
use ww_raft_kv.Raft.Integrity.Sending.{check_if_need_snapshot-Good, send_append_entries-Good}
use ww_raft_kv.Raft.Integrity.Votes.{become_follower-Inv}
use ww_raft_kv.Raft.Log.{truncate_before}
use ww_raft_kv.Raft.Message.{
  ApplyCommitLogsResponse, ApplySnapshotResponse, GenerateSnapshotResponse, InstallSnapshotRequest,
  InstallSnapshotResponse, KvOperationRequest,
}
use ww_raft_kv.Raft.Persist.{persist}
use ww_raft_kv.Raft.Role.{send_append_entries}
use ww_raft_kv.Raft.Snapshot.{
  finish_generate, handle_apply_snapshot, handle_generate_snapshot, handle_install_snapshot_request,
  handle_install_snapshot_response, install_snapshot, is_failure,
}
use ww_raft_kv.Raft.State.{Raft, done}
use ww_raft_kv.Raft.Types.{LogIndex, TermId, no_node}
use ww_raft_kv.Raft.Vote.{is_leader}

install_snapshot-Inv : (m : InstallSnapshotRequest) (s : Raft) → Inv s → Inv (install_snapshot m s)
unfolding install_snapshot
install_snapshot-Inv m s v =
    if_lem Inv (ltb m.last_included_index s.last_included_index) _ _
      (λ _. Inv-of_fields _ refl refl refl refl refl refl v.ranked v)
      (λ _. Inv-of_fields _ refl refl refl refl refl refl v.ranked v)

pub install_snapshot_request-Inv :
    (m : InstallSnapshotRequest) (s : Raft) → Inv s → Inv (handle_install_snapshot_request m s)
unfolding handle_install_snapshot_request
install_snapshot_request-Inv m s v =
    if_lem Inv (ltb m.term s.term) _ _
      (λ _. Inv-of_fields _ refl refl refl refl refl refl v.ranked v)
      λ _.
        install_snapshot-Inv m _
          (if_lem Inv (ltb s.term m.term) _ _ (λ _. become_follower-Inv m.from m.term s v) (λ _. v))

pub install_snapshot_response-Inv :
    (m : InstallSnapshotResponse) (s : Raft) → Inv s → Inv (handle_install_snapshot_response m s)
unfolding handle_install_snapshot_response
install_snapshot_response-Inv m s v =
    if_lem Inv (not (is_leader s.role)) _ _ (λ _. v)
      λ _.
        if_lem Inv (ltb m.term s.term) _ _ (λ _. v)
          λ _.
            if_lem Inv (ltb s.term m.term) _ _ (λ _. become_follower-Inv no_node m.term s v)
              λ _. Inv-of_fields _ refl refl refl refl refl refl v.ranked v

-- The application says that it failed, or that it made a snapshot, which reaches neither less far
-- than the last one of the node nor past what the node knows to be applied.
abbrev pub SnapshotFits : GenerateSnapshotResponse → Raft → Type 0
SnapshotFits m s =
    (is_failure m.last_applied_index m.last_applied_term ≡ true)
    ⊎ ((i : LogIndex) × (m.last_applied_index ≡ pos i)
        × (s.last_included_index ≤ i)
        × (i ≤ s.last_applied_index))

-- What is left of the log after a snapshot that reaches an index.
cut : ℕ → Raft → Raft
cut i s = record s { logs = drop (i + 1 - s.base_index) s.logs; base_index = i + 1 }

cut-Inv :
    (i : LogIndex) (term : TermId) (s : Raft)
    → s.last_included_index ≤ i
    → i ≤ s.last_applied_index
    → Inv s
    → Inv
        (record (persist
          (record (cut i s) { last_included_index = i; last_included_term = term })) {
            is_snapshoting = false;
          })
unfolding cut persist
cut-Inv i term s h k v = record {
  contiguous = record {
    base = omega arith;
    span =
        omega (
          arith,
          length-drop (i + 1 - s.base_index) s.logs,
          v.contiguous.span,
          v.base,
          v.applied_le,
        );
  };
  base = omega arith;
  applied_ge = k;
  applied_le = v.applied_le;
  commit_le = v.commit_le;
  ranked = v.ranked;
}

truncate_before-cut :
    (i : LogIndex) (s : Raft)
    → s.last_included_index ≤ i
    → i ≤ s.last_applied_index
    → Inv s
    → truncate_before (i + 1) s ≡ done (cut i s)
unfolding truncate_before cut
truncate_before-cut i s h k v = elim (Bool-cases (leb (i + 1) s.base_index)) [
  | inl e ↦
      let none_left : i + 1 - s.base_index ≡ 0 = ground arith in
      let start : s.base_index ≡ i + 1 = ground (arith, v.base) in
      rw e (λ j.
        done (record s {
          logs = sym (ap (λ (n : ℕ). drop n s.logs) none_left) j;
          base_index = start j;
        }))
  | inr e ↦
      let short : ltb (s.last_log_index + 1) (i + 1) ≡ false = ground (arith, v.applied_le) in
      let long : ltb (length s.logs) (i + 1 - s.base_index) ≡ false =
        ground (arith, v.applied_le, v.contiguous.span) in
      rw (e, short, long)
]

finish_generate-Good :
    (i : LogIndex) (term : TermId) (s : Raft)
    → s.last_included_index ≤ i
    → i ≤ s.last_applied_index
    → Inv s
    → Good (finish_generate (pos i) term s)
unfolding finish_generate
finish_generate-Good i term s h k v = rw (truncate_before-cut i s h k v) (cut-Inv i term s h k v)

pub generate_snapshot-Good :
    (m : GenerateSnapshotResponse) (s : Raft)
    → Inv s
    → SnapshotFits m s
    → Good (handle_generate_snapshot m s)
unfolding handle_generate_snapshot
generate_snapshot-Good m s v (inl f) = rw f v
generate_snapshot-Good m s v (inr (i, e, h, k)) =
    Good-if (is_failure m.last_applied_index m.last_applied_term) _ _ (λ _. v)
      λ _.
        subst (λ n. Good (finish_generate n m.last_applied_term s)) (sym e)
          (finish_generate-Good i m.last_applied_term s h k v)

-- The application says that it could not apply a snapshot.
abbrev pub NotApplied : ApplySnapshotResponse → Type 0
NotApplied m = is_failure m.last_included_index m.last_included_term ≡ true

pub apply_snapshot-Good :
    (m : ApplySnapshotResponse) (s : Raft) → Inv s → NotApplied m → Good (handle_apply_snapshot m s)
unfolding handle_apply_snapshot
apply_snapshot-Good m s v f = rw f (Inv-of_fields _ refl refl refl refl refl refl v.ranked v)

-- The application has applied entries that the node has.
abbrev pub AppliedFits : ApplyCommitLogsResponse → Raft → Type 0
AppliedFits m s =
    (s.last_included_index ≤ m.last_commit_index) × (m.last_commit_index ≤ s.last_log_index)

pub apply_commit-Good :
    (m : ApplyCommitLogsResponse) (s : Raft)
    → Inv s
    → AppliedFits m s
    → Good (handle_apply_commit_logs m s)
unfolding handle_apply_commit_logs
apply_commit-Good m s v (h, k) = check_if_need_snapshot-Good _ (record {
  contiguous = record { base = v.contiguous.base; span = v.contiguous.span };
  base = v.base;
  applied_ge = h;
  applied_le = k;
  commit_le = v.commit_le;
  ranked = v.ranked;
})

append_entry-Inv : (m : KvOperationRequest) (s : Raft) → Inv s → Inv (append_entry m s)
unfolding append_entry
append_entry-Inv m s v = record {
  contiguous = record {
    base = v.contiguous.base;
    span = omega (arith, v.contiguous.span, length-append s.logs (new_entry m s ∷ []));
  };
  base = v.base;
  applied_ge = v.applied_ge;
  applied_le = omega (arith, v.applied_le);
  commit_le = omega (arith, v.commit_le);
  ranked = v.ranked;
}

pub kv_operation-Good :
    (m : KvOperationRequest) (s : Raft) → Inv s → Good (handle_kv_operation_request m s)
unfolding handle_kv_operation_request
kv_operation-Good m s v =
    Good-if (not (is_leader s.role)) _ _
      (λ _. Inv-of_fields _ refl refl refl refl refl refl v.ranked v)
      λ _.
        Good-if (not (is_get m.op_type)) (send_append_entries false (append_entry m s)) _
          (λ _. send_append_entries-Good false (append_entry m s) (append_entry-Inv m s v))
          λ _. Inv-of_fields _ refl refl refl refl refl refl v.ranked v
