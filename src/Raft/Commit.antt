-- ===== src/Raft/Commit.antt =====
-- raftkv/raft-core/src/Raft.cpp: what is committed is handed to the application, and
-- snapshots are asked for.
pub mod Keep
pub mod Range
use ww_raft_kv.Prelude.{List, [], false, if◌then◌else◌, leb, suc, true, zero, ℕ, ◌+◌, ◌-◌, ◌∷◌}
use ww_raft_kv.Raft.Log.{get_log_at, get_term_at}
use ww_raft_kv.Raft.Message.{
  ApplyCommitLogsResponse, apply_commit_logs_request, generate_snapshot_request,
}
use ww_raft_kv.Raft.State.{Outcome, Raft, done, push, ◌>>=◌}
use ww_raft_kv.Raft.Types.{LogIndex, RaftLogEntry}

-- The loop that collects entries, from an index, for a number of rounds.
unfoldable pub collect : Raft → LogIndex → ℕ → Outcome (List RaftLogEntry)
unfolding get_log_at
collect s i zero = done []
collect s i (suc n) = do entry ← get_log_at s i; rest ← collect s (i + 1) n; done (entry ∷ rest)

-- What is committed and not applied goes to the application.
unfoldable pub hand_over : Raft → Outcome Raft
unfolding collect push
hand_over s = do
  entries ← collect s (s.last_applied_index + 1) (s.last_commit_index - s.last_applied_index)
  done (
      push
        (apply_commit_logs_request
          (record { last_commit_index = s.last_commit_index; entries = entries }))
        s)

unfoldable pub apply_commit_logs : Raft → Outcome Raft
unfolding hand_over
apply_commit_logs s = if s.is_applying then done s else hand_over (record s { is_applying = true })

unfoldable pub generate_snapshot : Raft → Outcome Raft
unfolding get_term_at push
generate_snapshot s = do
  term ← get_term_at s s.last_applied_index
  done (
      push
        (generate_snapshot_request
          (record { last_applied_index = s.last_applied_index; last_applied_term = term }))
        s)

abbrev pub snapshot_threshold : ℕ
snapshot_threshold = 3

-- The code compares the difference of two `int`s with the threshold; it may be negative.
unfoldable pub check_if_need_snapshot : Raft → Outcome Raft
unfolding generate_snapshot
check_if_need_snapshot s =
    if s.is_snapshoting
    then done s
    else if leb (s.last_included_index + snapshot_threshold) s.last_applied_index
    then generate_snapshot (record s { is_snapshoting = true })
    else done (record s { is_snapshoting = false })

unfoldable pub handle_apply_commit_logs : ApplyCommitLogsResponse → Raft → Outcome Raft
unfolding check_if_need_snapshot
handle_apply_commit_logs m s =
    check_if_need_snapshot
      (record s { last_applied_index = m.last_commit_index; is_applying = false })
