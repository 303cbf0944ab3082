-- ===== src/Raft/Commit/Keep.antt =====
-- Handing work to the application changes no more of a node than its queue and two flags.
use ww_raft_kv.Prelude.{ℕ, zero, suc, ◌+◌, ◌-◌, ◌≡◌, inl, inr, true, arith}
use ww_raft_kv.Raft.Types.{LogIndex}
use ww_raft_kv.Raft.State.{Raft, Fault, failed}
use ww_raft_kv.Raft.Frame.{final, Keeps, Keeps-refl, Keeps-trans, Outcome-cases, final-if}
use ww_raft_kv.Raft.Commit.{collect, hand_over, apply_commit_logs, check_if_need_snapshot}

-- A fault of the loop leaves the state that it started from.
collect_fault :
    (s : Raft) (i : LogIndex) (n : ℕ) (e : Fault) (t : Raft) → collect s i n ≡ failed e t → t ≡ s
unfolding collect
collect_fault s i zero e t h = cc
collect_fault s i (suc n) e t h = ground (arith, collect_fault s (i + 1) n e t)

hand_over-Keeps : (s : Raft) → Keeps s (final (hand_over s))
unfolding hand_over
hand_over-Keeps s =
    let entries =
      collect s (s.last_applied_index + 1) (s.last_commit_index - s.last_applied_index) in
    elim (Outcome-cases entries) [
      | inl (es, h) ↦ rw (h, hand_over) (ground arith)
      | inr (e, t, h) ↦ rw (h, hand_over) (ground (arith, collect_fault s _ _ e t h))
    ]

pub apply_commit_logs-Keeps : (s : Raft) → Keeps s (final (apply_commit_logs s))
unfolding apply_commit_logs
apply_commit_logs-Keeps s =
    final-if (Keeps s) s.is_applying _ _ (λ _. Keeps-refl s)
      (λ _. Keeps-trans (ground arith) (hand_over-Keeps (record s { is_applying = true })))

pub check_if_need_snapshot-Keeps : (s : Raft) → Keeps s (final (check_if_need_snapshot s))
unfolding check_if_need_snapshot
check_if_need_snapshot-Keeps s = ground arith
