-- ===== src/Raft/Snapshot/Alignment.antt =====
-- raftkv/raft-core/src/Raft.cpp, `_HandleApplySnapshot`: where the log starts after a snapshot.
use ww_raft_kv.Prelude.{
  Bool, Bool-cases, arith, drop, eq_ℤ, false, ge→ltb, if◌then◌else◌, inl, inr, leb, length, ltb,
  pos, refl, suc, ◌+◌, ◌-◌, ◌||◌, ◌≡◌, ◌≢◌, ◌≤◌,
}
use ww_raft_kv.Raft.Integrity.Invariant.{Inv}
use ww_raft_kv.Raft.Log.{truncate_before}
use ww_raft_kv.Raft.Message.{ApplySnapshotResponse}
use ww_raft_kv.Raft.Snapshot.{finish_apply, handle_apply_snapshot}
use ww_raft_kv.Raft.State.{Raft, done, push}
use ww_raft_kv.Raft.Types.{LogIndex}

abbrev outside : LogIndex → Raft → Bool
outside i s = leb i s.base_index || ltb (s.last_log_index + 1) i

-- What `_TruncateBefore` leaves on a whole log.
shortened : LogIndex → Raft → Raft
shortened i s =
    if outside i s then s else record s { logs = drop (i - s.base_index) s.logs; base_index = i }

in_length :
    (i : LogIndex) (s : Raft) → Inv s → outside i s ≡ false → i - s.base_index ≤ length s.logs
in_length i s v h = ground (arith, v.contiguous.span)

truncate_before-shortened :
    (i : LogIndex) (s : Raft) → Inv s → truncate_before i s ≡ done (shortened i s)
unfolding truncate_before shortened
truncate_before-shortened i s v = elim (Bool-cases (outside i s)) [
  | inl e ↦ rw e refl
  | inr e ↦ rw (e, ge→ltb (length s.logs) (i - s.base_index) (in_length i s v e)) refl
]

shortened-base :
    (i : LogIndex) (s : Raft)
    → Inv s
    → i ≢ s.last_included_index
    → (shortened i s).base_index ≢ suc i
unfolding shortened
shortened-base i s v n = ground (arith, v.base)

-- On a whole log, once the application has applied a leader's snapshot that reaches another index
-- than the node's own, the call returns, and the index at which the log starts is not the one
-- after the snapshot.
pub apply_snapshot-misaligned :
    (m : ApplySnapshotResponse) (s : Raft) (i : LogIndex)
    → Inv s
    → m.last_included_index ≡ pos i
    → i ≢ s.last_included_index
    → (t : Raft) × (handle_apply_snapshot m s ≡ done t)
      × (t.last_included_index ≡ i)
      × (t.base_index ≢ suc i)
unfolding handle_apply_snapshot finish_apply push eq_ℤ
apply_snapshot-misaligned m s i v e n =
    rw e (rw (truncate_before-shortened i s v) (_, refl, refl, shortened-base i s v n))
