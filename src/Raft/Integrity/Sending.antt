-- ===== src/Raft/Integrity/Sending.antt =====
-- What a leader sends, and what is handed to the application: these calls return.
use ww_raft_kv.Prelude.{
  Bool, List, [], ap, arith, eq_ℤ, if◌then◌else◌, leb, length, ltb, refl, subst, suc, true, zero, ℕ,
  ◌+◌, ◌-◌, ◌∷◌, ◌≡◌, ◌≤◌,
}
use ww_raft_kv.Raft.Commit.{
  apply_commit_logs, check_if_need_snapshot, collect, generate_snapshot, hand_over,
  snapshot_threshold,
}
use ww_raft_kv.Raft.Commit.Keep.{apply_commit_logs-Keeps, check_if_need_snapshot-Keeps}
use ww_raft_kv.Raft.Frame.{Keeps, final, returns}
use ww_raft_kv.Raft.Integrity.Invariant.{
  Good, Good-of_Keeps, Inv, Inv-Keeps, returns-bind, returns-if,
}
use ww_raft_kv.Raft.Log.{get_log_at, get_log_from, get_term_at}
use ww_raft_kv.Raft.Log.Contiguous.{
  IsContiguous, get_log_at-returns, get_log_from-returns, get_term_at-returns,
}
use ww_raft_kv.Raft.Role.{send_all, send_append_entries, send_to}
use ww_raft_kv.Raft.Role.Keep.{send_append_entries-Keeps, send_to-Keeps}
use ww_raft_kv.Raft.State.{Raft, done}
use ww_raft_kv.Raft.Types.{LogIndex, RaftPeer}

send_to-returns :
    (b : Bool) (p : RaftPeer) (s : Raft) → IsContiguous s → returns (send_to b p s) ≡ true
unfolding send_to
send_to-returns b p s c =
    returns-if (eq_ℤ p.id s.id) _ _ (λ _. refl)
      λ _.
        returns-if (ltb p.next_index s.base_index) _ _ (λ _. refl)
          λ _.
            returns-bind (get_term_at s (p.next_index - 1)) _ (get_term_at-returns s c _) λ term _.
              returns-bind (if b then done [] else get_log_from s p.next_index) _
                (returns-if b _ _ (λ _. refl) (λ _. get_log_from-returns s c p.next_index))
                λ es _. refl

IsContiguous-Keeps : {s t : Raft} → Keeps s t → IsContiguous s → IsContiguous t
IsContiguous-Keeps k c = record {
  base = omega (arith, k.base_index, c.base);
  span = omega (arith, k.base_index, k.last_log_index, c.span, ap length k.logs);
}

send_all-returns :
    (b : Bool) (ps : List RaftPeer) (s : Raft) → IsContiguous s → returns (send_all b ps s) ≡ true
unfolding send_all
send_all-returns b [] s c = refl
send_all-returns b (p ∷ ps) s c =
    returns-bind (send_to b p s) (send_all b ps) (send_to-returns b p s c) λ t e.
      send_all-returns b ps t
        (IsContiguous-Keeps (subst (λ o. Keeps s (final o)) e (send_to-Keeps b p s)) c)

pub send_append_entries-Good : (b : Bool) (s : Raft) → Inv s → Good (send_append_entries b s)
unfolding send_append_entries
send_append_entries-Good b s v =
    Good-of_Keeps (send_append_entries b s)
      (returns-bind (send_all b s.peers s) _ (send_all-returns b s.peers s v.contiguous)
        (λ t e. refl))
      (send_append_entries-Keeps b s) v

collect-returns :
    (s : Raft) (i : LogIndex) (n : ℕ)
    → IsContiguous s
    → s.base_index ≤ i
    → i + n ≤ suc s.last_log_index
    → returns (collect s i n) ≡ true
unfolding collect
collect-returns s i zero c h k = refl
collect-returns s i (suc n) c h k =
    returns-bind (get_log_at s i) _ (get_log_at-returns s c i h (omega arith)) λ e _.
      returns-bind (collect s (i + 1) n) _
        (collect-returns s (i + 1) n c (omega arith) (omega arith)) λ es _. refl

hand_over-returns : (s : Raft) → Inv s → returns (hand_over s) ≡ true
unfolding hand_over
hand_over-returns s v =
    returns-bind (collect s (s.last_applied_index + 1) (s.last_commit_index - s.last_applied_index))
      _
      (collect-returns s _ _ v.contiguous (omega (arith, v.base, v.applied_ge))
        (omega (arith, v.commit_le, v.applied_le)))
      λ es _. refl

pub apply_commit_logs-Good : (s : Raft) → Inv s → Good (apply_commit_logs s)
unfolding apply_commit_logs
apply_commit_logs-Good s v =
    Good-of_Keeps (apply_commit_logs s)
      (returns-if s.is_applying _ _ (λ _. refl)
        (λ _. hand_over-returns (record s { is_applying = true }) (Inv-Keeps (ground arith) v)))
      (apply_commit_logs-Keeps s) v

generate_snapshot-returns : (s : Raft) → Inv s → returns (generate_snapshot s) ≡ true
unfolding generate_snapshot
generate_snapshot-returns s v =
    returns-bind (get_term_at s s.last_applied_index) _ (get_term_at-returns s v.contiguous _)
      λ t _. refl

pub check_if_need_snapshot-Good : (s : Raft) → Inv s → Good (check_if_need_snapshot s)
unfolding check_if_need_snapshot
check_if_need_snapshot-Good s v =
    Good-of_Keeps (check_if_need_snapshot s)
      (returns-if s.is_snapshoting _ _ (λ _. refl)
        λ _.
          returns-if (leb (s.last_included_index + snapshot_threshold) s.last_applied_index) _ _
            (λ _.
              generate_snapshot-returns (record s { is_snapshoting = true })
                (Inv-Keeps (ground arith) v))
            λ _. refl)
      (check_if_need_snapshot-Keeps s) v
