-- ===== src/Raft/Commit/Range.antt =====
-- raftkv/raft-core/src/Raft.cpp, `_ApplyCommitLogs`: which entries go to the application.
use mathlib.Core.Option.{some-injective}
use ww_raft_kv.Prelude.{
  List, [], ap, arith, drop, false, get_elem?, get_elem?-lt, ge→ltb, refl, some, suc, sym, take,
  true, zero, ℕ, ◌++◌, ◌+◌, ◌-◌, ◌∷◌, ◌≡◌, ◌≤◌,
}
use ww_raft_kv.Raft.Commit.{apply_commit_logs, collect, hand_over}
use ww_raft_kv.Raft.Integrity.Invariant.{Inv}
use ww_raft_kv.Raft.Log.{get_log_at}
use ww_raft_kv.Raft.Log.Contiguous.{IsContiguous}
use ww_raft_kv.Raft.Message.{apply_commit_logs_request}
use ww_raft_kv.Raft.State.{Raft, done, push}
use ww_raft_kv.Raft.Types.{LogIndex, RaftLogEntry}

-- The entries of a log from an index, as many as are asked for.
abbrev pub entries_from : Raft → LogIndex → ℕ → List RaftLogEntry
entries_from s i n = take n (drop (i - s.base_index) s.logs)

take-drop :
    (n j : ℕ) (xs : List RaftLogEntry) {e : RaftLogEntry}
    → get_elem? xs j ≡ some e
    → take (suc n) (drop j xs) ≡ e ∷ take n (drop (suc j) xs)
take-drop n j [] h = cc
take-drop n zero (x ∷ xs) h = ap (λ y. y ∷ take n xs) (some-injective _ _ h)
take-drop n (suc j) (x ∷ xs) h = take-drop n j xs h

get_log_at_lem :
    (s : Raft) (i : LogIndex) {e : RaftLogEntry}
    → s.base_index ≤ i
    → i ≤ s.last_log_index
    → get_elem? s.logs (i - s.base_index) ≡ some e
    → get_log_at s i ≡ done e
unfolding get_log_at
get_log_at_lem s i h k f = rw (ge→ltb i s.base_index h, ge→ltb s.last_log_index i k, f) refl

-- The loop collects the entries of a range that lies in the log.
collect-entries :
    (s : Raft) (i : LogIndex) (n : ℕ)
    → IsContiguous s
    → s.base_index ≤ i
    → i + n ≤ s.last_log_index + 1
    → collect s i n ≡ done (entries_from s i n)
unfolding collect
collect-entries s i zero c h k = refl
collect-entries s i (suc n) c h k =
    let (e, f) = get_elem?-lt s.logs (i - s.base_index) (omega (arith, c.span)) in
    let next_place : i + 1 - s.base_index ≡ suc (i - s.base_index) = omega arith in
    let rest = collect-entries s (i + 1) n c (omega arith) (omega arith) in
    rw (get_log_at_lem s i h (omega arith) f, rest, next_place)
      (ap done (sym (take-drop n (i - s.base_index) s.logs f)))

-- On a whole log of a node that is not applying entries, the call returns. It hands over exactly
-- the entries after the last one applied, up to the last one committed, and nothing else of the
-- node changes but that it is applying.
pub apply_commit_logs-entries :
    (s : Raft)
    → Inv s
    → s.is_applying ≡ false
    → apply_commit_logs s
      ≡ done (record s {
        is_applying = true;
        inner_channel =
            s.inner_channel
            ++ apply_commit_logs_request (record {
              last_commit_index = s.last_commit_index;
              entries =
                  entries_from s
                    (s.last_applied_index + 1)
                    (s.last_commit_index - s.last_applied_index);
            })
              ∷ [];
      })
unfolding apply_commit_logs hand_over push
apply_commit_logs-entries s v h =
    let t = record s { is_applying = true } in
    let c : IsContiguous t = record { base = v.contiguous.base; span = v.contiguous.span } in
    let collected =
      collect-entries t (s.last_applied_index + 1) (s.last_commit_index - s.last_applied_index) c
        (omega (arith, v.base, v.applied_ge)) (omega (arith, v.commit_le, v.applied_le)) in
    rw (h, collected) refl
