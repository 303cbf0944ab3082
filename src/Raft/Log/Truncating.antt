-- ===== src/Raft/Log/Truncating.antt =====
-- What the log is after `_TruncateAfter`, and what is then read past its end.
use ww_raft_kv.Prelude.{
  List, [], arith, get_elem?-ge, ge→ltb, length, length-append, length-take, take, ℕ, ◌-◌, ◌≡◌, ◌≢◌,
  ◌≤◌,
}
use ww_raft_kv.Raft.Log.{get_term_at, resize, truncate_after}
use ww_raft_kv.Raft.Log.Contiguous.{IsContiguous}
use ww_raft_kv.Raft.State.{Raft, failed, out_of_range}
use ww_raft_kv.Raft.Types.{LogIndex, RaftLogEntry}

pub get_term_at-past :
    (s : Raft) (i : LogIndex)
    → i ≢ s.last_included_index
    → s.base_index ≤ i
    → i ≤ s.last_log_index
    → length s.logs ≤ i - s.base_index
    → get_term_at s i ≡ failed out_of_range s
unfolding get_term_at
get_term_at-past s i n h k e = ground (arith, get_elem?-ge s.logs (i - s.base_index))

resize-length :
    (s : Raft) (n : ℕ) (xs : List RaftLogEntry) → n ≤ length xs → length (resize s n xs) ≡ n
unfolding resize
resize-length s n xs h =
    let none_added : n - length xs ≡ 0 = omega arith in
    rw none_added (omega (arith, length-append (take n xs) [], length-take n xs))

pub truncate_after-logs :
    (i : LogIndex) (s : Raft)
    → IsContiguous s
    → s.base_index ≤ i
    → i ≤ s.last_log_index
    → length (truncate_after i s).logs ≡ i - s.base_index
unfolding truncate_after
truncate_after-logs i s c h k =
    rw (ge→ltb i s.base_index h, ge→ltb s.last_log_index i k)
      (resize-length s (i - s.base_index) s.logs (omega (arith, c.span)))

-- The bounds of the log, which `_TruncateAfter` does not change.
pub record SameBounds (s t : Raft) : Type 0 where
  pub base_index : t.base_index ≡ s.base_index
  pub last_log_index : t.last_log_index ≡ s.last_log_index
  pub last_included_index : t.last_included_index ≡ s.last_included_index

pub truncate_after-SameBounds : (i : LogIndex) (s : Raft) → SameBounds s (truncate_after i s)
unfolding truncate_after
truncate_after-SameBounds i s = ground arith
