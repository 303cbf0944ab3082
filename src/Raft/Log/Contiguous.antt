-- ===== src/Raft/Log/Contiguous.antt =====
-- A log whose indexes run from `base_index` to `last_log_index`: the readings do not fault on it.
use ww_raft_kv.Prelude.{arith, get_elem?-lt, length, suc, true, ◌+◌, ◌-◌, ◌≡◌, ◌≤◌}
use ww_raft_kv.Raft.Frame.{done_of_returns, returns}
use ww_raft_kv.Raft.Log.{get_log_at, get_log_from, get_term_at, log_match}
use ww_raft_kv.Raft.State.{Raft}
use ww_raft_kv.Raft.Types.{LogIndex, TermId}

pub record IsContiguous (s : Raft) : Type 0 where
  pub base : 1 ≤ s.base_index
  pub span : s.base_index + length s.logs ≡ suc s.last_log_index

module _ (s : Raft) (c : IsContiguous s) where
  pub get_term_at-returns : (i : LogIndex) → returns (get_term_at s i) ≡ true
  unfolding get_term_at
  get_term_at-returns i = ground (arith, get_elem?-lt s.logs (i - s.base_index), c.span)

  pub log_match-returns : (i : LogIndex) (t : TermId) → returns (log_match s i t) ≡ true
  unfolding log_match
  log_match-returns i t = ground (arith, get_term_at-returns i, done_of_returns (get_term_at s i))

  pub get_log_at-returns :
      (i : LogIndex) → s.base_index ≤ i → i ≤ s.last_log_index → returns (get_log_at s i) ≡ true
  unfolding get_log_at
  get_log_at-returns i h k = ground (arith, get_elem?-lt s.logs (i - s.base_index), c.span)

  pub get_log_from-returns : (i : LogIndex) → returns (get_log_from s i) ≡ true
  unfolding get_log_from
  get_log_from-returns i = ground (arith, c.span)
