-- ===== src/Raft/Log/Reading.antt =====
-- The readings of the log: a fault leaves the state as it was.
use ww_raft_kv.Prelude.{ltb, ◌-◌, ◌==◌, ◌||◌}
use ww_raft_kv.Raft.Frame.{Reads, Reads-bind, Reads-if, Reads-or_fail}
use ww_raft_kv.Raft.Log.{get_term_at, log_match, vector_at}
use ww_raft_kv.Raft.State.{Raft, out_of_range}
use ww_raft_kv.Raft.Types.{LogIndex, TermId}

pub get_term_at-Reads : (s : Raft) (i : LogIndex) → Reads s (get_term_at s i)
unfolding get_term_at
get_term_at-Reads s i = Reads-if s (i == s.last_included_index) _ _ tt (
    Reads-if s (ltb i s.base_index || ltb s.last_log_index i) _ _ tt
      (Reads-bind s (vector_at s (i - s.base_index)) _ (Reads-or_fail out_of_range s _) (λ _. tt)))

pub log_match-Reads : (s : Raft) (i : LogIndex) (t : TermId) → Reads s (log_match s i t)
unfolding log_match
log_match-Reads s i t = Reads-if s (i == 0) _ _ tt (
    Reads-if s (i == s.last_included_index) _ _ tt (
      Reads-if s (ltb i s.base_index || ltb s.last_log_index i) _ _ tt
        (Reads-bind s (get_term_at s i) _ (get_term_at-Reads s i) (λ _. tt))))
