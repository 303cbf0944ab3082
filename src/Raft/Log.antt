-- ===== src/Raft/Log.antt =====
-- raftkv/raft-core/src/Raft.cpp: the log of a node, by logical indexes.
pub mod Reading
pub mod Contiguous
pub mod Truncating
use ww_raft_kv.Prelude.{
  Bool, List, [], drop, false, get_elem?, if◌then◌else◌, leb, length, ltb, not, replicate, take,
  true, ℕ, ◌++◌, ◌+◌, ◌-◌, ◌==◌, ◌||◌,
}
use ww_raft_kv.Raft.State.{Outcome, Raft, done, failed, or_fail, out_of_range, undefined, ◌>>=◌}
use ww_raft_kv.Raft.Types.{LogIndex, RaftLogEntry, TermId}

-- `std::vector::at`.
abbrev pub vector_at : Raft → ℕ → Outcome RaftLogEntry
vector_at s i = or_fail out_of_range s (get_elem? s.logs i)

unfoldable pub get_term_at : Raft → LogIndex → Outcome TermId
get_term_at s index =
    if index == s.last_included_index
    then done s.last_included_term
    else if ltb index s.base_index || ltb s.last_log_index index
    then done 0
    else do entry ← vector_at s (index - s.base_index); done entry.term

unfoldable pub log_up_to_date : Raft → LogIndex → TermId → Bool
log_up_to_date s last_index last_term =
    if not (last_term == s.last_log_term)
    then ltb s.last_log_term last_term
    else leb s.last_log_index last_index

unfoldable pub log_match : Raft → LogIndex → TermId → Outcome Bool
log_match s index term =
    if index == 0
    then done true
    else if index == s.last_included_index
    then done (s.last_included_term == term)
    else if ltb index s.base_index || ltb s.last_log_index index
    then done false
    else do t ← get_term_at s index; done (t == term)

-- `std::vector::resize`: what is added is made by the constructor with no arguments.
resize : Raft → ℕ → List RaftLogEntry → List RaftLogEntry
resize s n xs = take n xs ++ replicate (n - length xs) blank
  where
    blank : RaftLogEntry
    blank = record {
      uuid = "";
      sequence_id = s.platform.unset;
      term = s.platform.unset;
      command = "";
    }

unfoldable pub truncate_after : LogIndex → Raft → Raft
unfolding resize
truncate_after index s =
    if ltb index s.base_index || ltb s.last_log_index index
    then s
    else record s { logs = resize s (index - s.base_index) s.logs }

-- The last test stands for the rule that an erased range lies in the vector.
unfoldable pub truncate_before : LogIndex → Raft → Outcome Raft
truncate_before index s =
    if leb index s.base_index || ltb (s.last_log_index + 1) index
    then done s
    else if ltb (length s.logs) (index - s.base_index)
    then failed undefined s
    else done (record s { logs = drop (index - s.base_index) s.logs; base_index = index })

unfoldable pub get_log_at : Raft → LogIndex → Outcome RaftLogEntry
get_log_at s index =
    if ltb index s.base_index || ltb s.last_log_index index
    then failed out_of_range s
    else vector_at s (index - s.base_index)

-- The test of the length stands for the rule that an assigned range lies in the vector.
unfoldable pub get_log_from : Raft → LogIndex → Outcome (List RaftLogEntry)
get_log_from s index =
    if ltb index s.base_index || ltb s.last_log_index index
    then done []
    else if ltb (length s.logs) (index - s.base_index)
    then failed undefined s
    else done (drop (index - s.base_index) s.logs)
