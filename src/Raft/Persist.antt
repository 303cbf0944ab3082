-- ===== src/Raft/Persist.antt =====
-- raftkv/raft-core/src/Raft.cpp: what a node keeps on disk, and how it starts from it.
pub mod Restart
use ww_raft_kv.Prelude.{
  Bool, List, Option, [], false, if◌then◌else◌, length, map, none, not, some, true, ◌&&◌, ◌++◌, ◌+◌,
  ◌-◌,
}
use ww_raft_kv.Raft.Log.{get_term_at}
use ww_raft_kv.Raft.State.{
  Outcome, Platform, Raft, RaftPersistData, RaftPersistLogEntry, done, follower, ◌>>=◌,
}
use ww_raft_kv.Raft.Timer.{reset_election_deadline}
use ww_raft_kv.Raft.Types.{NodeId, RaftLogEntry, RaftPeer, TermId, no_node}

unfoldable pub persist_entry : RaftLogEntry → RaftPersistLogEntry
persist_entry e = record { term = e.term; command = e.command }

unfoldable pub persist_data : Raft → RaftPersistData
unfolding persist_entry
persist_data s = record {
  term = s.term;
  voted_for = s.voted_for;
  entries = map persist_entry s.logs;
  last_included_index = s.last_included_index;
  last_included_term = s.last_included_term;
}

-- A failure to code the data or to open the file is logged, and leaves the file as it was.
unfoldable pub persist : Raft → Raft
unfolding persist_data
persist s =
    let written =
      if s.platform.serializes s.calls && s.platform.opens (s.calls + 1)
      then some (persist_data s)
      else s.disk in
    record s { disk = written; calls = s.calls + 2 }

unfoldable pub restore_entry : RaftPersistLogEntry → RaftLogEntry
restore_entry e = record { uuid = ""; sequence_id = 0; term = e.term; command = e.command }

-- The fields as they are set before the term of the last entry is looked up.
unfoldable pub restore : RaftPersistData → Raft → Raft
unfolding restore_entry
restore d s =
    let logs' = s.logs ++ map restore_entry d.entries in
    record s {
      term = d.term;
      voted_for = d.voted_for;
      last_included_index = d.last_included_index;
      last_included_term = d.last_included_term;
      logs = logs';
      base_index = d.last_included_index + 1;
      last_log_index = d.last_included_index + 1 + length logs' - 1;
    }

unfoldable pub finish_load : TermId → Raft → Raft
finish_load last_term s = record s {
  last_log_term = last_term;
  last_commit_index = s.last_included_index;
  last_applied_index = s.last_included_index;
}

unfoldable pub load_data : RaftPersistData → Raft → Outcome (Bool × Raft)
unfolding restore finish_load
load_data d s = do
  let t = restore d s
  last_term ← get_term_at t t.last_log_index
  done (true, finish_load last_term t)

-- `loadPersist`: false if there is no file, or it cannot be opened or parsed.
unfoldable pub load_persist : Raft → Outcome (Bool × Raft)
unfolding load_data
load_persist s = elim s.disk [
  | none ↦ done (false, s)
  | some d ↦
      if not (s.platform.opens s.calls)
      then done (false, record s { calls = s.calls + 1 })
      else if not (s.platform.parses (s.calls + 1))
      then done (false, record s { calls = s.calls + 2 })
      else load_data d (record s { calls = s.calls + 2 })
]

-- The constructor: a follower in term 0 with no entry. The file of an earlier process is there.
unfoldable pub new : NodeId → List RaftPeer → Platform → Option RaftPersistData → Raft
unfolding reset_election_deadline
new id peers platform disk = reset_election_deadline (record {
  id = id;
  role = follower;
  term = 0;
  vote_count = 0;
  voted_for = no_node;
  leader_id = no_node;
  logs = [];
  base_index = 1;
  last_log_index = 0;
  last_log_term = 0;
  last_included_index = 0;
  last_included_term = 0;
  last_commit_index = 0;
  last_applied_index = 0;
  is_applying = false;
  is_snapshoting = false;
  peers = peers;
  inner_channel = [];
  outter_channel = [];
  election_timeout_min = 150;
  election_timeout_max = 300;
  heartbeat_timeout = 50;
  election_deadline = 0;
  heartbeat_deadline = 0;
  running = false;
  platform = platform;
  calls = 0;
  disk = disk;
})
