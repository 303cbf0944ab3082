-- ===== src/Raft/Timer.antt =====
-- raftkv/raft-core/src/Raft.cpp: the deadlines, in milliseconds of the steady clock.
use ww_raft_kv.Prelude.{◌+◌}
use ww_raft_kv.Raft.State.{Raft}

-- `_GetRandomTimeout` draws, and the clock is read after it.
unfoldable pub reset_election_deadline : Raft → Raft
reset_election_deadline s =
    let timeout = s.platform.draw s.calls s.election_timeout_min s.election_timeout_max in
    record s { election_deadline = s.platform.now (s.calls + 1) + timeout; calls = s.calls + 2 }

unfoldable pub reset_heartbeat_deadline : Raft → Raft
reset_heartbeat_deadline s = record s {
  heartbeat_deadline = s.platform.now s.calls + s.heartbeat_timeout;
  calls = s.calls + 1;
}
