-- ===== src/Raft/History.antt =====
-- raftkv/raft-core/src/Raft.cpp and RaftChannel.h: a node between its two threads and the
-- application, one step of one of them at a time.
use ww_raft_kv.Prelude.{some, true, ◌+◌, ◌<◌, ◌≡◌}
use ww_raft_kv.Raft.Dispatch.{get_outter_message, raft_loop, start}
use ww_raft_kv.Raft.Message.{RaftMessage}
use ww_raft_kv.Raft.State.{Raft, done, read_ready, step}
use ww_raft_kv.Raft.Types.{term_mod}

pub data Step (s t : Raft) : Type 0 where
  -- The application hands a message over.
  receive : (m : RaftMessage) → t ≡ step m s → Step s t
  -- The thread for messages handles one, and returns.
  message : s.running ≡ true → get_outter_message s ≡ done t → Step s t
  -- The thread for time runs one round.
  timer : s.running ≡ true → raft_loop s ≡ done t → Step s t
  -- The application takes a message.
  ready : (m : RaftMessage) → read_ready s ≡ some (m, t) → Step s t
  -- `start` or `startMessage`.
  begin : t ≡ start s → Step s t

pub data Reach (s : Raft) : Raft → Type 0 where
  here : Reach s s
  next : {t u : Raft} → Reach s t → Step t u → Reach s u

-- No term along the way is the last that `std::size_t` can hold.
abbrev pub NoWrap : {s t : Raft} → Reach s t → Type 0
NoWrap here = Unit
NoWrap (next {t = t} r st) = NoWrap r × (t.term + 1 < term_mod)
