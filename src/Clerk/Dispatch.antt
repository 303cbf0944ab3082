-- ===== src/Clerk/Dispatch.antt =====
-- raftkv/raft-app/src/RaftClerk.cpp: the thread that takes the messages of the consensus layer, and
-- how a node starts and stops.
use ww_raft_kv.Clerk.Apply.{apply_commit_logs, peer_at, send_kv_operation_response, step_raft}
use ww_raft_kv.Clerk.Send.{
  send_append_entries_request, send_append_entries_response, send_install_snapshot_request,
  send_install_snapshot_response, send_request_vote_request, send_request_vote_response,
}
use ww_raft_kv.Clerk.Snapshot.{apply_snapshot, generate_snapshot, install_snapshot_from_persist}
use ww_raft_kv.Clerk.State.{Host, RaftClerk, RaftPeerNet}
use ww_raft_kv.Clerk.Text.{text_params}
use ww_raft_kv.Prelude.{
  List, Option, String, [], eq_ℤ, false, if◌then◌else◌, map, none, some, true, ℕ, ◌-◌,
}
use ww_raft_kv.Raft.Message.{
  RaftMessage, append_entries_request, append_entries_response, apply_commit_logs_request,
  apply_snapshot_request, generate_snapshot_request, install_snapshot_request,
  install_snapshot_response, kv_operation_response, request_vote_request, request_vote_response,
  shutdown,
}
use ww_raft_kv.Raft.State.{Platform, Raft, RaftPersistData}
use ww_raft_kv.Raft.Types.{NodeId, new_peer}
use ww_raft_kv.SkipList.Change.{new}
use ww_raft_kv.SkipList.Types.{◌>>=◌}
use ww_raft_kv.Raft.Dispatch
use ww_raft_kv.Raft.Persist
use ww_raft_kv.Raft.State

unfoldable pub handle_message : RaftMessage → RaftClerk → Option RaftClerk
handle_message (request_vote_request m) c = send_request_vote_request m c
handle_message (request_vote_response m) c = send_request_vote_response m c
handle_message (append_entries_request m) c = send_append_entries_request m c
handle_message (append_entries_response m) c = send_append_entries_response m c
handle_message (install_snapshot_request m) c = send_install_snapshot_request m c
handle_message (install_snapshot_response m) c = send_install_snapshot_response m c
handle_message (kv_operation_response m) c = send_kv_operation_response m c
handle_message (apply_commit_logs_request m) c = apply_commit_logs m c
handle_message (apply_snapshot_request m) c = apply_snapshot m c
handle_message (generate_snapshot_request m) c = generate_snapshot m c
handle_message shutdown c = some c
handle_message _ c = some c

unfoldable pub handle_ready : Option (RaftMessage × Raft) → RaftClerk → Option RaftClerk
unfolding handle_message
handle_ready none c = some c
handle_ready (some (m, raft)) c = handle_message m (record c { raft = raft })

-- One round of `_GetInnerMessage`: the queue gives a message or nothing.
unfoldable pub get_inner_message : RaftClerk → Option RaftClerk
unfolding handle_ready
get_inner_message c = handle_ready (State.read_ready c.raft) c

-- The clients of the other nodes, in the order of the peers.
unfoldable pub client_of : NodeId → RaftPeerNet → Option RaftPeerNet
client_of id peer = if eq_ℤ peer.id id then none else some peer

-- `MAX_LEVEL` of raftkv/kvstore/include/KVCommon.h.
abbrev pub max_level : ℕ
max_level = 16

-- The state that the constructor makes before it loads the file of the consensus layer.
unfoldable pub initial :
    NodeId → List RaftPeerNet → Platform → Option RaftPersistData → Host → Option String → RaftClerk
unfolding client_of
initial id peers platform disk host file = record {
  raft = Persist.new id (map (λ p. new_peer p.id) peers) platform disk;
  peers = peers;
  kv_store = new (text_params host.rand) (max_level - 1);
  clients = map (client_of id) peers;
  running = false;
  pending_requests = [];
  pending_kv_requests = [];
  calls = [];
  replies = [];
  file = file;
  opened = 0;
  host = host;
}

-- The constructor. It takes the snapshot of the file only if the consensus layer has loaded its
-- own; an exception on the way leaves no node. The addresses to listen at are looked up by the id.
unfoldable pub construct :
    NodeId
    → List RaftPeerNet
    → Platform
    → Option RaftPersistData
    → Host
    → Option String
    → Option RaftClerk
unfolding initial peer_at install_snapshot_from_persist
construct id peers platform disk host file = do
  self ← peer_at id peers
  let c = initial id peers platform disk host file
  elim (Persist.load_persist c.raft) [
    | State.done (true, raft) ↦ install_snapshot_from_persist (record c { raft = raft })
    | State.done (false, raft) ↦ some (record c { raft = raft })
    | State.failed fault raft ↦ none
  ]

-- `start`, when its timers have run: the thread of the queue is there, and then the node's own.
unfoldable pub start : RaftClerk → RaftClerk
start c = record c { running = true; raft = Dispatch.start c.raft }

-- `stop`, up to the end of the threads.
unfoldable pub stop : RaftClerk → RaftClerk
unfolding step_raft
stop c = step_raft shutdown (record c { running = false })
