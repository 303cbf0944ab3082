-- ===== src/Rpc/Failures.antt =====
-- raftkv/raft-rpc/src/RaftRpcChannel.cpp: a response whose payload does not parse.
use ww_raft_kv.Table
