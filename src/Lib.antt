-- ===== src/Lib.antt =====
-- Verification library of WW-RaftKV, a key-value store replicated with Raft.
--
-- The program. A node has a consensus layer (raftkv/raft-core), an application layer
-- (raftkv/raft-app) over a map (raftkv/kvstore), and a layer for remote calls
-- (raftkv/raft-rpc). The consensus layer never calls the others: it takes messages from one queue
-- (`Raft::step`) and leaves messages in another (`Raft::readReady`). The application layer applies
-- what is committed to the map, a skip list. Modelled here are the consensus layer, all of the class
-- `Raft`, the application layer, all of the class `RaftClerk`, the map, the calls of other nodes
-- (raftkv/raft-rpc), and the classes of block sizes of the memory pool (raftkv/memory-pool).
--
-- Correspondence, by files of this library:
--   Raft/Types        raftkv/raft-core/include/RaftCommon.h, RaftLogEntry.h, RaftPeer.h
--   Raft/Message      raftkv/raft-core/include/RaftMessage.h: a constructor for each type
--   Raft/State        the fields of `Raft`, the queues of RaftChannel.h, how a call ends
--   Raft/Log          _GetTermAt, _LogUpToDate, _LogMatch, _TruncateAfter, _TruncateBefore,
--                     _GetLogAt, _GetLogFrom
--   Raft/Timer        _ResetElectionDeadline, _ResetHeartbeatDeadline
--   Raft/Persist      _Persist, loadPersist, the constructor
--   Raft/Role         _BecomeFollower, _BecomeCandidate, _BecomeLeader, _SendAppendEntries
--   Raft/Vote         _HandleRequestVoteRequest, _HandleRequestVoteResponse
--   Raft/Append       _HandleAppendEntriesRequest, _HandleAppendEntriesResponse
--   Raft/Commit       _ApplyCommitLogs, _GenerateSnapshot, _CheckIfNeedSnapshot,
--                     _HandleApplyCommitLogs
--   Raft/Snapshot     _HandleInstallSnapshotRequest, _HandleInstallSnapshotResponse,
--                     _HandleGenerateSnapshot, _HandleApplySnapshot
--   Raft/Client       _HandleKVOperationRequest
--   Raft/Dispatch     _HandleMessage, one round each of _RaftLoop and of _GetOutterMessage, start
--   Raft/History      sequences of steps of the two threads and of the application
-- These are all in raftkv/raft-core/src/Raft.cpp. The files below them hold the proofs; Raft/Frame
-- has the rules for calls that may end the process. Raft/Tests and Raft/HistoryTests run the model.
--
-- For the map, raftkv/kvstore/include/SkipList.h and KVStore.h:
--   SkipList/Types    _Skip_list_node, on a heap of nodes with addresses
--   SkipList          _Find, _Find_with_update, contains, _Random_level
--   SkipList/Change   the constructor, _Create_and_insert, _Insert, _Get_or_insert, erase of a key,
--                     clear, the destructor
--   SkipList/EraseAt  erase at an iterator
--   SkipList/Iterator the iterator, begin, end, size, empty, at
--   KvStore           get, put, update, remove of KVStore
-- SkipList/Shape says what the nodes of a skip list look like; the files below SkipList prove what
-- search, insertion, assignment, removal, iteration and `clear` do to them, and the files below
-- KvStore what that means for a map from keys to values. A read or a write of a pointer has no result
-- where C++ leaves it open: at an address with no node, or at a level that the node does not have. The
-- template's types, their operators and `rand` are parameters, and the proofs ask that `<` and `==`
-- are a strict total order. The constructor takes the highest level index, `_Max_level - 1`, since
-- `_Max_level` is at least 1 wherever the program makes a list.
--
-- For the application layer, raftkv/raft-app/src/RaftClerk.cpp and raftkv/raft-app/include:
--   Clerk/Text        reading words of a std::istringstream; strings are native texts
--   Clerk/Command     the text of a command, _ApplyCommitLogs' reading of it
--   Table             std::unordered_map and std::map, as a list of pairs in order of insertion
--   Clerk/State       the fields of `RaftClerk`, and `Host`, the machine that it runs on
--   Clerk/Send        the methods _Send..., which call other nodes
--   Clerk/Apply       _ApplyCommitLogs, the answer to the client that waits
--   Clerk/Snapshot    _GenerateSnapshot, _ApplySnapshot, _InstallSnapshotFromPersist
--   Clerk/Receive     the callbacks that turn requests and responses of nodes into messages
--   Clerk/Dispatch    _GetInnerMessage, _HandleMessage, the constructor, start, stop
--   Clerk/Rounds      a round of the consensus layer and one of the application layer
--   Clerk/Clients     the requests of clients
--   Clerk/Wire        a request on its way from one node to another
-- The proofs of what commands do are under Clerk/Command and Clerk/Entries, those of snapshots under
-- Clerk/Snapshot, those of answers in Clerk/Replies and Clerk/Clients; Clerk/Fixtures and Clerk/Tests
-- run the layer. A step of the application that C++ leaves open, as a null pointer that is read, has
-- no result.
--
-- For calls of other nodes, raftkv/raft-rpc/src and raftkv/raft-rpc/include:
--   Rpc/Bytes         htobe64, htobe32 and back, on bytes as numbers
--   Rpc/Crc32         RaftRpcCRC32: _Init, crc32
--   Rpc/Header        RaftRpcFixedHeader, and what puts it before a message and reads it back
--   Rpc/Buffer        the loop of _OnMessage, which the source has three times; what is done with
--                     a message is its parameter
--   Rpc/Serialization RaftRpcSerialization and RaftRpcData, over `Protobuf`, the coding of messages
--   Rpc/Dispatcher    RaftRpcDispatcher and KVOperationDispatcher: registerService, _OnMessage,
--                     _SendResponse
--   Rpc/Channel       RaftRpcChannel: CallMethod, _OnConnection, _OnMessage, _HandleTimeout
-- A connection is what was sent, what is in its buffer and whether it is ready; the event loop of the
-- network library is the list of the timers that have neither run nor been cancelled. The closure of
-- a call is a number, and `completed` lists the closures that were run. They are closures of the
-- class `RaftRpcClientClosure`, which destroys itself in `Run`, with the controller and the response
-- of the call. A method of the channel either returns, or comes to a step that C++ leaves open, and
-- the result is then the state before that step. There are two such steps: `_OnMessage` and
-- `_HandleTimeout` read the closure from an entry of the table that they have freed; and a closure
-- that was run, its controller or its response is used again. What a program does after such a step
-- is not modelled. Rpc/Framing and Rpc/Stream prove what a reader sees of frames; Rpc/Pending,
-- Rpc/Count, Rpc/Counting, Rpc/Kept and Rpc/Calls count the calls, Rpc/Guard has their timers and
-- Rpc/Closing the loss of a connection; Rpc/Delivery and Rpc/Exchange follow a call to the other node
-- and back, and Rpc/Failures is a response that does not parse. The loop of `_OnMessage` has as fuel
-- the number of bytes in the buffer: each of its rounds but the last takes at least a header.
--
-- For the memory pool, MemoryPool/Size is raftkv/memory-pool/common/src/Size.cpp, in which sums and
-- differences of `std::size_t` wrap at 2 ^ 64, and a mask of the bits below a power of 2 is a multiple
-- of that power.
--
-- State. A handler takes a message and the record of the node, and gives an `Outcome`: `done` with
-- the new record, or `failed` with the fault and the record reached. A fault is the exception
-- out_of_range, which nothing catches, so it ends the process; or a step past the end of a vector; or
-- an answer of the application with an index below 0 that is not its -1 with term 0, which the code
-- stores: the record has no place for it, and the model ends there.
-- The two threads share the record without a lock; the model takes their rounds one at a time.
--
-- The machine. `Platform` gives the result of the n-th call of a library: the clock, a random draw,
-- whether protobuf codes or parses a message, whether a file opens. It also gives the values of
-- fields that a constructor leaves unset. The file of a node is the record that was last written.
-- Lines of the program's own log are left out, but for a reading of the log of entries that is made
-- for one of them and may throw. `Host` does the same for the application: whether a file opens,
-- what protobuf codes and parses of a snapshot, and the draws of `rand`; a write to a file that is
-- open is taken to succeed. Each node has one snapshot file. White space is that of ASCII.
--
-- Numbers. `TermId` is std::size_t; only `++_Term` can wrap, and wraps at 2 ^ 64. `LogIndex` is an
-- int, here a natural number, since no index is negative but the -1 with term 0 by which the
-- application says that it failed; messages that carry it have an integer there. Differences of
-- indexes are taken where they are not negative. std::sort is insertion sort: on numbers the
-- results are the same. The loops of `Raft` go over lists or count down. The loops of a skip list
-- that go along a level, and that of `clear`, have as fuel the number of nodes that were made, and
-- each of their rounds goes to another node.
--
-- Not modelled: of raftkv/raft-rpc the clients, services and server, which pass calls on; the
-- lists and caches of the memory pool, the logger, the joining of threads in `stop`, and generated
-- code.
pub mod Clerk
pub mod KvStore
pub mod MemoryPool
pub mod Prelude
pub mod Raft
pub mod Rpc
pub mod SkipList
pub mod Table
