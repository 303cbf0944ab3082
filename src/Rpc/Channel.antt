-- ===== src/Rpc/Channel.antt =====
-- raftkv/raft-rpc/src/RaftRpcChannel.cpp: the side of a connection that makes calls.
use ww_raft_kv.Prelude.{
  Bool, List, Option, [], false, if◌then◌else◌, none, some, true, ℕ, ◌%◌, ◌++◌, ◌+◌, ◌==◌, ◌^◌, ◌∷◌,
}
use ww_raft_kv.Rpc.Buffer.{Drained, Verdict, broken, killed, leave, left, on_buffer, stuck}
use ww_raft_kv.Rpc.Header.{frame}
use ww_raft_kv.Rpc.Serialization.{MethodDescriptor, Packet, Protobuf, deserialize, serialize}
use ww_raft_kv.Table

-- The texts that `SetFailed` gets: "request serialization failed", "tcp connection not availavble",
-- "connection already closed", "parse payload failed", "request timeout".
pub data Reason : Type 0 where
  not_serialized : Reason
  not_connected : Reason
  closed : Reason
  not_parsed : Reason
  timed_out : Reason

-- With what the closure of a call is run.
pub data Completion {ℓ} (M : Type ℓ) : Type ℓ where
  answered : M → Completion M
  failed : Reason → Completion M

-- The objects that the caller passes, `_Controller`, `_Response` and `_Done`, are known by a number
-- of the caller. The timer of a call is known by the number that its callback gets.
pub record CallMethodContext : Type 0 where
  pub method : MethodDescriptor
  pub done : ℕ

-- `timers` are the timers of the event loop that have neither run nor been cancelled. `connected`
-- and `buffer` are those of the connection, `sent` the bytes that went out, and `completed` the
-- closures that were run, in order. Where the code is about to run a closure that it reads from an
-- entry of the table it has freed, `dangling` has that closure.
pub record RaftRpcChannel {ℓ} (M : Type ℓ) : Type ℓ where
  pub sequence_id : ℕ
  pub pending_requests : List (ℕ × CallMethodContext)
  pub timers : List ℕ
  pub connected : Bool
  pub buffer : List ℕ
  pub sent : List (List ℕ)
  pub completed : List (ℕ × Completion M)
  pub dangling : Option (ℕ × Completion M)

-- How a method of the channel ends: it returns, or comes to a step that C++ leaves open, with the
-- state before that step.
pub data Ending {ℓ} (M : Type ℓ) : Type ℓ where
  returned : RaftRpcChannel M → Ending M
  undefined : RaftRpcChannel M → Ending M

-- `cancel` of a timer; a timer that has run is gone as well.
unfoldable pub cancel : ℕ → List ℕ → List ℕ
cancel id [] = []
cancel id (timer ∷ timers) =
    let left = cancel id timers in if timer == id then left else timer ∷ left

module _ {ℓ} {M : Type ℓ} where
  -- The constructor.
  unfoldable pub channel : RaftRpcChannel M
  channel = record {
    sequence_id = 1;
    pending_requests = [];
    timers = [];
    connected = false;
    buffer = [];
    sent = [];
    completed = [];
    dangling = none;
  }

  unfoldable pub and_then : Ending M → (RaftRpcChannel M → Ending M) → Ending M
  and_then (returned s) f = f s
  and_then (undefined s) f = undefined s

  -- Whether a closure has been run. `RaftRpcClientClosure::Run` destroys the closure, and with it
  -- the controller and the response that it owns; each use of one of them after that is a step that
  -- C++ leaves open.
  unfoldable pub ran : ℕ → List (ℕ × Completion M) → Bool
  ran done [] = false
  ran done ((d, result) ∷ rest) = if d == done then true else ran done rest

  unfoldable pub run_once : Bool → ℕ → Completion M → RaftRpcChannel M → Ending M
  run_once false done result s =
      returned (record s { completed = s.completed ++ ((done, result) ∷ []) })
  run_once true done result s = undefined s

  -- `SetFailed` on the controller, then `_Done->Run()`.
  unfoldable pub complete : ℕ → Completion M → RaftRpcChannel M → Ending M
  complete done result s = run_once (ran done s.completed) done result s

  -- With a connection that is ready, or is not.
  unfoldable pub transmit : Bool → ℕ → CallMethodContext → List ℕ → RaftRpcChannel M → Ending M
  transmit true sequence context bytes s = returned (record s {
    timers = sequence ∷ s.timers;
    pending_requests = Table.assign ◌==◌ sequence context s.pending_requests;
    sent = s.sent ++ (frame bytes ∷ []);
  })
  transmit false sequence context bytes s = complete context.done (failed not_connected) s

  -- What is done for a call once its request has a number, and has its bytes or has not.
  unfoldable pub launch : ℕ → CallMethodContext → Option (List ℕ) → RaftRpcChannel M → Ending M
  launch sequence context none s = complete context.done (failed not_serialized) s
  launch sequence context (some bytes) s = transmit s.connected sequence context bytes s

  -- `_HandleTimeout`, which the event loop runs. `context` refers to the entry of the table that
  -- `erase` frees, and `_Done` is read from there after that. Before, `SetFailed` is called on the
  -- controller, which is gone where the closure was run.
  unfoldable pub time_out : ℕ → Option CallMethodContext → RaftRpcChannel M → Ending M
  time_out sequence none s = returned s
  time_out sequence (some context) s = undefined (
      if ran context.done s.completed then s else record s {
        pending_requests = Table.erase ◌==◌ sequence s.pending_requests;
        dangling = some (context.done, failed timed_out);
      })

  unfoldable pub handle_timeout : ℕ → RaftRpcChannel M → Ending M
  handle_timeout sequence s =
      time_out sequence (Table.lookup ◌==◌ sequence s.pending_requests)
        (record s { timers = cancel sequence s.timers })

  -- The loop of `_OnConnection` over the calls that wait.
  unfoldable pub close_all : List (ℕ × CallMethodContext) → RaftRpcChannel M → Ending M
  close_all [] s = returned s
  close_all ((sequence, context) ∷ rest) s =
      and_then
        (complete context.done (failed closed) (record s { timers = cancel sequence s.timers }))
        (close_all rest)

  -- `clear` of the table.
  unfoldable pub clear_requests : RaftRpcChannel M → Ending M
  clear_requests s = returned (record s { pending_requests = [] })

  -- A new connection has a buffer of its own.
  unfoldable pub on_connection : Bool → RaftRpcChannel M → Ending M
  on_connection true s = returned (record s { connected = true; buffer = [] })
  on_connection false s =
      and_then (close_all s.pending_requests (record s { connected = false })) clear_requests

  -- There is no result where the process has ended.
  unfoldable pub stored : Drained (RaftRpcChannel M) → Option (Ending M)
  stored killed = none
  stored (left buffer s) = some (returned (record s { buffer = buffer }))
  stored (broken s) = some (undefined s)

  unfoldable pub leave_after : Ending M → Verdict (RaftRpcChannel M)
  leave_after (returned s) = leave s
  leave_after (undefined s) = stuck s

  -- A response whose call waits. When its payload does not parse, the closure is run, but the
  -- call stays in the table and its timer is left to run. When it parses, `context` refers to the
  -- entry of the table that `erase` frees, and `_Done` is read from there after that.
  unfoldable pub finish :
      ℕ → CallMethodContext → Option M → RaftRpcChannel M → Verdict (RaftRpcChannel M)
  finish sequence context none s = leave_after (complete context.done (failed not_parsed) s)
  finish sequence context (some response) s = stuck (record s {
    timers = cancel sequence s.timers;
    pending_requests = Table.erase ◌==◌ sequence s.pending_requests;
    dangling = some (context.done, answered response);
  })

  module _ (protobuf : Protobuf M) where
    -- `fetch_add` wraps at 2 ^ 64.
    unfoldable pub call_method : MethodDescriptor → M → ℕ → RaftRpcChannel M → Ending M
    call_method method request done s =
        launch s.sequence_id (record { method = method; done = done })
          (serialize protobuf method.service method.name s.sequence_id request)
          (record s { sequence_id = (s.sequence_id + 1) % 2 ^ 64 })

    -- The payload is parsed into the response of the closure, which is gone once that was run.
    unfoldable pub find_call :
        Packet → Option CallMethodContext → RaftRpcChannel M → Verdict (RaftRpcChannel M)
    find_call received none s = leave s
    find_call received (some context) s =
        if ran context.done s.completed
        then stuck s
        else finish received.sequence_id context
            (protobuf.decode_response context.method received.payload) s

    unfoldable pub respond : Option Packet → RaftRpcChannel M → Verdict (RaftRpcChannel M)
    respond none s = leave s
    respond (some received) s =
        find_call received (Table.lookup ◌==◌ received.sequence_id s.pending_requests) s

    -- `_OnMessage`, with the bytes that came in behind those in the buffer.
    unfoldable pub on_message : List ℕ → RaftRpcChannel M → Option (Ending M)
    on_message bytes s =
        stored (on_buffer (λ body t. respond (deserialize protobuf body) t) (s.buffer ++ bytes) s)
