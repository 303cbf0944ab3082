-- ===== src/Rpc/Dispatcher.antt =====
-- raftkv/raft-rpc/src/RaftRpcDispatcher.cpp: the side of a connection that serves calls. The two
-- classes there, `RaftRpcDispatcher` and `KVOperationDispatcher`, differ in `_SendResponse` alone.
use text.Mathlib.Text.{◌==◌ as str_eq}
use ww_raft_kv.Prelude.{
  Bool, List, Option, String, [], false, if◌then◌else◌, none, some, ℕ, ◌++◌, ◌∷◌,
}
use ww_raft_kv.Rpc.Buffer.{Drained, Verdict, go_on, leave, on_buffer}
use ww_raft_kv.Rpc.Header.{frame}
use ww_raft_kv.Rpc.Serialization.{MethodDescriptor, Protobuf, deserialize, serialize}
use ww_raft_kv.SkipList.Types.{◌>>=◌}
use ww_raft_kv.Table

-- A service with its methods, as the program registers them: names to descriptors.
abbrev pub ServiceMap : Type 0
ServiceMap = List (String × List (String × MethodDescriptor))

unfoldable pub method_map :
    List MethodDescriptor → List (String × MethodDescriptor) → List (String × MethodDescriptor)
method_map [] m = m
method_map (method ∷ methods) m = method_map methods (Table.assign str_eq method.name method m)

unfoldable pub register_service : String → List MethodDescriptor → ServiceMap → ServiceMap
register_service service methods m = Table.assign str_eq service (method_map methods []) m

-- A call that the service gets; the closure `RaftRpcServerClosure` holds the number and the names
-- for the response.
pub record Call {ℓ} (M : Type ℓ) : Type ℓ where
  pub service_name : String
  pub method_name : String
  pub sequence_id : ℕ
  pub method : MethodDescriptor
  pub request : M

unfoldable pub or_empty : Option (List ℕ) → List ℕ
or_empty none = []
or_empty (some bytes) = bytes

module _ {ℓ} {M : Type ℓ} where
  unfoldable pub accept : Option (Call M) → List (Call M) → Verdict (List (Call M))
  accept none calls = leave calls
  accept (some call) calls = go_on (calls ++ (call ∷ []))

module _ {ℓ} {M : Type ℓ} (protobuf : Protobuf M) where
  -- A message up to the call of the service, where each step may `return`.
  unfoldable pub call_of : ServiceMap → List ℕ → Option (Call M)
  call_of services body = do
    received ← deserialize protobuf body
    methods ← Table.lookup str_eq received.service_name services
    method ← Table.lookup str_eq received.method_name methods
    request ← protobuf.decode_request method received.payload
    some (record {
      service_name = received.service_name;
      method_name = received.method_name;
      sequence_id = received.sequence_id;
      method = method;
      request = request;
    })

  -- `_OnMessage`: the calls of the services, in order, and what stays in the buffer.
  unfoldable pub on_message : ServiceMap → List ℕ → List (Call M) → Drained (List (Call M))
  on_message services buffer calls =
      on_buffer (λ body made. accept (call_of services body) made) buffer calls

  -- The bytes of a response. Where it cannot be serialized the string stays empty, and is sent.
  unfoldable pub response_bytes : Call M → M → List ℕ
  response_bytes call response =
      frame
        (or_empty (serialize protobuf call.service_name call.method_name call.sequence_id response))

-- A connection at the server: what was sent, and whether it can still be written to.
pub record Connection : Type 0 where
  pub sent : List (List ℕ)
  pub writable : Bool

unfoldable pub send : List ℕ → Connection → Connection
send bytes conn = if conn.writable then record conn { sent = conn.sent ++ (bytes ∷ []) } else conn

unfoldable pub shutdown : Connection → Connection
shutdown conn = record conn { writable = false }

module _ {ℓ} {M : Type ℓ} (protobuf : Protobuf M) where
  -- `_SendResponse` of `RaftRpcDispatcher`; the first argument is `_Controller->Failed()`.
  unfoldable pub send_response : Bool → Call M → M → Connection → Connection
  send_response failed call response conn =
      if failed then conn else send (response_bytes protobuf call response) conn

  -- Of `KVOperationDispatcher`, whose connections take one response.
  unfoldable pub send_response_once : Bool → Call M → M → Connection → Connection
  send_response_once failed call response conn =
      if failed then conn else shutdown (send (response_bytes protobuf call response) conn)
