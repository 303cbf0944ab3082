-- ===== src/Rpc/Delivery.antt =====
-- raftkv/raft-rpc: a request that comes in at a dispatcher, and a response at a channel.
use text.Mathlib.Text.{◌==◌ as str_eq}
use ww_raft_kv.Prelude.{
  List, String, [], ap, append-nil, false, length, refl, some, sym, ℕ, ◌++◌, ◌+◌, ◌<◌, ◌==◌, ◌∙◌,
  ◌∷◌, ◌≡◌,
}
use ww_raft_kv.Rpc.Buffer.{Verdict, broken, go_on, left, on_buffer, stuck}
use ww_raft_kv.Rpc.Bytes.{word}
use ww_raft_kv.Rpc.Channel.{
  CallMethodContext, RaftRpcChannel, answered, cancel, find_call, finish, on_message, ran, respond,
  stored, undefined,
}
use ww_raft_kv.Rpc.Dispatcher.{Call, ServiceMap, accept, call_of, or_empty, response_bytes}
use ww_raft_kv.Rpc.Framing.{read_frame-frame}
use ww_raft_kv.Rpc.Header.{frame, judge, packet, read_frame, read_header}
use ww_raft_kv.Rpc.Serialization.{
  MethodDescriptor, Protobuf, RaftRpcData, deserialize, deserialize-serialize, serialize,
}
use ww_raft_kv.Rpc.Stream.{on_buffer-go_on, on_buffer-stuck, on_buffer-waits}
use ww_raft_kv.Rpc.Dispatcher
use ww_raft_kv.Table

append-nil_frame :
    (body : List ℕ) → 16 + length body < 4294967296 → read_frame (frame body) ≡ packet body []
append-nil_frame body fits =
    ap (λ b. read_frame b) (sym (append-nil (frame body))) ∙ read_frame-frame body [] fits

-- A buffer that holds one message, which lets the loop go on.
one_frame {ℓ} :
    {S : Type ℓ} (handle : List ℕ → S → Verdict S) (body : List ℕ) (s t : S)
    → 16 + length body < 4294967296
    → handle body s ≡ go_on t
    → on_buffer handle (frame body) s ≡ left [] t
unfolding read_frame judge read_header word
one_frame handle body s t fits h =
    on_buffer-go_on handle (frame body) body [] s t (append-nil_frame body fits) h
    ∙ on_buffer-waits handle [] t refl

one_frame_stuck {ℓ} :
    {S : Type ℓ} (handle : List ℕ → S → Verdict S) (body : List ℕ) (s t : S)
    → 16 + length body < 4294967296
    → handle body s ≡ stuck t
    → on_buffer handle (frame body) s ≡ broken t
one_frame_stuck handle body s t fits h =
    on_buffer-stuck handle (frame body) body [] s t (append-nil_frame body fits) h

-- The call that a dispatcher makes of a request.
unfoldable pub call_to {ℓ} : {M : Type ℓ} → MethodDescriptor → ℕ → M → Call M
call_to method sequence request = record {
  service_name = method.service;
  method_name = method.name;
  sequence_id = sequence;
  method = method;
  request = request;
}

module _ {ℓ} {M : Type ℓ} (protobuf : Protobuf M)
    (back : (d : RaftRpcData) (b : List ℕ)
      → protobuf.encode_data d ≡ some b
      → protobuf.decode_data b ≡ some d) where
  -- A dispatcher with a service of the names of the call.
  pub on_message-frame :
      (services : ServiceMap) (methods : List (String × MethodDescriptor))
      (method : MethodDescriptor) (sequence : ℕ) (request : M) (args bytes : List ℕ)
      → protobuf.encode request ≡ some args
      → protobuf.decode_request method args ≡ some request
      → serialize protobuf method.service method.name sequence request ≡ some bytes
      → 16 + length bytes < 4294967296
      → Table.lookup str_eq method.service services ≡ some methods
      → Table.lookup str_eq method.name methods ≡ some method
      → Dispatcher.on_message protobuf services (frame bytes) []
        ≡ left [] (call_to method sequence request ∷ [])
  unfolding Dispatcher.on_message call_of accept call_to
  on_message-frame services methods method sequence request args bytes coded parsed sent fits s m =
      one_frame (λ body made. accept (call_of protobuf services body) made) bytes []
        (call_to method sequence request ∷ []) fits
        (rw
          (
            deserialize-serialize protobuf method.service method.name sequence request args bytes
                back coded sent,
            s,
            m,
            parsed,
          )
          refl)

  respond-serialize :
      (call : Call M) (context : CallMethodContext) (response : M) (args bytes : List ℕ)
      (s : RaftRpcChannel M)
      → protobuf.encode response ≡ some args
      → protobuf.decode_response context.method args ≡ some response
      → serialize protobuf call.service_name call.method_name call.sequence_id response ≡ some bytes
      → Table.lookup ◌==◌ call.sequence_id s.pending_requests ≡ some context
      → ran context.done s.completed ≡ false
      → respond protobuf (deserialize protobuf bytes) s
        ≡ finish call.sequence_id context (some response) s
  unfolding respond find_call
  respond-serialize call context response args bytes s coded parsed sent found fresh =
      rw
        (
          deserialize-serialize protobuf call.service_name call.method_name call.sequence_id
              response args bytes back coded sent,
          found,
          fresh,
          parsed,
        )
        refl

  pub on_message-answer :
      (call : Call M) (context : CallMethodContext) (response : M) (args bytes : List ℕ)
      (s : RaftRpcChannel M)
      → s.buffer ≡ []
      → protobuf.encode response ≡ some args
      → protobuf.decode_response context.method args ≡ some response
      → serialize protobuf call.service_name call.method_name call.sequence_id response ≡ some bytes
      → 16 + length bytes < 4294967296
      → Table.lookup ◌==◌ call.sequence_id s.pending_requests ≡ some context
      → ran context.done s.completed ≡ false
      → on_message protobuf (response_bytes protobuf call response) s
        ≡ some (
            undefined (record s {
              timers = cancel call.sequence_id s.timers;
              pending_requests = Table.erase ◌==◌ call.sequence_id s.pending_requests;
              dangling = some (context.done, answered response);
            }))
  unfolding on_message response_bytes or_empty stored finish
  on_message-answer call context response args bytes s empty coded parsed sent fits found fresh =
      let handle : List ℕ → RaftRpcChannel M → Verdict (RaftRpcChannel M) =
        λ body t. respond protobuf (deserialize protobuf body) t in
      ap
        (λ b. stored (
          on_buffer handle
            (b
              ++ frame (
                  or_empty (
                    serialize protobuf call.service_name call.method_name call.sequence_id
                      response)))
            s))
        empty
      ∙ ap (λ o. stored (on_buffer handle (frame (or_empty o)) s)) sent
      ∙ ap stored (
          one_frame_stuck handle bytes s
            (record s {
              timers = cancel call.sequence_id s.timers;
              pending_requests = Table.erase ◌==◌ call.sequence_id s.pending_requests;
              dangling = some (context.done, answered response);
            })
            fits
            (respond-serialize call context response args bytes s coded parsed sent found fresh))
