-- ===== src/Rpc/Exchange.antt =====
-- raftkv/raft-rpc: a call on its way from a channel to a dispatcher, and the response to it.
use text.Mathlib.Text.{◌==◌ as str_eq}
use ww_raft_kv.Prelude.{
  ==_iff, Bool-cases, List, String, [], ap, eq→==, false, inl, inr, length, none, refl, some, true,
  ℕ, ◌%◌, ◌++◌, ◌+◌, ◌<◌, ◌==◌, ◌^◌, ◌∙◌, ◌∷◌, ◌≡◌,
}
use ww_raft_kv.Rpc.Buffer.{left}
use ww_raft_kv.Rpc.Channel.{
  CallMethodContext, RaftRpcChannel, answered, call_method, cancel, launch, on_message, ran,
  returned, transmit, undefined,
}
use ww_raft_kv.Rpc.Delivery.{call_to, on_message-answer, on_message-frame}
use ww_raft_kv.Rpc.Dispatcher.{Call, ServiceMap, accept, call_of, or_empty, response_bytes}
use ww_raft_kv.Rpc.Guard.{armed}
use ww_raft_kv.Rpc.Header.{frame}
use ww_raft_kv.Rpc.Serialization.{MethodDescriptor, Protobuf, RaftRpcData, serialize}
use ww_raft_kv.Rpc.Dispatcher
use ww_raft_kv.Table

armed_cancelled : (id : ℕ) (timers : List ℕ) → armed id (cancel id timers) ≡ false
unfolding armed cancel
armed_cancelled id [] = refl
armed_cancelled id (timer ∷ timers) = elim (Bool-cases (timer == id)) [
  | inl e ↦ rw e (armed_cancelled id timers)
  | inr e ↦ rw (e, e) (armed_cancelled id timers)
]

module _ {ℓ} {M : Type ℓ} (protobuf : Protobuf M)
    (back : (d : RaftRpcData) (b : List ℕ)
      → protobuf.encode_data d ≡ some b
      → protobuf.decode_data b ≡ some d) where
  -- A channel that has sent the frame of a call.
  after_call : RaftRpcChannel M → MethodDescriptor → ℕ → List ℕ → RaftRpcChannel M
  after_call s method done bytes = record s {
    sequence_id = (s.sequence_id + 1) % 2 ^ 64;
    timers = s.sequence_id ∷ s.timers;
    pending_requests =
        Table.assign ◌==◌ s.sequence_id (record { method = method; done = done })
          s.pending_requests;
    sent = s.sent ++ (frame bytes ∷ []);
  }

  call_method_ready :
      (s : RaftRpcChannel M) (method : MethodDescriptor) (request : M) (done : ℕ) (bytes : List ℕ)
      → s.connected ≡ true
      → serialize protobuf method.service method.name s.sequence_id request ≡ some bytes
      → call_method protobuf method request done s ≡ returned (after_call s method done bytes)
  unfolding call_method launch transmit after_call
  call_method_ready s method request done bytes up told =
      let next = (s.sequence_id + 1) % 2 ^ 64 in
      ap
        (λ o.
          launch s.sequence_id (record { method = method; done = done }) o
            (record s { sequence_id = next }))
        told
      ∙ ap
          (λ b.
            transmit b s.sequence_id (record { method = method; done = done }) bytes
              (record s { sequence_id = next }))
          up

  -- The side of the channel.
  call_method-on_message :
      (s : RaftRpcChannel M) (method : MethodDescriptor) (request : M) (done : ℕ)
      (request_bytes : List ℕ) (call : Call M) (response : M) (args bytes : List ℕ)
      → s.connected ≡ true
      → s.buffer ≡ []
      → ran done s.completed ≡ false
      → serialize protobuf method.service method.name s.sequence_id request ≡ some request_bytes
      → call.sequence_id ≡ s.sequence_id
      → protobuf.encode response ≡ some args
      → protobuf.decode_response method args ≡ some response
      → serialize protobuf call.service_name call.method_name call.sequence_id response ≡ some bytes
      → 16 + length bytes < 4294967296
      → (u : RaftRpcChannel M) × (call_method protobuf method request done s ≡ returned u)
        × (u.sent ≡ s.sent ++ (frame request_bytes ∷ []))
        × (armed s.sequence_id u.timers ≡ true)
        × ((t : RaftRpcChannel M) × (on_message protobuf (response_bytes protobuf call response) u
              ≡ some (undefined t))
            × (t.dangling ≡ some (done, answered response))
            × (t.completed ≡ s.completed)
            × (Table.lookup ◌==◌ s.sequence_id t.pending_requests ≡ none)
            × (armed s.sequence_id t.timers ≡ false))
  unfolding after_call armed
  call_method-on_message s method request done request_bytes call response args bytes up empty fresh
        told number coded parsed sent fits =
      let context : CallMethodContext = record { method = method; done = done } in
      let at_call = after_call s method done request_bytes in
      let found =
        ap (λ k. Table.lookup ◌==◌ k at_call.pending_requests) number
        ∙ Table.lookup-assign ◌==◌ ==_iff s.sequence_id s.sequence_id context s.pending_requests
        ∙ rw (eq→== s.sequence_id s.sequence_id refl) refl in
      (
        at_call,
        call_method_ready s method request done request_bytes up told,
        refl,
        rw (eq→== s.sequence_id s.sequence_id refl) refl,
        (
          _,
          on_message-answer protobuf back call context response args bytes at_call empty coded
              parsed sent fits found fresh,
          refl,
          refl,
          Table.lookup-erase ◌==◌ ==_iff call.sequence_id s.sequence_id at_call.pending_requests
              ∙ rw (eq→== call.sequence_id s.sequence_id number) refl,
          ap (λ k. armed s.sequence_id (cancel k at_call.timers)) number
              ∙ armed_cancelled s.sequence_id at_call.timers,
        ),
      )

  -- A call over a connection that is ready and has an empty buffer, with a closure that was not run
  -- yet: its frame is sent and its timer is armed. A dispatcher that has a service and a method of
  -- its names, and an empty buffer, makes the call of the frame, with the request and the number.
  -- When the response that the dispatcher sends for it comes in, the channel finds the call, stops
  -- its timer and frees its entry in the table. It is then about to run the closure of the call
  -- with that response, and reads it from the entry that it has freed, which C++ leaves open, and
  -- here the theorem ends. This is for a protobuf that can write the messages and reads back what
  -- it wrote, and for messages that are shorter than 2 ^ 32 bytes with the header.
  pub exchange :
      (services : ServiceMap) (methods : List (String × MethodDescriptor)) (s : RaftRpcChannel M)
      (method : MethodDescriptor) (request : M) (done : ℕ) (args bytes : List ℕ) (response : M)
      (answer_args answer_bytes : List ℕ)
      → Table.lookup str_eq method.service services ≡ some methods
      → Table.lookup str_eq method.name methods ≡ some method
      → s.connected ≡ true
      → s.buffer ≡ []
      → ran done s.completed ≡ false
      → protobuf.encode request ≡ some args
      → protobuf.decode_request method args ≡ some request
      → serialize protobuf method.service method.name s.sequence_id request ≡ some bytes
      → 16 + length bytes < 4294967296
      → protobuf.encode response ≡ some answer_args
      → protobuf.decode_response method answer_args ≡ some response
      → serialize protobuf method.service method.name s.sequence_id response ≡ some answer_bytes
      → 16 + length answer_bytes < 4294967296
      → (Dispatcher.on_message protobuf services (frame bytes) []
          ≡ left [] (call_to method s.sequence_id request ∷ []))
        × ((u : RaftRpcChannel M) × (call_method protobuf method request done s ≡ returned u)
            × (u.sent ≡ s.sent ++ (frame bytes ∷ []))
            × (armed s.sequence_id u.timers ≡ true)
            × ((t : RaftRpcChannel M) × (on_message protobuf
                    (response_bytes protobuf (call_to method s.sequence_id request) response)
                    u
                  ≡ some (undefined t))
                × (t.dangling ≡ some (done, answered response))
                × (t.completed ≡ s.completed)
                × (Table.lookup ◌==◌ s.sequence_id t.pending_requests ≡ none)
                × (armed s.sequence_id t.timers ≡ false)))
  unfolding call_to
  exchange services methods s method request done args bytes response answer_args answer_bytes
        service name up empty fresh coded parsed told fits answer_coded answer_parsed answer_told
        answer_fits =
      (
        on_message-frame protobuf back services methods method s.sequence_id request args bytes
            coded parsed told fits service name,
        call_method-on_message s method request done bytes (call_to method s.sequence_id request)
            response answer_args answer_bytes up empty fresh told refl answer_coded answer_parsed
            answer_told answer_fits,
      )
