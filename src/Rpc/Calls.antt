-- ===== src/Rpc/Calls.antt =====
-- raftkv/raft-rpc/src/RaftRpcChannel.cpp: how often the closure of a call is run.
use ww_raft_kv.Prelude.{
  ==-cases, Bool, Bool-cases, List, Option, Option-cases, [], arith, eq→==, inl, inr, length, ne→==,
  none, refl, some, subst, suc, ℕ, ◌++◌, ◌<◌, ◌==◌, ◌^◌, ◌∷◌, ◌≡◌, ◌≤◌,
}
use ww_raft_kv.Rpc.Buffer.{on_buffer}
use ww_raft_kv.Rpc.Channel.{
  CallMethodContext, RaftRpcChannel, call_method, channel, complete, failed, find_call, finish,
  handle_timeout, not_parsed, on_connection, on_message, ran, respond, returned,
}
use ww_raft_kv.Rpc.Count.{
  Counted, issued, leave_after_holds, mark, returned_holds, share, stored_holds,
}
use ww_raft_kv.Rpc.Counting.{
  channel-Counted, complete-Counted, handle_timeout-Counted, launch-Counted, on_connection-Counted,
}
use ww_raft_kv.Rpc.Kept.{VerdictHolds, on_buffer-DrainedHolds}
use ww_raft_kv.Rpc.Serialization.{MethodDescriptor, Packet, Protobuf, deserialize, serialize}
use ww_raft_kv.Table

module _ {ℓ} {M : Type ℓ} where
  finish-Counted :
      (calls : List ℕ) (s : RaftRpcChannel M) (sequence : ℕ) (context : CallMethodContext)
      (o : Option M)
      → Counted calls s
      → VerdictHolds (Counted calls) (finish sequence context o s)
  unfolding finish VerdictHolds share
  finish-Counted calls s sequence context none c =
      leave_after_holds (Counted calls) (complete context.done (failed not_parsed) s)
        (complete-Counted calls s context.done (failed not_parsed) (λ d. refl) c)
  finish-Counted calls s sequence context (some response) c = _

  module _ (protobuf : Protobuf M) where
    respond-Counted :
        (calls : List ℕ) (o : Option Packet) (s : RaftRpcChannel M)
        → Counted calls s
        → VerdictHolds (Counted calls) (respond protobuf o s)
    unfolding respond find_call VerdictHolds
    respond-Counted calls none s c = c
    respond-Counted calls (some received) s c =
        elim (Option-cases (Table.lookup ◌==◌ received.sequence_id s.pending_requests)) [
          | inl e ↦ rw e c
          | inr (context, e) ↦ elim (Bool-cases (ran context.done s.completed)) [
            | inl r ↦ rw (e, r) _
            | inr r ↦
                rw (e, r)
                  (finish-Counted calls s received.sequence_id context
                    (protobuf.decode_response context.method received.payload) c)
          ]
        ]

    on_message-Counted :
        (calls : List ℕ) (bytes : List ℕ) (s t : RaftRpcChannel M)
        → on_message protobuf bytes s ≡ some (returned t)
        → Counted calls s
        → Counted calls t
    unfolding on_message
    on_message-Counted calls bytes s t e c =
        stored_holds (Counted calls)
          (on_buffer (λ body x. respond protobuf (deserialize protobuf body) x) (s.buffer ++ bytes)
            s)
          t
          (λ x b h. record {
            numbered = h.numbered;
            distinct = h.distinct;
            below = h.below;
            balance = h.balance;
          })
          (on_buffer-DrainedHolds (Counted calls)
            (λ body x. respond protobuf (deserialize protobuf body) x)
            (λ body x h. respond-Counted calls (deserialize protobuf body) x h) (s.buffer ++ bytes)
            s c)
          e

    -- What can happen to a channel up to a state, with the closures of the calls that were made, the
    -- last one first: each step returns, and each call has a closure of its own.
    pub data History : List ℕ → RaftRpcChannel M → Type ℓ where
      created : History [] channel
      called :
          {calls : List ℕ} {s t : RaftRpcChannel M} (method : MethodDescriptor) (request : M)
          (done : ℕ)
          → issued done calls ≡ 0
          → call_method protobuf method request done s ≡ returned t
          → History calls s
          → History (done ∷ calls) t
      turned :
          {calls : List ℕ} {s t : RaftRpcChannel M} (up : Bool)
          → on_connection up s ≡ returned t
          → History calls s
          → History calls t
      got :
          {calls : List ℕ} {s t : RaftRpcChannel M} (bytes : List ℕ)
          → on_message protobuf bytes s ≡ some (returned t)
          → History calls s
          → History calls t
      expired :
          {calls : List ℕ} {s t : RaftRpcChannel M} (sequence : ℕ)
          → handle_timeout sequence s ≡ returned t
          → History calls s
          → History calls t

    pub History-Counted :
        (calls : List ℕ) (s : RaftRpcChannel M)
        → suc (length calls) < 2 ^ 64
        → History calls s
        → Counted calls s
    unfolding call_method
    History-Counted _ _ few created = channel-Counted
    History-Counted _ _ few (called {calls} {s} {t} method request done new e h) =
        returned_holds (Counted (done ∷ calls)) (call_method protobuf method request done s) t e (
          launch-Counted calls s (record { method = method; done = done })
            (serialize protobuf method.service method.name s.sequence_id request) few
            (History-Counted calls s (omega arith) h))
    History-Counted _ _ few (turned {calls} {s} {t} up e h) =
        returned_holds (Counted calls) (on_connection up s) t e
          (on_connection-Counted calls s up (History-Counted calls s few h))
    History-Counted _ _ few (got {calls} {s} {t} bytes e h) =
        on_message-Counted calls bytes s t e (History-Counted calls s few h)
    History-Counted _ _ few (expired {calls} {s} {t} sequence e h) =
        returned_holds (Counted calls) (handle_timeout sequence s) t e
          (handle_timeout-Counted calls s sequence (History-Counted calls s few h))

    issued_lem :
        (done d : ℕ) (calls : List ℕ)
        → issued d calls ≡ 0
        → issued done calls ≤ 1
        → issued done (d ∷ calls) ≤ 1
    unfolding issued mark
    issued_lem done d calls new h = elim (==-cases d done) [
      | inl e ↦ rw (eq→== d done e) (omega (arith, subst (λ k. issued k calls ≡ 0) e new))
      | inr n ↦ rw (ne→== d done n) (omega (arith, h))
    ]

    -- No closure is that of two calls.
    pub History-issued :
        (calls : List ℕ) (s : RaftRpcChannel M) (done : ℕ) → History calls s → issued done calls ≤ 1
    unfolding issued
    History-issued _ _ done created = omega arith
    History-issued _ _ done (called {calls} {s} {t} method request d new e h) =
        issued_lem done d calls new (History-issued calls s done h)
    History-issued _ _ done (turned {calls} {s} {t} up e h) = History-issued calls s done h
    History-issued _ _ done (got {calls} {s} {t} bytes e h) = History-issued calls s done h
    History-issued _ _ done (expired {calls} {s} {t} sequence e h) = History-issued calls s done h
