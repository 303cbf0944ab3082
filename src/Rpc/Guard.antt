-- ===== src/Rpc/Guard.antt =====
-- raftkv/raft-rpc/src/RaftRpcChannel.cpp: each call that waits has a timer.
use ww_raft_kv.Prelude.{
  ==-cases, Bool, Bool-cases, List, Option, Option-cases, [], eq→==, false, if◌then◌else◌, inl, inr,
  ne→==, none, refl, some, subst, sym, true, ℕ, ◌%◌, ◌++◌, ◌+◌, ◌==◌, ◌^◌, ◌∙◌, ◌∷◌, ◌≡◌,
}
use ww_raft_kv.Rpc.Buffer.{on_buffer}
use ww_raft_kv.Rpc.Calls.{History, called, created, expired, got, turned}
use ww_raft_kv.Rpc.Channel.{
  CallMethodContext, Completion, Ending, RaftRpcChannel, call_method, cancel, channel,
  clear_requests, close_all, complete, failed, find_call, finish, handle_timeout, launch,
  not_connected, not_parsed, not_serialized, on_connection, on_message, ran, respond, returned,
  run_once, time_out, transmit, undefined,
}
use ww_raft_kv.Rpc.Count.{
  EndingHolds, and_then-EndingHolds, leave_after_holds, returned_holds, stored_holds,
}
use ww_raft_kv.Rpc.Kept.{VerdictHolds, on_buffer-DrainedHolds}
use ww_raft_kv.Rpc.Pending.{erase_absent}
use ww_raft_kv.Rpc.Serialization.{Packet, Protobuf, deserialize, serialize}
use ww_raft_kv.Table

unfoldable pub armed : ℕ → List ℕ → Bool
armed k [] = false
armed k (timer ∷ timers) = if timer == k then true else armed k timers

-- Each call that waits has a timer that has not run yet.
unfoldable pub Timed : List ℕ → List (ℕ × CallMethodContext) → Type 0
Timed timers [] = Unit
Timed timers ((k, context) ∷ rest) = (armed k timers ≡ true) × Timed timers rest

armed-cancel :
    (k id : ℕ) (timers : List ℕ) → (id == k) ≡ false → armed k (cancel id timers) ≡ armed k timers
unfolding armed cancel
armed-cancel k id [] h = refl
armed-cancel k id (timer ∷ timers) h = elim (==-cases timer id) [
  | inl e ↦ rw (e, eq→== id id refl, h) (armed-cancel k id timers h)
  | inr ne ↦ rw (ne→== timer id ne, armed-cancel k id timers h) refl
]

-- A timer may go when its call goes.
cancel-erase-Timed :
    (id : ℕ) (timers : List ℕ) (pending : List (ℕ × CallMethodContext))
    → Timed timers pending
    → Timed (cancel id timers) (Table.erase ◌==◌ id pending)
unfolding Timed Table.erase
cancel-erase-Timed id timers [] h = h
cancel-erase-Timed id timers ((k, context) ∷ rest) (here, h) = elim (==-cases k id) [
  | inl e ↦ rw (eq→== k id e) (cancel-erase-Timed id timers rest h)
  | inr ne ↦ rw (ne→== k id ne) (
    armed-cancel k id timers (ne→== id k (λ e. ne (sym e))) ∙ here,
    cancel-erase-Timed id timers rest h,
  )
]

arm-Timed :
    (id : ℕ) (timers : List ℕ) (pending : List (ℕ × CallMethodContext))
    → Timed timers pending
    → Timed (id ∷ timers) pending
unfolding Timed armed
arm-Timed id timers [] h = h
arm-Timed id timers ((k, context) ∷ rest) (here, h) = (
  (elim (Bool-cases (id == k)) [ inl e ↦ rw e refl | inr e ↦ rw e here ]),
  arm-Timed id timers rest h,
)

assign-Timed :
    (id : ℕ) (context : CallMethodContext) (timers : List ℕ)
    (pending : List (ℕ × CallMethodContext))
    → Timed timers pending
    → armed id timers ≡ true
    → Timed timers (Table.assign ◌==◌ id context pending)
unfolding Timed Table.assign
assign-Timed id context timers [] h a = (a, _)
assign-Timed id context timers ((k, other) ∷ rest) (here, h) a = elim (Bool-cases (k == id)) [
  | inl e ↦ rw e (a, h)
  | inr e ↦ rw e (here, assign-Timed id context timers rest h a)
]

erase_absent_Timed :
    (id : ℕ) (timers : List ℕ) (pending : List (ℕ × CallMethodContext))
    → Table.lookup ◌==◌ id pending ≡ none
    → Timed timers pending
    → Timed (cancel id timers) pending
erase_absent_Timed id timers pending absent h =
    subst (λ p. Timed (cancel id timers) p) (erase_absent id pending absent)
      (cancel-erase-Timed id timers pending h)

module _ {ℓ} {M : Type ℓ} where
  -- Of the channel, with its timers.
  unfoldable pub Guarded : RaftRpcChannel M → Type 0
  Guarded s = Timed s.timers s.pending_requests

  run_once-Guarded :
      (again : Bool) (done : ℕ) (result : Completion M) (s : RaftRpcChannel M)
      → Guarded s
      → EndingHolds Guarded (run_once again done result s)
  unfolding run_once EndingHolds Guarded
  run_once-Guarded true done result s h = _
  run_once-Guarded false done result s h = h

  complete-Guarded :
      (done : ℕ) (result : Completion M) (s : RaftRpcChannel M)
      → Guarded s
      → EndingHolds Guarded (complete done result s)
  unfolding complete
  complete-Guarded done result s h = run_once-Guarded (ran done s.completed) done result s h

  transmit-Guarded :
      (up : Bool) (sequence : ℕ) (context : CallMethodContext) (bytes : List ℕ)
      (s : RaftRpcChannel M)
      → Guarded s
      → EndingHolds Guarded (transmit up sequence context bytes s)
  unfolding transmit Guarded EndingHolds armed
  transmit-Guarded false sequence context bytes s h =
      complete-Guarded context.done (failed not_connected) s h
  transmit-Guarded true sequence context bytes s h =
      assign-Timed sequence context (sequence ∷ s.timers) s.pending_requests
        (arm-Timed sequence s.timers s.pending_requests h) (rw (eq→== sequence sequence refl) refl)

  launch-Guarded :
      (sequence : ℕ) (context : CallMethodContext) (o : Option (List ℕ)) (s : RaftRpcChannel M)
      → Guarded s
      → EndingHolds Guarded (launch sequence context o s)
  unfolding launch
  launch-Guarded sequence context none s h =
      complete-Guarded context.done (failed not_serialized) s h
  launch-Guarded sequence context (some bytes) s h =
      transmit-Guarded s.connected sequence context bytes s h

  handle_timeout-Guarded :
      (sequence : ℕ) (s : RaftRpcChannel M)
      → Guarded s
      → EndingHolds Guarded (handle_timeout sequence s)
  unfolding handle_timeout time_out Guarded EndingHolds
  handle_timeout-Guarded sequence s h =
      elim (Option-cases (Table.lookup ◌==◌ sequence s.pending_requests)) [
        | inl e ↦ rw e (erase_absent_Timed sequence s.timers s.pending_requests e h)
        | inr (context, e) ↦ rw e _
      ]

  anything : (e : Ending M) → EndingHolds (λ t. Unit) e
  unfolding EndingHolds
  anything (returned t) = _
  anything (undefined t) = _

  on_connection-Guarded :
      (up : Bool) (s : RaftRpcChannel M) → Guarded s → EndingHolds Guarded (on_connection up s)
  unfolding on_connection clear_requests Guarded EndingHolds Timed
  on_connection-Guarded true s h = h
  on_connection-Guarded false s h =
      and_then-EndingHolds (λ t. Unit) Guarded
        (close_all s.pending_requests (record s { connected = false })) clear_requests
        (anything (close_all s.pending_requests (record s { connected = false }))) (λ t u. _)

  finish-Guarded :
      (sequence : ℕ) (context : CallMethodContext) (o : Option M) (s : RaftRpcChannel M)
      → Guarded s
      → VerdictHolds Guarded (finish sequence context o s)
  unfolding finish VerdictHolds
  finish-Guarded sequence context none s h =
      leave_after_holds Guarded (complete context.done (failed not_parsed) s)
        (complete-Guarded context.done (failed not_parsed) s h)
  finish-Guarded sequence context (some response) s h = _

  module _ (protobuf : Protobuf M) where
    respond-Guarded :
        (o : Option Packet) (s : RaftRpcChannel M)
        → Guarded s
        → VerdictHolds Guarded (respond protobuf o s)
    unfolding respond find_call VerdictHolds
    respond-Guarded none s h = h
    respond-Guarded (some received) s h =
        elim (Option-cases (Table.lookup ◌==◌ received.sequence_id s.pending_requests)) [
          | inl e ↦ rw e h
          | inr (context, e) ↦ elim (Bool-cases (ran context.done s.completed)) [
            | inl r ↦ rw (e, r) _
            | inr r ↦
                rw (e, r)
                  (finish-Guarded received.sequence_id context
                    (protobuf.decode_response context.method received.payload) s h)
          ]
        ]

    pub History-Guarded :
        (calls : List ℕ) (s : RaftRpcChannel M) → History protobuf calls s → Guarded s
    unfolding call_method on_message Guarded channel Timed
    History-Guarded _ _ created = _
    History-Guarded _ _ (called {calls} {s} {t} method request done new e h) =
        returned_holds Guarded (call_method protobuf method request done s) t e (
          launch-Guarded s.sequence_id (record { method = method; done = done })
            (serialize protobuf method.service method.name s.sequence_id request)
            (record s { sequence_id = (s.sequence_id + 1) % 2 ^ 64 }) (History-Guarded calls s h))
    History-Guarded _ _ (turned {calls} {s} {t} up e h) =
        returned_holds Guarded (on_connection up s) t e
          (on_connection-Guarded up s (History-Guarded calls s h))
    History-Guarded _ _ (got {calls} {s} {t} bytes e h) =
        stored_holds Guarded
          (on_buffer (λ body x. respond protobuf (deserialize protobuf body) x) (s.buffer ++ bytes)
            s)
          t (λ x b g. g)
          (on_buffer-DrainedHolds Guarded (λ body x. respond protobuf (deserialize protobuf body) x)
            (λ body x g. respond-Guarded (deserialize protobuf body) x g) (s.buffer ++ bytes) s
            (History-Guarded calls s h))
          e
    History-Guarded _ _ (expired {calls} {s} {t} sequence e h) =
        returned_holds Guarded (handle_timeout sequence s) t e
          (handle_timeout-Guarded sequence s (History-Guarded calls s h))
