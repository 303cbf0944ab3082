-- ===== src/Rpc/Closing.antt =====
-- raftkv/raft-rpc/src/RaftRpcChannel.cpp: the calls that wait when a connection is lost.
use ww_raft_kv.Prelude.{
  Bool-cases, List, [], ap, arith, eq→==, false, inl, inr, length, refl, suc, ℕ, ◌++◌, ◌+◌, ◌<◌,
  ◌==◌, ◌^◌, ◌∙◌, ◌∷◌, ◌≡◌, ◌≤◌,
}
use ww_raft_kv.Rpc.Calls.{History, History-Counted, History-issued}
use ww_raft_kv.Rpc.Channel.{
  CallMethodContext, Completion, RaftRpcChannel, and_then, answered, cancel, clear_requests,
  close_all, closed, complete, failed, not_connected, not_parsed, not_serialized, on_connection,
  ran, returned, run_once, timed_out,
}
use ww_raft_kv.Rpc.Count.{ended, issued, mark, share, waiting}
use ww_raft_kv.Rpc.Guard.{Guarded, History-Guarded}
use ww_raft_kv.Rpc.Pending.{total}
use ww_raft_kv.Rpc.Serialization.{Protobuf}

waiting_own :
    (sequence : ℕ) (context : CallMethodContext) (rest : List (ℕ × CallMethodContext))
    → waiting context.done ((sequence, context) ∷ rest) ≡ suc (waiting context.done rest)
unfolding waiting total mark
waiting_own sequence context rest = rw (eq→== context.done context.done refl) (omega arith)

waiting_cons :
    (d sequence : ℕ) (context : CallMethodContext) (rest : List (ℕ × CallMethodContext))
    → waiting d ((sequence, context) ∷ rest) ≡ mark d context.done + waiting d rest
unfolding waiting total
waiting_cons d sequence context rest = refl

module _ {ℓ} {M : Type ℓ} where
  -- How often a closure was run.
  unfoldable pub runs : ℕ → List (ℕ × Completion M) → ℕ
  runs done [] = 0
  runs done ((d, result) ∷ rest) = mark done d + runs done rest

  -- How many runs were for a response that did not parse.
  unfoldable pub unparsed : List (ℕ × Completion M) → ℕ
  unparsed [] = 0
  unparsed ((d, failed not_parsed) ∷ rest) = suc (unparsed rest)
  unparsed ((d, failed not_serialized) ∷ rest) = unparsed rest
  unparsed ((d, failed not_connected) ∷ rest) = unparsed rest
  unparsed ((d, failed closed) ∷ rest) = unparsed rest
  unparsed ((d, failed timed_out) ∷ rest) = unparsed rest
  unparsed ((d, answered response) ∷ rest) = unparsed rest

  runs-append_one :
      (done d : ℕ) (result : Completion M) (xs : List (ℕ × Completion M))
      → runs done (xs ++ ((d, result) ∷ [])) ≡ runs done xs + mark done d
  unfolding runs
  runs-append_one done d result [] = omega arith
  runs-append_one done d result ((e, r) ∷ xs) = omega (arith, runs-append_one done d result xs)

  runs-ran : (done : ℕ) (xs : List (ℕ × Completion M)) → runs done xs ≡ 0 → ran done xs ≡ false
  unfolding runs ran mark
  runs-ran done [] h = refl
  runs-ran done ((d, result) ∷ xs) h = elim (Bool-cases (d == done)) [
    | inl e ↦ absurd (omega (arith, rw e at h))
    | inr e ↦ rw e (runs-ran done xs (omega (arith, rw e at h)))
  ]

  runs-ended :
      (done : ℕ) (xs : List (ℕ × Completion M)) → unparsed xs ≡ 0 → runs done xs ≡ ended done xs
  unfolding runs unparsed ended share
  runs-ended done [] h = refl
  runs-ended done ((d, failed not_parsed) ∷ xs) h = absurd (omega (arith, h))
  runs-ended done ((d, failed not_serialized) ∷ xs) h = omega (arith, runs-ended done xs h)
  runs-ended done ((d, failed not_connected) ∷ xs) h = omega (arith, runs-ended done xs h)
  runs-ended done ((d, failed closed) ∷ xs) h = omega (arith, runs-ended done xs h)
  runs-ended done ((d, failed timed_out) ∷ xs) h = omega (arith, runs-ended done xs h)
  runs-ended done ((d, answered response) ∷ xs) h = omega (arith, runs-ended done xs h)

  complete_returned :
      (done : ℕ) (result : Completion M) (s : RaftRpcChannel M)
      → ran done s.completed ≡ false
      → complete done result s
        ≡ returned (record s { completed = s.completed ++ ((done, result) ∷ []) })
  unfolding complete run_once
  complete_returned done result s h = rw h refl

  waiting_none :
      (s : RaftRpcChannel M) (d : ℕ) → runs d s.completed ≡ runs d s.completed + waiting d []
  unfolding waiting total
  waiting_none s d = omega arith

  -- The loop ends when no closure is run twice.
  close_all_lem :
      (pending : List (ℕ × CallMethodContext)) (s : RaftRpcChannel M)
      → ((d : ℕ) → runs d s.completed + waiting d pending ≤ 1)
      → (t : RaftRpcChannel M) × (close_all pending s ≡ returned t)
        × ((d : ℕ) → runs d t.completed ≡ runs d s.completed + waiting d pending)
  unfolding close_all and_then
  close_all_lem [] s once = (s, refl, waiting_none s)
  close_all_lem ((sequence, context) ∷ rest) s once =
      let closing = record s { timers = cancel sequence s.timers } in
      let fresh =
        runs-ran context.done s.completed
          (omega (arith, once context.done, waiting_own sequence context rest)) in
      let next = record closing {
        completed = s.completed ++ ((context.done, failed closed) ∷ []);
      } in
      let later = close_all_lem rest next (λ d. omega (
        arith,
        once d,
        waiting_cons d sequence context rest,
        runs-append_one d context.done (failed closed) s.completed,
      )) in
      (
        later.0,
        ap (λ e. and_then e (close_all rest))
              (complete_returned context.done (failed closed) closing fresh)
            ∙ later.1,
        λ d. omega (
          arith,
          later.2 d,
          waiting_cons d sequence context rest,
          runs-append_one d context.done (failed closed) s.completed,
        ),
      )

  on_connection_lost :
      (s : RaftRpcChannel M)
      → ((d : ℕ) → runs d s.completed + waiting d s.pending_requests ≤ 1)
      → (t : RaftRpcChannel M) × (on_connection false s ≡ returned t)
        × (t.pending_requests ≡ [])
        × ((d : ℕ) → runs d t.completed ≡ runs d s.completed + waiting d s.pending_requests)
  unfolding on_connection clear_requests and_then
  on_connection_lost s once =
      let closed_all = close_all_lem s.pending_requests (record s { connected = false }) once in
      (
        record (closed_all.0) { pending_requests = [] },
        ap (λ e. and_then e clear_requests) closed_all.1,
        refl,
        closed_all.2,
      )

  module _ (protobuf : Protobuf M) where
    -- When a connection is lost, the loop over the calls that wait comes to its end, and none waits
    -- after it. This is for any calls, connections, bytes and timers in any order as long as each
    -- step returns, as no step does that parses the response to a call that waits, or runs the
    -- timer of one; with fewer than 2 ^ 64 - 1 calls, a closure of its own for each, and no
    -- response with a payload that did not parse. Up to the loss each closure of a call was run
    -- once or waits, and not both, and each call that waits has a timer. After it each closure was
    -- run once.
    pub calls_end :
        (calls : List ℕ) (s : RaftRpcChannel M) (done : ℕ)
        → suc (length calls) < 2 ^ 64
        → History protobuf calls s
        → unparsed s.completed ≡ 0
        → (runs done s.completed + waiting done s.pending_requests ≡ issued done calls)
          × (issued done calls ≤ 1)
          × Guarded s
          × ((t : RaftRpcChannel M) × (on_connection false s ≡ returned t)
              × (t.pending_requests ≡ [])
              × (runs done t.completed ≡ issued done calls))
    calls_end calls s done few h parsed =
        let balance : (d : ℕ) → runs d s.completed + waiting d s.pending_requests ≡ issued d calls =
          λ d. omega (
            arith,
            runs-ended d s.completed parsed,
            (History-Counted protobuf calls s few h).balance d,
          ) in
        let lost =
          on_connection_lost s
            (λ d. omega (arith, balance d, History-issued protobuf calls s d h)) in
        (
          balance done,
          History-issued protobuf calls s done h,
          History-Guarded protobuf calls s h,
          (lost.0, lost.1, lost.2, lost.3 done ∙ balance done),
        )
