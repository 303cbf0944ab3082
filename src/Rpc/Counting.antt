-- ===== src/Rpc/Counting.antt =====
-- raftkv/raft-rpc/src/RaftRpcChannel.cpp: what each operation does to the count of the calls.
use ww_raft_kv.Prelude.{
  Bool, List, Option, Option-cases, [], arith, false, inl, inr, length, none, refl, some, suc, true,
  ℕ, ◌%◌, ◌+◌, ◌<◌, ◌==◌, ◌^◌, ◌∷◌, ◌≡◌,
}
use ww_raft_kv.Rpc.Channel.{
  CallMethodContext, Completion, RaftRpcChannel, Reason, cancel, channel, clear_requests, close_all,
  closed, complete, failed, handle_timeout, launch, not_connected, not_serialized, on_connection,
  ran, run_once, time_out, transmit,
}
use ww_raft_kv.Rpc.Count.{
  Counted, EndingHolds, and_then-EndingHolds, ended, ended-append_one, issued, mark, share, waiting,
}
use ww_raft_kv.Rpc.Pending.{
  Below, Below-mono, Distinct, assign-Below, assign-Distinct, lookup-Below, total, total-assign,
}
use ww_raft_kv.Table

module _ {ℓ} {M : Type ℓ} where
  pub channel-Counted : Counted {M = M} [] channel
  unfolding channel Distinct Below ended waiting total issued
  channel-Counted = record { numbered = refl; distinct = _; below = _; balance = λ done. refl }

  run_once-Counted :
      (calls : List ℕ) (s : RaftRpcChannel M) (again : Bool) (done : ℕ) (result : Completion M)
      → ((d : ℕ) → share d done result ≡ 0)
      → Counted calls s
      → EndingHolds (Counted calls) (run_once again done result s)
  unfolding run_once EndingHolds
  run_once-Counted calls s true done result none_of c = _
  run_once-Counted calls s false done result none_of c = record {
    numbered = c.numbered;
    distinct = c.distinct;
    below = c.below;
    balance =
        λ d. omega (arith, c.balance d, none_of d, ended-append_one d done result s.completed);
  }

  pub complete-Counted :
      (calls : List ℕ) (s : RaftRpcChannel M) (done : ℕ) (result : Completion M)
      → ((d : ℕ) → share d done result ≡ 0)
      → Counted calls s
      → EndingHolds (Counted calls) (complete done result s)
  unfolding complete
  complete-Counted calls s done result none_of c =
      run_once-Counted calls s (ran done s.completed) done result none_of c

  -- A call that ends as it is made.
  run_once-Counted_new :
      (calls : List ℕ) (s : RaftRpcChannel M) (again : Bool) (done : ℕ) (reason : Reason)
      → ((d : ℕ) → share {M = M} d done (failed reason) ≡ mark d done)
      → suc (suc (length calls)) < 2 ^ 64
      → Counted calls s
      → EndingHolds (Counted (done ∷ calls)) (
          run_once again done
            (failed reason)
            (record s { sequence_id = (s.sequence_id + 1) % 2 ^ 64 }))
  unfolding run_once EndingHolds issued
  run_once-Counted_new calls s true done reason whole few c = _
  run_once-Counted_new calls s false done reason whole few c = record {
    numbered = omega (arith, c.numbered);
    distinct = c.distinct;
    below =
        Below-mono s.sequence_id ((s.sequence_id + 1) % 2 ^ 64) s.pending_requests
          (omega (arith, c.numbered)) c.below;
    balance = λ d.
        omega (arith, c.balance d, whole d, ended-append_one d done (failed reason) s.completed);
  }

  transmit-Counted :
      (calls : List ℕ) (s : RaftRpcChannel M) (up : Bool) (context : CallMethodContext)
      (bytes : List ℕ)
      → suc (suc (length calls)) < 2 ^ 64
      → Counted calls s
      → EndingHolds (Counted (context.done ∷ calls)) (
          transmit up s.sequence_id context bytes
            (record s { sequence_id = (s.sequence_id + 1) % 2 ^ 64 }))
  unfolding transmit complete EndingHolds waiting issued share
  transmit-Counted calls s false context bytes few c =
      run_once-Counted_new calls s (ran context.done s.completed) context.done not_connected
        (λ d. refl) few c
  transmit-Counted calls s true context bytes few c =
      let fresh = lookup-Below s.sequence_id s.pending_requests c.below in
      record {
        numbered = omega (arith, c.numbered);
        distinct = assign-Distinct s.sequence_id context s.pending_requests c.distinct fresh;
        below =
            assign-Below ((s.sequence_id + 1) % 2 ^ 64) s.sequence_id context s.pending_requests
              (omega (arith, c.numbered))
              (Below-mono s.sequence_id ((s.sequence_id + 1) % 2 ^ 64) s.pending_requests
                (omega (arith, c.numbered)) c.below);
        balance = λ d. omega (
          arith,
          c.balance d,
          total-assign (λ x. mark d x.done) s.sequence_id context s.pending_requests fresh,
        );
      }

  pub launch-Counted :
      (calls : List ℕ) (s : RaftRpcChannel M) (context : CallMethodContext) (o : Option (List ℕ))
      → suc (suc (length calls)) < 2 ^ 64
      → Counted calls s
      → EndingHolds
          (Counted (context.done ∷ calls))
          (launch s.sequence_id context o (record s { sequence_id = (s.sequence_id + 1) % 2 ^ 64 }))
  unfolding launch complete share
  launch-Counted calls s context none few c =
      run_once-Counted_new calls s (ran context.done s.completed) context.done not_serialized
        (λ d. refl) few c
  launch-Counted calls s context (some bytes) few c =
      transmit-Counted calls s s.connected context bytes few c

  -- The calls that are left to close count as waiting; the table itself is not read here.
  record Closing (calls : List ℕ) (rest : List (ℕ × CallMethodContext)) (s : RaftRpcChannel M)
      : Type 0 where
    numbered : s.sequence_id ≡ suc (length calls)
    balance : (done : ℕ) → ended done s.completed + waiting done rest ≡ issued done calls

  run_once-Closing :
      (calls : List ℕ) (sequence : ℕ) (context : CallMethodContext)
      (rest : List (ℕ × CallMethodContext)) (s : RaftRpcChannel M) (again : Bool)
      → Closing calls ((sequence, context) ∷ rest) s
      → EndingHolds (Closing calls rest) (run_once again context.done (failed closed) s)
  unfolding run_once EndingHolds waiting total share
  run_once-Closing calls sequence context rest s true c = _
  run_once-Closing calls sequence context rest s false c = record {
    numbered = c.numbered;
    balance = λ d.
        omega (arith, c.balance d, ended-append_one d context.done (failed closed) s.completed);
  }

  close_all-Closing :
      (calls : List ℕ) (pending : List (ℕ × CallMethodContext)) (s : RaftRpcChannel M)
      → Closing calls pending s
      → EndingHolds (Closing calls []) (close_all pending s)
  unfolding close_all complete EndingHolds
  close_all-Closing calls [] s c = c
  close_all-Closing calls ((sequence, context) ∷ rest) s c =
      let t = record s { timers = cancel sequence s.timers } in
      and_then-EndingHolds (Closing calls rest) (Closing calls [])
        (run_once (ran context.done s.completed) context.done (failed closed) t) (close_all rest)
        (run_once-Closing calls sequence context rest t (ran context.done s.completed)
          (record { numbered = c.numbered; balance = c.balance }))
        (λ u d. close_all-Closing calls rest u d)

  clear_requests-Counted :
      (calls : List ℕ) (s : RaftRpcChannel M)
      → Closing calls [] s
      → EndingHolds (Counted calls) (clear_requests s)
  unfolding clear_requests EndingHolds Distinct Below waiting total
  clear_requests-Counted calls s c = record {
    numbered = c.numbered;
    distinct = _;
    below = _;
    balance = c.balance;
  }

  pub on_connection-Counted :
      (calls : List ℕ) (s : RaftRpcChannel M) (up : Bool)
      → Counted calls s
      → EndingHolds (Counted calls) (on_connection up s)
  unfolding on_connection EndingHolds
  on_connection-Counted calls s true c = record {
    numbered = c.numbered;
    distinct = c.distinct;
    below = c.below;
    balance = c.balance;
  }
  on_connection-Counted calls s false c =
      and_then-EndingHolds (Closing calls []) (Counted calls)
        (close_all s.pending_requests (record s { connected = false })) clear_requests
        (close_all-Closing calls s.pending_requests (record s { connected = false })
          (record { numbered = c.numbered; balance = c.balance }))
        (λ t d. clear_requests-Counted calls t d)

  pub handle_timeout-Counted :
      (calls : List ℕ) (s : RaftRpcChannel M) (sequence : ℕ)
      → Counted calls s
      → EndingHolds (Counted calls) (handle_timeout sequence s)
  unfolding handle_timeout time_out EndingHolds
  handle_timeout-Counted calls s sequence c =
      elim (Option-cases (Table.lookup ◌==◌ sequence s.pending_requests)) [
        | inl e ↦ rw e (record {
          numbered = c.numbered;
          distinct = c.distinct;
          below = c.below;
          balance = c.balance;
        })
        | inr (context, e) ↦ rw e _
      ]
