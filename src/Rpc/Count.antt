-- ===== src/Rpc/Count.antt =====
-- raftkv/raft-rpc/src/RaftRpcChannel.cpp: the calls that were made, those that wait and those whose
-- closure was run, counted.
use ww_raft_kv.Prelude.{
  List, [], arith, if◌then◌else◌, length, none, none-some, some, subst, suc, ℕ, ◌++◌, ◌+◌, ◌==◌,
  ◌∷◌, ◌≡◌,
}
use ww_raft_kv.Rpc.Buffer.{Drained, broken, killed, left}
use ww_raft_kv.Rpc.Channel.{
  CallMethodContext, Completion, Ending, RaftRpcChannel, and_then, answered, closed, failed,
  leave_after, not_connected, not_parsed, not_serialized, returned, stored, timed_out, undefined,
}
use ww_raft_kv.Rpc.Kept.{DrainedHolds, VerdictHolds}
use ww_raft_kv.Rpc.Pending.{Below, Distinct, total}

-- Counted for the closure with one number.
unfoldable pub mark : ℕ → ℕ → ℕ
mark done d = if d == done then 1 else 0

unfoldable pub issued : ℕ → List ℕ → ℕ
issued done [] = 0
issued done (d ∷ calls) = mark done d + issued done calls

unfoldable pub waiting : ℕ → List (ℕ × CallMethodContext) → ℕ
waiting done pending = total (λ context. mark done context.done) pending

module _ {ℓ} {M : Type ℓ} where
  -- A run for a response that does not parse does not end the call.
  unfoldable pub share : ℕ → ℕ → Completion M → ℕ
  share done d (answered response) = mark done d
  share done d (failed not_serialized) = mark done d
  share done d (failed not_connected) = mark done d
  share done d (failed closed) = mark done d
  share done d (failed timed_out) = mark done d
  share done d (failed not_parsed) = 0

  unfoldable pub ended : ℕ → List (ℕ × Completion M) → ℕ
  ended done [] = 0
  ended done ((d, result) ∷ rest) = share done d result + ended done rest

  ended-append :
      (done : ℕ) (xs ys : List (ℕ × Completion M))
      → ended done (xs ++ ys) ≡ ended done xs + ended done ys
  unfolding ended
  ended-append done [] ys = omega arith
  ended-append done ((d, result) ∷ xs) ys = omega (arith, ended-append done xs ys)

  -- Each call that was made has ended or waits, and not both. The numbers of the calls that wait
  -- are all different, and were given out.
  pub record Counted (calls : List ℕ) (s : RaftRpcChannel M) : Type 0 where
    pub numbered : s.sequence_id ≡ suc (length calls)
    pub distinct : Distinct s.pending_requests
    pub below : Below s.sequence_id s.pending_requests
    pub balance :
        (done : ℕ) → ended done s.completed + waiting done s.pending_requests ≡ issued done calls

  -- What holds of the state when a method returns.
  unfoldable pub EndingHolds : (RaftRpcChannel M → Type 0) → Ending M → Type 0
  EndingHolds P (returned s) = P s
  EndingHolds P (undefined s) = Unit

  pub and_then-EndingHolds :
      (P Q : RaftRpcChannel M → Type 0) (e : Ending M) (f : RaftRpcChannel M → Ending M)
      → EndingHolds P e
      → ((s : RaftRpcChannel M) → P s → EndingHolds Q (f s))
      → EndingHolds Q (and_then e f)
  unfolding EndingHolds and_then
  and_then-EndingHolds P Q (returned s) f h k = k s h
  and_then-EndingHolds P Q (undefined s) f h k = _

  pub returned_holds :
      (P : RaftRpcChannel M → Type 0) (e : Ending M) (t : RaftRpcChannel M)
      → e ≡ returned t
      → EndingHolds P e
      → P t
  unfolding EndingHolds
  returned_holds P e t h k = subst (λ x. EndingHolds P x) h k

  undefined-returned : (s t : RaftRpcChannel M) → some (undefined s) ≡ some (returned t) → ⊥
  undefined-returned s t h = cc

  pub stored_holds :
      (P : RaftRpcChannel M → Type 0) (d : Drained (RaftRpcChannel M)) (t : RaftRpcChannel M)
      → ((s : RaftRpcChannel M) (b : List ℕ) → P s → P (record s { buffer = b }))
      → DrainedHolds P d
      → stored d ≡ some (returned t)
      → P t
  unfolding DrainedHolds stored EndingHolds
  stored_holds P (left b s) t k h e =
      subst (λ o. elim o [ none ↦ Unit | some x ↦ EndingHolds P x ]) e (k s b h)
  stored_holds P killed t k h e = absurd (none-some e)
  stored_holds P (broken s) t k h e = absurd (undefined-returned s t e)

  pub leave_after_holds :
      (P : RaftRpcChannel M → Type 0) (e : Ending M)
      → EndingHolds P e
      → VerdictHolds P (leave_after e)
  unfolding EndingHolds leave_after VerdictHolds
  leave_after_holds P (returned s) h = h
  leave_after_holds P (undefined s) h = _

  pub ended-append_one :
      (done d : ℕ) (result : Completion M) (rest : List (ℕ × Completion M))
      → ended done (rest ++ ((d, result) ∷ [])) ≡ ended done rest + share done d result
  unfolding ended
  ended-append_one done d result rest = omega (arith, ended-append done rest ((d, result) ∷ []))
