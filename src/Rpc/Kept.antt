-- ===== src/Rpc/Kept.antt =====
-- raftkv/raft-rpc: what the handling of each message keeps, the loop of `_OnMessage` keeps.
use ww_raft_kv.Prelude.{List, inl, inr, length, subst, suc, zero, ℕ}
use ww_raft_kv.Rpc.Buffer.{
  Drained, Round, Verdict, act, again, broken, drain, go_on, killed, leave, left, on_buffer, settle,
  stop, stuck,
}
use ww_raft_kv.Rpc.Header.{Reading, overrun, packet, read_frame, waits, wrong_checksum, wrong_magic}
use ww_raft_kv.Rpc.Stream.{Round-cases}

module _ {ℓ κ} {S : Type ℓ} (P : S → Type κ) where
  unfoldable pub VerdictHolds : Verdict S → Type κ
  VerdictHolds (go_on s) = P s
  VerdictHolds (leave s) = P s
  VerdictHolds (stuck s) = Unit

  unfoldable pub DrainedHolds : Drained S → Type κ
  DrainedHolds (left buffer s) = P s
  DrainedHolds killed = Unit
  DrainedHolds (broken s) = Unit

  RoundHolds : Round S → Type κ
  RoundHolds (stop end) = DrainedHolds end
  RoundHolds (again rest s) = P s

  settle_holds : (v : Verdict S) (rest : List ℕ) → VerdictHolds v → RoundHolds (settle v rest)
  unfolding RoundHolds VerdictHolds DrainedHolds settle
  settle_holds (go_on s) rest h = h
  settle_holds (leave s) rest h = h
  settle_holds (stuck s) rest h = h

  module _ (handle : List ℕ → S → Verdict S)
      (keeps : (body : List ℕ) (s : S) → P s → VerdictHolds (handle body s)) where
    act_holds : (r : Reading) (b : List ℕ) (s : S) → P s → RoundHolds (act handle r b s)
    unfolding RoundHolds DrainedHolds act
    act_holds waits b s h = h
    act_holds wrong_magic b s h = h
    act_holds (wrong_checksum rest) b s h = h
    act_holds overrun b s h = _
    act_holds (packet body rest) b s h = settle_holds (handle body s) rest (keeps body s h)

    drain_holds : (n : ℕ) (b : List ℕ) (s : S) → P s → DrainedHolds (drain handle n b s)
    unfolding RoundHolds DrainedHolds drain
    drain_holds zero b s h = h
    drain_holds (suc n) b s h = elim (Round-cases (act handle (read_frame b) b s)) [
      | inl (end, e) ↦ rw (e, drain) (subst RoundHolds e (act_holds (read_frame b) b s h))
      | inr (rest, t, e) ↦
          rw (e, drain) (drain_holds n rest t (subst RoundHolds e (act_holds (read_frame b) b s h)))
    ]

    pub on_buffer-DrainedHolds : (b : List ℕ) (s : S) → P s → DrainedHolds (on_buffer handle b s)
    unfolding on_buffer
    on_buffer-DrainedHolds b s h = drain_holds (length b) b s h
