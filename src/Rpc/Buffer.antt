-- ===== src/Rpc/Buffer.antt =====
-- The loop of `_OnMessage`, which raftkv/raft-rpc/src/RaftRpcChannel.cpp has once and
-- RaftRpcDispatcher.cpp twice: it takes messages from the buffer of a connection. What is done with
-- a message is a parameter.
use ww_raft_kv.Prelude.{List, [], length, suc, zero, ℕ}
use ww_raft_kv.Rpc.Header.{Reading, overrun, packet, read_frame, waits, wrong_checksum, wrong_magic}

-- How a round ends: with the next one, or with `return`; or with a step that C++ leaves open, and
-- the state before it.
pub data Verdict {ℓ} (S : Type ℓ) : Type ℓ where
  go_on : S → Verdict S
  leave : S → Verdict S
  stuck : S → Verdict S

-- What the loop leaves: a buffer and a state; or the process has ended; or there is a step that C++
-- leaves open.
pub data Drained {ℓ} (S : Type ℓ) : Type ℓ where
  left : List ℕ → S → Drained S
  killed : Drained S
  broken : S → Drained S

-- A round of the loop: the last one, or one with another after it.
pub data Round {ℓ} (S : Type ℓ) : Type ℓ where
  stop : Drained S → Round S
  again : List ℕ → S → Round S

module _ {ℓ} {S : Type ℓ} where
  unfoldable pub settle : Verdict S → List ℕ → Round S
  settle (go_on s) rest = again rest s
  settle (leave s) rest = stop (left rest s)
  settle (stuck s) rest = stop (broken s)

  module _ (handle : List ℕ → S → Verdict S) where
    unfoldable pub act : Reading → List ℕ → S → Round S
    act waits buffer s = stop (left buffer s)
    act wrong_magic buffer s = stop (left [] s)
    act (wrong_checksum rest) buffer s = stop (left rest s)
    act overrun buffer s = stop killed
    act (packet body rest) buffer s = settle (handle body s) rest

    unfoldable pub drain : ℕ → List ℕ → S → Drained S
    drain zero buffer s = left buffer s
    drain (suc n) buffer s = elim (act (read_frame buffer) buffer s) [
      | stop end ↦ end
      | again rest t ↦ drain n rest t
    ]

    -- A round takes at least a header from the buffer, so its length is enough fuel.
    unfoldable pub on_buffer : List ℕ → S → Drained S
    on_buffer buffer s = drain (length buffer) buffer s
