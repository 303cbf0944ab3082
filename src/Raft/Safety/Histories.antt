-- ===== src/Raft/Safety/Histories.antt =====
-- What holds of terms, roles and votes between any two moments of a node.
use mathlib.Core.Option.{some-injective}
use ww_raft_kv.Prelude.{List, Option, ap, arith, none, refl, some, subst, ◌+◌, ◌<◌, ◌≡◌, ◌≢◌, ◌≤◌}
use ww_raft_kv.Raft.Dispatch.{get_outter_message, start, take_message}
use ww_raft_kv.Raft.Frame.{final}
use ww_raft_kv.Raft.History.{NoWrap, Reach, Step, begin, here, message, next, ready, receive, timer}
use ww_raft_kv.Raft.Message.{RaftMessage}
use ww_raft_kv.Raft.Safety.Advance.{
  Advance, Advance-refl, Advance-trans, Stays, Stays-Advance, Stays-of_disk, Stays→Advance,
}
use ww_raft_kv.Raft.Safety.Steps.{handle_message-Advance, raft_loop-Advance}
use ww_raft_kv.Raft.State.{Raft, leader, pop, read_ready, step, take_ready}
use ww_raft_kv.Raft.Types.{no_node, term_mod}

take_message-Advance :
    (s : Raft) (o : Option (RaftMessage × List RaftMessage)) → Advance s (final (take_message s o))
unfolding take_message
take_message-Advance s none = Advance-refl s
take_message-Advance s (some (m, ms)) =
    let t = record s { outter_channel = ms } in
    Stays-Advance (Stays-of_disk t refl refl refl refl refl) (handle_message-Advance m t)

pub get_outter_message-Advance : (s : Raft) → Advance s (final (get_outter_message s))
unfolding get_outter_message
get_outter_message-Advance s = take_message-Advance s (pop s.outter_channel)

take_ready-Stays :
    (s : Raft) (o : Option (RaftMessage × List RaftMessage)) {m : RaftMessage} {t : Raft}
    → take_ready s o ≡ some (m, t)
    → Stays s t
unfolding take_ready
take_ready-Stays s none e = cc
take_ready-Stays s (some (m, ms)) e =
    subst (Stays s) (ap (λ (p : RaftMessage × Raft). p.1) (some-injective _ _ e))
      (Stays-of_disk (record s { inner_channel = ms }) refl refl refl refl refl)

Step-Advance : {s t : Raft} → Step s t → s.term + 1 < term_mod → Advance s t
unfolding step start read_ready
Step-Advance {s} (receive m e) h = rw e (Stays→Advance (Stays-of_disk _ refl refl refl refl refl))
Step-Advance {s} (message on e) h =
    subst (λ o. Advance s (final o)) e (get_outter_message-Advance s)
Step-Advance {s} (timer on e) h = subst (λ o. Advance s (final o)) e (raft_loop-Advance s h)
Step-Advance {s} {t} (ready m e) h = Stays→Advance (take_ready-Stays s (pop s.inner_channel) e)
Step-Advance {s} (begin e) h = rw e (Stays→Advance (Stays-of_disk _ refl refl refl refl refl))

pub Reach-Advance : {s t : Raft} (r : Reach s t) → NoWrap r → Advance s t
Reach-Advance {s} here h = Advance-refl s
Reach-Advance (next r st) h = Advance-trans (Reach-Advance r h.0) (Step-Advance st h.1)

-- Along every history of a node in which no term is the last of its type, the term never falls.
pub term_monotone : {s t : Raft} (r : Reach s t) → NoWrap r → s.term ≤ t.term
term_monotone r h = (Reach-Advance r h).term

-- Along every history in which no term is the last of its type, a node that leads in a term leads
-- at every later moment of that term.
pub leader_stays :
    {s t : Raft} (r : Reach s t) → NoWrap r → t.term ≡ s.term → s.role ≡ leader → t.role ≡ leader
leader_stays r h e l = (Reach-Advance r h).lead e l

-- Along every history in which no term is the last of its type, a node that has given its vote in
-- a term has, at any later moment of that term at which it does not lead, the same vote.
pub vote_once :
    {s t : Raft} (r : Reach s t)
    → NoWrap r
    → t.term ≡ s.term
    → s.voted_for ≢ no_node
    → t.role ≢ leader
    → t.voted_for ≡ s.voted_for
vote_once r h e n l = ground (arith, (Reach-Advance r h).vote e n)
