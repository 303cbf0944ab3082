-- ===== src/Raft/Role/Keep.antt =====
-- Sending changes no more of a node than its queue and its timer.
use ww_raft_kv.Prelude.{Bool, List, [], arith, eq_ℤ, ◌∷◌}
use ww_raft_kv.Raft.Frame.{Keeps, Keeps-refl, Keeps-trans, final, final-bind, if_lem}
use ww_raft_kv.Raft.Role.{request_votes, send_all, send_append_entries, send_to}
use ww_raft_kv.Raft.State.{Raft, done}
use ww_raft_kv.Raft.Timer.{reset_heartbeat_deadline}
use ww_raft_kv.Raft.Types.{RaftPeer}

pub send_to-Keeps : (b : Bool) (p : RaftPeer) (s : Raft) → Keeps s (final (send_to b p s))
unfolding send_to
send_to-Keeps b p s = ground arith

send_all-Keeps : (b : Bool) (ps : List RaftPeer) (s : Raft) → Keeps s (final (send_all b ps s))
unfolding send_all
send_all-Keeps b [] s = Keeps-refl s
send_all-Keeps b (p ∷ ps) s =
    final-bind (Keeps s) (send_to b p s) (send_all b ps) (send_to-Keeps b p s)
      λ t e h. Keeps-trans h (send_all-Keeps b ps t)

pub send_append_entries-Keeps : (b : Bool) (s : Raft) → Keeps s (final (send_append_entries b s))
unfolding send_append_entries
send_append_entries-Keeps b s =
    final-bind (Keeps s) (send_all b s.peers s) (λ t. done (reset_heartbeat_deadline t))
      (send_all-Keeps b s.peers s) λ t e h. ground arith

pub request_votes-Keeps : (ps : List RaftPeer) (s : Raft) → Keeps s (request_votes ps s)
unfolding request_votes
request_votes-Keeps [] s = Keeps-refl s
request_votes-Keeps (p ∷ ps) s =
    Keeps-trans (if_lem (Keeps s) (eq_ℤ p.id s.id) _ _ (λ _. Keeps-refl s) (λ _. ground arith))
      (request_votes-Keeps ps _)
