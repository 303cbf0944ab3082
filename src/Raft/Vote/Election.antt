-- ===== src/Raft/Vote/Election.antt =====
-- raftkv/raft-core/src/Raft.cpp, `_BecomeLeader` and then the handler of requests for votes.
use ww_raft_kv.Prelude.{[], arith, eq_ℤ_refl, max, refl, sym, true, ◌++◌, ◌∙◌, ◌∷◌, ◌≡◌}
use ww_raft_kv.Raft.Frame.{Keeps, Keeps-trans, final, final-bind}
use ww_raft_kv.Raft.Message.{RequestVoteRequest, request_vote_response}
use ww_raft_kv.Raft.Persist.{persist}
use ww_raft_kv.Raft.Role.{become_leader, elected, send_append_entries}
use ww_raft_kv.Raft.Role.Keep.{send_append_entries-Keeps}
use ww_raft_kv.Raft.State.{Raft, done, leader}
use ww_raft_kv.Raft.Timer.{reset_heartbeat_deadline}
use ww_raft_kv.Raft.Types.{no_node}
use ww_raft_kv.Raft.Vote.{cast_vote, handle_request_vote_request}
use ww_raft_kv.Raft.Vote.Grant.{AtLeast, deserves, term-after, vote_answer, voted_for-after}

become_leader-elected : (s : Raft) → Keeps (elected s) (final (become_leader s))
unfolding become_leader reset_heartbeat_deadline
become_leader-elected s =
    final-bind (Keeps (elected s)) (send_append_entries true (elected s))
      (λ t. done (reset_heartbeat_deadline t)) (send_append_entries-Keeps true (elected s))
      λ t e h. Keeps-trans h (ground arith)

record NewLeader (s t : Raft) : Type 0 where
  role : t.role ≡ leader
  term : t.term ≡ s.term
  voted_for : t.voted_for ≡ no_node
  last_log_index : t.last_log_index ≡ s.last_log_index
  last_log_term : t.last_log_term ≡ s.last_log_term

become_leader-NewLeader : (s : Raft) → NewLeader s (final (become_leader s))
unfolding elected persist
become_leader-NewLeader s =
    let k = become_leader-elected s in
    record {
      role = k.role;
      term = k.term;
      voted_for = k.voted_for;
      last_log_index = k.last_log_index;
      last_log_term = k.last_log_term;
    }

grants :
    (m : RequestVoteRequest) (s t : Raft)
    → NewLeader s t
    → m.term ≡ s.term
    → AtLeast s.last_log_term s.last_log_index m.last_log_term m.last_log_index
    → deserves m t ≡ true
unfolding deserves
grants m s t k e up = ground (arith, k, e, up, eq_ℤ_refl no_node)

same_role :
    (m : RequestVoteRequest) (t : Raft)
    → m.term ≡ t.term
    → (handle_request_vote_request m t).role ≡ t.role
unfolding handle_request_vote_request cast_vote
same_role m t e = ground arith

-- A node that becomes leader of its term gives up the vote that it gave itself there. Asked for
-- its vote by another candidate of the same term, whose log is not behind its own, it grants it,
-- and still leads.
pub new_leader_grants :
    (m : RequestVoteRequest) (s : Raft)
    → m.term ≡ s.term
    → AtLeast s.last_log_term s.last_log_index m.last_log_term m.last_log_index
    → let t = final (become_leader s) in
      let u = handle_request_vote_request m t in
      (u.role ≡ leader)
      × (u.term ≡ s.term)
      × (u.voted_for ≡ m.from)
      × (u.inner_channel
          ≡ t.inner_channel
            ++ request_vote_response (record { seq = m.seq; term = s.term; vote_granted = true })
              ∷ [])
new_leader_grants m s e up =
    let t = final (become_leader s) in
    let k = become_leader-NewLeader s in
    let g = grants m s t k e up in
    let kept : max t.term m.term ≡ s.term = omega (arith, k.term, e) in
    (
      same_role m t (e ∙ sym k.term) ∙ k.role,
      term-after m t ∙ kept,
      voted_for-after m t ∙ rw g refl,
      vote_answer m t ∙ rw (g, kept) refl,
    )
