-- ===== src/Raft/Vote/Grant.antt =====
-- What a node answers to a request for its vote.
use ww_raft_kv.Prelude.{
  ◌↔◌, eq_ℤ_refl, ◌≤◌, ◌<◌, max, eq_ℤ, eq_ℤ_refl, ◌≡◌, ◌⊎◌, Bool, true, ◌&&◌, ◌||◌, [], ◌∷◌, ◌++◌,
  arith, ltb, leb, ◌==◌, if◌then◌else◌,
}
use ww_raft_kv.Raft.Types.{LogIndex, TermId, no_node}
use ww_raft_kv.Raft.Message.{RequestVoteRequest, request_vote_response}
use ww_raft_kv.Raft.State.{Raft}
use ww_raft_kv.Raft.Log.{log_up_to_date}
use ww_raft_kv.Raft.Vote.{handle_request_vote_request}

-- The order of Raft on logs: first by the term of the last entry, then by its index.
abbrev pub AtLeast : TermId → LogIndex → TermId → LogIndex → Type 0
AtLeast term index term' index' = (term < term') ⊎ ((term ≡ term') × (index ≤ index'))

-- `_LogUpToDate` decides that order.
pub log_up_to_date_iff :
    (s : Raft) (index : LogIndex) (term : TermId)
    → (log_up_to_date s index term ≡ true) ↔ AtLeast s.last_log_term s.last_log_index term index
unfolding log_up_to_date
log_up_to_date_iff s index term = ground arith

-- Whether a candidate gets a vote, said apart from the handler.
unfoldable pub deserves : RequestVoteRequest → Raft → Bool
deserves m s =
    leb s.term m.term
    && (ltb s.term m.term || (eq_ℤ s.voted_for no_node || eq_ℤ s.voted_for m.from))
    && (ltb s.last_log_term m.last_log_term
        || (s.last_log_term == m.last_log_term && leb s.last_log_index m.last_log_index))

module _ (m : RequestVoteRequest) (s : Raft) where
  abbrev after : Raft
  after = handle_request_vote_request m s

  -- The handler sends one message to the application: with the number of the request, the larger of
  -- the two terms, and a grant just when the candidate's term is not older than the node's, the
  -- vote is free in that term or the candidate's already, and its log is not behind.
  pub vote_answer :
      after.inner_channel
      ≡ s.inner_channel
        ++ request_vote_response
            (record { seq = m.seq; term = max s.term m.term; vote_granted = deserves m s })
          ∷ []
  unfolding handle_request_vote_request deserves
  vote_answer = ground (arith, eq_ℤ_refl no_node)

  pub term-after : after.term ≡ max s.term m.term
  unfolding handle_request_vote_request
  term-after = ground arith

  -- The vote after the call is the candidate's if it deserves one, none if the request only brought
  -- a newer term, and else as it was.
  pub voted_for-after :
      after.voted_for
      ≡ (if deserves m s then m.from else if ltb s.term m.term then no_node else s.voted_for)
  unfolding handle_request_vote_request deserves
  voted_for-after = ground (arith, eq_ℤ_refl no_node)
