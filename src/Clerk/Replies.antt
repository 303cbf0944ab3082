-- ===== src/Clerk/Replies.antt =====
-- raftkv/raft-app/src/RaftClerk.cpp: a request of another node and the response to it.
use mathlib.Core.Option.{some-injective}
use ww_raft_kv.Clerk.Apply.{step_raft}
use ww_raft_kv.Clerk.Dispatch.{handle_message}
use ww_raft_kv.Clerk.Receive.{handle_request_vote_request, register}
use ww_raft_kv.Clerk.Send.{
  fits, respond, run, send_append_entries_response, send_install_snapshot_response,
  send_request_vote_response,
}
use ww_raft_kv.Clerk.State.{
  Closure, ProtoRequestVoteRequest, RaftClerk, Response, append_entries_reply,
  install_snapshot_reply, request_vote_reply,
}
use ww_raft_kv.Prelude.{
  ==_iff, Option, [], ap, eq→==, if◌then◌else◌, none, none-some, refl, some, sym, true, ℕ, ◌++◌,
  ◌==◌, ◌∙◌, ◌∷◌, ◌≡◌,
}
use ww_raft_kv.Raft.Message.{
  RaftMessage, append_entries_response, install_snapshot_response, request_vote_response,
}
use ww_raft_kv.Raft.Types.{SequenceType}
use ww_raft_kv.Table

lookup-register :
    (done : Closure) (c : RaftClerk) (n : ℕ)
    → n ≡ done.sequence_id
    → Table.lookup ◌==◌ n (register done c).pending_requests ≡ some done
unfolding register
lookup-register done c n e =
    Table.lookup-assign ◌==◌ ==_iff done.sequence_id n done c.pending_requests
    ∙ rw (eq→== done.sequence_id n (sym e)) refl

-- The response that a message asks for, and the number of the request.
abbrev pub response_of : RaftMessage → Option (SequenceType × Response)
response_of (request_vote_response m) =
    some (m.seq, request_vote_reply (record { term = m.term; vote_granted = m.vote_granted }))
response_of (append_entries_response m) = some (
  m.seq,
  append_entries_reply
      (record { term = m.term; success = m.success; last_log_index = m.last_log_index }),
)
response_of (install_snapshot_response m) =
    some (m.seq, install_snapshot_reply (record { term = m.term }))
response_of _ = none

handle_message-respond :
    (m : RaftMessage) (n : SequenceType) (response : Response) (c : RaftClerk)
    → response_of m ≡ some (n, response)
    → handle_message m c ≡ respond n response c
unfolding handle_message send_request_vote_response send_append_entries_response
    send_install_snapshot_response
handle_message-respond (request_vote_response m) n response c e =
    ap (λ p. respond p.0 p.1 c) (some-injective _ _ e)
handle_message-respond (append_entries_response m) n response c e =
    ap (λ p. respond p.0 p.1 c) (some-injective _ _ e)
handle_message-respond (install_snapshot_response m) n response c e =
    ap (λ p. respond p.0 p.1 c) (some-injective _ _ e)
handle_message-respond _ n response c e = absurd (none-some e)

-- A response of the consensus layer, whose request waits for one of its type, is sent to that
-- request, once: the closure is gone from the table afterwards, and every other one is still there.
pub handle_message-answers :
    (m : RaftMessage) (n : SequenceType) (response : Response) (done : Closure) (c : RaftClerk)
    → response_of m ≡ some (n, response)
    → Table.lookup ◌==◌ n c.pending_requests ≡ some done
    → fits done.method response ≡ true
    → (d : RaftClerk) × (handle_message m c ≡ some d)
      × (d.replies ≡ c.replies ++ (done, response) ∷ [])
      × ((k : ℕ)
          → Table.lookup ◌==◌ k d.pending_requests
            ≡ (if n == k then none else Table.lookup ◌==◌ k c.pending_requests))
unfolding respond run
handle_message-answers m n response done c e there fit = (
  record c {
    replies = c.replies ++ (done, response) ∷ [];
    pending_requests = Table.erase ◌==◌ n c.pending_requests;
  },
  handle_message-respond m n response c e ∙ rw (there, fit) refl,
  refl,
  λ k. Table.lookup-erase ◌==◌ ==_iff n k c.pending_requests,
)

-- A response for which no request waits follows a null pointer.
handle_message-unanswered :
    (m : RaftMessage) (n : SequenceType) (response : Response) (c : RaftClerk)
    → response_of m ≡ some (n, response)
    → Table.lookup ◌==◌ n c.pending_requests ≡ none
    → handle_message m c ≡ none
unfolding respond
handle_message-unanswered m n response c e gone =
    handle_message-respond m n response c e ∙ rw gone refl

-- The table has one place for a number: where requests of two nodes carry one number, the second
-- takes the place of the first. The first response then goes to the second node, and at the next
-- one a null pointer is followed.
pub same_number_undefined :
    (r s : ProtoRequestVoteRequest) (first second : Closure) (m k : RaftMessage)
    (response other : Response) (c : RaftClerk)
    → second.sequence_id ≡ first.sequence_id
    → response_of m ≡ some (first.sequence_id, response)
    → response_of k ≡ some (second.sequence_id, other)
    → fits second.method response ≡ true
    → (d : RaftClerk) × (handle_message m
          (handle_request_vote_request s second (handle_request_vote_request r first c))
        ≡ some d)
      × (d.replies ≡ c.replies ++ (second, response) ∷ [])
      × (handle_message k d ≡ none)
unfolding handle_request_vote_request step_raft
same_number_undefined r s first second m k response other c same e f fit =
    let b = handle_request_vote_request r first c in
    let (d, ran, replies, left) =
      handle_message-answers m first.sequence_id response second
        (handle_request_vote_request s second b) e
        (lookup-register second b first.sequence_id (sym same)) fit in
    let gone =
      left second.sequence_id ∙ rw (eq→== first.sequence_id second.sequence_id (sym same)) refl in
    (d, ran, replies, handle_message-unanswered k second.sequence_id other d f gone)
