-- ===== src/Clerk/Rounds.antt =====
-- raftkv/raft-app/src/RaftClerk.cpp with raftkv/raft-core/src/Raft.cpp: a round of the two layers.
use ww_raft_kv.Clerk.Apply.{step_raft}
use ww_raft_kv.Clerk.Dispatch.{get_inner_message, handle_message, handle_ready}
use ww_raft_kv.Clerk.State.{RaftClerk}
use ww_raft_kv.Prelude.{Option, [], ap, false, none, refl, true, ◌++◌, ◌∙◌, ◌∷◌, ◌≡◌}
use ww_raft_kv.Raft.Client.{operation_response}
use ww_raft_kv.Raft.Message.{KvOperationRequest, OperationType, RaftMessage, kv_operation_request}
use ww_raft_kv.Raft.State.{Raft}
use ww_raft_kv.Raft.Vote.{is_leader}
use ww_raft_kv.Raft.Client
use ww_raft_kv.Raft.Dispatch
use ww_raft_kv.Raft.State

-- What the application layer does after a round of the consensus layer.
unfoldable pub after_raft : State.Outcome Raft → RaftClerk → Option RaftClerk
after_raft (State.done raft) c = get_inner_message (record c { raft = raft })
after_raft (State.failed fault raft) c = none

-- One round of each layer: the consensus layer takes what came in, and the application layer what
-- comes out of it.
unfoldable pub round : RaftClerk → Option RaftClerk
unfolding after_raft
round c = after_raft (Dispatch.get_outter_message c.raft) c

pub raft_takes :
    (m : RaftMessage) (s : Raft)
    → s.outter_channel ≡ []
    → Dispatch.get_outter_message (State.step m s)
      ≡ Dispatch.handle_message m (record s { outter_channel = [] })
unfolding Dispatch.get_outter_message State.step
raft_takes m s e =
    ap
      (λ q.
        Dispatch.take_message (record s { outter_channel = q ++ m ∷ [] }) (State.pop (q ++ m ∷ [])))
      e

pub clerk_takes :
    (m : RaftMessage) (s : Raft) (c : RaftClerk)
    → s.inner_channel ≡ []
    → get_inner_message (record c { raft = State.push m s })
      ≡ handle_message m (record c { raft = record s { inner_channel = [] } })
unfolding get_inner_message State.read_ready State.push
clerk_takes m s c e =
    ap
      (λ q.
        let t = record s { inner_channel = q ++ m ∷ [] } in
        handle_ready (State.read_ready t) (record c { raft = t }))
      e

-- A message on a node whose queues are empty, to which the consensus layer has an answer at once.
pub round_answers :
    (m x : RaftMessage) (c : RaftClerk)
    → c.raft.outter_channel ≡ []
    → c.raft.inner_channel ≡ []
    → Dispatch.handle_message m (record c.raft { outter_channel = [] })
      ≡ State.done (State.push x (record c.raft { outter_channel = [] }))
    → round (step_raft m c)
      ≡ handle_message x
          (record c { raft = record c.raft { outter_channel = []; inner_channel = [] } })
unfolding round after_raft step_raft
round_answers m x c outter inner e =
    ap (λ o. after_raft o (step_raft m c)) (raft_takes m c.raft outter ∙ e)
    ∙ clerk_takes x (record c.raft { outter_channel = [] }) (step_raft m c) inner

pub raft_refuses :
    (m : KvOperationRequest) (s : Raft)
    → is_leader s.role ≡ false
    → Dispatch.handle_message (kv_operation_request m) s
      ≡ State.done (State.push (operation_response m false s.leader_id s.platform.unset_op) s)
unfolding Dispatch.handle_message Client.handle_kv_operation_request
raft_refuses m s l = rw l refl

pub raft_reads :
    (m : KvOperationRequest) (s : Raft)
    → is_leader s.role ≡ true
    → m.op_type ≡ OperationType.get
    → Dispatch.handle_message (kv_operation_request m) s
      ≡ State.done (State.push (operation_response m true s.platform.unset_id OperationType.get) s)
unfolding Dispatch.handle_message Client.handle_kv_operation_request
raft_reads m s l g = rw (l, g) refl
