-- ===== src/Clerk/Clients.antt =====
-- raftkv/raft-app/src/RaftClerk.cpp with raftkv/raft-core/src/Raft.cpp: a request of a client on
-- its way through the two layers.
use text.Mathlib.Text.{◌==◌ as str_eq}
use text.Mathlib.TextEquality.{eq_iff}
use ww_raft_kv.Clerk.Apply.{
  kv_response, literal_offset, read_key, redirect_response, send_kv_operation_response,
}
use ww_raft_kv.Clerk.Command.{StatusCode, Store, not_found}
use ww_raft_kv.Clerk.Command.Effect.{content}
use ww_raft_kv.Clerk.Dispatch.{handle_message}
use ww_raft_kv.Clerk.Entries.{respond_kv_lem}
use ww_raft_kv.Clerk.Receive.{handle_kv_operation_request, kv_message, register_kv, requests_of}
use ww_raft_kv.Clerk.Rounds.{raft_reads, raft_refuses, round, round_answers}
use ww_raft_kv.Clerk.State.{
  Closure, ProtoKvOperationRequest, ProtoKvOperationResponse, RaftClerk, Requests, Response,
  execute, kv_operation_reply, not_set, payload,
}
use ww_raft_kv.Clerk.Text.{text_params}
use ww_raft_kv.Clerk.Text.Order.{text_params-IsOrder}
use ww_raft_kv.KvStore.Map.{added, get_lem, or_else}
use ww_raft_kv.Prelude.{
  ==_iff, List, Option, String, [], ap, eq→==, false, if◌then◌else◌, none, refl, some, true, ℕ,
  ◌++◌, ◌==◌, ◌∙◌, ◌∷◌, ◌≡◌,
}
use ww_raft_kv.Raft.Append.Majority.{answered}
use ww_raft_kv.Raft.Client.{operation_response}
use ww_raft_kv.Raft.Message.{KvOperationResponse, OperationType, kv_operation_request}
use ww_raft_kv.Raft.Types.{no_node}
use ww_raft_kv.Raft.Vote.{is_leader}
use ww_raft_kv.SkipList.Shape.{Entry, Shape}
use ww_raft_kv.KvStore
use ww_raft_kv.Table

send-no_leader :
    (k : KvOperationResponse) (c : RaftClerk)
    → k.success ≡ false
    → k.leader_id ≡ no_node
    → send_kv_operation_response k c ≡ none
unfolding send_kv_operation_response kv_response redirect_response literal_offset
send-no_leader k c s n = rw s (rw n refl)

-- A node that is not the leader, and knows of none, answers a client by a step before the first
-- peer: what happens then C++ leaves open.
pub no_leader_undefined :
    (r : ProtoKvOperationRequest) (done : Closure) (c : RaftClerk)
    → c.raft.outter_channel ≡ []
    → c.raft.inner_channel ≡ []
    → is_leader c.raft.role ≡ false
    → c.raft.leader_id ≡ no_node
    → round (handle_kv_operation_request r done c) ≡ none
unfolding handle_kv_operation_request handle_message operation_response
no_leader_undefined r done c outter inner l n =
    let s = record c.raft { outter_channel = [] } in
    let m = kv_message r done c in
    round_answers (kv_operation_request m)
      (operation_response m false c.raft.leader_id c.raft.platform.unset_op)
      (register_kv r.uuid done c) outter inner (raft_refuses m s l)
    ∙ send-no_leader _ _ refl n

-- The answer to a client that asks for the value of a key.
abbrev pub read_answer : Option String → Response
read_answer none = kv_operation_reply (record { status_code = not_found; payload = not_set })
read_answer (some value) = kv_operation_reply (
    if str_eq value ""
    then record { status_code = not_found; payload = not_set }
    else record { status_code = StatusCode.success; payload = payload value })

lookup-register_kv :
    (uuid : String) (done : Closure) (c : RaftClerk)
    → (waiting : Requests) × (Table.lookup str_eq uuid (register_kv uuid done c).pending_kv_requests
        ≡ some waiting)
      × (Table.lookup ◌==◌ done.sequence_id waiting ≡ some done)
unfolding register_kv
lookup-register_kv uuid done c = (
  _,
  Table.lookup-assign str_eq eq_iff uuid uuid _ c.pending_kv_requests
      ∙ rw ((eq_iff uuid uuid).1 refl) refl,
  Table.lookup-assign ◌==◌ ==_iff done.sequence_id done.sequence_id done (requests_of uuid c)
      ∙ rw (eq→== done.sequence_id done.sequence_id refl) refl,
)

-- The response to a client, for the value that `get` gives.
abbrev key_response : String → ProtoKvOperationResponse
key_response v =
    if str_eq v ""
    then record { status_code = not_found; payload = not_set }
    else record { status_code = StatusCode.success; payload = payload v }

if-empty : (v : Option String) → kv_operation_reply (key_response (or_else "" v)) ≡ read_answer v
if-empty none = refl
if-empty (some v) = refl

-- What is left of a store after a key was read: a key that is not there gets an empty value.
abbrev pub Read :
    (ℕ → ℕ) → List (Entry String String) → String → Store → List (Entry String String) → Type 0
Read rand es key t fs =
    Shape (text_params rand) t fs
    × ((k : String) → content rand fs k ≡ added (text_params rand) (content rand es) key "" k)

-- A client gets the answer to a read, and the store is left as the read leaves it.
abbrev pub Served :
    RaftClerk → List (Entry String String) → String → Closure → Option RaftClerk → Type 0
Served c es key done result =
    (d : RaftClerk) × (fs : List (Entry String String)) × (result ≡ some d)
    × (d.replies ≡ c.replies ++ (done, read_answer (content c.host.rand es key)) ∷ [])
    × Read c.host.rand es key d.kv_store fs

read_key_lem :
    (key : String) (c : RaftClerk) (v : String) (t : Store)
    → KvStore.get (text_params c.host.rand) key c.kv_store ≡ some (v, t)
    → read_key key c ≡ some (key_response v, record c { kv_store = t })
unfolding read_key
read_key_lem key c v t e = rw e refl

send-get :
    (k : KvOperationResponse) (c : RaftClerk) {es : List (Entry String String)} (waiting : Requests)
    (done : Closure)
    → k.success ≡ true
    → k.op_type ≡ OperationType.get
    → Table.lookup str_eq k.uuid c.pending_kv_requests ≡ some waiting
    → Table.lookup ◌==◌ k.seq waiting ≡ some done
    → done.method ≡ execute
    → Shape (text_params c.host.rand) c.kv_store es
    → Served c es k.key done (send_kv_operation_response k c)
unfolding send_kv_operation_response kv_response text_params
send-get k c {es} waiting done s g w x y h =
    let (t, fs, got, shape, values) =
      get_lem (text_params c.host.rand) (text_params-IsOrder c.host.rand) h k.key in
    let answer = if-empty (content c.host.rand es k.key) in
    let v = or_else "" (content c.host.rand es k.key) in
    let b = record c { kv_store = t } in
    let left = Table.assign str_eq k.uuid (Table.erase ◌==◌ k.seq waiting) c.pending_kv_requests in
    (
      record b {
        replies = c.replies ++ (done, kv_operation_reply (key_response v)) ∷ [];
        pending_kv_requests = left;
      },
      fs,
      rw (s, g)
          (rw (read_key_lem k.key c v t got)
            (respond_kv_lem k.uuid k.seq (key_response v) b waiting done w x y)),
      ap (λ a. c.replies ++ (done, a) ∷ []) answer,
      (shape, values),
    )

-- On a leader whose queues are empty, whose store has the right shape, a client that asks for the
-- value of a key gets, after one round of the two layers, the value that the map has, or else that
-- the key is not found; it is answered once. An empty value is taken for none.
pub get-Served :
    (r : ProtoKvOperationRequest) (done : Closure) (c : RaftClerk) {es : List (Entry String String)}
    → c.raft.outter_channel ≡ []
    → c.raft.inner_channel ≡ []
    → is_leader c.raft.role ≡ true
    → r.op_type ≡ 3
    → done.method ≡ execute
    → Shape (text_params c.host.rand) c.kv_store es
    → Served c es r.key done (round (handle_kv_operation_request r done c))
unfolding handle_kv_operation_request handle_message operation_response
get-Served r done c outter inner l n x h =
    let s = record c.raft { outter_channel = [] } in
    let m = kv_message r done c in
    let reads = raft_reads m s l (rw n refl) in
    let (waiting, w, y) = lookup-register_kv r.uuid done c in
    let (d, fs, sent, answered, left) =
      send-get _ (record (register_kv r.uuid done c) { raft = _ }) waiting done refl refl w y x h in
    (
      d,
      fs,
      round_answers (kv_operation_request m)
            (operation_response m true c.raft.platform.unset_id OperationType.get)
            (register_kv r.uuid done c) outter inner reads
          ∙ sent,
      answered,
      left,
    )
