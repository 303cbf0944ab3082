-- ===== src/Clerk/Entries.antt =====
-- raftkv/raft-app/src/RaftClerk.cpp, `_ApplyCommitLogs`: what a run of entries does to the map, and
-- which clients it answers.
pub mod Commit
use mathlib.Core.List.{append_assoc}
use mathlib.Core.Path.{fun_ext}
use text.Mathlib.Text.{◌==◌ as str_eq}
use ww_raft_kv.Clerk.Apply.{
  answer_client, apply_commit_logs, apply_entries, apply_entry, has_client, respond_kv, step_raft,
}
use ww_raft_kv.Clerk.Command.{StatusCode, Store}
use ww_raft_kv.Clerk.Command.Arguments.{words}
use ww_raft_kv.Clerk.Command.Effect.{Content, apply_command-effect, content, effect}
use ww_raft_kv.Clerk.Send.{fits, run}
use ww_raft_kv.Clerk.State.{
  Closure, ProtoKvOperationResponse, RaftClerk, Requests, Response, execute, kv_operation_reply,
  not_set, payload,
}
use ww_raft_kv.Clerk.Text.{text_params}
use ww_raft_kv.Prelude.{
  List, String, [], ap, append-nil, false, refl, some, sym, true, ◌++◌, ◌==◌, ◌∙◌, ◌∷◌, ◌≡◌,
}
use ww_raft_kv.Raft.Message.{ApplyCommitLogsRequest, apply_commit_logs_response}
use ww_raft_kv.Raft.Types.{RaftLogEntry, SequenceType}
use ww_raft_kv.SkipList.Shape.{Entry, Shape}
use ww_raft_kv.Table

abbrev pub Pending : Type 0
Pending = List (String × Requests)

-- The map after a run of commands.
unfoldable pub run_commands : List String → Content → Content
run_commands [] f = f
run_commands (command ∷ rest) f = run_commands rest (effect (words command) f).1

abbrev pub commands : List RaftLogEntry → List String
commands [] = []
commands (e ∷ es) = e.command ∷ commands es

abbrev pub answer_of : RaftLogEntry → Content → Response
answer_of e f =
    kv_operation_reply (record { status_code = (effect (words e.command) f).0; payload = not_set })

-- For each entry of a run that has a client, a closure waits for its answer. `Serves es p f rs q`
-- says so of the table `p` and the map `f`, with the answers `rs` and the table `q` that is left.
pub data Serves
    : List RaftLogEntry → Pending → Content → List (Closure × Response) → Pending → Type 0 where
  none_left : {p : Pending} {f : Content} → Serves [] p f [] p
  no_client :
      {e : RaftLogEntry} {es : List RaftLogEntry} {p q : Pending} {f : Content}
      {rs : List (Closure × Response)}
      → has_client e ≡ false
      → Serves es p (effect (words e.command) f).1 rs q
      → Serves (e ∷ es) p f rs q
  with_client :
      {e : RaftLogEntry} {es : List RaftLogEntry} {p q : Pending} {f : Content}
      {rs : List (Closure × Response)} {waiting : Requests} {done : Closure}
      → has_client e ≡ true
      → Table.lookup str_eq e.uuid p ≡ some waiting
      → Table.lookup ◌==◌ e.sequence_id waiting ≡ some done
      → done.method ≡ execute
      → Serves es
          (Table.assign str_eq e.uuid (Table.erase ◌==◌ e.sequence_id waiting) p)
          (effect (words e.command) f).1
          rs
          q
      → Serves (e ∷ es) p f ((done, answer_of e f) ∷ rs) q

answer_client-none :
    (e : RaftLogEntry) (status : StatusCode) (c : RaftClerk)
    → has_client e ≡ false
    → answer_client e status c ≡ some c
unfolding answer_client
answer_client-none e status c h = rw h refl

answer_client-some :
    (e : RaftLogEntry) (status : StatusCode) (c : RaftClerk)
    → has_client e ≡ true
    → answer_client e status c
      ≡ respond_kv e.uuid e.sequence_id (record { status_code = status; payload = not_set }) c
unfolding answer_client
answer_client-some e status c h = rw h refl

fits-execute :
    (done : Closure) (r : ProtoKvOperationResponse)
    → done.method ≡ execute
    → fits done.method (kv_operation_reply r) ≡ true
fits-execute done r h = rw h refl

-- A closure that waits for a client is run, and taken out of the table.
pub respond_kv_lem :
    (uuid : String) (n : SequenceType) (response : ProtoKvOperationResponse) (c : RaftClerk)
    (waiting : Requests) (done : Closure)
    → Table.lookup str_eq uuid c.pending_kv_requests ≡ some waiting
    → Table.lookup ◌==◌ n waiting ≡ some done
    → done.method ≡ execute
    → respond_kv uuid n response c
      ≡ some (record c {
        pending_kv_requests =
            Table.assign str_eq uuid (Table.erase ◌==◌ n waiting) c.pending_kv_requests;
        replies = c.replies ++ (done, kv_operation_reply response) ∷ [];
      })
unfolding respond_kv run
respond_kv_lem uuid n response c waiting done l m x = rw (l, m, fits-execute done response x) refl

-- The state after an entry that no client waits for, and after one that is answered.
abbrev stored : RaftClerk → Store → RaftClerk
stored c t = record c { kv_store = t }

abbrev answered : RaftClerk → Store → RaftLogEntry → Requests → Closure → Response → RaftClerk
answered c t e waiting done response = record c {
  kv_store = t;
  pending_kv_requests =
      Table.assign str_eq e.uuid (Table.erase ◌==◌ e.sequence_id waiting) c.pending_kv_requests;
  replies = c.replies ++ (done, response) ∷ [];
}

-- What an entry does to the store, whichever map the store stands for.
abbrev Stored : RaftClerk → RaftLogEntry → Content → (Store → RaftClerk) → Type 0
Stored c e f next_state =
    (t : Store) × (fs : List (Entry String String)) × (apply_entry e c ≡ some (next_state t))
    × Shape (text_params c.host.rand) t fs
    × (content c.host.rand fs ≡ (effect (words e.command) f).1)

module _ (e : RaftLogEntry) (c : RaftClerk) {es : List (Entry String String)} {f : Content}
    (h : Shape (text_params c.host.rand) c.kv_store es) (same : content c.host.rand es ≡ f) where
  apply_entry-no_client : has_client e ≡ false → Stored c e f (stored c)
  unfolding apply_entry
  apply_entry-no_client n =
      let (t, fs, applied, shape, values) = apply_command-effect c.host.rand h e.command in
      (
        t,
        fs,
        rw applied (answer_client-none e _ (stored c t) n),
        shape,
        fun_ext values ∙ ap (λ g. (effect (words e.command) g).1) same,
      )

  apply_entry-client :
      (waiting : Requests) (done : Closure)
      → has_client e ≡ true
      → Table.lookup str_eq e.uuid c.pending_kv_requests ≡ some waiting
      → Table.lookup ◌==◌ e.sequence_id waiting ≡ some done
      → done.method ≡ execute
      → Stored c e f (λ t. answered c t e waiting done (answer_of e f))
  unfolding apply_entry
  apply_entry-client waiting done n l m x =
      let (t, fs, applied, shape, values) = apply_command-effect c.host.rand h e.command in
      (
        t,
        fs,
        rw applied (
            answer_client-some e _ (stored c t) n
            ∙ respond_kv_lem e.uuid e.sequence_id _ (stored c t) waiting done l m x
            ∙ ap (λ g. some (answered c t e waiting done (answer_of e g))) same),
        shape,
        fun_ext values ∙ ap (λ g. (effect (words e.command) g).1) same,
      )

-- What a run of entries leaves of a clerk.
abbrev pub Ran :
    RaftClerk → List RaftLogEntry → Content → List (Closure × Response) → Pending → Type 0
Ran c entries f rs q =
    (t : Store) × (fs : List (Entry String String)) × (apply_entries entries c
      ≡ some (record c { kv_store = t; pending_kv_requests = q; replies = c.replies ++ rs }))
    × Shape (text_params c.host.rand) t fs
    × (content c.host.rand fs ≡ run_commands (commands entries) f)

pub apply_entries-Ran :
    {entries : List RaftLogEntry} {p q : Pending} {f : Content} {rs : List (Closure × Response)}
    (served : Serves entries p f rs q) (c : RaftClerk) {es : List (Entry String String)}
    → Shape (text_params c.host.rand) c.kv_store es
    → c.pending_kv_requests ≡ p
    → content c.host.rand es ≡ f
    → Ran c entries f rs q
unfolding apply_entries run_commands
apply_entries-Ran none_left c {es} h same k = (
  c.kv_store,
  es,
  λ i. some (record c { pending_kv_requests = same i; replies = sym (append-nil c.replies) i }),
  h,
  k,
)
apply_entries-Ran (no_client {e} n rest) c h same k =
    let (t, fs, applied, shape, values) = apply_entry-no_client e c h k n in
    let (u, gs, ran, kept, after) = apply_entries-Ran rest (stored c t) shape same values in
    (u, gs, rw applied ran, kept, after)
apply_entries-Ran (with_client {e} {q} {f} {rs} {waiting} {done} n l m x rest) c {es = fs} h same
      k =
    let found = ap (Table.lookup str_eq e.uuid) same ∙ l in
    let (t, gs, applied, shape, values) = apply_entry-client e c h k waiting done n found m x in
    let left = Table.erase ◌==◌ e.sequence_id waiting in
    let (u, hs, ran, kept, after) =
      apply_entries-Ran rest (answered c t e waiting done (answer_of e f)) shape
        (ap (Table.assign str_eq e.uuid left) same) values in
    (
      u,
      hs,
      rw applied (
          ran
          ∙ ap (λ r. some (record c { kv_store = u; pending_kv_requests = q; replies = r }))
              (append_assoc c.replies ((done, answer_of e f) ∷ []) rs)),
      kept,
      after,
    )
