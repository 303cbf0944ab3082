-- ===== src/Clerk/Entries/Commit.antt =====
-- raftkv/raft-app/src/RaftClerk.cpp, `_ApplyCommitLogs`: a commit as a whole.
use ww_raft_kv.Clerk.Apply.{apply_commit_logs, step_raft}
use ww_raft_kv.Clerk.Command.{Store}
use ww_raft_kv.Clerk.Command.Effect.{content}
use ww_raft_kv.Clerk.Entries.{Pending, Serves, apply_entries-Ran, commands, run_commands}
use ww_raft_kv.Clerk.State.{Closure, RaftClerk, Response}
use ww_raft_kv.Clerk.Text.{text_params}
use ww_raft_kv.Prelude.{List, String, refl, some, sym, ◌++◌, ◌∙◌, ◌≡◌}
use ww_raft_kv.Raft.Message.{ApplyCommitLogsRequest, apply_commit_logs_response}
use ww_raft_kv.SkipList.Shape.{Entry, Shape}

-- If a closure waits for every entry that has a client, a commit is applied: the map is what the
-- commands of the entries make of it one after the other, each client gets the status of its own
-- command, in order and once, the other clients go on waiting, and the consensus layer gets the one
-- response that it waits for.
pub apply_commit_logs_lem :
    (m : ApplyCommitLogsRequest) (c : RaftClerk) {es : List (Entry String String)}
    {rs : List (Closure × Response)} {q : Pending}
    → Shape (text_params c.host.rand) c.kv_store es
    → Serves m.entries c.pending_kv_requests (content c.host.rand es) rs q
    → (t : Store) × (fs : List (Entry String String)) × (apply_commit_logs m c
        ≡ some (
            step_raft
              (apply_commit_logs_response (record { last_commit_index = m.last_commit_index }))
              (record c { kv_store = t; pending_kv_requests = q; replies = c.replies ++ rs })))
      × Shape (text_params c.host.rand) t fs
      × (content c.host.rand fs ≡ run_commands (commands m.entries) (content c.host.rand es))
unfolding apply_commit_logs
apply_commit_logs_lem m c h served =
    let (t, fs, ran, shape, values) = apply_entries-Ran served c h refl refl in
    (t, fs, rw ran refl, shape, values)

-- Two nodes whose stores stand for one map, however these are laid out, apply entries with the same
-- commands: their stores stand for one map again, whichever clients the two nodes answer.
pub apply_commit_logs_agree :
    (m n : ApplyCommitLogsRequest) (c d : RaftClerk) {es fs : List (Entry String String)}
    {rs ss : List (Closure × Response)} {p q : Pending}
    → Shape (text_params c.host.rand) c.kv_store es
    → Shape (text_params d.host.rand) d.kv_store fs
    → content c.host.rand es ≡ content d.host.rand fs
    → commands m.entries ≡ commands n.entries
    → Serves m.entries c.pending_kv_requests (content c.host.rand es) rs p
    → Serves n.entries d.pending_kv_requests (content d.host.rand fs) ss q
    → (c' d' : RaftClerk) × (gs hs : List (Entry String String)) × (apply_commit_logs m c ≡ some c')
      × (apply_commit_logs n d ≡ some d')
      × Shape (text_params c.host.rand) c'.kv_store gs
      × Shape (text_params d.host.rand) d'.kv_store hs
      × (content c.host.rand gs ≡ content d.host.rand hs)
unfolding step_raft
apply_commit_logs_agree m n c d h k same entries serves serves' =
    let (t, gs, ran, shape, values) = apply_commit_logs_lem m c h serves in
    let (u, hs, ran', shape', values') = apply_commit_logs_lem n d k serves' in
    (
      _,
      _,
      gs,
      hs,
      ran,
      ran',
      shape,
      shape',
      values ∙ (λ i. run_commands (entries i) (same i)) ∙ sym values',
    )
