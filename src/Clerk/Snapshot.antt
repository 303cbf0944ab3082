-- ===== src/Clerk/Snapshot.antt =====
-- raftkv/raft-app/src/RaftClerk.cpp: snapshots of the map, to the file and back.
pub mod Installed
pub mod Answered
pub mod Transfer
use ww_raft_kv.Clerk.Apply.{step_raft}
use ww_raft_kv.Clerk.Command.{Store}
use ww_raft_kv.Clerk.Command.Effect.{content}
use ww_raft_kv.Clerk.Send.{open_in}
use ww_raft_kv.Clerk.State.{RaftClerk, RaftSnapshotData}
use ww_raft_kv.Clerk.Text.{text_params}
use ww_raft_kv.Prelude.{
  Bool, Option, String, [], false, if◌then◌else◌, negsuc, none, not, pos, some, true, ℕ, ℤ, ◌+◌,
  ◌∷◌,
}
use ww_raft_kv.Raft.Message.{
  ApplySnapshotRequest, GenerateSnapshotRequest, RaftMessage, apply_snapshot_response,
  generate_snapshot_response,
}
use ww_raft_kv.Raft.Types.{SequenceType, TermId}
use ww_raft_kv.SkipList.Change.{clear}
use ww_raft_kv.SkipList.Iterator.{pairs}
use ww_raft_kv.SkipList.Types.{◌>>=◌}
use ww_raft_kv.KvStore

-- A file to write, which is emptied when it opens.
unfoldable pub open_out : RaftClerk → Bool × RaftClerk
open_out c =
    let opened = c.host.opens c.opened in
    (opened, record c { file = if opened then some "" else c.file; opened = c.opened + 1 })

unfoldable pub write_file : String → RaftClerk → RaftClerk
write_file text c = record c { file = some text }

-- The pairs of a snapshot, put in the map until one fails.
unfoldable pub install : (ℕ → ℕ) → RaftSnapshotData → Store → Option (Bool × Store)
install rand [] kv = some (true, kv)
install rand ((key, value) ∷ rest) kv = do
  r ← KvStore.update (text_params rand) key value kv
  elim r.0 [ true ↦ install rand rest r.1 | false ↦ some (false, r.1) ]

unfoldable pub applied_snapshot : SequenceType → ℤ → TermId → RaftMessage
applied_snapshot seq index term =
    apply_snapshot_response
      (record { seq = seq; last_included_index = index; last_included_term = term })

unfoldable pub finish_install : ApplySnapshotRequest → Bool → RaftClerk → Option RaftClerk
unfolding applied_snapshot step_raft
finish_install m true c =
    some (step_raft (applied_snapshot m.seq (pos m.last_included_index) m.last_included_term) c)
finish_install m false c = do
  cleared ← clear (text_params c.host.rand) c.kv_store
  some (step_raft (applied_snapshot m.seq (negsuc 0) 0) (record c { kv_store = cleared }))

-- The index -1, with the term 0, tells the consensus layer that the snapshot was not applied.
unfoldable pub apply_snapshot : ApplySnapshotRequest → RaftClerk → Option RaftClerk
unfolding open_out write_file install finish_install applied_snapshot step_raft
apply_snapshot m c =
    let (opened, d) = open_out c in
    let e = write_file m.snapshot d in
    let failed = applied_snapshot m.seq (negsuc 0) 0 in
    if not opened then some (step_raft failed d) else elim (c.host.parse m.snapshot) [
      | none ↦ some (step_raft failed e)
      | some entries ↦ do
        cleared ← clear (text_params c.host.rand) e.kv_store
        r ← install c.host.rand entries cleared
        finish_install m r.0 (record e { kv_store = r.1 })
    ]

unfoldable pub generated_snapshot : ℤ → TermId → RaftMessage
generated_snapshot index term =
    generate_snapshot_response (record { last_applied_index = index; last_applied_term = term })

-- The index -1, with the term 0, tells the consensus layer that no snapshot was made.
unfoldable pub generate_snapshot : GenerateSnapshotRequest → RaftClerk → Option RaftClerk
unfolding open_out write_file generated_snapshot step_raft
generate_snapshot m c = do
  entries ← pairs c.kv_store
  let failed = generated_snapshot (negsuc 0) 0
  elim (c.host.serialize entries) [
    | none ↦ some (step_raft failed c)
    | some text ↦
        let (opened, d) = open_out c in
        if not opened
        then some (step_raft failed d)
        else some (
            step_raft (generated_snapshot (pos m.last_applied_index) m.last_applied_term)
              (write_file text d))
  ]

-- The loop at the start of a process, which goes on after a pair that fails.
unfoldable pub restore_pairs : (ℕ → ℕ) → RaftSnapshotData → Store → Option Store
restore_pairs rand [] kv = some kv
restore_pairs rand ((key, value) ∷ rest) kv = do
  r ← KvStore.update (text_params rand) key value kv
  restore_pairs rand rest r.1

-- What is done with the content of the file.
unfoldable pub load_snapshot : Option String × RaftClerk → Option RaftClerk
unfolding restore_pairs
load_snapshot (none, c) = some c
load_snapshot (some text, c) = elim (c.host.parse text) [
  | none ↦ some c
  | some entries ↦ do
    kv ← restore_pairs c.host.rand entries c.kv_store
    some (record c { kv_store = kv })
]

unfoldable pub install_snapshot_from_persist : RaftClerk → Option RaftClerk
unfolding open_in load_snapshot
install_snapshot_from_persist c = load_snapshot (open_in c)
