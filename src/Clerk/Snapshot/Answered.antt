-- ===== src/Clerk/Snapshot/Answered.antt =====
-- raftkv/raft-app/src/RaftClerk.cpp: what the consensus layer hears of a snapshot.
use ww_raft_kv.Clerk.Apply.{step_raft}
use ww_raft_kv.Clerk.Command.{Store}
use ww_raft_kv.Clerk.Command.Effect.{content}
use ww_raft_kv.Clerk.Snapshot.{
  applied_snapshot, apply_snapshot, finish_install, generate_snapshot, generated_snapshot, open_out,
  write_file,
}
use ww_raft_kv.Clerk.Snapshot.Installed.{content_empty, install_lem, installed, nothing}
use ww_raft_kv.Clerk.State.{RaftClerk, RaftSnapshotData}
use ww_raft_kv.Clerk.Text.{text_params}
use ww_raft_kv.Prelude.{
  Bool-cases, List, Option, Option-cases, String, inl, inr, map, negsuc, pos, refl, some, true, ℕ,
  ◌+◌, ◌≡◌, ◌⊎◌,
}
use ww_raft_kv.Raft.Message.{ApplySnapshotRequest, GenerateSnapshotRequest}
use ww_raft_kv.SkipList.Clear.{clear-Shape}
use ww_raft_kv.SkipList.Shape.{Entry, Shape}
use ww_raft_kv.SkipList.Visited.{pair_of, pairs_lem}

-- A snapshot was made: the file holds the pairs of the map.
abbrev pub Generated :
    GenerateSnapshotRequest → RaftClerk → List (Entry String String) → RaftClerk → Type 0
Generated m c es d =
    (text : String) × (c.host.serialize (map pair_of es) ≡ some text)
    × (d
        ≡ step_raft (generated_snapshot (pos m.last_applied_index) m.last_applied_term)
            (record c { file = some text; opened = c.opened + 1 }))

-- None was made: the file is as it was.
abbrev pub NotGenerated : RaftClerk → RaftClerk → Type 0
NotGenerated c d =
    (n : ℕ) × (d ≡ step_raft (generated_snapshot (negsuc 0) 0) (record c { opened = n }))

module _ (c : RaftClerk) {es : List (Entry String String)}
    (h : Shape (text_params c.host.rand) c.kv_store es) where
  pub generate_snapshot-serialized :
      (m : GenerateSnapshotRequest) (text : String)
      → c.host.serialize (map pair_of es) ≡ some text
      → c.host.opens c.opened ≡ true
      → generate_snapshot m c
        ≡ some (
            step_raft
              (generated_snapshot (pos m.last_applied_index) m.last_applied_term)
              (record c { file = some text; opened = c.opened + 1 }))
  unfolding generate_snapshot open_out write_file
  generate_snapshot-serialized m text e o = rw (pairs_lem (text_params c.host.rand) h, e, o) refl

  -- On a store of the right shape, a request for a snapshot is answered once, whatever the
  -- libraries do: with the index that was asked for, and then the file holds the pairs of the map,
  -- or with the index -1, and then the file is as it was. The map does not change.
  pub generate_snapshot-answers :
      (m : GenerateSnapshotRequest)
      → (d : RaftClerk) × (generate_snapshot m c ≡ some d) × (Generated m c es d ⊎ NotGenerated c d)
  unfolding generate_snapshot open_out write_file
  generate_snapshot-answers m = elim (Option-cases (c.host.serialize (map pair_of es))) [
    | inl e ↦ (_, rw (pairs_lem (text_params c.host.rand) h, e) refl, inr (c.opened, refl))
    | inr (text, e) ↦ elim (Bool-cases (c.host.opens c.opened)) [
      | inl o ↦ (_, generate_snapshot-serialized m text e o, inl (text, e, refl))
      | inr o ↦ (_, rw (pairs_lem (text_params c.host.rand) h, e, o) refl, inr (c.opened + 1, refl))
    ]
  ]

  -- The snapshot was applied: the map is the one that its pairs make.
  abbrev pub AppliedSnapshot : ApplySnapshotRequest → RaftClerk → Type 0
  AppliedSnapshot m d =
      (entries : RaftSnapshotData) × (t : Store) × (fs : List (Entry String String)) × (c.host.parse
          m.snapshot
        ≡ some entries)
      × (d
          ≡ step_raft (applied_snapshot m.seq (pos m.last_included_index) m.last_included_term)
              (record c { file = some m.snapshot; opened = c.opened + 1; kv_store = t }))
      × Shape (text_params c.host.rand) t fs
      × (content c.host.rand fs ≡ installed entries nothing)

  -- It was not: the map is as it was.
  abbrev pub NotAppliedSnapshot : ApplySnapshotRequest → RaftClerk → Type 0
  NotAppliedSnapshot m d =
      (file : Option String) × (d
        ≡ step_raft (applied_snapshot m.seq (negsuc 0) 0)
            (record c { file = file; opened = c.opened + 1 }))

  pub apply_snapshot-parsed :
      (m : ApplySnapshotRequest) (entries : RaftSnapshotData)
      → c.host.opens c.opened ≡ true
      → c.host.parse m.snapshot ≡ some entries
      → (d : RaftClerk) × (apply_snapshot m c ≡ some d) × AppliedSnapshot m d
  unfolding apply_snapshot open_out write_file finish_install
  apply_snapshot-parsed m entries o e =
      let (t, cleared, shape) = clear-Shape (text_params c.host.rand) c.kv_store h in
      let (u, fs, ran, restored, kept, values) =
        install_lem c.host.rand entries shape (content_empty c.host.rand) in
      (_, rw (o, e, cleared, ran) refl, (entries, u, fs, e, refl, kept, values))

  -- On a store of the right shape, a request to apply a snapshot is answered once, whatever the
  -- libraries do and whatever the snapshot holds: with the index of the snapshot, and then the map
  -- is the one that its pairs make, or with the index -1, and then the map is as it was.
  pub apply_snapshot-answers :
      (m : ApplySnapshotRequest)
      → (d : RaftClerk) × (apply_snapshot m c ≡ some d)
        × (AppliedSnapshot m d ⊎ NotAppliedSnapshot m d)
  unfolding apply_snapshot open_out write_file
  apply_snapshot-answers m = elim (Bool-cases (c.host.opens c.opened)) [
    | inl o ↦ elim (Option-cases (c.host.parse m.snapshot)) [
      | inl e ↦ (_, rw (o, e) refl, inr (some m.snapshot, refl))
      | inr (entries, e) ↦
          let (d, ran, applied) = apply_snapshot-parsed m entries o e in (d, ran, inl applied)
    ]
    | inr o ↦ (_, rw o refl, inr (c.file, refl))
  ]
