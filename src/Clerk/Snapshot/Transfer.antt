-- ===== src/Clerk/Snapshot/Transfer.antt =====
-- raftkv/raft-app/src/RaftClerk.cpp: a snapshot on its way from one node to another.
use mathlib.Core.Option.{some-injective}
use ww_raft_kv.Clerk.Apply.{step_raft}
use ww_raft_kv.Clerk.Command.Effect.{content}
use ww_raft_kv.Clerk.Send.{call, client_at, open_in, send_install_snapshot_request, send_snapshot}
use ww_raft_kv.Clerk.Snapshot.{apply_snapshot, generate_snapshot}
use ww_raft_kv.Clerk.Snapshot.Answered.{apply_snapshot-parsed, generate_snapshot-serialized}
use ww_raft_kv.Clerk.Snapshot.Installed.{installed, installed-pairs_lem, nothing}
use ww_raft_kv.Clerk.State.{
  ProtoInstallSnapshotRequest, RaftClerk, RaftPeerNet, RaftSnapshotData, call_install_snapshot,
}
use ww_raft_kv.Clerk.Text.{text_params}
use ww_raft_kv.Prelude.{
  List, String, [], ap, map, refl, some, subst, sym, true, ◌++◌, ◌+◌, ◌∙◌, ◌∷◌, ◌≡◌,
}
use ww_raft_kv.Raft.Message.{ApplySnapshotRequest, GenerateSnapshotRequest, InstallSnapshotRequest}
use ww_raft_kv.SkipList.Shape.{Entry, Shape}
use ww_raft_kv.SkipList.Visited.{pair_of}

open_in-file :
    (c : RaftClerk) (text : String)
    → c.file ≡ some text
    → c.host.opens c.opened ≡ true
    → open_in c ≡ (some text, record c { opened = c.opened + 1 })
unfolding open_in
open_in-file c text f o = rw (o, f) refl

send_install_snapshot_request-file :
    (m : InstallSnapshotRequest) (c : RaftClerk) (client : RaftPeerNet) (text : String)
    → c.file ≡ some text
    → c.host.opens c.opened ≡ true
    → client_at m.to c.clients ≡ some client
    → send_install_snapshot_request m c
      ≡ some (
          call
            (call_install_snapshot client m.to (record {
              term = m.term;
              leader_id = m.from;
              last_included_index = m.last_included_index;
              last_included_term = m.last_included_term;
              snapshot = text;
            }))
            (record c { opened = c.opened + 1 }))
unfolding send_install_snapshot_request
send_install_snapshot_request-file m c client text f o e =
    ap (send_snapshot m) (open_in-file c text f o) ∙ rw e refl

-- What a leader sends of its map reaches the map of a follower, however the two stores are laid
-- out: the leader writes a snapshot to its file, sends the file in a request, and the follower
-- applies the snapshot of such a request. Then the follower's store stands for the leader's map.
-- Both files open, the snapshot is coded, there is a client for the follower, and what the leader
-- has coded the follower parses.
pub snapshot_transfer :
    (g : GenerateSnapshotRequest) (r : InstallSnapshotRequest) (m : ApplySnapshotRequest)
    (a b : RaftClerk) {es fs : List (Entry String String)} (client : RaftPeerNet) (text : String)
    → Shape (text_params a.host.rand) a.kv_store es
    → Shape (text_params b.host.rand) b.kv_store fs
    → a.host.serialize (map pair_of es) ≡ some text
    → ((entries : RaftSnapshotData) (coded : String)
        → a.host.serialize entries ≡ some coded
        → b.host.parse coded ≡ some entries)
    → a.host.opens a.opened ≡ true
    → a.host.opens (a.opened + 1) ≡ true
    → b.host.opens b.opened ≡ true
    → client_at r.to a.clients ≡ some client
    → m.snapshot ≡ text
    → (a' a'' b' : RaftClerk) × (q : ProtoInstallSnapshotRequest) × (gs : List
        (Entry String String))
      × (generate_snapshot g a ≡ some a')
      × (send_install_snapshot_request r a' ≡ some a'')
      × (a''.calls ≡ a.calls ++ call_install_snapshot client r.to q ∷ [])
      × (q.snapshot ≡ m.snapshot)
      × (apply_snapshot m b ≡ some b')
      × Shape (text_params b.host.rand) b'.kv_store gs
      × (content b.host.rand gs ≡ content a.host.rand es)
unfolding step_raft call
snapshot_transfer g r m a b {es} client text h k serialized law o p q found same =
    let parsed = ap b.host.parse same ∙ law (map pair_of es) text serialized in
    let (b', applied, kept) = apply_snapshot-parsed b k m (map pair_of es) q parsed in
    let (entries, t, gs, e, left, shape, values) = kept in
    let codes = some-injective _ _ (sym e ∙ parsed) in
    (
      _,
      _,
      b',
      _,
      gs,
      generate_snapshot-serialized a h g text serialized o,
      send_install_snapshot_request-file r _ client text refl p found,
      refl,
      sym same,
      applied,
      subst (λ (x : RaftClerk). Shape (text_params b.host.rand) x.kv_store gs) (sym left) shape,
      values ∙ ap (λ x. installed x nothing) codes ∙ installed-pairs_lem a.host.rand h,
    )
