-- ===== src/Raft/Safety/Restarts.antt =====
-- A crash at any moment, and the restart from the file.
use ww_raft_kv.Prelude.{Bool, List, Option, false, none, refl, some, true, ℕ, ◌∙◌, ◌≡◌}
use ww_raft_kv.Raft.Dispatch.{get_outter_message}
use ww_raft_kv.Raft.Frame.{final}
use ww_raft_kv.Raft.History.{NoWrap, Reach}
use ww_raft_kv.Raft.Persist.{load_persist, new}
use ww_raft_kv.Raft.Persist.Restart.{Restarted, load_data-Restarted}
use ww_raft_kv.Raft.Safety.Advance.{Advance, Advance-trans, Writes, saved_term, saved_vote}
use ww_raft_kv.Raft.Safety.Histories.{Reach-Advance, get_outter_message-Advance}
use ww_raft_kv.Raft.State.{Platform, Raft, RaftPersistData, done}
use ww_raft_kv.Raft.Types.{NodeId, RaftPeer}

-- Files open, and what they hold can be parsed.
abbrev pub Readable : Platform → Type 0
Readable p = (n : ℕ) → (p.opens n ≡ true) × (p.parses n ≡ true)

-- A new process, with an empty log, that loads what the file of an earlier process holds.
pub load-Restarted :
    (id : NodeId) (peers : List RaftPeer) (p : Platform) (d : RaftPersistData)
    → Readable p
    → (t : Raft) × (load_persist (new id peers p (some d)) ≡ done (true, t)) × Restarted d t
unfolding load_persist new
load-Restarted id peers p d readable =
    rw ((readable 2).0, (readable 3).1)
      (load_data-Restarted d (record (new id peers p (some d)) { calls = 4 }) refl)

-- What a restart from a file finds: the term and the vote of the file, or of a new node.
restart_finds :
    (id : NodeId) (peers : List RaftPeer) (p : Platform) (disk : Option RaftPersistData)
    → Readable p
    → (b : Bool) × (t : Raft) × (load_persist (new id peers p disk) ≡ done (b, t))
      × (t.term ≡ saved_term disk)
      × (t.voted_for ≡ saved_vote disk)
unfolding load_persist new
restart_finds id peers p none readable = (false, new id peers p none, refl, refl, refl)
restart_finds id peers p (some d) readable =
    let (t, e, r) = load-Restarted id peers p d readable in (true, t, e, r.term, r.voted_for)

-- A node starts with no file, on a disk that takes what is written, and no term on the way is the
-- last of its type. Whatever it has done, and whichever message it is then handling, and whether
-- that call returns or faults, a process that starts anew from the file has the term and the vote
-- of the one that ended.
pub crash_keeps_vote :
    (id : NodeId) (peers : List RaftPeer) (p q : Platform)
    → Writes p
    → Readable q
    → {s : Raft} (r : Reach (new id peers p none) s) → NoWrap r
    → let u = final (get_outter_message s) in
      (b : Bool) × (t : Raft) × (load_persist (new id peers q u.disk) ≡ done (b, t))
      × (t.term ≡ u.term)
      × (t.voted_for ≡ u.voted_for)
unfolding new
crash_keeps_vote id peers p q writes readable {s} r h =
    let u = final (get_outter_message s) in
    let life : Advance (new id peers p none) u =
      Advance-trans (Reach-Advance r h) (get_outter_message-Advance s) in
    let kept = life.saved writes (record { term = refl; vote = refl }) in
    let (b, t, e, term, vote) = restart_finds id peers q u.disk readable in
    (b, t, e, term ∙ kept.term, vote ∙ kept.vote)
