-- ===== src/Raft/Persist/Restart.antt =====
-- A process that starts from the file of an earlier one.
use ww_raft_kv.Prelude.{
  List, [], ap, arith, length, length-append, length-map, map, refl, suc, true, ◌+◌, ◌∷◌, ◌≡◌,
}
use ww_raft_kv.Raft.Frame.{done_of_returns}
use ww_raft_kv.Raft.Log.{get_term_at}
use ww_raft_kv.Raft.Log.Contiguous.{IsContiguous, get_term_at-returns}
use ww_raft_kv.Raft.Persist.{
  finish_load, load_data, persist_data, persist_entry, restore, restore_entry,
}
use ww_raft_kv.Raft.State.{Raft, RaftPersistData, RaftPersistLogEntry, done}
use ww_raft_kv.Raft.Types.{TermId}

map-persist-restore :
    (es : List RaftPersistLogEntry) → map persist_entry (map restore_entry es) ≡ es
unfolding persist_entry restore_entry
map-persist-restore [] = refl
map-persist-restore (e ∷ es) = ap (◌∷◌ e) (map-persist-restore es)

-- What a node holds after a restart: what was saved, with nothing applied past the snapshot.
pub record Restarted (d : RaftPersistData) (t : Raft) : Type 0 where
  pub saved : persist_data t ≡ d
  pub term : t.term ≡ d.term
  pub voted_for : t.voted_for ≡ d.voted_for
  pub contiguous : IsContiguous t
  pub base_index : t.base_index ≡ suc d.last_included_index
  pub last_log_index : t.last_log_index ≡ d.last_included_index + length d.entries
  pub last_commit_index : t.last_commit_index ≡ d.last_included_index
  pub last_applied_index : t.last_applied_index ≡ d.last_included_index

module _ (d : RaftPersistData) (s : Raft) (fresh : s.logs ≡ []) where
  restore-IsContiguous : IsContiguous (restore d s)
  unfolding restore
  restore-IsContiguous = record { base = omega arith; span = omega (arith, ap length fresh) }

  persist_data-restore : persist_data (restore d s) ≡ d
  unfolding restore persist_data
  persist_data-restore = rw fresh (rw map-persist-restore refl)

  finish_load-Restarted : (x : TermId) → Restarted d (finish_load x (restore d s))
  unfolding finish_load restore persist_data
  finish_load-Restarted x = record {
    saved = persist_data-restore;
    term = refl;
    voted_for = refl;
    contiguous = record { base = restore-IsContiguous.base; span = restore-IsContiguous.span };
    base_index = omega arith;
    last_log_index = omega (
      arith,
      length-append s.logs (map restore_entry d.entries),
      length-map restore_entry d.entries,
      ap length fresh,
    );
    last_commit_index = refl;
    last_applied_index = refl;
  }

  -- A node with an empty log takes over all that the file holds.
  pub load_data-Restarted : (t : Raft) × (load_data d s ≡ done (true, t)) × Restarted d t
  unfolding load_data
  load_data-Restarted =
      let r = restore d s in
      let (x, e) =
        done_of_returns (get_term_at r r.last_log_index)
          (get_term_at-returns r restore-IsContiguous r.last_log_index) in
      (finish_load x r, rw e, finish_load-Restarted x)
