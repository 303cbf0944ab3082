-- ===== src/Raft/Append/Requests.antt =====
-- raftkv/raft-core/src/Raft.cpp, `_HandleAppendEntriesRequest`: what a request does to the log.
use ww_raft_kv.Prelude.{
  List, [], ap, append-nil, arith, false, if◌then◌else◌, length, length-append, ltb, min, refl,
  subst, sym, true, ◌++◌, ◌+◌, ◌∙◌, ◌∷◌, ◌≡◌, ◌≢◌, ◌≤◌,
}
use ww_raft_kv.Raft.Append.{
  accept_entries, advance_commit, append_response, handle_append_entries_request, match_entries,
  refuse_entries, store_entries,
}
use ww_raft_kv.Raft.Commit.{apply_commit_logs}
use ww_raft_kv.Raft.Commit.Keep.{apply_commit_logs-Keeps}
use ww_raft_kv.Raft.Frame.{final, final-bind, final-if, if_lem}
use ww_raft_kv.Raft.Integrity.Entries.{accept_entries-Good}
use ww_raft_kv.Raft.Integrity.Invariant.{Inv, Inv-of_fields, returns_of_Good}
use ww_raft_kv.Raft.Integrity.Votes.{become_follower-Inv}
use ww_raft_kv.Raft.Log.{get_term_at, log_match, truncate_after}
use ww_raft_kv.Raft.Log.Truncating.{
  get_term_at-past, truncate_after-SameBounds, truncate_after-logs,
}
use ww_raft_kv.Raft.Message.{AppendEntriesRequest}
use ww_raft_kv.Raft.Persist.{persist}
use ww_raft_kv.Raft.Role.{become_follower}
use ww_raft_kv.Raft.State.{Raft, done, failed, out_of_range, push}
use ww_raft_kv.Raft.Timer.{reset_election_deadline}
use ww_raft_kv.Raft.Types.{LogIndex, RaftLogEntry, TermId}

-- The entry at an index contradicts what the leader has there.
pub record Contradicts (m : AppendEntriesRequest) (s : Raft) : Type 0 where
  pub above : s.base_index ≤ m.prev_log_index
  pub within : m.prev_log_index ≤ s.last_log_index
  pub found_term : TermId
  pub found : get_term_at s m.prev_log_index ≡ done found_term
  pub differs : found_term ≢ m.prev_log_term

-- The receiver of a request that it does not refuse for its term.
unfoldable pub receiver : AppendEntriesRequest → Raft → Raft
unfolding become_follower
receiver m s = if ltb s.term m.term then become_follower m.from m.term s else s

record SameEntries (s t : Raft) : Type 0 where
  logs : t.logs ≡ s.logs
  base_index : t.base_index ≡ s.base_index
  last_log_index : t.last_log_index ≡ s.last_log_index
  last_included_index : t.last_included_index ≡ s.last_included_index
  last_included_term : t.last_included_term ≡ s.last_included_term

module _ (m : AppendEntriesRequest) (s : Raft) where
  receiver-SameEntries : SameEntries s (receiver m s)
  unfolding receiver become_follower
  receiver-SameEntries = ground arith

  handle-receiver :
      s.term ≤ m.term → handle_append_entries_request m s ≡ match_entries m (receiver m s)
  unfolding handle_append_entries_request receiver
  handle-receiver h = ground arith

  log_match-Contradicts :
      Inv s → Contradicts m s → log_match s m.prev_log_index m.prev_log_term ≡ done false
  unfolding log_match
  log_match-Contradicts v c = ground (arith, v.base, c.above, c.within, c.found, c.differs)

  refuse_entries-faults :
      Inv s → Contradicts m s → (t : Raft) × (refuse_entries m s ≡ failed out_of_range t)
  unfolding refuse_entries push
  refuse_entries-faults v c =
      let u = truncate_after m.prev_log_index s in
      let t = push (append_response m s false s.platform.unset) u in
      let k = truncate_after-SameBounds m.prev_log_index s in
      let cut = truncate_after-logs m.prev_log_index s v.contiguous c.above c.within in
      let past : get_term_at t m.prev_log_index ≡ failed out_of_range t =
        get_term_at-past t m.prev_log_index (omega (arith, k.last_included_index, v.base, c.above))
          (omega (arith, k.base_index, c.above)) (omega (arith, k.last_log_index, c.within))
          (omega (arith, cut, k.base_index)) in
      (t, rw past refl)

Inv-receiver : (m : AppendEntriesRequest) (s : Raft) → Inv s → Inv (receiver m s)
unfolding receiver
Inv-receiver m s v =
    if_lem Inv (ltb s.term m.term) _ _ (λ _. become_follower-Inv m.from m.term s v) (λ _. v)

module _ {s t : Raft} (k : SameEntries s t) where
  Contradicts-SameEntries : {m : AppendEntriesRequest} → Contradicts m s → Contradicts m t
  unfolding get_term_at
  Contradicts-SameEntries c = record {
    above = omega (arith, k.base_index, c.above);
    within = omega (arith, k.last_log_index, c.within);
    found_term = c.found_term;
    found = ground (arith, k, c.found);
    differs = c.differs;
  }

  log_match-SameEntries :
      (i : LogIndex) (x : TermId) → log_match s i x ≡ done true → log_match t i x ≡ done true
  unfolding log_match get_term_at
  log_match-SameEntries i x h = ground (arith, k, h)

module _ (m : AppendEntriesRequest) (s : Raft) where
  match_entries-refuses :
      log_match s m.prev_log_index m.prev_log_term ≡ done false
      → match_entries m s ≡ refuse_entries m s
  unfolding match_entries
  match_entries-refuses h = rw h refl

  match_entries-accepts :
      log_match s m.prev_log_index m.prev_log_term ≡ done true
      → match_entries m s ≡ accept_entries m s
  unfolding match_entries
  match_entries-accepts h = rw h refl

-- On a whole log, a request of the node's term or a later one, whose index before the entries is
-- in the log with another term, is a fault: the term at that index is read after the log is cut
-- before it, and the exception `out_of_range` ends the process.
pub conflict_faults :
    (m : AppendEntriesRequest) (s : Raft)
    → Inv s
    → s.term ≤ m.term
    → Contradicts m s
    → (t : Raft) × (handle_append_entries_request m s ≡ failed out_of_range t)
conflict_faults m s v h c =
    let r = receiver m s in
    let w = Inv-receiver m s v in
    let d = Contradicts-SameEntries (receiver-SameEntries m s) c in
    let (t, e) = refuse_entries-faults m r w d in
    (t, handle-receiver m s h ∙ match_entries-refuses m r (log_match-Contradicts m r w d) ∙ e)

-- The log with the entries at its end, and its last index with it.
pub record Grown (es : List RaftLogEntry) (s t : Raft) : Type 0 where
  pub logs : t.logs ≡ s.logs ++ es
  pub base_index : t.base_index ≡ s.base_index
  pub last_log_index : t.last_log_index ≡ s.last_log_index + length es

Grown-SameEntries :
    {es : List RaftLogEntry} {s t u : Raft} → Grown es s t → SameEntries t u → Grown es s u
Grown-SameEntries g k = record {
  logs = k.logs ∙ g.logs;
  base_index = k.base_index ∙ g.base_index;
  last_log_index = k.last_log_index ∙ g.last_log_index;
}

SameEntries-Grown :
    {es : List RaftLogEntry} {s t u : Raft} → SameEntries s t → Grown es t u → Grown es s u
SameEntries-Grown {es} k g = record {
  logs = g.logs ∙ ap (λ xs. xs ++ es) k.logs;
  base_index = g.base_index ∙ k.base_index;
  last_log_index = g.last_log_index ∙ ap (λ n. n + length es) k.last_log_index;
}

store_entries-Grown : (es : List RaftLogEntry) (s : Raft) → Inv s → Grown es s (store_entries es s)
unfolding store_entries persist
store_entries-Grown [] s v = record {
  logs = sym (append-nil s.logs);
  base_index = refl;
  last_log_index = omega arith;
}
store_entries-Grown (e ∷ es) s v = record {
  logs = refl;
  base_index = refl;
  last_log_index = omega (arith, length-append s.logs (e ∷ es), v.contiguous.span);
}

advance_commit-SameEntries : (i : LogIndex) (s : Raft) → SameEntries s (final (advance_commit i s))
unfolding advance_commit
advance_commit-SameEntries i s =
    let t = record s { last_commit_index = min i s.last_log_index } in
    let k = apply_commit_logs-Keeps t in
    final-if (SameEntries s) (ltb s.last_commit_index i) (apply_commit_logs t) (done s)
      (λ _. record {
        logs = k.logs;
        base_index = k.base_index;
        last_log_index = k.last_log_index;
        last_included_index = k.last_included_index;
        last_included_term = k.last_included_term;
      })
      (λ _. ground arith)

accept_entries-Grown :
    (m : AppendEntriesRequest) (s : Raft) → Inv s → Grown m.entries s (final (accept_entries m s))
unfolding accept_entries reset_election_deadline push
accept_entries-Grown m s v =
    let t = reset_election_deadline s in
    let w : Inv t = Inv-of_fields t refl refl refl refl refl refl v.ranked v in
    let same : SameEntries s t = ground arith in
    let u = store_entries m.entries t in
    let grown = SameEntries-Grown same (store_entries-Grown m.entries t w) in
    final-bind (Grown m.entries s) (advance_commit m.leader_commit u) _
      (Grown-SameEntries grown (advance_commit-SameEntries m.leader_commit u))
      λ x e g. record {
        logs = g.logs;
        base_index = g.base_index;
        last_log_index = g.last_log_index;
      }

-- On a whole log, a request of the node's term or a later one, whose index before the entries
-- matches, returns, and its entries stand at the end of the log, whatever that index is: also
-- where the log goes on after it, with the same entries or with others.
pub accepted_at_end :
    (m : AppendEntriesRequest) (s : Raft)
    → Inv s
    → s.term ≤ m.term
    → log_match s m.prev_log_index m.prev_log_term ≡ done true
    → (t : Raft) × (handle_append_entries_request m s ≡ done t) × Inv t × Grown m.entries s t
accepted_at_end m s v h matched =
    let r = receiver m s in
    let k = receiver-SameEntries m s in
    let w = Inv-receiver m s v in
    let (t, e, x) = returns_of_Good (accept_entries m r) (accept_entries-Good m r w) in
    let grown = subst (λ o. Grown m.entries r (final o)) e (accept_entries-Grown m r w) in
    let accepts =
      match_entries-accepts m r
        (log_match-SameEntries k m.prev_log_index m.prev_log_term matched) in
    (t, handle-receiver m s h ∙ accepts ∙ e, x, SameEntries-Grown k grown)
