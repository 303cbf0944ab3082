-- ===== src/Raft/Integrity/Entries.antt =====
-- The handler of a leader's entries.
use ww_raft_kv.Prelude.{
  Bool-cases, List, [], ap, arith, false, if◌then◌else◌, inl, inr, length-append, ltb, lt→ltb, min,
  refl, true, ◌<◌, ◌∙◌, ◌∷◌, ◌≡◌, ◌≤◌, ◌⊎◌,
}
use ww_raft_kv.Raft.Append.{
  accept_entries, advance_commit, append_response, handle_append_entries_request, match_entries,
  refuse_entries, store_entries,
}
use ww_raft_kv.Raft.Commit.{apply_commit_logs}
use ww_raft_kv.Raft.Frame.{if_lem}
use ww_raft_kv.Raft.Integrity.Invariant.{Good, Good-bind, Good-if, Good-reads, Inv, Inv-of_fields}
use ww_raft_kv.Raft.Integrity.Sending.{apply_commit_logs-Good}
use ww_raft_kv.Raft.Integrity.Votes.{become_follower-Inv}
use ww_raft_kv.Raft.Log.{get_term_at, log_match, truncate_after}
use ww_raft_kv.Raft.Log.Contiguous.{get_term_at-returns, log_match-returns}
use ww_raft_kv.Raft.Message.{AppendEntriesRequest}
use ww_raft_kv.Raft.Role.{become_follower}
use ww_raft_kv.Raft.State.{Raft, done, push}
use ww_raft_kv.Raft.Timer.{reset_election_deadline}
use ww_raft_kv.Raft.Types.{LogIndex, NodeId, RaftLogEntry, TermId}

-- A request that does not contradict an entry that the node has.
abbrev pub NoConflict : AppendEntriesRequest → Raft → Type 0
NoConflict m s =
    s.base_index ≤ m.prev_log_index
    → m.prev_log_index ≤ s.last_log_index
    → get_term_at s m.prev_log_index ≡ done m.prev_log_term

store_entries-Inv : (es : List RaftLogEntry) (s : Raft) → Inv s → Inv (store_entries es s)
unfolding store_entries
store_entries-Inv [] s v = v
store_entries-Inv (e ∷ es) s v =
    let grown = length-append s.logs (e ∷ es) in
    record {
      contiguous = record {
        base = v.contiguous.base;
        span = omega (arith, v.contiguous.base, grown);
      };
      base = v.base;
      applied_ge = v.applied_ge;
      applied_le = omega (arith, v.contiguous.span, v.applied_le, grown);
      commit_le = omega (arith, v.contiguous.span, v.commit_le, grown);
      ranked = v.ranked;
    }

advance_commit-Good : (i : LogIndex) (s : Raft) → Inv s → Good (advance_commit i s)
unfolding advance_commit
advance_commit-Good i s v =
    let t = record s { last_commit_index = min i s.last_log_index } in
    Good-if (ltb s.last_commit_index i) (apply_commit_logs t) (done s)
      (λ _. apply_commit_logs-Good t (record {
        contiguous = record { base = v.contiguous.base; span = v.contiguous.span };
        base = v.base;
        applied_ge = v.applied_ge;
        applied_le = v.applied_le;
        commit_le = omega arith;
        ranked = v.ranked;
      }))
      (λ _. v)

pub accept_entries-Good : (m : AppendEntriesRequest) (s : Raft) → Inv s → Good (accept_entries m s)
unfolding accept_entries
accept_entries-Good m s v =
    let t = reset_election_deadline s in
    let w : Inv t =
      unfold reset_election_deadline in Inv-of_fields t refl refl refl refl refl refl v.ranked v in
    let u = store_entries m.entries t in
    Good-bind (advance_commit m.leader_commit u)
      (λ x. done (push (append_response m x true x.last_log_index) x))
      (advance_commit-Good m.leader_commit u (store_entries-Inv m.entries t w))
      λ x e y. unfold push in Inv-of_fields _ refl refl refl refl refl refl y.ranked y

truncate_after_out :
    (i : LogIndex) (s : Raft) → (i < s.base_index) ⊎ (s.last_log_index < i) → truncate_after i s ≡ s
unfolding truncate_after
truncate_after_out i s (inl h) = rw (lt→ltb _ _ h)
truncate_after_out i s (inr h) = elim (Bool-cases (ltb i s.base_index)) [
  | inl e ↦ rw e
  | inr e ↦ rw (e, lt→ltb _ _ h)
]

mismatch_out :
    (m : AppendEntriesRequest) (s : Raft)
    → Inv s
    → NoConflict m s
    → log_match s m.prev_log_index m.prev_log_term ≡ done false
    → (m.prev_log_index < s.base_index) ⊎ (s.last_log_index < m.prev_log_index)
unfolding log_match
mismatch_out m s v agree miss = ground (arith, agree, v.base)

refuse_entries-Good :
    (m : AppendEntriesRequest) (s : Raft)
    → Inv s
    → truncate_after m.prev_log_index s ≡ s
    → Good (refuse_entries m s)
unfolding refuse_entries push
refuse_entries-Good m s v same = rw same (
    Good-reads (get_term_at _ m.prev_log_index) _
      (get_term_at-returns _ (record { base = v.contiguous.base; span = v.contiguous.span })
        m.prev_log_index)
      λ _ _. Inv-of_fields _ refl refl refl refl refl refl v.ranked v)

match_entries-Good :
    (m : AppendEntriesRequest) (s : Raft) → Inv s → NoConflict m s → Good (match_entries m s)
unfolding match_entries
match_entries-Good m s v agree =
    Good-reads (log_match s m.prev_log_index m.prev_log_term)
      (λ matched. if matched then accept_entries m s else refuse_entries m s)
      (log_match-returns s v.contiguous m.prev_log_index m.prev_log_term)
      λ matched e.
        Good-if matched (accept_entries m s) (refuse_entries m s) (λ _. accept_entries-Good m s v)
          λ no_match. refuse_entries-Good m s v (
            truncate_after_out m.prev_log_index s (mismatch_out m s v agree (e ∙ ap done no_match)))

NoConflict-follower :
    (m : AppendEntriesRequest) (id : NodeId) (term : TermId) (s : Raft)
    → NoConflict m s
    → NoConflict m (become_follower id term s)
unfolding become_follower get_term_at
NoConflict-follower m id term s agree h k = ground (arith, agree h k)

pub append_entries_request-Good :
    (m : AppendEntriesRequest) (s : Raft)
    → Inv s
    → NoConflict m s
    → Good (handle_append_entries_request m s)
unfolding handle_append_entries_request
append_entries_request-Good m s v agree =
    Good-if (ltb m.term s.term) _ _
      (λ _. unfold push in Inv-of_fields _ refl refl refl refl refl refl v.ranked v)
      λ _.
        if_lem (λ t. Good (match_entries m t)) (ltb s.term m.term) _ _
          (λ _.
            match_entries-Good m _ (become_follower-Inv m.from m.term s v)
              (NoConflict-follower m m.from m.term s agree))
          (λ _. match_entries-Good m s v agree)
