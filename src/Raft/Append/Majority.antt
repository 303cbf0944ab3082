-- ===== src/Raft/Append/Majority.antt =====
-- raftkv/raft-core/src/Raft.cpp, `_HandleAppendEntriesResponse`: which index a leader commits.
use ww_raft_kv.Prelude.{
  Bool-cases, List, Option, [], ap, arith, eq_ℤ, eq_ℤ→eq, if◌then◌else◌, inl, inr, leb, length,
  length-map, ltb, map, none, not, refl, some, subst, sym, ℕ, ◌*◌, ◌+◌, ◌/◌, ◌<◌, ◌==◌, ◌∙◌, ◌∷◌,
  ◌≡◌, ◌≢◌, ◌≤◌, ◌⊎◌,
}
use ww_raft_kv.Raft.Append.{
  acknowledge, commit_at, commit_majority, found_peer, handle_append_entries_response,
  majority_match, match_index_of, peer_answered,
}
use ww_raft_kv.Raft.Append.Sorting.{count_ge, count_ge-middle}
use ww_raft_kv.Raft.Commit.{apply_commit_logs, check_if_need_snapshot}
use ww_raft_kv.Raft.Commit.Keep.{apply_commit_logs-Keeps, check_if_need_snapshot-Keeps}
use ww_raft_kv.Raft.Frame.{Keeps, Keeps-trans, final, final-bind, final-bind_reads, final-if}
use ww_raft_kv.Raft.Log.{get_term_at}
use ww_raft_kv.Raft.Log.Reading.{get_term_at-Reads}
use ww_raft_kv.Raft.Message.{AppendEntriesResponse}
use ww_raft_kv.Raft.Role.{become_follower}
use ww_raft_kv.Raft.State.{Raft, done}
use ww_raft_kv.Raft.Types.{LogIndex, NodeId, RaftPeer, TermId, find_peer, update_peer}
use ww_raft_kv.Raft.Vote.{is_leader}

-- The nodes that count for an index in the leader's own table: the leader itself, when its log
-- reaches the index, and the other peers whose last acknowledgement does.
unfoldable pub acknowledgers : LogIndex → NodeId → LogIndex → List RaftPeer → ℕ
acknowledgers i id last_log_index [] = if leb i last_log_index then 1 else 0
acknowledgers i id last_log_index (p ∷ ps) =
    (if eq_ℤ p.id id then 0 else if leb i p.match_index then 1 else 0)
    + acknowledgers i id last_log_index ps

-- A node does not acknowledge to itself.
abbrev pub OwnZero : NodeId → List RaftPeer → Type 0
OwnZero id [] = Unit
OwnZero id (p ∷ ps) = (p.id ≡ id → p.match_index ≡ 0) × OwnZero id ps

acknowledgers-count :
    (i : LogIndex) (id : NodeId) (last : LogIndex) (ps : List RaftPeer)
    → 0 < i
    → OwnZero id ps
    → acknowledgers i id last ps ≡ count_ge i (last ∷ map match_index_of ps)
unfolding acknowledgers count_ge match_index_of
acknowledgers-count i id last [] h o = ground arith
acknowledgers-count i id last (p ∷ ps) h o =
    ground (arith, acknowledgers-count i id last ps h o.1, eq_ℤ→eq p.id id, o.0)

abbrev match_list : Raft → List LogIndex
match_list s = s.last_log_index ∷ map match_index_of s.peers

majority_match-middle :
    (s : Raft)
    → length (match_list s) ≤ count_ge (majority_match s) (match_list s) + length (match_list s) / 2
unfolding majority_match
majority_match-middle s = count_ge-middle (match_list s)

-- More than half of the nodes count for the index that a leader takes, if it is not 0, where the
-- leader has no acknowledgement of its own.
pub majority_match-acknowledgers :
    (s : Raft)
    → OwnZero s.id s.peers
    → 0 < majority_match s
    → length s.peers < 2 * acknowledgers (majority_match s) s.id s.last_log_index s.peers
majority_match-acknowledgers s own h = omega (
  arith,
  majority_match-middle s,
  acknowledgers-count (majority_match s) s.id s.last_log_index s.peers h own,
  length-map match_index_of s.peers,
)

-- An index of an entry of the node's own term, for which more than half of the nodes count.
pub record IsMajority (i : LogIndex) (s : Raft) : Type 0 where
  pub half : length s.peers < 2 * acknowledgers i s.id s.last_log_index s.peers
  pub own_term : get_term_at s i ≡ done s.term

-- The fields that `IsMajority` reads.
record SameLog (s t : Raft) : Type 0 where
  id : t.id ≡ s.id
  term : t.term ≡ s.term
  logs : t.logs ≡ s.logs
  base_index : t.base_index ≡ s.base_index
  last_log_index : t.last_log_index ≡ s.last_log_index
  last_included_index : t.last_included_index ≡ s.last_included_index
  last_included_term : t.last_included_term ≡ s.last_included_term
  peers : t.peers ≡ s.peers

Keeps-SameLog : {s t : Raft} → Keeps s t → SameLog s t
Keeps-SameLog k = ground arith

get_term_at-SameLog :
    {s t : Raft} (i : LogIndex) {x : TermId}
    → SameLog s t
    → get_term_at s i ≡ done x
    → get_term_at t i ≡ done x
unfolding get_term_at
get_term_at-SameLog i k h = ground arith

IsMajority-SameLog : {s t : Raft} (i : LogIndex) → SameLog s t → IsMajority i s → IsMajority i t
IsMajority-SameLog {s} {t} i k h = record {
  half = rw (k.peers, k.id, k.last_log_index) h.half;
  own_term = get_term_at-SameLog i k h.own_term ∙ ap done (sym k.term);
}

update_peer-OwnZero :
    (id from : NodeId) (i : LogIndex) (ps : List RaftPeer)
    → from ≢ id
    → OwnZero id ps
    → OwnZero id (update_peer from (acknowledge i) ps)
unfolding update_peer acknowledge
update_peer-OwnZero id from i [] h o = tt
update_peer-OwnZero id from i (p ∷ ps) h o = elim (Bool-cases (eq_ℤ p.id from)) [
  | inl e ↦ rw e ((λ x. absurd (h (sym (eq_ℤ→eq _ _ e) ∙ x))), o.1)
  | inr e ↦ rw e (o.0, update_peer-OwnZero id from i ps h o.1)
]

-- What may become of the commit index.
abbrev Commits : LogIndex → Raft → Type 0
Commits old u =
    (u.last_commit_index ≡ old) ⊎ (0 < u.last_commit_index → IsMajority u.last_commit_index u)

commit_at-Keeps :
    (i : LogIndex) (s : Raft) → Keeps (record s { last_commit_index = i }) (final (commit_at i s))
unfolding commit_at
commit_at-Keeps i s =
    let t = record s { last_commit_index = i } in
    final-bind (Keeps t) (apply_commit_logs t) check_if_need_snapshot (apply_commit_logs-Keeps t)
      λ u e h. Keeps-trans h (check_if_need_snapshot-Keeps u)

commit_at-Commits :
    (old i : LogIndex) (s : Raft) → (0 < i → IsMajority i s) → Commits old (final (commit_at i s))
commit_at-Commits old i s h =
    let t = record s { last_commit_index = i } in
    let u = final (commit_at i s) in
    let k = commit_at-Keeps i s in
    let same : SameLog s t = ground arith in
    inr λ positive.
      subst (λ j. IsMajority j u) (sym k.last_commit_index)
        (IsMajority-SameLog i (Keeps-SameLog k)
          (IsMajority-SameLog i same (h (omega (arith, positive, k.last_commit_index)))))

commit_majority-Commits :
    (s : Raft) → OwnZero s.id s.peers → Commits s.last_commit_index (final (commit_majority s))
unfolding commit_majority
commit_majority-Commits s own =
    final-bind_reads (Commits s.last_commit_index) s (get_term_at s (majority_match s))
      (λ term. if term == s.term then commit_at (majority_match s) s else done s)
      (get_term_at-Reads s (majority_match s)) (inl refl)
      λ term e.
        final-if (Commits s.last_commit_index) (term == s.term) (commit_at (majority_match s) s)
          (done s)
          (λ same. commit_at-Commits s.last_commit_index (majority_match s) s (λ positive. record {
            half = majority_match-acknowledgers s own positive;
            own_term = e ∙ ap done (ground arith);
          }))
          (λ _. inl refl)

found_peer-Commits :
    (m : AppendEntriesResponse) (s : Raft) (o : Option RaftPeer)
    → OwnZero s.id s.peers
    → m.from ≢ s.id
    → Commits s.last_commit_index (final (found_peer m s o))
unfolding found_peer peer_answered
found_peer-Commits m s none own h = inl refl
found_peer-Commits m s (some p) own h =
    let t = record s { peers = update_peer m.from (acknowledge m.last_log_index) s.peers } in
    final-if (Commits s.last_commit_index) (not m.success) _ (commit_majority t) (λ _. inl refl)
      (λ _.
        commit_majority-Commits t (update_peer-OwnZero s.id m.from m.last_log_index s.peers h own))

-- The state after an answer.
abbrev pub answered : AppendEntriesResponse → Raft → Raft
answered m s = final (handle_append_entries_response m s)

-- When an answer of another node changes the commit index of a node without an acknowledgement of
-- its own, the new index, if it is not 0, has an entry of the node's term, and more than half of
-- the nodes count for it in the node's table of acknowledgements: the node itself by its own log,
-- and each peer by the index that it last acknowledged. What the logs of the peers hold at these
-- indexes is not said.
pub answered-IsMajority :
    (m : AppendEntriesResponse) (s : Raft)
    → OwnZero s.id s.peers
    → m.from ≢ s.id
    → (answered m s).last_commit_index ≢ s.last_commit_index
    → 0 < (answered m s).last_commit_index
    → IsMajority (answered m s).last_commit_index (answered m s)
unfolding handle_append_entries_response become_follower
answered-IsMajority m s own other moved positive =
    let changes : Commits s.last_commit_index (final (handle_append_entries_response m s)) =
      final-if (Commits s.last_commit_index) (not (is_leader s.role)) _ _ (λ _. inl refl)
        λ _.
          final-if (Commits s.last_commit_index) (ltb s.term m.term) _ _ (λ _. inl refl)
            λ _. found_peer-Commits m s (find_peer m.from s.peers) own other in
    elim changes [ inl e ↦ absurd (moved e) | inr f ↦ f positive ]
