-- ===== src/Raft/HistoryTests.antt =====
-- Short histories of a node.
use ww_raft_kv.Prelude.{Bool, [], arith, eq_ℤ, none, pos, refl, some, true, ◌∷◌, ◌≡◌, ◌≤◌}
use ww_raft_kv.Raft.Dispatch.{get_outter_message, handle_message, start, take_message}
use ww_raft_kv.Raft.Frame.{final}
use ww_raft_kv.Raft.History.{Reach, begin, here, message, next, receive}
use ww_raft_kv.Raft.Log.{log_up_to_date}
use ww_raft_kv.Raft.Message.{RaftMessage, request_vote_request}
use ww_raft_kv.Raft.Persist.{load_persist, new, persist}
use ww_raft_kv.Raft.Persist.Restart.{Restarted}
use ww_raft_kv.Raft.Role.{become_follower}
use ww_raft_kv.Raft.Safety.Histories.{leader_stays, term_monotone, vote_once}
use ww_raft_kv.Raft.Safety.Restarts.{crash_keeps_vote, load-Restarted}
use ww_raft_kv.Raft.State.{Raft, RaftPersistData, done, leader, pop, push, step}
use ww_raft_kv.Raft.Tests.{machine, machine-Readable, machine-Writes, node, three_peers}
use ww_raft_kv.Raft.Timer.{reset_election_deadline}
use ww_raft_kv.Raft.Types.{NodeId, TermId}
use ww_raft_kv.Raft.Vote.{cast_vote, handle_request_vote_request, vote_response}

abbrev asks : NodeId → TermId → RaftMessage
asks from term = request_vote_request (record {
  seq = 5;
  from = from;
  to = pos 1;
  term = term;
  last_log_index = 2;
  last_log_term = 3;
})

-- A node that is handed a message, and handles it.
abbrev handled : RaftMessage → Raft → Raft
handled m s = final (get_outter_message (step m s))

abbrev fresh : Raft
fresh = new (pos 1) three_peers machine none

abbrev voted : Raft
voted = handled (asks (pos 2) 4) (start fresh)

abbrev voting : Reach (start fresh) voted
unfolding handle_message handle_request_vote_request cast_vote become_follower
    reset_election_deadline persist push vote_response log_up_to_date new eq_ℤ step
    get_outter_message pop take_message start
voting = next (next here (receive (asks (pos 2) 4) refl)) (message refl refl)

term_monotone_example : (start fresh).term ≤ voted.term
unfolding handle_message handle_request_vote_request cast_vote become_follower
    reset_election_deadline persist push vote_response log_up_to_date new eq_ℤ step
    get_outter_message pop take_message start
term_monotone_example = term_monotone voting ((tt, omega arith), omega arith)

-- Another candidate of the same term comes second.
abbrev asked_again : Raft
asked_again = handled (asks (pos 3) 4) voted

abbrev asking_again : Reach voted asked_again
unfolding handle_message handle_request_vote_request cast_vote become_follower
    reset_election_deadline persist push vote_response log_up_to_date new eq_ℤ step
    get_outter_message pop take_message start
asking_again = next (next here (receive (asks (pos 3) 4) refl)) (message refl refl)

vote_once_example : asked_again.voted_for ≡ voted.voted_for
unfolding handle_message handle_request_vote_request cast_vote become_follower
    reset_election_deadline persist push vote_response log_up_to_date new eq_ℤ step
    get_outter_message pop take_message start
vote_once_example = vote_once asking_again ((tt, omega arith), omega arith) refl (λ e. cc) (λ e. cc)

abbrev led : Raft
led = handled (asks (pos 3) 3) (node leader)

abbrev leading : Reach (node leader) led
unfolding handle_message handle_request_vote_request cast_vote become_follower
    reset_election_deadline persist push vote_response log_up_to_date new eq_ℤ step
    get_outter_message pop take_message start
leading = next (next here (receive (asks (pos 3) 3) refl)) (message refl refl)

leader_stays_example : led.role ≡ leader
unfolding handle_message handle_request_vote_request cast_vote become_follower
    reset_election_deadline persist push vote_response log_up_to_date new eq_ℤ step
    get_outter_message pop take_message start
leader_stays_example = leader_stays leading ((tt, omega arith), omega arith) refl refl

abbrev about_to_vote : Raft
unfolding handle_message handle_request_vote_request cast_vote become_follower
    reset_election_deadline persist push vote_response log_up_to_date new eq_ℤ step
    get_outter_message pop take_message start
about_to_vote = step (asks (pos 2) 4) (start fresh)

abbrev living : Reach fresh about_to_vote
unfolding handle_message handle_request_vote_request cast_vote become_follower
    reset_election_deadline persist push vote_response log_up_to_date new eq_ℤ step
    get_outter_message pop take_message start
living = next (next here (begin refl)) (receive (asks (pos 2) 4) refl)

crash_keeps_vote_example :
    (b : Bool) × (t : Raft) × (load_persist
        (new (pos 1) three_peers machine (final (get_outter_message about_to_vote)).disk)
      ≡ done (b, t))
    × (t.term ≡ (final (get_outter_message about_to_vote)).term)
    × (t.voted_for ≡ (final (get_outter_message about_to_vote)).voted_for)
unfolding handle_message handle_request_vote_request cast_vote become_follower
    reset_election_deadline persist push vote_response log_up_to_date new eq_ℤ step
    get_outter_message pop take_message start
crash_keeps_vote_example =
    crash_keeps_vote (pos 1) three_peers machine machine machine-Writes machine-Readable living
      ((tt, omega arith), omega arith)

abbrev saved_file : RaftPersistData
saved_file = record {
  term = 4;
  voted_for = pos 2;
  entries =
      record { term = 3; command = "put a b" } ∷ record { term = 4; command = "delete a" } ∷ [];
  last_included_index = 6;
  last_included_term = 3;
}

load-Restarted_example :
    (t : Raft) × (load_persist (new (pos 1) three_peers machine (some saved_file)) ≡ done (true, t))
    × Restarted saved_file t
load-Restarted_example = load-Restarted (pos 1) three_peers machine saved_file machine-Readable
