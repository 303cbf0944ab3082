-- ===== src/Clerk/Wire.antt =====
-- raftkv/raft-app/src/RaftClerk.cpp: a request on its way from one node to another.
use ww_raft_kv.Clerk.Apply.{step_raft}
use ww_raft_kv.Clerk.Receive.{
  handle_append_entries_request, int_of, received_entry, register, term_of_int,
}
use ww_raft_kv.Clerk.Send.{call, client_at, proto_entry, send_append_entries_request}
use ww_raft_kv.Clerk.State.{
  Closure, ProtoAppendEntriesRequest, RaftClerk, RaftPeerNet, call_append_entries,
}
use ww_raft_kv.Prelude.{
  List, [], ap, arith, map, refl, some, subst, ℕ, ◌-◌, ◌<◌, ◌^◌, ◌∷◌, ◌≡◌, ◌≢◌, ◌≤◌,
}
use ww_raft_kv.Raft.Message.{AppendEntriesRequest, RaftMessage, append_entries_request}
use ww_raft_kv.Raft.Types.{RaftLogEntry, TermId}

-- A term that an `int` holds comes through.
pub term_of_int_small : (t : ℕ) → t < 2 ^ 31 → term_of_int (int_of t) ≡ t
unfolding term_of_int int_of
term_of_int_small t h = ground arith

term_of_int_large : (t : ℕ) → 2 ^ 31 ≤ t → t < 2 ^ 64 - 2 ^ 31 → term_of_int (int_of t) ≢ t
unfolding term_of_int int_of
term_of_int_large t h k = ground arith

-- An entry without its client.
abbrev pub anonymous : RaftLogEntry → RaftLogEntry
anonymous e = record e { uuid = ""; sequence_id = 0 }

map-received-proto :
    (es : List RaftLogEntry) → map received_entry (map proto_entry es) ≡ map anonymous es
unfolding received_entry proto_entry
map-received-proto [] = refl
map-received-proto (e ∷ es) = ap (◌∷◌ (anonymous e)) (map-received-proto es)

-- The request that arrives for the one that was sent.
abbrev pub arrived : AppendEntriesRequest → Closure → RaftClerk → TermId → RaftMessage
arrived m done b prev_log_term = append_entries_request (record m {
  seq = done.sequence_id;
  to = b.raft.platform.unset_id;
  prev_log_term = prev_log_term;
  entries = map anonymous m.entries;
})

module _ (m : AppendEntriesRequest) (a b : RaftClerk) (done : Closure) (client : RaftPeerNet)
    (found : client_at m.to a.clients ≡ some client) where
  abbrev pub Carried : TermId → Type 0
  Carried prev_log_term =
      (q : ProtoAppendEntriesRequest) × (send_append_entries_request m a
        ≡ some (call (call_append_entries client m.to q) a))
      × (handle_append_entries_request q done b
          ≡ step_raft (arrived m done b prev_log_term) (register done b))

  carried : Carried (term_of_int (int_of m.prev_log_term))
  unfolding send_append_entries_request handle_append_entries_request
  carried = (
    _,
    rw found refl,
    ap
        (λ es.
          step_raft
            (append_entries_request (record m {
              seq = done.sequence_id;
              to = b.raft.platform.unset_id;
              prev_log_term = term_of_int (int_of m.prev_log_term);
              entries = es;
            }))
            (register done b))
        (map-received-proto m.entries),
  )

  -- The consensus layer of the other node gets the request for entries that was sent, each entry
  -- without its client, as long as the term of the entry before them is below 2 ^ 31.
  pub append_entries-Carried : m.prev_log_term < 2 ^ 31 → Carried m.prev_log_term
  append_entries-Carried h = subst Carried (term_of_int_small m.prev_log_term h) carried

  -- From 2 ^ 31 on, and up to 2 ^ 64 - 2 ^ 31, the other node compares its log with another term
  -- than the one that was sent.
  pub append_entries_truncated :
      2 ^ 31 ≤ m.prev_log_term
      → m.prev_log_term < 2 ^ 64 - 2 ^ 31
      → (t : TermId) × (t ≢ m.prev_log_term) × Carried t
  append_entries_truncated h k = (_, term_of_int_large m.prev_log_term h k, carried)
