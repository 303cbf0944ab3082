-- ===== src/Raft/Types.antt =====
-- raftkv/raft-core/include/RaftCommon.h, RaftLogEntry.h, RaftPeer.h and RaftPeer.cpp.
use ww_raft_kv.Prelude.{
  ℕ, ◌^◌, String, ℤ, negsuc, eq_ℤ, List, [], ◌∷◌, Option, none, some, if◌then◌else◌,
}

-- `LogIndex` is an `int`; the indexes of the program are not negative.
abbrev pub LogIndex : Type 0
LogIndex = ℕ

abbrev pub NodeId : Type 0
NodeId = ℤ

-- `TermId` is a `std::size_t`.
abbrev pub TermId : Type 0
TermId = ℕ

abbrev pub term_mod : ℕ
term_mod = 2 ^ 64

abbrev pub SequenceType : Type 0
SequenceType = ℕ

-- The id that stands for no node.
abbrev pub no_node : NodeId
no_node = negsuc 0

pub record RaftLogEntry : Type 0 where
  pub uuid : String
  pub sequence_id : SequenceType
  pub term : TermId
  pub command : String

pub record RaftPeer : Type 0 where
  pub id : NodeId
  pub next_index : LogIndex
  pub match_index : LogIndex

unfoldable pub new_peer : NodeId → RaftPeer
new_peer id = record { id = id; next_index = 1; match_index = 0 }

unfoldable pub set_next_index : LogIndex → RaftPeer → RaftPeer
set_next_index i p = record p { next_index = i }

unfoldable pub set_match_index : LogIndex → RaftPeer → RaftPeer
set_match_index i p = record p { match_index = i }

-- The search for the peer with an id: the first one, as the loops over `_Peers` take it.
unfoldable pub find_peer : NodeId → List RaftPeer → Option RaftPeer
find_peer id [] = none
find_peer id (p ∷ ps) = if eq_ℤ p.id id then some p else find_peer id ps

-- What is written through the reference that the search found.
unfoldable pub update_peer : NodeId → (RaftPeer → RaftPeer) → List RaftPeer → List RaftPeer
update_peer id f [] = []
update_peer id f (p ∷ ps) = if eq_ℤ p.id id then f p ∷ ps else p ∷ update_peer id f ps
