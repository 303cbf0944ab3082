-- ===== src/Clerk/Fixtures.antt =====
-- A node with three peers, on a concrete host, for the tests of raftkv/raft-app.
use mathlib.Core.Logic.{ite}
use text.Mathlib.Text.{◌==◌ as str_eq}
use text.Mathlib.TextEquality.{eq_iff}
use ww_raft_kv.Clerk.Command.{Store}
use ww_raft_kv.Clerk.Command.Effect.{content}
use ww_raft_kv.Clerk.Dispatch.{max_level}
use ww_raft_kv.Clerk.State.{Closure, Host, Method, RaftClerk, RaftPeerNet, RaftSnapshotData}
use ww_raft_kv.Clerk.Text.{text_params}
use ww_raft_kv.Clerk.Text.Order.{text_params-IsOrder}
use ww_raft_kv.KvStore.Map.{added, is_none, new-Shape, put_lem}
use ww_raft_kv.Prelude.{
  Bool-cases, List, String, [], if◌then◌else◌, inl, inr, map, none, pos, some, sym, true,
  true-false, ℕ, ◌-◌, ◌∙◌, ◌∷◌, ◌≡◌,
}
use ww_raft_kv.Raft.Message.{OperationType}
use ww_raft_kv.Raft.State.{Platform}
use ww_raft_kv.Raft.Types.{no_node}
use ww_raft_kv.SkipList.Change.{new}
use ww_raft_kv.SkipList.Shape.{Entry, Shape}
use ww_raft_kv.SkipList.Types.{Params}
use ww_raft_kv.SkipList.Visited.{pair_of}
use ww_raft_kv.KvStore
use ww_raft_kv.Raft.Persist

text_discrete : Discrete String
text_discrete s t = elim (Bool-cases (str_eq s t)) [
  | inl e ↦ yes ((eq_iff s t).0 e)
  | inr e ↦ no (λ p. true-false (sym ((eq_iff s t).1 p) ∙ e))
]

pub pairs_discrete : Discrete RaftSnapshotData
pairs_discrete = hlevel text_discrete

abbrev pub count_up : ℕ → ℕ
count_up n = n

abbrev pub texts : Params String String
texts = text_params count_up

-- A store with one key.
abbrev pub one_key :
    (t : Store) × (fs : List (Entry String String)) × (KvStore.put texts "a" "1"
        (new texts (max_level - 1))
      ≡ some (is_none (content count_up [] "a"), t))
    × Shape texts t fs
    × ((k : String) → content count_up fs k ≡ added texts (content count_up []) "a" "1" k)
one_key = put_lem texts (text_params-IsOrder count_up) (new-Shape texts (max_level - 1)) "a" "1"

-- A host that codes the pairs of that store, and no others.
abbrev pub host : Host
host = record {
  serialize = λ pairs. ite (pairs_discrete pairs (map pair_of one_key.1)) (some "one") none;
  parse = λ text. if str_eq text "one" then some (map pair_of one_key.1) else none;
  opens = λ n. true;
  rand = count_up;
}

abbrev pub platform : Platform
platform = record {
  now = λ n. n;
  draw = λ n low high. low;
  serializes = λ n. true;
  opens = λ n. true;
  parses = λ n. true;
  unset = 0;
  unset_id = no_node;
  unset_op = OperationType.get;
}

abbrev pub peer : ℕ → RaftPeerNet
peer n = record { id = pos n; ip = "10.0.0.1"; port = "4396"; kv_port = "4397" }

abbrev pub peers : List RaftPeerNet
peers = peer 0 ∷ peer 1 ∷ peer 2 ∷ []

-- A node that has just started, and one with a key in its store.
abbrev pub fresh_node : RaftClerk
fresh_node = record {
  raft = Persist.new (pos 0) [] platform none;
  peers = peers;
  kv_store = new texts (max_level - 1);
  clients = none ∷ some (peer 1) ∷ some (peer 2) ∷ [];
  running = true;
  pending_requests = [];
  pending_kv_requests = [];
  calls = [];
  replies = [];
  file = none;
  opened = 0;
  host = host;
}

abbrev pub full_node : RaftClerk
full_node = record fresh_node { kv_store = one_key.0 }

abbrev pub closure : Method → ℕ → ℕ → Closure
closure method n connection = record { sequence_id = n; method = method; connection = connection }
