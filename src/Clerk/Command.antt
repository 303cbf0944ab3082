-- ===== src/Clerk/Command.antt =====
-- raftkv/raft-app/src/RaftClerk.cpp, `_ApplyCommitLogs`: the command of a log entry, read and
-- applied to the store.
pub mod Arguments
pub mod Effect
pub mod RoundTrip
use ww_raft_kv.Clerk.Text.{extract, text_params}
use ww_raft_kv.Prelude.{Bool, Option, String, if◌then◌else◌, not, some, ℕ, ◌&&◌}
use ww_raft_kv.Raft.State.{done}
use text.Mathlib.Text.{◌==◌ as str_eq}
use ww_raft_kv.KvStore
use ww_raft_kv.SkipList.Types.{SkipList, ◌>>=◌}

-- raftkv/raft-rpc/proto/KVOperation.proto.
pub data StatusCode : Type 0 where
  default success created redirect bad_request not_found internal_error : StatusCode

abbrev pub Store : Type 0
Store = SkipList String String

unfoldable pub status_of : Bool → StatusCode
status_of changed = if changed then created else internal_error

module _ (rand : ℕ → ℕ) where
  unfoldable pub apply_put : String → Store → Option (StatusCode × Store)
  unfolding status_of
  apply_put args kv =
      let key = extract args in
      let value = extract key.1 in
      if not (str_eq key.0 "") && not (str_eq value.0 "")
      then (do r ← KvStore.put (text_params rand) key.0 value.0 kv; some (status_of r.0, r.1))
      else some (default, kv)

  unfoldable pub apply_update : String → Store → Option (StatusCode × Store)
  unfolding status_of
  apply_update args kv =
      let key = extract args in
      let value = extract key.1 in
      if not (str_eq key.0 "") && not (str_eq value.0 "")
      then (do r ← KvStore.update (text_params rand) key.0 value.0 kv; some (status_of r.0, r.1))
      else some (default, kv)

  unfoldable pub apply_delete : String → Store → Option (StatusCode × Store)
  unfolding status_of
  apply_delete args kv =
      let key = extract args in
      if not (str_eq key.0 "")
      then (do r ← KvStore.remove (text_params rand) key.0 kv; some (status_of r.0, r.1))
      else some (default, kv)

  -- What an operation leaves is the status for its client, which stays the default where the
  -- command is not understood.
  unfoldable pub apply_command : String → Store → Option (StatusCode × Store)
  unfolding apply_put apply_update apply_delete
  apply_command command kv =
      let op = extract command in
      if str_eq op.0 "put"
      then apply_put op.1 kv
      else if str_eq op.0 "update"
      then apply_update op.1 kv
      else if str_eq op.0 "delete"
      then apply_delete op.1 kv
      else some (default, kv)
