-- ===== src/Rpc/Serialization.antt =====
-- raftkv/raft-rpc/src/RaftRpcSerialization.cpp: the message of a call or a response as bytes.
use ww_raft_kv.Prelude.{
  List, Option, String, eq→==, if◌then◌else◌, length, none, refl, some, ℕ, ◌%◌, ◌==◌, ◌^◌, ◌≡◌,
}
use ww_raft_kv.Rpc.Crc32.{crc32}
use ww_raft_kv.SkipList.Types.{◌>>=◌}

-- raftkv/raft-rpc/proto/RaftRpcData.proto.
pub record RaftRpcData : Type 0 where
  pub service_name : String
  pub method_name : String
  pub sequence_id : ℕ
  pub payload_size : ℕ
  pub payload_checksum : ℕ
  pub payload : List ℕ

-- A method of a service, as its descriptor names it.
pub record MethodDescriptor : Type 0 where
  pub service : String
  pub name : String

-- What protobuf does: messages to bytes and back, where it can.
pub record Protobuf {ℓ} (M : Type ℓ) : Type ℓ where
  pub encode : M → Option (List ℕ)
  pub decode_request : MethodDescriptor → List ℕ → Option M
  pub decode_response : MethodDescriptor → List ℕ → Option M
  pub encode_data : RaftRpcData → Option (List ℕ)
  pub decode_data : List ℕ → Option RaftRpcData

-- The results that `deserialize` gives by reference.
pub record Packet : Type 0 where
  pub service_name : String
  pub method_name : String
  pub sequence_id : ℕ
  pub payload : List ℕ

module _ {ℓ} {M : Type ℓ} (protobuf : Protobuf M) where
  unfoldable pub data_of : String → String → ℕ → List ℕ → RaftRpcData
  data_of service method sequence args = record {
    service_name = service;
    method_name = method;
    sequence_id = sequence;
    payload_size = length args % 2 ^ 32;
    payload_checksum = crc32 args;
    payload = args;
  }

  unfoldable pub serialize : String → String → ℕ → M → Option (List ℕ)
  serialize service method sequence message = do
    args ← protobuf.encode message
    protobuf.encode_data (data_of service method sequence args)

  unfoldable pub checked : RaftRpcData → Option Packet
  checked rpc_data =
      if crc32 rpc_data.payload == rpc_data.payload_checksum
      then some (record {
        service_name = rpc_data.service_name;
        method_name = rpc_data.method_name;
        sequence_id = rpc_data.sequence_id;
        payload = rpc_data.payload;
      })
      else none

  unfoldable pub deserialize : List ℕ → Option Packet
  deserialize bytes = do rpc_data ← protobuf.decode_data bytes; checked rpc_data

  -- What was serialized is read back, when protobuf reads back what it wrote.
  pub deserialize-serialize :
      (service method : String) (sequence : ℕ) (message : M) (args bytes : List ℕ)
      → ((d : RaftRpcData) (b : List ℕ)
          → protobuf.encode_data d ≡ some b
          → protobuf.decode_data b ≡ some d)
      → protobuf.encode message ≡ some args
      → serialize service method sequence message ≡ some bytes
      → deserialize bytes
        ≡ some (record {
          service_name = service;
          method_name = method;
          sequence_id = sequence;
          payload = args;
        })
  unfolding serialize deserialize checked data_of
  deserialize-serialize service method sequence message args bytes back e h =
      rw (back (data_of service method sequence args) bytes (rw e at h))
        (rw (eq→== (crc32 args) (crc32 args) refl) refl)
