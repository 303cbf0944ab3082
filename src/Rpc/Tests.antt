-- ===== src/Rpc/Tests.antt =====
-- A channel and a dispatcher, on a concrete coding of messages.
use text.Mathlib.Text.{◌==◌ as str_eq}
use text.Mathlib.TextEquality.{eq_iff}
use ww_raft_kv.Prelude.{
  Bool, List, Option, [], ap, arith, false, if◌then◌else◌, ltb, none, none-some, refl, some, sym,
  take, true, ℕ, ◌&&◌, ◌++◌, ◌+◌, ◌==◌, ◌∙◌, ◌∷◌, ◌≡◌, ◌≤◌,
}
use ww_raft_kv.Rpc.Buffer.{left, on_buffer}
use ww_raft_kv.Rpc.Bytes.{be32, be64, le32, le64, word}
use ww_raft_kv.Rpc.Calls.{History, called, created, turned}
use ww_raft_kv.Rpc.Channel.{
  RaftRpcChannel, answered, call_method, channel, complete, failed, launch, not_connected,
  on_connection, on_message, ran, returned, run_once, transmit, undefined,
}
use ww_raft_kv.Rpc.Closing.{calls_end, runs, unparsed}
use ww_raft_kv.Rpc.Count.{issued, mark, waiting}
use ww_raft_kv.Rpc.Crc32.{crc32, rounds, run, table}
use ww_raft_kv.Rpc.Delivery.{call_to}
use ww_raft_kv.Rpc.Dispatcher.{
  ServiceMap, accept, call_of, method_map, register_service, response_bytes,
}
use ww_raft_kv.Rpc.Exchange.{exchange}
use ww_raft_kv.Rpc.Guard.{Guarded, armed}
use ww_raft_kv.Rpc.Header.{
  calculate_header_checksum, frame, judge, magic_number, overrun, read_frame, read_header,
  wrong_checksum, wrong_magic,
}
use ww_raft_kv.Rpc.Pending.{total}
use ww_raft_kv.Rpc.Serialization.{
  MethodDescriptor, Packet, Protobuf, RaftRpcData, checked, data_of, deserialize, serialize,
}
use ww_raft_kv.Rpc.Stream.{Fits, handle_all, on_buffer-stream, stream}
use ww_raft_kv.Rpc.Dispatcher
use ww_raft_kv.Table

abbrev request_vote : MethodDescriptor
request_vote = record { service = "RaftService"; name = "RequestVote" }

-- Messages are numbers, of one byte. Only calls of one method have a coding.
abbrev encode_byte : ℕ → Option (List ℕ)
encode_byte n = if ltb n 256 then some (n ∷ []) else none

abbrev decode_byte : List ℕ → Option ℕ
decode_byte (n ∷ []) = some n
decode_byte _ = none

abbrev encode_fields : RaftRpcData → Option (List ℕ)
encode_fields d =
    if str_eq d.service_name "RaftService" && str_eq d.method_name "RequestVote"
    then some (d.sequence_id ∷ d.payload_size ∷ d.payload_checksum ∷ d.payload)
    else none

abbrev decode_fields : List ℕ → Option RaftRpcData
decode_fields (sequence ∷ size ∷ checksum ∷ payload) = some (record {
  service_name = "RaftService";
  method_name = "RequestVote";
  sequence_id = sequence;
  payload_size = size;
  payload_checksum = checksum;
  payload = payload;
})
decode_fields _ = none

abbrev bytes_of : Protobuf ℕ
bytes_of = record {
  encode = encode_byte;
  decode_request = λ method. decode_byte;
  decode_response = λ method. decode_byte;
  encode_data = encode_fields;
  decode_data = decode_fields;
}

same_fields :
    (d : RaftRpcData) (s m : Bool) (b : List ℕ)
    → str_eq d.service_name "RaftService" ≡ s
    → str_eq d.method_name "RequestVote" ≡ m
    → (if s && m
        then some (d.sequence_id ∷ d.payload_size ∷ d.payload_checksum ∷ d.payload)
        else none)
      ≡ some b
    → decode_fields b ≡ some d
same_fields d true true b s m h =
    ap (λ o. elim o [ none ↦ none | some x ↦ decode_fields x ]) (sym h)
    ∙ ap (λ n. some (record d { service_name = n; method_name = "RequestVote" }))
        (sym ((eq_iff d.service_name "RaftService").0 s))
    ∙ ap (λ n. some (record d { method_name = n })) (sym ((eq_iff d.method_name "RequestVote").0 m))
same_fields d true false b s m h = absurd (none-some h)
same_fields d false m b s e h = absurd (none-some h)

fields_back :
    (d : RaftRpcData) (b : List ℕ)
    → bytes_of.encode_data d ≡ some b
    → bytes_of.decode_data b ≡ some d
fields_back d b h =
    same_fields d (str_eq d.service_name "RaftService") (str_eq d.method_name "RequestVote") b refl
      refl h

abbrev ready_channel : RaftRpcChannel ℕ
ready_channel = record {
  sequence_id = 3;
  pending_requests = [];
  timers = [];
  connected = true;
  buffer = [];
  sent = [];
  completed = [];
  dangling = none;
}

abbrev one_service : ServiceMap
one_service = ("RaftService", ("RequestVote", request_vote) ∷ []) ∷ []

registered : register_service "RaftService" (request_vote ∷ []) [] ≡ one_service
unfolding register_service method_map Table.assign
registered = refl

-- The bytes of a message and of a response to it.
abbrev body : ℕ → List ℕ
body n = 3 ∷ 1 ∷ crc32 (n ∷ []) ∷ n ∷ []

coded : serialize bytes_of "RaftService" "RequestVote" 3 7 ≡ some (body 7)
unfolding serialize data_of
coded = refl

-- The request is 7 and the response 9.
exchange_example :
    (Dispatcher.on_message bytes_of one_service (frame (body 7)) []
      ≡ left [] (call_to request_vote 3 7 ∷ []))
    × ((u : RaftRpcChannel ℕ) × (call_method bytes_of request_vote 7 20 ready_channel ≡ returned u)
        × (u.sent ≡ frame (body 7) ∷ [])
        × (armed 3 u.timers ≡ true)
        × ((t : RaftRpcChannel ℕ) × (on_message bytes_of
                (response_bytes bytes_of (call_to request_vote 3 7) 9)
                u
              ≡ some (undefined t))
            × (t.dangling ≡ some (20, answered 9))
            × (t.completed ≡ [])
            × (Table.lookup ◌==◌ 3 t.pending_requests ≡ none)
            × (armed 3 t.timers ≡ false)))
unfolding serialize data_of ran Table.lookup
exchange_example =
    exchange bytes_of fields_back one_service (("RequestVote", request_vote) ∷ []) ready_channel
      request_vote 7 20 (7 ∷ []) (body 7) 9 (9 ∷ []) (body 9) refl refl refl refl refl refl refl
      refl (omega arith) refl refl refl (omega arith)

-- Three bytes of a second frame are there.
on_buffer-stream_example :
    on_buffer
      (λ bytes made. accept (call_of bytes_of one_service bytes) made)
      (stream (body 7 ∷ []) (take 3 (frame (body 9))))
      []
    ≡ left (take 3 (frame (body 9))) (call_to request_vote 3 7 ∷ [])
unfolding Fits serialize data_of handle_all accept call_of deserialize checked call_to Table.lookup
    crc32 run table rounds
on_buffer-stream_example =
    on_buffer-stream (λ bytes made. accept (call_of bytes_of one_service bytes) made) (body 7 ∷ [])
      (body 9) 3 [] (call_to request_vote 3 7 ∷ []) (omega arith, (omega arith, _)) (omega arith)
      refl

-- A call that is made before there is a connection, the connection, and a call over it, which
-- waits.
abbrev call_failed : RaftRpcChannel ℕ
call_failed = record {
  sequence_id = 2;
  pending_requests = [];
  timers = [];
  connected = false;
  buffer = [];
  sent = [];
  completed = (21, failed not_connected) ∷ [];
  dangling = none;
}

abbrev connection_up : RaftRpcChannel ℕ
connection_up = record call_failed { connected = true }

abbrev two_calls : RaftRpcChannel ℕ
two_calls = record connection_up {
  sequence_id = 3;
  pending_requests = (2, record { method = request_vote; done = 20 }) ∷ [];
  timers = 2 ∷ [];
  sent = frame (2 ∷ 1 ∷ crc32 (7 ∷ []) ∷ 7 ∷ []) ∷ [];
}

two_calls_history : History bytes_of (20 ∷ 21 ∷ []) two_calls
unfolding issued mark call_method launch transmit complete ran run_once serialize data_of
    on_connection channel Table.assign
two_calls_history =
    called {s = connection_up} request_vote 7 20 refl refl (
      turned {s = call_failed} true refl (called {s = channel} request_vote 7 21 refl refl created))

calls_end_example :
    (runs 20 two_calls.completed + waiting 20 two_calls.pending_requests ≡ issued 20 (20 ∷ 21 ∷ []))
    × (issued 20 (20 ∷ 21 ∷ []) ≤ 1)
    × Guarded two_calls
    × ((t : RaftRpcChannel ℕ) × (on_connection false two_calls ≡ returned t)
        × (t.pending_requests ≡ [])
        × (runs 20 t.completed ≡ issued 20 (20 ∷ 21 ∷ [])))
unfolding unparsed
calls_end_example =
    calls_end bytes_of (20 ∷ 21 ∷ []) two_calls 20 (omega arith) two_calls_history refl

-- The second call waits.
one_waits : waiting 20 two_calls.pending_requests ≡ 1
unfolding waiting total mark
one_waits = refl

abbrev waiting_channel : RaftRpcChannel ℕ
waiting_channel = record ready_channel {
  pending_requests = (3, record { method = request_vote; done = 20 }) ∷ [];
  timers = 3 ∷ [];
}

abbrev empty_payload : Packet
empty_payload = record {
  service_name = "RaftService";
  method_name = "RequestVote";
  sequence_id = 3;
  payload = [];
}

abbrev second_response : Packet
second_response = record empty_payload { payload = 9 ∷ [] }

-- A header with another number, one that was changed on the way, and one that claims less than its
-- own length.
bad_number : read_frame (be64 7 ++ (be32 16 ++ (be32 0 ++ []))) ≡ wrong_magic
unfolding read_frame judge read_header word be64 be32
bad_number = refl

bad_checksum :
    read_frame (be64 magic_number ++ (be32 16 ++ (be32 0 ++ (5 ∷ [])))) ≡ wrong_checksum (5 ∷ [])
unfolding read_frame judge read_header word be64 be32 calculate_header_checksum crc32 run table
    rounds le64 le32
bad_checksum = refl

too_short :
    read_frame
      (be64 magic_number ++ (be32 15 ++ (be32 (calculate_header_checksum magic_number 15) ++ [])))
    ≡ overrun
unfolding read_frame judge read_header word be64 be32 calculate_header_checksum crc32 run table
    rounds le64 le32
too_short = refl
