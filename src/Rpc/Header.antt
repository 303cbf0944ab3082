-- ===== src/Rpc/Header.antt =====
-- raftkv/raft-rpc/include/RaftRpcFixedHeader.h and the parts of RaftRpcChannel.cpp and
-- RaftRpcDispatcher.cpp that put a header before a message and read it back.
use ww_raft_kv.Prelude.{
  List, Option, drop, if◌then◌else◌, length, ltb, none, not, some, take, ℕ, ◌%◌, ◌*◌, ◌++◌, ◌+◌,
  ◌-◌, ◌<◌, ◌==◌, ◌^◌,
}
use ww_raft_kv.Rpc.Bytes.{be32, be64, le32, le64, word}
use ww_raft_kv.Rpc.Crc32.{crc32, crc32_lt}
use ww_raft_kv.SkipList.Types.{◌>>=◌}

abbrev pub magic_number : ℕ
magic_number = 0x0A1B2C3D4E5F6A7B

pub record RaftRpcFixedHeader : Type 0 where
  pub magic_number : ℕ
  pub total_length : ℕ
  pub header_checksum : ℕ

-- `sizeof(RaftRpcFixedHeader)`.
abbrev pub header_size : ℕ
header_size = 16

-- Over the bytes of the two numbers as the machine holds them.
unfoldable pub calculate_header_checksum : ℕ → ℕ → ℕ
calculate_header_checksum magic total = crc32 (le64 magic ++ le32 total)

pub checksum_lt : (magic total : ℕ) → calculate_header_checksum magic total < 4294967296
unfolding calculate_header_checksum
checksum_lt magic total = crc32_lt (le64 magic ++ le32 total)

-- The bytes that go out: a header and the message. `_Total_length` is std::uint32_t.
unfoldable pub frame : List ℕ → List ℕ
frame body =
    let total = (header_size + length body) % 2 ^ 32 in
    be64 magic_number
    ++ (be32 total ++ (be32 (calculate_header_checksum magic_number total) ++ body))

-- `memcpy` of a header from the buffer, in the order of the machine, and the bytes after it; there
-- is none where the buffer has fewer bytes.
unfoldable pub read_header : List ℕ → Option (RaftRpcFixedHeader × List ℕ)
read_header buffer = do
  high ← word buffer
  low ← word high.1
  total ← word low.1
  checksum ← word total.1
  some (
    record {
      magic_number = high.0 * 4294967296 + low.0;
      total_length = total.0;
      header_checksum = checksum.0;
    },
    checksum.1,
  )

-- What the bytes in a buffer are: too few, or no message; or a message, with the bytes after it.
-- A header may say that the message is shorter than the header itself: `retrieveAsString` is then
-- asked for more than there can be, and the process ends.
pub data Reading : Type 0 where
  waits : Reading
  wrong_magic : Reading
  wrong_checksum : List ℕ → Reading
  overrun : Reading
  packet : List ℕ → List ℕ → Reading

unfoldable pub judge : ℕ → Option (RaftRpcFixedHeader × List ℕ) → Reading
judge readable none = waits
judge readable (some (header, rest)) =
    if not (header.magic_number == magic_number)
    then wrong_magic
    else if not (
        calculate_header_checksum header.magic_number header.total_length == header.header_checksum)
    then wrong_checksum rest
    else if ltb readable header.total_length
    then waits
    else if ltb header.total_length header_size
    then overrun
    else packet (take (header.total_length - header_size) rest)
        (drop (header.total_length - header_size) rest)

unfoldable pub read_frame : List ℕ → Reading
read_frame buffer = judge (length buffer) (read_header buffer)
