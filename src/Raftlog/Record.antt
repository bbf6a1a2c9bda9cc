-- ===== src/Raftlog/Record.antt =====
-- internal/raftlog/log.go: the framing of the log file. A record is the payload's length, its
-- checksum and the payload, an encoded entry.
pub mod Reading
pub mod Files
use uptime_monitor.Prelude.{
  ℕ, ◌+◌, ◌^◌, ◌%◌, Option, none, some, List, [], ◌∷◌, ◌++◌, ltb, ◌==◌, if◌then◌else◌, length, take,
  drop,
}
use uptime_monitor.Raftlog.Bytes.{Bytes, slice, put_be, get_be, checksum}
use uptime_monitor.Raftlog.Error.{Result, ok, err}
use uptime_monitor.Raftlog.Entry.{Entry, encode, decode_entry}

abbrev pub record_header_len : ℕ
record_header_len = 8

-- The bytes `rec` of `appendLocked`, and of the loop of `rewriteLocked`.
unfoldable pub record_of : Entry → Bytes
record_of e = put_be 4 (length (encode e) % 2 ^ 32) ++ (put_be 4 (checksum (encode e)) ++ encode e)

-- The end of a good record.
decoded : Result Entry → ℕ → Option (Entry × ℕ)
decoded (ok e) rec_end = some (e, rec_end)
decoded (err _) rec_end = none

-- One turn of the loop of `recover`, on the bytes from `off` of a file of `size` bytes: the entry and
-- where its record ends, or `none` where the loop breaks off.
unfoldable pub read_rest : Bytes → ℕ → ℕ → Option (Entry × ℕ)
unfolding decoded
read_rest rest off size =
    let payload_len = get_be (slice 0 4 rest) in
    let want_crc = get_be (slice 4 8 rest) in
    let rec_end = off + record_header_len + payload_len in
    let payload = take payload_len (drop 8 rest) in
    if ltb size (off + record_header_len)
    then none
    else if ltb size rec_end
    then none
    else if checksum payload == want_crc
    then decoded (decode_entry payload) rec_end
    else none

unfoldable pub read_record : Bytes → ℕ → Option (Entry × ℕ)
read_record file off = read_rest (drop off file) off (length file)

-- The records of a list of entries, one after the other, and the offsets at which they start.
unfoldable pub encode_all : List Entry → Bytes
encode_all [] = []
encode_all (e ∷ es) = record_of e ++ encode_all es

unfoldable pub starts : ℕ → List Entry → List ℕ
starts off [] = []
starts off (e ∷ es) = off ∷ starts (off + length (record_of e)) es
