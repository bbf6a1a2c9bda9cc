-- ===== src/Raftlog/Entry.antt =====
-- internal/raftlog/entry.go: an entry of the log, and its encoding.
pub mod Codec
use uptime_monitor.Prelude.{
  ℕ, ◌+◌, ◌-◌, ◌^◌, ◌%◌, ◌<◌, List, [], ◌∷◌, ◌++◌, ltb, ◌==◌, if◌then◌else◌, length, drop, get_or,
}
use uptime_monitor.Raftlog.Bytes.{Bytes, slice, put_be, get_be}
use uptime_monitor.Raftlog.Error.{Result, ok, err, too_short, length_mismatch}

-- A uint8; only the values below are used, and `decode_entry` takes every one.
abbrev pub EntryType : Type 0
EntryType = ℕ

abbrev pub entry_command : EntryType
entry_command = 0

abbrev pub entry_noop : EntryType
entry_noop = 1

abbrev pub entry_config : EntryType
entry_config = 2

abbrev pub entry_header_len : ℕ
entry_header_len = 21

-- `Data` is `bytes` here.
pub record Entry : Type 0 where
  pub index : ℕ  -- uint64
  pub term : ℕ  -- uint64
  pub typ : EntryType
  pub bytes : Bytes

unfoldable pub encoded_len : Entry → ℕ
encoded_len e = entry_header_len + length e.bytes

-- `encode` into a buffer of `encoded_len` bytes.
unfoldable pub encode : Entry → Bytes
encode e =
    put_be 8 e.index
    ++ (put_be 8 e.term ++ ((e.typ % 256) ∷ (put_be 4 (length e.bytes % 2 ^ 32) ++ e.bytes)))

unfoldable pub decode_entry : Bytes → Result Entry
decode_entry b =
    if ltb (length b) entry_header_len
    then err too_short
    else if get_be (slice 17 21 b) == length b - entry_header_len
    then ok (record {
      index = get_be (slice 0 8 b);
      term = get_be (slice 8 16 b);
      typ = get_or b 16 0;
      bytes = drop entry_header_len b;
    })
    else err length_mismatch

-- The values of an entry are in the ranges of their types, and its record's length is a uint32.
pub record Fits (e : Entry) : Type 0 where
  pub index_fits : e.index < 2 ^ 64
  pub term_fits : e.term < 2 ^ 64
  pub typ_fits : e.typ < 256
  pub bytes_fit : entry_header_len + length e.bytes < 2 ^ 32
