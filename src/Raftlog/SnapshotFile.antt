-- ===== src/Raftlog/SnapshotFile.antt =====
-- internal/raftlog/snapshot.go: the snapshot file.
pub mod Laws
use uptime_monitor.Prelude.{
  ℕ, zero, suc, ◌+◌, ◌-◌, ◌^◌, ◌%◌, Option, none, some, ◌++◌, ltb, ◌==◌, not, if◌then◌else◌, length,
  take, drop,
}
use uptime_monitor.Raftlog.Bytes.{Bytes, slice, put_be, get_be, checksum}
use uptime_monitor.Raftlog.Error.{
  Result, ok, err, too_short, length_mismatch, crc_mismatch, io_error,
}
use uptime_monitor.Raftlog.Io.{Outcome, done, failed}

-- The results `index`, `term` and `data` of `readSnapshotFile`.
pub record Snapshot : Type 0 where
  pub index : ℕ  -- uint64
  pub term : ℕ  -- uint64
  pub bytes : Bytes

abbrev pub snapshot_header_len : ℕ
snapshot_header_len = 24

-- The buffer of `writeSnapshotFile`.
unfoldable pub snapshot_bytes : Snapshot → Bytes
snapshot_bytes s =
    (put_be 8 s.index ++ put_be 8 s.term)
    ++ (put_be 4 (length s.bytes % 2 ^ 32)
        ++ (put_be 4 (checksum ((put_be 8 s.index ++ put_be 8 s.term) ++ s.bytes)) ++ s.bytes))

-- The file after `writeSnapshotFile`, and its result. `failed 0` is an error before the rename, any
-- other one an error of the sync of the directory, after it.
unfoldable pub write_snapshot_file : Outcome → Snapshot → Option Bytes → Option Bytes × Result Unit
write_snapshot_file done s file = (some (snapshot_bytes s), ok tt)
write_snapshot_file (failed zero) s file = (file, err io_error)
write_snapshot_file (failed (suc _)) s file = (some (snapshot_bytes s), err io_error)

-- `readSnapshotFile`, of a file that can be read; `none` is `ok=false`.
unfoldable pub read_snapshot_file : Option Bytes → Result (Option Snapshot)
read_snapshot_file none = ok none
read_snapshot_file (some b) =
    if ltb (length b) snapshot_header_len
    then err too_short
    else if not (get_be (slice 16 20 b) == length b - snapshot_header_len)
    then err length_mismatch
    else if not (checksum (slice 0 16 b ++ drop snapshot_header_len b) == get_be (slice 20 24 b))
    then err crc_mismatch
    else ok (
        some (record {
          index = get_be (slice 0 8 b);
          term = get_be (slice 8 16 b);
          bytes = drop snapshot_header_len b;
        }))
