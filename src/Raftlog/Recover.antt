-- ===== src/Raftlog/Recover.antt =====
-- internal/raftlog/log.go: `Open`, which reads the snapshot file and then replays the log file.
pub mod Scanning
pub mod Reopening
use uptime_monitor.Prelude.{
  ℕ, zero, suc, ◌+◌, Bool, true, false, not, Option, none, some, List, [], ◌∷◌, ◌++◌, ltb, leb,
  ◌==◌, if◌then◌else◌, length, take,
}
use uptime_monitor.Raftlog.Bytes.{Bytes}
use uptime_monitor.Raftlog.Error.{Result, ok, err, io_error}
use uptime_monitor.Raftlog.Entry.{Entry}
use uptime_monitor.Raftlog.Record.{read_record}
use uptime_monitor.Raftlog.Io.{Outcome, done, failed}
use uptime_monitor.Raftlog.SnapshotFile.{Snapshot, read_snapshot_file}
use uptime_monitor.Raftlog.Log.{Log, at_path, u64, next_io}
use uptime_monitor.Raftlog.Compact.{rewrite_locked}

-- What is in the directory: the log file, empty if there is none, and the snapshot file.
pub record Disk : Type 0 where
  pub file : Bytes
  pub snapshot_file : Option Bytes

-- The variables of the loop of `recover`.
pub record Scan : Type 0 where
  pub off : ℕ
  pub entries : List Entry
  pub offsets : List ℕ
  pub expected : ℕ  -- uint64
  pub skipped_prefix : Bool

-- The end of a turn, with what was read at `off`; `none` where the loop breaks off.
advance : ℕ → Scan → Option (Entry × ℕ) → Option Scan
advance snap_index s none = none
advance snap_index s (some (e, rec_end)) =
    if leb e.index snap_index
    then some (record s { off = rec_end; skipped_prefix = true })
    else if not (e.index == s.expected)
    then none
    else some (record s {
      entries = s.entries ++ e ∷ [];
      offsets = s.offsets ++ s.off ∷ [];
      off = rec_end;
      expected = u64 (s.expected + 1);
    })

pub turn : Bytes → ℕ → Scan → Option Scan
unfolding advance
turn file snap_index s =
    if ltb s.off (length file) then advance snap_index s (read_record file s.off) else none

-- The loop, on fuel: every record has eight bytes at least, so a turn for each byte is enough.
pub scan : ℕ → Bytes → ℕ → Scan → Scan
scan zero file snap_index s = s
scan (suc fuel) file snap_index s = elim (turn file snap_index s) [
  | none ↦ s
  | some s' ↦ scan fuel file snap_index s'
]

abbrev rewritten : Log × Result Unit → Result Log
rewritten (l, ok _) = ok l
rewritten (l, err x) = err x

-- The rest of `recover`, after the loop: the torn tail is cut off, and a skipped prefix is rewritten.
finish : Scan → Log → Result Log
finish s l =
    let l' = record l {
      file = take s.off l.file;
      entries = s.entries;
      offsets = s.offsets;
      end = s.off;
    } in
    if s.skipped_prefix then rewritten (rewrite_locked s.entries l') else ok l'

-- A torn tail costs a `Truncate` and a `Sync`, of which any failure is an error.
recover_with : Outcome → Scan → Log → Result Log
recover_with done s l = finish s l
recover_with (failed _) s l = err io_error

pub recover : Log → Result Log
recover l =
    let s = scan (length l.file) l.file l.snap_index (record {
      off = 0;
      entries = [];
      offsets = [];
      expected = u64 (l.snap_index + 1);
      skipped_prefix = false;
    }) in
    if ltb s.off (length l.file)
    then (let (o, os) = next_io l.io in recover_with o s (record l { io = os }))
    else finish s l

abbrev snap_index_of : Option Snapshot → ℕ
snap_index_of none = 0
snap_index_of (some s) = s.index

abbrev snap_term_of : Option Snapshot → ℕ
snap_term_of none = 0
snap_term_of (some s) = s.term

-- `Open` of a directory that can be read, behind the result of `readSnapshotFile`.
open_with : Result (Option Snapshot) → Disk → List Outcome → Result Log
open_with (err x) d io = err x
open_with (ok found) d io = recover (record {
  handle = at_path;
  entries = [];
  offsets = [];
  end = 0;
  snap_index = snap_index_of found;
  snap_term = snap_term_of found;
  file = d.file;
  snapshot_file = d.snapshot_file;
  io = io;
})

pub open_log : Disk → List Outcome → Result Log
open_log d io = open_with (read_snapshot_file d.snapshot_file) d io
