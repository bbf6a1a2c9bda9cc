-- ===== src/Raftlog/Log.antt =====
-- internal/raftlog/log.go: the log in memory and in its file. A method returns the new log with its
-- result. The mutex is not modelled: every method holds it from its start to its end.
-- The bytes in the file are those written so far; a crash may cut the last record short.
use uptime_monitor.Prelude.{
  ℕ, ◌+◌, ◌-◌, ◌%◌, Bool, true, false, not, ◌||◌, Option, none, some, List, [], ◌∷◌, ◌++◌, ltb,
  ◌==◌, if◌then◌else◌, length, take, drop, get_elem?, replicate,
}
use uptime_monitor.Raftlog.Bytes.{Bytes}
use uptime_monitor.Raftlog.Error.{Result, ok, err, non_contiguous, io_error}
use uptime_monitor.Raftlog.Entry.{Entry, EntryType}
use uptime_monitor.Raftlog.Record.{record_of}
use uptime_monitor.Raftlog.Io.{Outcome, done, failed}
use uptime_monitor.Raftlog.SnapshotFile.{Snapshot, read_snapshot_file}

-- The wrap-around of uint64.
abbrev pub u64 : ℕ → ℕ
u64 n = n % 18446744073709551616

-- What `l.f` is a handle on: the file at the log's path, a former one that has been replaced there
-- (with its bytes), or nothing any more.
pub data Handle : Type 0 where
  at_path : Handle
  replaced : Bytes → Handle
  closed : Handle

pub record Log : Type 0 where
  pub handle : Handle  -- `f`
  pub entries : List Entry
  pub offsets : List ℕ
  pub end : ℕ
  pub snap_index : ℕ  -- uint64
  pub snap_term : ℕ  -- uint64
  -- The directory `dir`: the file at the log's path and the snapshot file.
  pub file : Bytes
  pub snapshot_file : Option Bytes
  -- How the next operations that write will end; all go well when none is left.
  pub io : List Outcome

abbrev pub next_io : List Outcome → Outcome × List Outcome
next_io [] = (done, [])
next_io (o ∷ os) = (o, os)

-- The bytes behind `l.f`, and the log with other bytes there.
abbrev pub contents : Handle → Bytes → Bytes
contents at_path file = file
contents (replaced b) file = b
contents closed file = []

abbrev pub set_contents : Handle → Log → Bytes → Log
set_contents at_path l b = record l { file = b }
set_contents (replaced _) l b = record l { handle = replaced b }
set_contents closed l b = l

-- `WriteAt`: past the end of the file the gap reads as zeros.
abbrev pub write_at : Bytes → ℕ → Bytes → Bytes
write_at file off b =
    take off file ++ (replicate (off - length file) 0 ++ (b ++ drop (off + length b) file))

abbrev pub last_of : ℕ → List Entry → ℕ
last_of snap_index [] = snap_index
last_of snap_index (e ∷ es) = last_of e.index es

abbrev pub is_empty : List Entry → Bool
is_empty [] = true
is_empty (_ ∷ _) = false

unfoldable pub last_index : Log → ℕ
last_index l = last_of l.snap_index l.entries

unfoldable pub first_index : Log → ℕ
first_index l = u64 (l.snap_index + 1)

-- `At`; `none` is `ok=false`. The index expression of the source panics where `get_elem?` is `none`.
unfoldable pub at : Log → ℕ → Option Entry
unfolding first_index last_index
at l index =
    if is_empty l.entries || ltb index (first_index l) || ltb (last_index l) index
    then none
    else get_elem? l.entries (index - first_index l)

abbrev pub term_of : Option Entry → ℕ × Bool
term_of none = (0, false)
term_of (some e) = (e.term, true)

-- `TermAt`, with its results `term` and `ok`.
unfoldable pub term_at : Log → ℕ → ℕ × Bool
unfolding first_index last_index
term_at l index =
    if index == l.snap_index
    then (l.snap_term, true)
    else if ltb index (first_index l) || ltb (last_index l) index || is_empty l.entries
    then (0, false)
    else term_of (get_elem? l.entries (index - first_index l))

unfoldable pub from : Log → ℕ → List Entry
unfolding first_index last_index
from l lo =
    if is_empty l.entries
    then []
    else let lo' = if ltb lo (first_index l) then first_index l else lo in
      if ltb (last_index l) lo' then [] else drop (lo' - first_index l) l.entries

-- `SnapshotData`; `none` is nil.
abbrev pub data_of : Result (Option Snapshot) → Option Bytes
data_of (ok (some s)) = some s.bytes
data_of (ok none) = none
data_of (err _) = none

unfoldable pub snapshot_data : Log → Option Bytes
snapshot_data l = if l.snap_index == 0 then none else data_of (read_snapshot_file l.snapshot_file)

-- `appendLocked`. `failed n`: `WriteAt` or `Sync` reports an error, with the first n bytes of the
-- record in the file.
append_with : Outcome → Entry → Log → Log × Result Unit
append_with done e l =
    let rec = record_of e in
    let l' = set_contents l.handle l (write_at (contents l.handle l.file) l.end rec) in
    (
      record l' {
        entries = l.entries ++ e ∷ [];
        offsets = l.offsets ++ l.end ∷ [];
        end = l.end + length rec;
      },
      ok tt,
    )
append_with (failed n) e l = (
  set_contents l.handle l (write_at (contents l.handle l.file) l.end (take n (record_of e))),
  err io_error,
)

append_open : Handle → Entry → Log → Log × Result Unit
unfolding append_with
append_open closed e l = (l, err io_error)
append_open _ e l = let (o, os) = next_io l.io in append_with o e (record l { io = os })

append_locked : Entry → Log → Log × Result Unit
unfolding append_open
append_locked e l = append_open l.handle e l

unfoldable pub append_entry : Entry → Log → Log × Result Unit
unfolding append_locked last_index
append_entry e l =
    let want = u64 (last_index l + 1) in
    if not (e.index == want) then (l, err (non_contiguous e.index want)) else append_locked e l

abbrev pub appended : Entry → Log × Result Unit → Log × Result Entry
appended e (l, ok _) = (l, ok e)
appended e (l, err x) = (l, err x)

unfoldable pub append : ℕ → EntryType → Bytes → Log → Log × Result Entry
unfolding append_locked last_index
append term typ bytes l =
    let e : Entry = record {
      index = u64 (last_index l + 1);
      term = term;
      typ = typ;
      bytes = bytes;
    } in
    appended e (append_locked e l)
