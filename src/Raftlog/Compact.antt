-- ===== src/Raftlog/Compact.antt =====
-- internal/raftlog/log.go: the operations that cut the log, at its end (`TruncateSuffix`) and at its
-- start (`Snapshot`, `InstallSnapshot`), and the rewriting of the file behind the latter.
use uptime_monitor.Prelude.{
  ℕ, zero, suc, ◌+◌, ◌-◌, Bool, ◌&&◌, ◌||◌, Option, List, [], ltb, leb, ◌==◌, if◌then◌else◌, length,
  take, drop, get_elem?, get_or,
}
use uptime_monitor.Raftlog.Bytes.{Bytes}
use uptime_monitor.Raftlog.Error.{Result, ok, err, beyond_last, io_error}
use uptime_monitor.Raftlog.Entry.{Entry}
use uptime_monitor.Raftlog.Record.{encode_all, starts}
use uptime_monitor.Raftlog.Io.{Outcome, done, failed}
use uptime_monitor.Raftlog.SnapshotFile.{Snapshot, write_snapshot_file}
use uptime_monitor.Raftlog.Log.{
  Handle, at_path, replaced, closed, Log, next_io, contents, set_contents, is_empty, first_index,
  last_index, term_of,
}

-- The file cut at `cut`, then the lists cut at `pos`. `failed 0`: `Truncate` fails. Any other
-- failure is one of `Sync`, after the file has been cut.
truncate_with : Outcome → ℕ → ℕ → Log → Log × Result Unit
truncate_with done pos cut l =
    let l' = set_contents l.handle l (take cut (contents l.handle l.file)) in
    (record l' { entries = take pos l.entries; offsets = take pos l.offsets; end = cut }, ok tt)
truncate_with (failed zero) pos cut l = (l, err io_error)
truncate_with (failed (suc _)) pos cut l =
    (set_contents l.handle l (take cut (contents l.handle l.file)), err io_error)

truncate_at : Handle → ℕ → ℕ → Log → Log × Result Unit
unfolding truncate_with
truncate_at closed pos cut l = (l, err io_error)
truncate_at _ pos cut l =
    let (o, os) = next_io l.io in truncate_with o pos cut (record l { io = os })

-- The offset `l.offsets[pos]` is 0 in the model where the source would panic.
unfoldable pub truncate_suffix : ℕ → Log → Log × Result Unit
unfolding truncate_at first_index last_index
truncate_suffix from l =
    if is_empty l.entries || ltb (last_index l) from
    then (l, ok tt)
    else if leb from (first_index l)
    then truncate_at l.handle 0 0 l
    else truncate_at l.handle (from - first_index l) (get_or l.offsets (from - first_index l) 0) l

-- The former file stays behind a handle that is not reopened.
abbrev pub left_behind : Handle → Bytes → Handle
left_behind at_path file = replaced file
left_behind (replaced b) file = replaced b
left_behind closed file = closed

-- `rewriteLocked`. `failed 0`: an error up to the rename, which leaves the file as it was. `failed 1`:
-- an error between the rename and the closing of the old file. Any other failure is one of the
-- reopening. A handle that was closed before fails at the closing.
rewrite_with : Outcome → List Entry → Log → Log × Result Unit
rewrite_with (failed zero) keep l = (l, err io_error)
rewrite_with (failed (suc zero)) keep l =
    (record l { file = encode_all keep; handle = left_behind l.handle l.file }, err io_error)
rewrite_with (failed (suc (suc _))) keep l =
    (record l { file = encode_all keep; handle = closed }, err io_error)
rewrite_with done keep l = elim l.handle [
  | closed ↦ (record l { file = encode_all keep }, err io_error)
  | _ ↦ (
    record l {
      file = encode_all keep;
      handle = at_path;
      entries = keep;
      offsets = starts 0 keep;
      end = length (encode_all keep);
    },
    ok tt,
  )
]

unfoldable pub rewrite_locked : List Entry → Log → Log × Result Unit
unfolding rewrite_with
rewrite_locked keep l = let (o, os) = next_io l.io in rewrite_with o keep (record l { io = os })

-- What both snapshot operations do once the file is written: `snapIndex` and `snapTerm` are set, and
-- the log is rewritten.
compact_with : Option Bytes × Result Unit → ℕ → ℕ → List Entry → Log → Log × Result Unit
compact_with (file, err x) index term keep l = (record l { snapshot_file = file }, err x)
compact_with (file, ok _) index term keep l =
    rewrite_locked keep (record l { snapshot_file = file; snap_index = index; snap_term = term })

unfoldable pub compact : ℕ → ℕ → Bytes → List Entry → Log → Log × Result Unit
unfolding compact_with write_snapshot_file
compact index term bytes keep l =
    let (o, os) = next_io l.io in
    let s : Snapshot = record { index = index; term = term; bytes = bytes } in
    compact_with (write_snapshot_file o s l.snapshot_file) index term keep (record l { io = os })

unfoldable pub snapshot : ℕ → ℕ → Bytes → Log → Log × Result Unit
unfolding first_index last_index
snapshot index term bytes l =
    if leb index l.snap_index
    then (l, ok tt)
    else if ltb (last_index l) index
    then (l, err (beyond_last index (last_index l)))
    else compact index term bytes (drop (index - first_index l + 1) l.entries) l

-- Whether the log holds an entry of this index and term.
unfoldable pub has_entry : ℕ → ℕ → Log → Bool
has_entry index term l =
    leb (first_index l) index
    && leb index (last_index l)
    && (term_of (get_elem? l.entries (index - first_index l))).0 == term

unfoldable pub install_snapshot : ℕ → ℕ → Bytes → Log → Log × Result Unit
unfolding has_entry
install_snapshot index term bytes l =
    if leb index l.snap_index
    then (l, ok tt)
    else compact index term bytes
        (if has_entry index term l then drop (index - first_index l + 1) l.entries else []) l

-- `Close`, without its result.
unfoldable pub close : Log → Log
close l = record l { handle = closed }
