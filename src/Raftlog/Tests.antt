-- ===== src/Raftlog/Tests.antt =====
-- internal/raftlog: runs at concrete inputs, and the theorems at such inputs.
use uptime_monitor.Prelude.{
  ℕ, ◌-◌, ◌≡◌, ◌≢◌, ◌⊎◌, ◌<◌, inl, refl, true, none, some, List, [], ◌∷◌, ◌++◌, ltb, if◌then◌else◌,
  length, take, drop, arith,
}
use uptime_monitor.Raftlog.Bytes.{checksum, put_be}
use uptime_monitor.Raftlog.Error.{ok, err, io_error}
use uptime_monitor.Raftlog.Io.{Outcome, done, failed}
use uptime_monitor.Raftlog.Entry.{Entry, Fits, entry_command, encode, encoded_len, decode_entry}
use uptime_monitor.Raftlog.Entry.Codec.{decode-encode}
use uptime_monitor.Raftlog.Record.{encode_all, record_of}
use uptime_monitor.Raftlog.HardState.{HardState, save_hard_state, load_hard_state}
use uptime_monitor.Raftlog.HardState.Laws.{load-save}
use uptime_monitor.Raftlog.SnapshotFile.{snapshot_bytes, read_snapshot_file}
use uptime_monitor.Raftlog.SnapshotFile.Laws.{read-snapshot_bytes}
use uptime_monitor.Raftlog.Log.{Log, last_index, at, term_at, append_entry}
use uptime_monitor.Raftlog.Compact.{truncate_suffix, snapshot, install_snapshot}
use uptime_monitor.Raftlog.Sound.{IsSound, at-IsSound}
use uptime_monitor.Raftlog.Appending.{append_entry-IsSound}
use uptime_monitor.Raftlog.Cutting.{CutsAt, truncate_suffix-IsSound}
use uptime_monitor.Raftlog.Compacting.{
  agrees, CompactsTo, snapshot-CompactsTo, install_snapshot-CompactsTo,
}
use uptime_monitor.Raftlog.Recover.{Disk, open_log}
use uptime_monitor.Raftlog.Recover.Reopening.{Written, holding, reopen}
use uptime_monitor.Raftlog.Recover.Scanning.{record-IsTorn}
use uptime_monitor.Raftlog.Crash.{Reopens, disk_of, append_entry_atomic}
use uptime_monitor.Raftlog.Interrupted.{snapshot_crash-Reopens, snapshot_error_misnumbers}

abbrev entry_at : ℕ → ℕ → Entry
entry_at i t = record { index = i; term = t; typ = entry_command; bytes = 0x61 ∷ i ∷ [] }

abbrev entry_at-Fits : (i t : ℕ) → i < 1000 → t < 1000 → Fits (entry_at i t)
entry_at-Fits i t hi ht = record {
  index_fits = omega (arith, hi);
  term_fits = omega (arith, ht);
  typ_fits = omega arith;
  bytes_fit = omega arith;
}

abbrev three : List Entry
three = entry_at 1 1 ∷ entry_at 2 1 ∷ entry_at 3 2 ∷ []

abbrev log_of : List Outcome → Log
log_of io = record (holding 0 0 none three) { io = io }

abbrev log_of-IsSound : (io : List Outcome) → IsSound (log_of io)
log_of-IsSound io = record {
  on_path = refl;
  on_disk = refl;
  at_offsets = refl;
  at_end = refl;
  contiguous = (refl, (refl, (refl, tt)));
  fit = (
    entry_at-Fits 1 1 (omega arith) (omega arith),
    (
      entry_at-Fits 2 1 (omega arith) (omega arith),
      (entry_at-Fits 3 2 (omega arith) (omega arith), tt),
    ),
  );
  index_fits = omega arith;
  term_fits = omega arith;
  snapshot_agrees = inl (refl, refl, refl);
}

decode-encode_example : decode_entry (encode (entry_at 7 3)) ≡ ok (entry_at 7 3)
decode-encode_example = decode-encode (entry_at 7 3) (entry_at-Fits 7 3 (omega arith) (omega arith))

read-snapshot_bytes_example :
    read_snapshot_file (some (snapshot_bytes (record { index = 2; term = 1; bytes = 0x7A ∷ [] })))
    ≡ ok (some (record { index = 2; term = 1; bytes = 0x7A ∷ [] }))
read-snapshot_bytes_example =
    read-snapshot_bytes (record { index = 2; term = 1; bytes = 0x7A ∷ [] }) (omega arith)
      (omega arith) (omega arith)

abbrev vote : HardState
vote = record { term = 4; voted_for = 2 }

load-save_example :
    (load_hard_state (save_hard_state (failed 0) vote none).0 ≡ ok vote)
    ⊎ (load_hard_state (save_hard_state (failed 0) vote none).0 ≡ load_hard_state none)
      × ((save_hard_state (failed 0) vote none).1 ≢ ok tt)
load-save_example = load-save (failed 0) vote none (omega arith) (omega arith)

last_three : (io : List Outcome) → last_index (log_of io) ≡ 3
unfolding last_index
last_three io = refl

at-IsSound_example :
    (e : Entry) × (at (log_of []) 2 ≡ some e)
    × (e.index ≡ 2)
    × (term_at (log_of []) 2 ≡ (e.term, true))
at-IsSound_example =
    at-IsSound (log_of []) 2 (log_of-IsSound []) (omega arith) (omega (arith, last_three []))

append_entry-IsSound_example :
    ((append_entry (entry_at 4 2) (log_of [])).1 ≡ ok tt)
    × IsSound (append_entry (entry_at 4 2) (log_of [])).0
    × ((append_entry (entry_at 4 2) (log_of [])).0.entries ≡ three ++ entry_at 4 2 ∷ [])
    × ((append_entry (entry_at 4 2) (log_of [])).0.snap_index ≡ 0)
append_entry-IsSound_example =
    append_entry-IsSound (entry_at 4 2) (log_of []) (log_of-IsSound [])
      (entry_at-Fits 4 2 (omega arith) (omega arith)) (omega (arith, last_three [])) (omega arith)
      refl

truncate_suffix-IsSound_example : CutsAt 2 (log_of []) (truncate_suffix 2 (log_of []))
truncate_suffix-IsSound_example = truncate_suffix-IsSound 2 (log_of []) (log_of-IsSound []) refl

snapshot-CompactsTo_example :
    CompactsTo 2 1 (0x7A ∷ []) (drop (2 - 0) three) (snapshot 2 1 (0x7A ∷ []) (log_of []))
snapshot-CompactsTo_example =
    snapshot-CompactsTo 2 1 (0x7A ∷ []) (log_of []) (log_of-IsSound []) (refl, refl) (omega arith)
      (omega arith) (omega arith) (omega (arith, last_three []))

install_snapshot-CompactsTo_example :
    CompactsTo 5 3
      (0x7A ∷ [])
      (if agrees 5 3 (log_of []) then drop (5 - 0) three else [])
      (install_snapshot 5 3 (0x7A ∷ []) (log_of []))
install_snapshot-CompactsTo_example =
    install_snapshot-CompactsTo 5 3 (0x7A ∷ []) (log_of []) (log_of-IsSound []) (refl, refl)
      (omega arith) (omega arith) (omega arith) (omega arith)

append_entry_atomic_example :
    ((append_entry (entry_at 4 2) (log_of (failed 9 ∷ []))).1 ≡ err io_error)
    × ((append_entry (entry_at 4 2) (log_of (failed 9 ∷ []))).0.entries ≡ three)
    × Reopens
        (disk_of (append_entry (entry_at 4 2) (log_of (failed 9 ∷ []))).0)
        0
        0
        (if ltb 9 (length (record_of (entry_at 4 2))) then three else three ++ entry_at 4 2 ∷ [])
append_entry_atomic_example =
    append_entry_atomic 9 (entry_at 4 2) (log_of (failed 9 ∷ [])) (log_of-IsSound (failed 9 ∷ []))
      (entry_at-Fits 4 2 (omega arith) (omega arith)) (omega (arith, last_three (failed 9 ∷ [])))
      (omega arith) refl

snapshot_crash-Reopens_example :
    Reopens
      (disk_of (snapshot 2 1 (0x7A ∷ []) (log_of (done ∷ failed 0 ∷ []))).0)
      2
      1
      (drop (2 - 0) three)
snapshot_crash-Reopens_example =
    snapshot_crash-Reopens 2 1 (0x7A ∷ []) (log_of (done ∷ failed 0 ∷ []))
      (log_of-IsSound (done ∷ failed 0 ∷ [])) (omega arith) (omega arith) (omega arith) refl refl
      (omega (arith, last_three (done ∷ failed 0 ∷ [])))

snapshot_error_misnumbers_example :
    (e : Entry) × (at (snapshot 2 1 (0x7A ∷ []) (log_of (done ∷ failed 0 ∷ []))).0 3 ≡ some e)
    × (e.index ≡ 1)
    × (e.index ≢ 3)
snapshot_error_misnumbers_example =
    snapshot_error_misnumbers 2 1 (0x7A ∷ []) (log_of (done ∷ failed 0 ∷ []))
      (log_of-IsSound (done ∷ failed 0 ∷ [])) (omega arith)
      (omega (arith, last_three (done ∷ failed 0 ∷ []))) refl refl

-- Three whole records and the first five bytes of a fourth.
abbrev torn_disk : Disk
torn_disk = record {
  file = encode_all [] ++ (encode_all three ++ take 5 (record_of (entry_at 4 2)));
  snapshot_file = none;
}

record_is_longer : 5 < length (record_of (entry_at 4 2))
unfolding record_of encode encoded_len put_be checksum
record_is_longer = omega arith

torn_disk-Written : Written 0 [] three (take 5 (record_of (entry_at 4 2))) torn_disk.file
torn_disk-Written = record {
  is_file = refl;
  torn =
      record-IsTorn (entry_at 4 2) 5 (entry_at-Fits 4 2 (omega arith) (omega arith))
        record_is_longer;
  covered = tt;
  olds_fit = tt;
  contiguous = (refl, (refl, (refl, tt)));
  fit = (
    entry_at-Fits 1 1 (omega arith) (omega arith),
    (
      entry_at-Fits 2 1 (omega arith) (omega arith),
      (entry_at-Fits 3 2 (omega arith) (omega arith), tt),
    ),
  );
  room = omega arith;
}

reopen_example :
    (open_log torn_disk [] ≡ ok (holding 0 0 none three)) × IsSound (holding 0 0 none three)
reopen_example =
    reopen 0 0 [] three (take 5 (record_of (entry_at 4 2))) torn_disk torn_disk-Written
      (inl (refl, refl, refl)) (omega arith)
