-- ===== src/Raftlog/Recover/Reopening.antt =====
-- internal/raftlog/log.go, `Open`: what a directory is read as after a crash.
use mathlib.Core.Path.{ap₂}
use uptime_monitor.Prelude.{
  ℕ, suc, ◌+◌, ◌-◌, ◌≤◌, ◌<◌, ◌≡◌, ◌⊎◌, inl, inr, refl, sym, ap, ◌∙◌, true, false, Option, none,
  some, List, [], ◌∷◌, ◌++◌, length, take, take-append_length, length-append, All, arith,
}
use uptime_monitor.Raftlog.Bytes.{Bytes}
use uptime_monitor.Raftlog.Error.{ok}
use uptime_monitor.Raftlog.Entry.{Entry, Fits, encoded_len}
use uptime_monitor.Raftlog.Record.{record_of, encode_all, starts}
use uptime_monitor.Raftlog.Record.Reading.{length-record_of}
use uptime_monitor.Raftlog.SnapshotFile.{Snapshot, snapshot_bytes, read_snapshot_file}
use uptime_monitor.Raftlog.SnapshotFile.Laws.{read-snapshot_bytes}
use uptime_monitor.Raftlog.Log.{Log, at_path, u64}
use uptime_monitor.Raftlog.Contiguous.{Contiguous}
use uptime_monitor.Raftlog.Compact.{rewrite_locked}
use uptime_monitor.Raftlog.Sound.{IsSound}
use uptime_monitor.Raftlog.Recover.{
  Disk, Scan, scan, finish, recover, recover_with, snap_index_of, snap_term_of, open_with, open_log,
}
use uptime_monitor.Raftlog.Recover.Scanning.{
  IsTorn, scanned, scan-kept, skipped, scan-skipped, skipped_lem, skipped-flag,
}

length-encode_all : (es : List Entry) → length es ≤ length (encode_all es)
unfolding encode_all encoded_len
length-encode_all [] = omega arith
length-encode_all (e ∷ es) =
    omega
      (arith, length-encode_all es, length-record_of e, length-append (record_of e) (encode_all es))

-- The log before the replay, and the log that holds `es` above the snapshot.
abbrev fresh : ℕ → ℕ → Disk → Log
fresh si st d = record {
  handle = at_path;
  entries = [];
  offsets = [];
  end = 0;
  snap_index = si;
  snap_term = st;
  file = d.file;
  snapshot_file = d.snapshot_file;
  io = [];
}

abbrev pub holding : ℕ → ℕ → Option Bytes → List Entry → Log
holding si st snapshot_file es = record {
  handle = at_path;
  entries = es;
  offsets = starts 0 es;
  end = length (encode_all es);
  snap_index = si;
  snap_term = st;
  file = encode_all es;
  snapshot_file = snapshot_file;
  io = [];
}

abbrev start : ℕ → Scan
start si = record {
  off = 0;
  entries = [];
  offsets = [];
  expected = u64 (si + 1);
  skipped_prefix = false;
}

recover-fresh :
    (si st : ℕ) (d : Disk) (s : Scan)
    → scan (length d.file) d.file si (start si) ≡ s
    → recover (fresh si st d) ≡ finish s (fresh si st d)
unfolding recover recover_with
recover-fresh si st d s h = rw h (ground arith)

finish_clean :
    (si st : ℕ) (d : Disk) (es : List Entry) (s : Scan)
    → s.skipped_prefix ≡ false
    → s.entries ≡ es
    → s.offsets ≡ starts 0 es
    → s.off ≡ length (encode_all es)
    → take s.off d.file ≡ encode_all es
    → finish s (fresh si st d) ≡ ok (holding si st d.snapshot_file es)
unfolding finish
finish_clean si st d es s b e o p f = ground arith

finish_skipped :
    (si st : ℕ) (d : Disk) (es : List Entry) (s : Scan)
    → s.skipped_prefix ≡ true
    → s.entries ≡ es
    → finish s (fresh si st d) ≡ ok (holding si st d.snapshot_file es)
unfolding finish rewrite_locked
finish_skipped si st d es s b e = ground arith

-- What `recover` finds: records that the snapshot covers, those above it, and a torn tail.
pub record Written (si : ℕ) (olds es : List Entry) (tail file : Bytes) : Type 0 where
  pub is_file : file ≡ encode_all olds ++ (encode_all es ++ tail)
  pub torn : IsTorn tail
  pub covered : All (λ e. e.index ≤ si) olds
  pub olds_fit : All Fits olds
  pub contiguous : Contiguous (suc si) es
  pub fit : All Fits es
  pub room : suc (si + length es) < 18446744073709551616

module _ (si st : ℕ) (olds es : List Entry) (tail : Bytes) (d : Disk)
    (w : Written si olds es tail d.file) where
  scan_whole : scan (length d.file) d.file si (start si) ≡ scanned es (skipped olds (start si))
  scan_whole =
      ap (λ n. scan n d.file si (start si)) fuel
      ∙ scan-skipped olds (length d.file - length olds) d.file [] (encode_all es ++ tail) si
          (start si) w.is_file refl w.covered w.olds_fit
      ∙ scan-kept es (length d.file - length olds) d.file (encode_all olds) tail si
          (skipped olds (start si)) w.is_file at_olds w.torn
          (omega (arith, sizes, length-encode_all olds, length-encode_all es))
          (rw (expected, first) w.contiguous) (omega (arith, expected, first))
          (omega (arith, expected, first, w.room)) w.fit
    where
      sizes : length d.file ≡ length (encode_all olds) + (length (encode_all es) + length tail)
      sizes = omega (
        arith,
        ap length w.is_file,
        length-append (encode_all olds) (encode_all es ++ tail),
        length-append (encode_all es) tail,
      )

      fuel : length d.file ≡ length olds + (length d.file - length olds)
      fuel = omega (arith, sizes, length-encode_all olds)

      first : u64 (si + 1) ≡ suc si
      first = omega (arith, w.room)

      expected : (skipped olds (start si)).expected ≡ u64 (si + 1)
      expected = (skipped_lem olds (start si)).2

      at_olds : (skipped olds (start si)).off ≡ length (encode_all olds)
      at_olds = (skipped_lem olds (start si)).3 ∙ omega arith

nothing_covered :
    (es : List Entry) (tail file : Bytes)
    → file ≡ encode_all [] ++ (encode_all es ++ tail)
    → file ≡ encode_all es ++ tail
unfolding encode_all
nothing_covered es tail file h = h

recover-Written :
    (si st : ℕ) (olds es : List Entry) (tail : Bytes) (d : Disk)
    → Written si olds es tail d.file
    → recover (fresh si st d) ≡ ok (holding si st d.snapshot_file es)
recover-Written si st [] es tail d w =
    recover-fresh si st d _ (scan_whole si st [] es tail d w)
    ∙ finish_clean si st d es (scanned es (start si)) refl refl refl (omega arith) (
        ap (take (0 + length (encode_all es))) (nothing_covered es tail d.file w.is_file)
        ∙ take-append_length (encode_all es) tail _ (omega arith))
recover-Written si st (o ∷ os) es tail d w =
    recover-fresh si st d _ (scan_whole si st (o ∷ os) es tail d w)
    ∙ finish_skipped si st d es (scanned es (skipped (o ∷ os) (start si)))
        (skipped-flag o os (start si)) (ap (λ l. l ++ es) (skipped_lem (o ∷ os) (start si)).0)

-- The snapshot that a directory holds: its index and term.
abbrev pub HoldsSnapshot : ℕ → ℕ → Option Bytes → Type 0
HoldsSnapshot si st f =
    (f ≡ none) × (si ≡ 0) × (st ≡ 0)
    ⊎ ((b : Bytes) × (f ≡ some (snapshot_bytes (record { index = si; term = st; bytes = b })))
        × (length b < 4294967296))

open_found :
    (d : Disk) (found : Option Snapshot)
    → read_snapshot_file d.snapshot_file ≡ ok found
    → open_log d [] ≡ recover (fresh (snap_index_of found) (snap_term_of found) d)
unfolding open_log open_with
open_found d found h = rw h

no_snapshot : read_snapshot_file none ≡ ok none
unfolding read_snapshot_file
no_snapshot = refl

open_held :
    (si st : ℕ) (d : Disk)
    → HoldsSnapshot si st d.snapshot_file
    → si < 18446744073709551616
    → st < 18446744073709551616
    → open_log d [] ≡ recover (fresh si st d)
open_held si st d (inl (f, i, t)) hi ht =
    open_found d none (ap read_snapshot_file f ∙ no_snapshot)
    ∙ ap₂ (λ a b. recover (fresh a b d)) (sym i) (sym t)
open_held si st d (inr (b, f, fits)) hi ht =
    open_found d (some (record { index = si; term = st; bytes = b }))
      (ap read_snapshot_file f ∙ read-snapshot_bytes _ (omega arith) (omega arith) (omega arith))

holding-IsSound :
    (si st : ℕ) (f : Option Bytes) (es : List Entry)
    → HoldsSnapshot si st f
    → Contiguous (suc si) es
    → All Fits es
    → suc (si + length es) < 18446744073709551616
    → st < 18446744073709551616
    → IsSound (holding si st f es)
holding-IsSound si st f es held c fit room ht = record {
  on_path = refl;
  on_disk = refl;
  at_offsets = refl;
  at_end = refl;
  contiguous = c;
  fit = fit;
  index_fits = room;
  term_fits = ht;
  snapshot_agrees = held;
}

-- Crash recovery. `Open`, its writes going well, of a directory whose log file holds whole records
-- of entries in range, first any that the snapshot covers and then contiguous ones above it, and
-- behind them a torn tail, and whose snapshot file holds the snapshot or is missing, succeeds: the
-- log is sound and holds exactly the entries above the snapshot, in a file of just their records.
pub reopen :
    (si st : ℕ) (olds es : List Entry) (tail : Bytes) (d : Disk)
    → Written si olds es tail d.file
    → HoldsSnapshot si st d.snapshot_file
    → st < 18446744073709551616
    → (open_log d [] ≡ ok (holding si st d.snapshot_file es))
      × IsSound (holding si st d.snapshot_file es)
reopen si st olds es tail d w held ht = (
  open_held si st d held (omega (arith, w.room)) ht ∙ recover-Written si st olds es tail d w,
  holding-IsSound si st d.snapshot_file es held w.contiguous w.fit w.room ht,
)
