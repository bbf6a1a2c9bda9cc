-- ===== src/Raftlog/Interrupted.antt =====
-- internal/raftlog/log.go, `Snapshot`: the snapshot file is written, and the rewriting of the log file
-- fails, or there is a crash before it.
use uptime_monitor.Prelude.{
  ℕ, zero, suc, ◌+◌, ◌-◌, ◌≤◌, ◌<◌, ◌≡◌, ◌≢◌, refl, sym, ap, ◌∙◌, some, List, [], ◌∷◌, ◌++◌, false,
  ge→ltb, inr, length, take, drop, take-append-drop, length-drop, append-nil, get_elem?, All,
  All-take, All-drop, arith,
}
use uptime_monitor.Raftlog.Bytes.{Bytes}
use uptime_monitor.Raftlog.Error.{err, io_error}
use uptime_monitor.Raftlog.Entry.{Entry, Fits}
use uptime_monitor.Raftlog.Record.{encode_all}
use uptime_monitor.Raftlog.Record.Files.{encode_all-append}
use uptime_monitor.Raftlog.Io.{done, failed}
use uptime_monitor.Raftlog.SnapshotFile.{snapshot_bytes}
use uptime_monitor.Raftlog.Log.{Log, u64, next_io, last_index, first_index, last_of, is_empty, at}
use uptime_monitor.Raftlog.Compact.{snapshot, compact, rewrite_locked}
use uptime_monitor.Raftlog.Contiguous.{Contiguous, Contiguous-drop, get_elem?-Contiguous}
use uptime_monitor.Raftlog.Sound.{IsSound, last_index-IsSound}
use uptime_monitor.Raftlog.Recover.Scanning.{nil-IsTorn}
use uptime_monitor.Raftlog.Crash.{Reopens, Written-Reopens, disk_of}

-- The snapshot is on disk, the boundary has moved, and the log is as it was.
abbrev half_done : ℕ → ℕ → Bytes → Log → Log
half_done index term bytes l = record l {
  io = (next_io (next_io l.io).1).1;
  snapshot_file = some (snapshot_bytes (record { index = index; term = term; bytes = bytes }));
  snap_index = index;
  snap_term = term;
}

compact_interrupted :
    (index term : ℕ) (bytes : Bytes) (keep : List Entry) (l : Log)
    → (next_io l.io).0 ≡ done
    → (next_io (next_io l.io).1).0 ≡ failed 0
    → compact index term bytes keep l ≡ (half_done index term bytes l, err io_error)
unfolding compact rewrite_locked
compact_interrupted index term bytes keep l o o' = rw (o, o') refl

snapshot_interrupted :
    (index term : ℕ) (bytes : Bytes) (l : Log)
    → l.snap_index < index
    → index ≤ last_index l
    → (next_io l.io).0 ≡ done
    → (next_io (next_io l.io).1).0 ≡ failed 0
    → snapshot index term bytes l ≡ (half_done index term bytes l, err io_error)
snapshot_interrupted index term bytes l above within o o' =
    snapshot_above index term bytes l above within ∙ compact_interrupted index term bytes _ l o o'
  where
    snapshot_above :
        (index term : ℕ) (bytes : Bytes) (l : Log)
        → l.snap_index < index
        → index ≤ last_index l
        → snapshot index term bytes l
          ≡ compact index term bytes (drop (index - first_index l + 1) l.entries) l
    snapshot_above index term bytes l above within = unfold snapshot in ground arith

-- The first k of contiguous entries have indices below the k-th after their start.
Contiguous-covered :
    (k n bound : ℕ) (es : List Entry)
    → Contiguous n es
    → n + k ≤ suc bound
    → All (λ e. e.index ≤ bound) (take k es)
Contiguous-covered zero n bound es c h = tt
Contiguous-covered (suc k) n bound [] c h = tt
Contiguous-covered (suc k) n bound (e ∷ es) c h =
    (omega (arith, c.0), Contiguous-covered k (suc n) bound es c.1 (omega arith))

module _ (index term : ℕ) (bytes : Bytes) (l : Log) (s : IsSound l) (above : l.snap_index < index)
    (ht : term < 18446744073709551616) (hb : length bytes < 4294967296)
    (o : (next_io l.io).0 ≡ done) (o' : (next_io (next_io l.io).1).0 ≡ failed 0) where
  -- If, in a compaction of a sound log up to an index that it holds above its snapshot, with a
  -- term and bytes in range, the rewriting fails at once, or the machine stops there, after the
  -- snapshot was written, a restart finds the compaction finished: the entries above the index,
  -- and no others.
  pub snapshot_crash-Reopens :
      index ≤ last_index l
      → Reopens
          (disk_of (snapshot index term bytes l).0)
          index
          term
          (drop (index - l.snap_index) l.entries)
  snapshot_crash-Reopens within = rw (snapshot_interrupted index term bytes l above within o o') (
      Written-Reopens index term (take k l.entries) (drop k l.entries) []
        (disk_of (half_done index term bytes l))
        (record {
          is_file = s.on_disk ∙ split;
          torn = nil-IsTorn;
          covered =
              Contiguous-covered k (suc l.snap_index) index l.entries s.contiguous (omega arith);
          olds_fit = All-take Fits k l.entries s.fit;
          contiguous =
              Contiguous-drop k (suc l.snap_index) (suc index) l.entries s.contiguous
                (omega (arith, last_index-IsSound l s)) (omega arith);
          fit = All-drop Fits k l.entries s.fit;
          room = omega (arith, s.index_fits, last_index-IsSound l s, length-drop k l.entries);
        })
        (inr (bytes, refl, hb)) ht)
    where
      k : ℕ
      k = index - l.snap_index

      split :
          encode_all l.entries
          ≡ encode_all (take k l.entries) ++ (encode_all (drop k l.entries) ++ [])
      split =
          ap encode_all (sym (take-append-drop k l.entries))
          ∙ (encode_all-append (take k l.entries) (drop k l.entries)
              ∙ ap (λ x. encode_all (take k l.entries) ++ x) (sym (append-nil _)))

at_first :
    (l : Log)
    → is_empty l.entries ≡ false
    → suc l.snap_index ≤ last_index l
    → suc l.snap_index < 18446744073709551616
    → at l (suc l.snap_index) ≡ get_elem? l.entries 0
unfolding at
at_first l ne le room = rw (ne, first, ge→ltb _ _ le, start) (ground arith)
  where
    first : u64 (l.snap_index + 1) ≡ suc l.snap_index
    first = omega arith

    start : suc l.snap_index - suc l.snap_index ≡ 0
    start = omega arith

last_of-start : (a b : ℕ) (es : List Entry) → is_empty es ≡ false → last_of a es ≡ last_of b es
last_of-start a b [] h = cc
last_of-start a b (e ∷ es) h = refl

is_empty-pos : (es : List Entry) → 0 < length es → is_empty es ≡ false
is_empty-pos [] h = absurd (omega arith)
is_empty-pos (e ∷ es) h = refl

-- In memory, though, a rewriting that fails at once leaves the boundary of a sound log moved and
-- the entries as they were: for an index above the snapshot that is not the last, `At` of the
-- index after it then finds the entry of another index.
pub snapshot_error_misnumbers :
    (index term : ℕ) (bytes : Bytes) (l : Log)
    → IsSound l
    → l.snap_index < index
    → index < last_index l
    → (next_io l.io).0 ≡ done
    → (next_io (next_io l.io).1).0 ≡ failed 0
    → (e : Entry) × (at (snapshot index term bytes l).0 (suc index) ≡ some e)
      × (e.index ≡ suc l.snap_index)
      × (e.index ≢ suc index)
snapshot_error_misnumbers index term bytes l s above within o o' =
    let top = last_index-IsSound l s in
    let (e, found, i) =
      get_elem?-Contiguous (suc l.snap_index) 0 l.entries s.contiguous (omega arith) in
    rw (snapshot_interrupted index term bytes l above (omega arith) o o') (
      e,
      at_first (half_done index term bytes l) some_entry moved (omega (arith, s.index_fits))
          ∙ found,
      omega arith,
      λ q. omega arith,
    )
  where
    some_entry : is_empty l.entries ≡ false
    some_entry = is_empty-pos l.entries (omega (arith, last_index-IsSound l s))

    moved : suc index ≤ last_index (half_done index term bytes l)
    moved =
        unfold last_index in
        omega (arith, last_of-start index l.snap_index l.entries some_entry, within)
