-- ===== src/Raftlog/Compacting.antt =====
-- internal/raftlog/log.go, `Snapshot` and `InstallSnapshot`.
use uptime_monitor.Prelude.{
  ℕ, suc, ◌+◌, ◌-◌, ◌≤◌, ◌<◌, ◌≡◌, refl, sym, ap, ◌∙◌, Bool, true, false, ◌&&◌, Bool-cases, inl,
  inr, some, List, [], if◌then◌else◌, leb, ◌==◌, leb→le, le→leb, gt→leb, length, drop, length-drop,
  get_elem?, All, All-drop, arith,
}
use uptime_monitor.Raftlog.Bytes.{Bytes}
use uptime_monitor.Raftlog.Error.{Result, ok}
use uptime_monitor.Raftlog.Entry.{Entry, Fits}
use uptime_monitor.Raftlog.Record.{encode_all, starts}
use uptime_monitor.Raftlog.Io.{Outcome, done}
use uptime_monitor.Raftlog.SnapshotFile.{Snapshot, snapshot_bytes}
use uptime_monitor.Raftlog.SnapshotFile.Laws.{read-snapshot_bytes}
use uptime_monitor.Raftlog.Log.{
  Log, at_path, next_io, last_index, first_index, term_at, term_of, snapshot_data,
}
use uptime_monitor.Raftlog.Compact.{rewrite_locked, compact, snapshot, install_snapshot, has_entry}
use uptime_monitor.Raftlog.Contiguous.{Contiguous, Contiguous-drop}
use uptime_monitor.Raftlog.Sound.{IsSound, last_index-IsSound, first_index-IsSound, term_at_lem}

-- The two operations that write, the snapshot file and the rewriting, go well.
abbrev pub TwoDone : List Outcome → Type 0
TwoDone io = ((next_io io).0 ≡ done) × ((next_io (next_io io).1).0 ≡ done)

-- The log that holds `keep` above the snapshot.
abbrev compacted : ℕ → ℕ → Bytes → List Entry → Log → Log
compacted index term bytes keep l = record l {
  io = (next_io (next_io l.io).1).1;
  snapshot_file = some (snapshot_bytes (record { index = index; term = term; bytes = bytes }));
  snap_index = index;
  snap_term = term;
  handle = at_path;
  file = encode_all keep;
  entries = keep;
  offsets = starts 0 keep;
  end = length (encode_all keep);
}

compact_done :
    (index term : ℕ) (bytes : Bytes) (keep : List Entry) (l : Log)
    → l.handle ≡ at_path
    → TwoDone l.io
    → compact index term bytes keep l ≡ (compacted index term bytes keep l, ok tt)
unfolding compact rewrite_locked
compact_done index term bytes keep l p o = ground arith

-- What a compaction is to achieve: it succeeds, and the log is sound, has the snapshot, whose bytes
-- can be read, and holds the entries `keep` above it.
abbrev pub CompactsTo : ℕ → ℕ → Bytes → List Entry → Log × Result Unit → Type 0
CompactsTo index term bytes keep (l, r) =
    (r ≡ ok tt)
    × IsSound l
    × (l.entries ≡ keep)
    × (l.snap_index ≡ index)
    × (l.snap_term ≡ term)
    × (snapshot_data l ≡ some bytes)

snapshot_data_lem :
    (l : Log) (s : Snapshot)
    → l.snapshot_file ≡ some (snapshot_bytes s)
    → 0 < l.snap_index
    → s.index < 18446744073709551616
    → s.term < 18446744073709551616
    → length s.bytes < 4294967296
    → snapshot_data l ≡ some s.bytes
unfolding snapshot_data
snapshot_data_lem l s f pos hi ht hb =
    rw (f, read-snapshot_bytes s (omega arith) (omega arith) (omega arith)) (ground arith)

compact-CompactsTo :
    (index term : ℕ) (bytes : Bytes) (keep : List Entry) (l : Log)
    → l.handle ≡ at_path
    → TwoDone l.io
    → Contiguous (suc index) keep
    → All Fits keep
    → 0 < index
    → suc (index + length keep) < 18446744073709551616
    → term < 18446744073709551616
    → length bytes < 4294967296
    → CompactsTo index term bytes keep (compact index term bytes keep l)
compact-CompactsTo index term bytes keep l p o c fit pos hi ht hb =
    rw (compact_done index term bytes keep l p o) (
      refl,
      record {
        on_path = refl;
        on_disk = refl;
        at_offsets = refl;
        at_end = refl;
        contiguous = c;
        fit = fit;
        index_fits = hi;
        term_fits = ht;
        snapshot_agrees = inr (bytes, refl, hb);
      },
      refl,
      refl,
      refl,
      snapshot_data_lem (compacted index term bytes keep l)
          (record { index = index; term = term; bytes = bytes }) refl pos (omega arith) ht hb,
    )

-- Whether the log agrees with a snapshot at its last index.
abbrev pub agrees : ℕ → ℕ → Log → Bool
agrees index term l = leb index (last_index l) && (term_at l index).0 == term

agrees-le : (index term : ℕ) (l : Log) → agrees index term l ≡ true → index ≤ last_index l
agrees-le index term l h = ground arith

has_entry_out :
    (index term : ℕ) (l : Log)
    → leb index (last_index l) ≡ false
    → has_entry index term l ≡ agrees index term l
unfolding has_entry
has_entry_out index term l h = rw h (ground arith)

has_entry_terms :
    (index term : ℕ) (l : Log)
    → first_index l ≤ index
    → (term_of (get_elem? l.entries (index - first_index l))).0 ≡ (term_at l index).0
    → has_entry index term l ≡ agrees index term l
unfolding has_entry
has_entry_terms index term l h t = rw (le→leb _ _ h, t)

install_lem :
    (index term : ℕ) (bytes : Bytes) (l : Log)
    → l.snap_index < index
    → install_snapshot index term bytes l
      ≡ compact index term bytes
          (if has_entry index term l then drop (index - first_index l + 1) l.entries else [])
          l
unfolding install_snapshot
install_lem index term bytes l h = rw (gt→leb _ _ h)

module _ (index term : ℕ) (bytes : Bytes) (l : Log) (s : IsSound l) (o : TwoDone l.io)
    (ht : term < 18446744073709551616) (hb : length bytes < 4294967296)
    (above : l.snap_index < index) where
  -- Keeping what is above an index that the log holds.
  compact-drop :
      (k : ℕ)
      → k ≡ index - l.snap_index
      → index ≤ last_index l
      → CompactsTo index term bytes
          (drop k l.entries)
          (compact index term bytes (drop k l.entries) l)
  compact-drop k e within =
      let top = last_index-IsSound l s in
      compact-CompactsTo index term bytes (drop k l.entries) l s.on_path o
        (Contiguous-drop k (suc l.snap_index) (suc index) l.entries s.contiguous (omega arith)
          (omega arith))
        (All-drop Fits k l.entries s.fit) (omega arith)
        (omega (arith, length-drop k l.entries, s.index_fits)) ht hb

  snapshot_lem :
      index ≤ last_index l
      → snapshot index term bytes l
        ≡ compact index term bytes (drop (index - first_index l + 1) l.entries) l
  unfolding snapshot
  snapshot_lem within = ground arith

  -- `Snapshot` of a sound log whose two writes go well, up to an index that it holds above its
  -- snapshot, with a term and bytes in range, succeeds: the log is sound, with that snapshot, and
  -- keeps exactly the entries above the index.
  pub snapshot-CompactsTo :
      index ≤ last_index l
      → CompactsTo index term bytes
          (drop (index - l.snap_index) l.entries)
          (snapshot index term bytes l)
  snapshot-CompactsTo within =
      rw (snapshot_lem within, dropped) (compact-drop (index - l.snap_index) refl within)
    where
      dropped : index - first_index l + 1 ≡ index - l.snap_index
      dropped = omega (arith, first_index-IsSound l s)

  has_entry-agrees : has_entry index term l ≡ agrees index term l
  has_entry-agrees = elim (Bool-cases (leb index (last_index l))) [
    | inr out ↦ has_entry_out index term l out
    | inl within ↦ has_entry_terms index term l (omega (arith, first_index-IsSound l s)) (
        ap (λ (p : ℕ × Bool). p.0)
          (ap (λ k. term_of (get_elem? l.entries (index - k))) (first_index-IsSound l s)
            ∙ sym (
                term_at_lem l index s above
                  (omega (arith, last_index-IsSound l s, leb→le _ _ within)))))
  ]

  -- `InstallSnapshot` of a newer snapshot, with values in range, into a sound log whose two writes
  -- go well succeeds: the log is sound, with that snapshot, and keeps what is above it if it had
  -- an entry of the snapshot's term at its last index, and otherwise nothing.
  pub install_snapshot-CompactsTo :
      suc index < 18446744073709551616
      → CompactsTo index term bytes
          (if agrees index term l then drop (index - l.snap_index) l.entries else [])
          (install_snapshot index term bytes l)
  install_snapshot-CompactsTo room =
      rw (install_lem index term bytes l above, has_entry-agrees)
        (rw dropped (elim (Bool-cases (agrees index term l)) [
          | inl e ↦ rw e (compact-drop (index - l.snap_index) refl (agrees-le index term l e))
          | inr e ↦ rw e (
              compact-CompactsTo index term bytes [] l s.on_path o tt tt (omega arith) (omega arith)
                ht hb)
        ]))
    where
      dropped : index - first_index l + 1 ≡ index - l.snap_index
      dropped = omega (arith, first_index-IsSound l s)
