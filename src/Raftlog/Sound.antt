-- ===== src/Raftlog/Sound.antt =====
-- internal/raftlog/log.go: when the log in memory and the files agree, and what a log that does is
-- read as.
use uptime_monitor.Prelude.{
  ℕ, suc, ◌+◌, ◌-◌, ◌≤◌, ◌<◌, ◌≡◌, ◌⊎◌, refl, ap, ◌∙◌, true, false, none, some, List, [], ◌∷◌,
  length, get_elem?, All, arith,
}
use uptime_monitor.Raftlog.Bytes.{Bytes}
use uptime_monitor.Raftlog.Entry.{Entry, Fits}
use uptime_monitor.Raftlog.Record.{encode_all, starts}
use uptime_monitor.Raftlog.SnapshotFile.{snapshot_bytes}
use uptime_monitor.Raftlog.Log.{
  Log, at_path, u64, is_empty, term_of, last_index, first_index, at, term_at,
}
use uptime_monitor.Raftlog.Contiguous.{Contiguous, last_of-Contiguous, get_elem?-Contiguous}

-- The snapshot file holds a snapshot up to the boundary, or there is none and the log starts at 1.
abbrev pub SnapshotAgrees : Log → Type 0
SnapshotAgrees l =
    (l.snapshot_file ≡ none) × (l.snap_index ≡ 0) × (l.snap_term ≡ 0)
    ⊎ ((b : Bytes) × (l.snapshot_file
          ≡ some (snapshot_bytes (record { index = l.snap_index; term = l.snap_term; bytes = b })))
        × (length b < 4294967296))

pub record IsSound (l : Log) : Type 0 where
  pub on_path : l.handle ≡ at_path
  pub on_disk : l.file ≡ encode_all l.entries
  pub at_offsets : l.offsets ≡ starts 0 l.entries
  pub at_end : l.end ≡ length (encode_all l.entries)
  pub contiguous : Contiguous (suc l.snap_index) l.entries
  pub fit : All Fits l.entries
  pub index_fits : suc (l.snap_index + length l.entries) < 18446744073709551616
  pub term_fits : l.snap_term < 18446744073709551616
  pub snapshot_agrees : SnapshotAgrees l

pub last_index-IsSound : (l : Log) → IsSound l → last_index l ≡ l.snap_index + length l.entries
unfolding last_index
last_index-IsSound l s = last_of-Contiguous l.snap_index l.entries s.contiguous

pub first_index-IsSound : (l : Log) → IsSound l → first_index l ≡ suc l.snap_index
unfolding first_index
first_index-IsSound l s = omega (arith, s.index_fits)

is_empty-pos : (es : List Entry) → 0 < length es → is_empty es ≡ false
is_empty-pos [] h = absurd (omega arith)
is_empty-pos (e ∷ es) h = refl

-- What the reads compute to, once the bounds are known.
pub at_lem :
    (l : Log) (i : ℕ)
    → IsSound l
    → l.snap_index < i
    → i ≤ l.snap_index + length l.entries
    → at l i ≡ get_elem? l.entries (i - suc l.snap_index)
unfolding at
at_lem l i s lo hi =
    rw
      (
        is_empty-pos l.entries (omega arith),
        last_of-Contiguous l.snap_index l.entries s.contiguous,
        first,
      )
      (ground arith)
  where
    first : u64 (l.snap_index + 1) ≡ suc l.snap_index
    first = omega (arith, s.index_fits)

pub term_at_lem :
    (l : Log) (i : ℕ)
    → IsSound l
    → l.snap_index < i
    → i ≤ l.snap_index + length l.entries
    → term_at l i ≡ term_of (get_elem? l.entries (i - suc l.snap_index))
unfolding term_at
term_at_lem l i s lo hi =
    rw
      (
        is_empty-pos l.entries (omega arith),
        last_of-Contiguous l.snap_index l.entries s.contiguous,
        first,
      )
      (ground arith)
  where
    first : u64 (l.snap_index + 1) ≡ suc l.snap_index
    first = omega (arith, s.index_fits)

-- In a log that is sound, `At` and `TermAt` find the entry of each index above the snapshot up to the
-- last, under that index.
pub at-IsSound :
    (l : Log) (i : ℕ)
    → IsSound l
    → l.snap_index < i
    → i ≤ last_index l
    → (e : Entry) × (at l i ≡ some e) × (e.index ≡ i) × (term_at l i ≡ (e.term, true))
at-IsSound l i s lo hi =
    let top = last_index-IsSound l s in
    let (e, found, here) =
      get_elem?-Contiguous (suc l.snap_index) (i - suc l.snap_index) l.entries s.contiguous
        (omega arith) in
    (
      e,
      at_lem l i s lo (omega arith) ∙ found,
      omega arith,
      term_at_lem l i s lo (omega arith) ∙ ap term_of found,
    )
