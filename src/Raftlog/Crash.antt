-- ===== src/Raftlog/Crash.antt =====
-- internal/raftlog/log.go: what an operation that fails, or a crash at the same point, leaves on disk
-- and in memory.
use uptime_monitor.Prelude.{
  ℕ, suc, ◌+◌, ◌≤◌, ◌<◌, ◌≡◌, refl, sym, ap, ◌∙◌, Bool-cases, inl, inr, List, [], ◌∷◌, ◌++◌,
  if◌then◌else◌, ltb, ltb→lt, ltb→ge, length, take, take_all, length-append, append-nil, All-append,
  arith,
}
use uptime_monitor.Raftlog.Bytes.{Bytes}
use uptime_monitor.Raftlog.Error.{ok, err, io_error}
use uptime_monitor.Raftlog.Entry.{Entry, Fits}
use uptime_monitor.Raftlog.Record.{record_of, encode_all}
use uptime_monitor.Raftlog.Record.Files.{encode_all-snoc}
use uptime_monitor.Raftlog.Io.{failed}
use uptime_monitor.Raftlog.Log.{Log, at_path, u64, next_io, write_at, last_index, append_entry}
use uptime_monitor.Raftlog.Contiguous.{Contiguous-snoc}
use uptime_monitor.Raftlog.Sound.{IsSound, last_index-IsSound}
use uptime_monitor.Raftlog.Appending.{write_at-end}
use uptime_monitor.Raftlog.Recover.{Disk, open_log}
use uptime_monitor.Raftlog.Recover.Scanning.{nil-IsTorn, record-IsTorn}
use uptime_monitor.Raftlog.Recover.Reopening.{Written, HoldsSnapshot, holding, reopen}

abbrev pub disk_of : Log → Disk
disk_of l = record { file = l.file; snapshot_file = l.snapshot_file }

-- A restart on this disk finds a sound log of these entries above this snapshot.
abbrev pub Reopens : Disk → ℕ → ℕ → List Entry → Type 0
Reopens d si st es =
    (l : Log) × (open_log d [] ≡ ok l)
    × IsSound l
    × (l.entries ≡ es)
    × (l.snap_index ≡ si)
    × (l.snap_term ≡ st)

pub Written-Reopens :
    (si st : ℕ) (olds es : List Entry) (tail : Bytes) (d : Disk)
    → Written si olds es tail d.file
    → HoldsSnapshot si st d.snapshot_file
    → st < 18446744073709551616
    → Reopens d si st es
Written-Reopens si st olds es tail d w held ht =
    let (opened, sound) = reopen si st olds es tail d w held ht in
    (holding si st d.snapshot_file es, opened, sound, refl, refl, refl)

nothing_covered :
    (file : Bytes) (es : List Entry) (tail : Bytes)
    → file ≡ encode_all es ++ tail
    → file ≡ encode_all [] ++ (encode_all es ++ tail)
unfolding encode_all
nothing_covered file es tail h = h

-- A failing append, of which `n` bytes reach the file.
abbrev torn_by : ℕ → Entry → Log → Log
torn_by n e l = record l {
  io = (next_io l.io).1;
  file = write_at l.file l.end (take n (record_of e));
}

append_entry_failed :
    (n : ℕ) (e : Entry) (l : Log)
    → l.handle ≡ at_path
    → (next_io l.io).0 ≡ failed n
    → e.index ≡ u64 (last_index l + 1)
    → append_entry e l ≡ (torn_by n e l, err io_error)
unfolding append_entry
append_entry_failed n e l p o i = ground arith

module _ (n : ℕ) (e : Entry) (l : Log) (s : IsSound l) (f : Fits e)
    (i : e.index ≡ suc (last_index l)) (room : suc e.index < 18446744073709551616)
    (o : (next_io l.io).0 ≡ failed n) where
  torn_file :
      write_at l.file l.end (take n (record_of e)) ≡ encode_all l.entries ++ take n (record_of e)
  torn_file =
      write_at-end l.file (take n (record_of e)) l.end (s.at_end ∙ ap length (sym s.on_disk))
      ∙ ap (λ x. x ++ take n (record_of e)) s.on_disk

  torn_short :
      n < length (record_of e)
      → Reopens (disk_of (torn_by n e l)) l.snap_index l.snap_term l.entries
  torn_short short =
      Written-Reopens l.snap_index l.snap_term [] l.entries (take n (record_of e))
        (disk_of (torn_by n e l))
        (record {
          is_file = nothing_covered _ l.entries (take n (record_of e)) torn_file;
          torn = record-IsTorn e n f short;
          covered = tt;
          olds_fit = tt;
          contiguous = s.contiguous;
          fit = s.fit;
          room = s.index_fits;
        })
        s.snapshot_agrees s.term_fits

  torn_whole :
      length (record_of e) ≤ n
      → Reopens (disk_of (torn_by n e l)) l.snap_index l.snap_term (l.entries ++ e ∷ [])
  torn_whole long =
      let top = last_index-IsSound l s in
      Written-Reopens l.snap_index l.snap_term [] (l.entries ++ e ∷ []) [] (disk_of (torn_by n e l))
        (record {
          is_file = nothing_covered _ (l.entries ++ e ∷ []) [] (
              torn_file
              ∙ (ap (λ x. encode_all l.entries ++ x) (take_all n (record_of e) long)
                  ∙ (sym (encode_all-snoc l.entries e) ∙ sym (append-nil _))));
          torn = nil-IsTorn;
          covered = tt;
          olds_fit = tt;
          contiguous = Contiguous-snoc (suc l.snap_index) l.entries e s.contiguous (omega arith);
          fit = All-append Fits l.entries (e ∷ []) s.fit (f, tt);
          room = omega (arith, length-append l.entries (e ∷ []));
        })
        s.snapshot_agrees s.term_fits

  -- The append to a sound log of its next entry, with values in range, that fails with n bytes of
  -- the record written, or a crash at that point, is atomic: the error is reported, the log in
  -- memory holds what it held, and a restart finds the log without the entry, or with it if its
  -- whole record got to the file.
  pub append_entry_atomic :
      ((append_entry e l).1 ≡ err io_error)
      × ((append_entry e l).0.entries ≡ l.entries)
      × Reopens
          (disk_of (append_entry e l).0)
          l.snap_index
          l.snap_term
          (if ltb n (length (record_of e)) then l.entries else l.entries ++ e ∷ [])
  append_entry_atomic = rw (append_entry_failed n e l s.on_path o (omega arith)) (
    refl,
    refl,
    elim (Bool-cases (ltb n (length (record_of e)))) [
      | inl short ↦ rw short (torn_short (ltb→lt _ _ short))
      | inr long ↦ rw long (torn_whole (ltb→ge _ _ long))
    ],
  )
