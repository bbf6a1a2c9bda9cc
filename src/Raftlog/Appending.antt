-- ===== src/Raftlog/Appending.antt =====
-- internal/raftlog/log.go, `Append` and `AppendEntry`.
use uptime_monitor.Prelude.{
  ℕ, suc, ◌+◌, ◌-◌, ◌<◌, ◌≡◌, ◌≢◌, refl, sym, ap, ◌∙◌, [], ◌∷◌, ◌++◌, length, take_all, drop_all,
  append-nil, length-append, All-append, arith,
}
use uptime_monitor.Raftlog.Bytes.{Bytes}
use uptime_monitor.Raftlog.Error.{ok, err, non_contiguous}
use uptime_monitor.Raftlog.Entry.{Entry, Fits}
use uptime_monitor.Raftlog.Record.{record_of, encode_all, starts}
use uptime_monitor.Raftlog.Record.Files.{encode_all-snoc, starts-snoc}
use uptime_monitor.Raftlog.Io.{done}
use uptime_monitor.Raftlog.Log.{Log, at_path, u64, next_io, write_at, last_index, append_entry}
use uptime_monitor.Raftlog.Contiguous.{Contiguous-snoc}
use uptime_monitor.Raftlog.Sound.{IsSound, last_index-IsSound}

-- The log with `e` at its end, as a write that goes well leaves it.
abbrev pub extended : Entry → Log → Log
extended e l = record l {
  io = (next_io l.io).1;
  file = write_at l.file l.end (record_of e);
  entries = l.entries ++ e ∷ [];
  offsets = l.offsets ++ l.end ∷ [];
  end = l.end + length (record_of e);
}

append_entry_done :
    (e : Entry) (l : Log)
    → l.handle ≡ at_path
    → (next_io l.io).0 ≡ done
    → e.index ≡ u64 (last_index l + 1)
    → append_entry e l ≡ (extended e l, ok tt)
unfolding append_entry
append_entry_done e l p o i = ground arith

append_entry_refused :
    (e : Entry) (l : Log) (want : ℕ)
    → u64 (last_index l + 1) ≡ want
    → e.index ≢ want
    → append_entry e l ≡ (l, err (non_contiguous e.index want))
unfolding append_entry
append_entry_refused e l want w n = rw w (ground arith)

pub write_at-end : (file b : Bytes) (off : ℕ) → off ≡ length file → write_at file off b ≡ file ++ b
write_at-end file b off h =
    rw
      (
        take_all off file (omega arith),
        drop_all (off + length b) file (omega arith),
        append-nil b,
        no_gap,
      )
      refl
  where
    no_gap : off - length file ≡ 0
    no_gap = omega arith

extended-IsSound :
    (e : Entry) (l : Log)
    → IsSound l
    → Fits e
    → e.index ≡ suc (last_index l)
    → suc e.index < 18446744073709551616
    → IsSound (extended e l)
extended-IsSound e l s f i room = record {
  on_path = s.on_path;
  on_disk =
      write_at-end l.file (record_of e) l.end (s.at_end ∙ ap length (sym s.on_disk))
      ∙ (ap (λ x. x ++ record_of e) s.on_disk ∙ sym (encode_all-snoc l.entries e));
  at_offsets =
      ap (λ x. x ++ l.end ∷ []) s.at_offsets
      ∙ ap (λ n. starts 0 l.entries ++ n ∷ []) (omega (arith, s.at_end))
      ∙ sym (starts-snoc 0 l.entries e);
  at_end = omega (
    arith,
    s.at_end,
    length-append (encode_all l.entries) (record_of e),
    ap length (encode_all-snoc l.entries e),
  );
  contiguous =
      Contiguous-snoc (suc l.snap_index) l.entries e s.contiguous
        (omega (arith, last_index-IsSound l s));
  fit = All-append Fits l.entries (e ∷ []) s.fit (f, tt);
  index_fits = omega (arith, last_index-IsSound l s, length-append l.entries (e ∷ []));
  term_fits = s.term_fits;
  snapshot_agrees = s.snapshot_agrees;
}

-- `AppendEntry` of the next entry, with values in range, to a sound log, when its write goes well,
-- succeeds: the log is sound again, and holds what it held and then the entry, above the same
-- snapshot.
pub append_entry-IsSound :
    (e : Entry) (l : Log)
    → IsSound l
    → Fits e
    → e.index ≡ suc (last_index l)
    → suc e.index < 18446744073709551616
    → (next_io l.io).0 ≡ done
    → ((append_entry e l).1 ≡ ok tt)
      × IsSound (append_entry e l).0
      × ((append_entry e l).0.entries ≡ l.entries ++ e ∷ [])
      × ((append_entry e l).0.snap_index ≡ l.snap_index)
append_entry-IsSound e l s f i room o =
    rw (append_entry_done e l s.on_path o (omega arith))
      (refl, extended-IsSound e l s f i room, refl, refl)
