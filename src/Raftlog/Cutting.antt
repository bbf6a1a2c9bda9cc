-- ===== src/Raftlog/Cutting.antt =====
-- internal/raftlog/log.go, `TruncateSuffix`.
use uptime_monitor.Prelude.{
  Bool, true, false, ◌||◌, ltb→ge, leb→gt, ℕ, suc, ◌-◌, ◌≤◌, ◌≡◌, refl, sym, ap, ◌∙◌, Bool-cases,
  inl, inr, ltb, leb, ltb→lt, leb→le, List, [], ◌∷◌, length, take, take_all, length-take, get_or,
  All-take, arith,
}
use uptime_monitor.Raftlog.Error.{Result, ok}
use uptime_monitor.Raftlog.Entry.{Entry, Fits}
use uptime_monitor.Raftlog.Record.{encode_all}
use uptime_monitor.Raftlog.Record.Files.{take-encode_all, take-starts, get_or-starts}
use uptime_monitor.Raftlog.Io.{done}
use uptime_monitor.Raftlog.Log.{Log, at_path, next_io, last_index, first_index, is_empty}
use uptime_monitor.Raftlog.Compact.{truncate_suffix}
use uptime_monitor.Raftlog.Contiguous.{Contiguous-take}
use uptime_monitor.Raftlog.Sound.{IsSound, last_index-IsSound, first_index-IsSound}

-- The log cut before its entry at `pos`, whose record starts at `cut`.
abbrev cut_log : ℕ → ℕ → Log → Log
cut_log pos cut l = record l {
  io = (next_io l.io).1;
  file = take cut l.file;
  entries = take pos l.entries;
  offsets = take pos l.offsets;
  end = cut;
}

truncate_none :
    (from : ℕ) (l : Log)
    → (is_empty l.entries || ltb (last_index l) from) ≡ true
    → truncate_suffix from l ≡ (l, ok tt)
unfolding truncate_suffix
truncate_none from l h = rw h

take_empty : (n : ℕ) (es : List Entry) → is_empty es ≡ true → es ≡ take n es
take_empty n [] h = sym (take_all n [] (omega arith))
take_empty n (e ∷ es) h = cc

truncate_done :
    (from : ℕ) (l : Log)
    → l.handle ≡ at_path
    → (next_io l.io).0 ≡ done
    → (is_empty l.entries || ltb (last_index l) from) ≡ false
    → leb from (first_index l) ≡ false
    → truncate_suffix from l
      ≡ (cut_log (from - first_index l) (get_or l.offsets (from - first_index l) 0) l, ok tt)
unfolding truncate_suffix
truncate_done from l p o h lo = ground arith

truncate_whole :
    (from : ℕ) (l : Log)
    → l.handle ≡ at_path
    → (next_io l.io).0 ≡ done
    → (is_empty l.entries || ltb (last_index l) from) ≡ false
    → leb from (first_index l) ≡ true
    → truncate_suffix from l ≡ (cut_log 0 0 l, ok tt)
unfolding truncate_suffix
truncate_whole from l p o h lo = ground arith

cut_log-IsSound :
    (pos cut : ℕ) (l : Log)
    → IsSound l
    → cut ≡ length (encode_all (take pos l.entries))
    → IsSound (cut_log pos cut l)
cut_log-IsSound pos cut l s e = record {
  on_path = s.on_path;
  on_disk =
      ap (λ n. take n l.file) e
      ∙ (ap (take (length (encode_all (take pos l.entries)))) s.on_disk
          ∙ take-encode_all pos l.entries);
  at_offsets = ap (take pos) s.at_offsets ∙ take-starts pos 0 l.entries;
  at_end = e;
  contiguous = Contiguous-take pos (suc l.snap_index) l.entries s.contiguous;
  fit = All-take Fits pos l.entries s.fit;
  index_fits = omega (arith, s.index_fits, length-take pos l.entries);
  term_fits = s.term_fits;
  snapshot_agrees = s.snapshot_agrees;
}

-- What a cut of a sound log is to achieve: it succeeds, and the log is sound and holds the entries
-- below `from` that it held, above the same snapshot.
abbrev pub CutsAt : ℕ → Log → Log × Result Unit → Type 0
CutsAt from l (l', r) =
    (r ≡ ok tt)
    × IsSound l'
    × (l'.entries ≡ take (from - suc l.snap_index) l.entries)
    × (l'.snap_index ≡ l.snap_index)

or-false : (a b : Bool) → (a || b) ≡ false → b ≡ false
or-false a b h = ground arith

module _ (from : ℕ) (l : Log) (s : IsSound l) (o : (next_io l.io).0 ≡ done) where
  cuts_nothing :
      (is_empty l.entries || ltb (last_index l) from) ≡ true
      → CutsAt from l (truncate_suffix from l)
  cuts_nothing h = rw (truncate_none from l h) (refl, s, kept, refl)
    where
      kept : l.entries ≡ take (from - suc l.snap_index) l.entries
      kept = elim (Bool-cases (is_empty l.entries)) [
        | inl none ↦ take_empty _ l.entries none
        | inr some ↦
            let above = ltb→lt (last_index l) from (rw some at h) in
            sym (take_all _ l.entries (omega (arith, last_index-IsSound l s, above)))
      ]

  cuts_all :
      (is_empty l.entries || ltb (last_index l) from) ≡ false
      → leb from (first_index l) ≡ true
      → CutsAt from l (truncate_suffix from l)
  cuts_all h low =
      let le = leb→le from (first_index l) low in
      rw (truncate_whole from l s.on_path o h low) (
        refl,
        cut_log-IsSound 0 0 l s (unfold encode_all in refl),
        ap (λ n. take n l.entries) {x = 0} (omega (arith, le, first_index-IsSound l s)),
        refl,
      )

  cuts_some :
      (is_empty l.entries || ltb (last_index l) from) ≡ false
      → leb from (first_index l) ≡ false
      → CutsAt from l (truncate_suffix from l)
  cuts_some h high = rw (truncate_done from l s.on_path o h high) (
    refl,
    cut_log-IsSound _ _ l s offset,
    ap (λ n. take n l.entries) (ap (λ n. from - n) first),
    refl,
  )
    where
      first : first_index l ≡ suc l.snap_index
      first = first_index-IsSound l s

      bound : from ≤ last_index l
      bound = ltb→ge (last_index l) from (or-false (is_empty l.entries) _ h)

      offset :
          get_or l.offsets (from - first_index l) 0
          ≡ length (encode_all (take (from - first_index l) l.entries))
      offset =
          ap (λ x. get_or x (from - first_index l) 0) s.at_offsets
          ∙ get_or-starts (from - first_index l) 0 l.entries (
              omega (arith, first, bound, leb→gt from (first_index l) high, last_index-IsSound l s))
          ∙ omega arith

-- `TruncateSuffix`, from any index, of a sound log whose writes go well: it succeeds, the log stays
-- sound, and it holds just the entries below that index, above the same snapshot.
pub truncate_suffix-IsSound :
    (from : ℕ) (l : Log)
    → IsSound l
    → (next_io l.io).0 ≡ done
    → CutsAt from l (truncate_suffix from l)
truncate_suffix-IsSound from l s o =
    elim (Bool-cases (is_empty l.entries || ltb (last_index l) from)) [
      | inl out ↦ cuts_nothing from l s o out
      | inr within ↦ elim (Bool-cases (leb from (first_index l))) [
        | inl low ↦ cuts_all from l s o within low
        | inr high ↦ cuts_some from l s o within high
      ]
    ]
