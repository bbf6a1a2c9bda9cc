-- ===== src/Raft/Merge.antt =====
-- internal/raft/raft.go, `HandleAppendEntries`: how the entries of a message meet those of the log.
use uptime_monitor.Prelude.{
  ℕ, zero, suc, ◌+◌, ◌-◌, ◌≤◌, ◌<◌, ◌≡◌, refl, sym, ap, ◌∙◌, true, false, Bool-cases, inl, inr,
  some, List, [], ◌∷◌, ◌++◌, if◌then◌else◌, leb, leb→le, leb→gt, ◌==◌, length, take, drop,
  get_elem?, length-append, append_assoc, append-nil, length-take, take_all, drop_all,
  take-append-drop, All, arith,
}
use uptime_monitor.Raftlog.Io.{done}
use uptime_monitor.Raftlog.Entry.{Entry, Fits}
use uptime_monitor.Raftlog.Log.{Log, u64, next_io, last_index, term_at, append_entry}
use uptime_monitor.Raftlog.Compact.{truncate_suffix}
use uptime_monitor.Raftlog.Contiguous.{Contiguous}
use uptime_monitor.Raftlog.Sound.{IsSound, last_index-IsSound, term_at_lem}
use uptime_monitor.Raftlog.Appending.{append_entry-IsSound}
use uptime_monitor.Raftlog.Cutting.{truncate_suffix-IsSound}
use uptime_monitor.Raft.Handlers.{append_all, merge_entries}

-- The specification, over the entries from the same index on: the log's entries stay for as long as
-- the terms agree, and at the first conflict the message's take their place. A message that ends
-- first removes nothing.
abbrev pub merged : List Entry → List Entry → List Entry
merged olds [] = olds
merged [] (n ∷ news) = n ∷ news
merged (o ∷ olds) (n ∷ news) = if o.term == n.term then o ∷ merged olds news else n ∷ news

-- No write fails from here on.
abbrev pub AllDone : Log → Type 0
AllDone l = l.io ≡ []

AllDone-next : (l : Log) → AllDone l → (next_io l.io).0 ≡ done
AllDone-next l h = ap (λ x. (next_io x).0) h

AllDone-append : (e : Entry) (l : Log) → AllDone l → AllDone (append_entry e l).0
unfolding append_entry
AllDone-append e l h = ground arith

AllDone-truncate : (from : ℕ) (l : Log) → AllDone l → AllDone (truncate_suffix from l).0
unfolding truncate_suffix
AllDone-truncate from l h = ground arith

-- A sound log after a change that keeps its snapshot.
abbrev pub Holds : Log → ℕ → List Entry → Type 0
Holds l si es = IsSound l × AllDone l × (l.snap_index ≡ si) × (l.entries ≡ es)

append_all-Holds :
    (es : List Entry) (l : Log)
    → IsSound l
    → AllDone l
    → Contiguous (suc (last_index l)) es
    → All Fits es
    → suc (last_index l + length es) < 18446744073709551616
    → Holds (append_all es l) l.snap_index (l.entries ++ es)
unfolding append_all
append_all-Holds [] l s d c f room = (s, d, refl, sym (append-nil l.entries))
append_all-Holds (e ∷ es) l s d c f room =
    let (res, s', ents, snap) =
      append_entry-IsSound e l s f.0 c.0 (omega (arith, c.0)) (AllDone-next l d) in
    let last : last_index (append_entry e l).0 ≡ suc (last_index l) =
      last_index-IsSound (append_entry e l).0 s'
      ∙ omega
          (arith, snap, ap length ents, length-append l.entries (e ∷ []), last_index-IsSound l s) in
    let (s2, d2, snap2, ents2) =
      append_all-Holds es (append_entry e l).0 s' (AllDone-append e l d) (rw last c.1) f.1
        (omega (arith, last, room)) in
    (s2, d2, snap2 ∙ snap, ents2 ∙ ap (λ x. x ++ es) ents ∙ append_assoc l.entries (e ∷ []) es)

-- An entry of the log, with those before it and after it.
split_at :
    (k : ℕ) (xs : List Entry)
    → k < length xs
    → (x : Entry) × (get_elem? xs k ≡ some x)
      × (drop k xs ≡ x ∷ drop (suc k) xs)
      × (take (suc k) xs ≡ take k xs ++ x ∷ [])
split_at k [] h = absurd (omega arith)
split_at zero (x ∷ xs) h = (x, refl, refl, refl)
split_at (suc k) (x ∷ xs) h =
    let (y, a, b, c) = split_at k xs (omega arith) in (y, a, b, ap (λ t. x ∷ t) c)

module _ (idx : ℕ) (e : Entry) (es : List Entry) (l : Log) where
  merge_same :
      leb idx (last_index l) ≡ true
      → ((term_at l idx).0 == e.term) ≡ true
      → merge_entries idx (e ∷ es) l ≡ merge_entries (u64 (idx + 1)) es l
  unfolding merge_entries
  merge_same within same = rw within (rw same refl)

  merge_conflict :
      leb idx (last_index l) ≡ true
      → ((term_at l idx).0 == e.term) ≡ false
      → merge_entries idx (e ∷ es) l ≡ append_all (e ∷ es) (truncate_suffix idx l).0
  unfolding merge_entries
  merge_conflict within differs = rw within (rw differs refl)

  merge_past : leb idx (last_index l) ≡ false → merge_entries idx (e ∷ es) l ≡ append_all (e ∷ es) l
  unfolding merge_entries
  merge_past past = rw past refl

merged_same :
    (o e : Entry) (olds es : List Entry)
    → (o.term == e.term) ≡ true
    → merged (o ∷ olds) (e ∷ es) ≡ o ∷ merged olds es
merged_same o e olds es h = rw h refl

merged_conflict :
    (o e : Entry) (olds es : List Entry)
    → (o.term == e.term) ≡ false
    → merged (o ∷ olds) (e ∷ es) ≡ e ∷ es
merged_conflict o e olds es h = rw h refl

merged_nothing : (es : List Entry) → merged [] es ≡ es
merged_nothing [] = refl
merged_nothing (e ∷ es) = refl

merge_nothing : (idx : ℕ) (l : Log) → merge_entries idx [] l ≡ l
unfolding merge_entries
merge_nothing idx l = refl

-- What the loop meets at a position of the log.
term_at_position :
    (k : ℕ) (o : Entry) (l : Log)
    → IsSound l
    → k < length l.entries
    → get_elem? l.entries k ≡ some o
    → (term_at l (suc (l.snap_index + k))).0 ≡ o.term
term_at_position k o l s lt found =
    let i : suc (l.snap_index + k) - suc l.snap_index ≡ k = omega arith in
    rw (term_at_lem l (suc (l.snap_index + k)) s (omega arith) (omega (arith, lt)), i, found) refl

conflict-Holds :
    (k : ℕ) (es : List Entry) (l : Log)
    → IsSound l
    → AllDone l
    → k ≤ length l.entries
    → Contiguous (suc (l.snap_index + k)) es
    → All Fits es
    → suc (l.snap_index + k + length es) < 18446744073709551616
    → Holds
        (append_all es (truncate_suffix (suc (l.snap_index + k)) l).0)
        l.snap_index
        (take k l.entries ++ es)
conflict-Holds k es l s d at c f room =
    let idx = suc (l.snap_index + k) in
    let l' = (truncate_suffix idx l).0 in
    let (res, s', ents, snap) = truncate_suffix-IsSound idx l s (AllDone-next l d) in
    let pos : idx - suc l.snap_index ≡ k = omega arith in
    let ents' : l'.entries ≡ take k l.entries = ents ∙ ap (λ i. take i l.entries) pos in
    let last : last_index l' ≡ l.snap_index + k =
      last_index-IsSound l' s'
      ∙ omega (arith, snap, ap length ents', length-take k l.entries, at) in
    let (s2, d2, snap2, ents2) =
      append_all-Holds es l' s' (AllDone-truncate idx l d) (rw last c) f
        (omega (arith, last, room)) in
    (s2, d2, snap2 ∙ snap, ents2 ∙ ap (λ x. x ++ es) ents')

moved :
    (k : ℕ) (o e : Entry) (es xs : List Entry)
    → drop k xs ≡ o ∷ drop (suc k) xs
    → take (suc k) xs ≡ take k xs ++ o ∷ []
    → (o.term == e.term) ≡ true
    → take (suc k) xs ++ merged (drop (suc k) xs) es ≡ take k xs ++ merged (drop k xs) (e ∷ es)
moved k o e es xs rest front same =
    rw (front, rest, merged_same o e (drop (suc k) xs) es same)
      (append_assoc (take k xs) (o ∷ []) (merged (drop (suc k) xs) es))

-- The loop over the entries of a message, on a sound log whose writes go well, keeps the log sound
-- and makes its entries what the specification says, from the position k of the first one on.
pub merge_entries-Holds :
    (k : ℕ) (es : List Entry) (l : Log)
    → IsSound l
    → AllDone l
    → k ≤ length l.entries
    → Contiguous (suc (l.snap_index + k)) es
    → All Fits es
    → suc (l.snap_index + k + length es) < 18446744073709551616
    → Holds
        (merge_entries (suc (l.snap_index + k)) es l)
        l.snap_index
        (take k l.entries ++ merged (drop k l.entries) es)
merge_entries-Holds k [] l s d at c f room =
    rw (merge_nothing (suc (l.snap_index + k)) l) (s, d, refl, sym (take-append-drop k l.entries))
merge_entries-Holds k (e ∷ es) l s d at c f room =
    let idx = suc (l.snap_index + k) in
    let top = last_index-IsSound l s in
    elim (Bool-cases (leb idx (last_index l))) [
      | inl within ↦
          let lt : k < length l.entries = omega (arith, leb→le _ _ within, top) in
          let (o, found, rest, front) = split_at k l.entries lt in
          let terms = term_at_position k o l s lt found in
          elim (Bool-cases (o.term == e.term)) [
            | inl same ↦
                let next : u64 (idx + 1) ≡ suc (l.snap_index + suc k) = omega (arith, room) in
                let shift : l.snap_index + suc k ≡ suc (l.snap_index + k) = omega arith in
                let (s2, d2, snap2, ents2) =
                  merge_entries-Holds (suc k) es l s d lt (rw shift c.1) f.1
                    (omega (arith, room)) in
                rw (merge_same idx e es l within (ap (λ t. t == e.term) terms ∙ same), next)
                  (s2, d2, snap2, ents2 ∙ moved k o e es l.entries rest front same)
            | inr differs ↦
                rw
                  (
                    merge_conflict idx e es l within (ap (λ t. t == e.term) terms ∙ differs),
                    rest,
                    merged_conflict o e (drop (suc k) l.entries) es differs,
                  )
                  (conflict-Holds k (e ∷ es) l s d at c f room)
          ]
      | inr past ↦
          let gone : length l.entries ≤ k = omega (arith, leb→gt _ _ past, top) in
          let here : last_index l ≡ l.snap_index + k = omega (arith, gone, at, top) in
          let (s2, d2, snap2, ents2) =
            append_all-Holds (e ∷ es) l s d (rw here c) f (omega (arith, room, gone, at, top)) in
          rw (merge_past idx e es l past, drop_all k l.entries gone, take_all k l.entries gone)
            (s2, d2, snap2, ents2)
    ]
