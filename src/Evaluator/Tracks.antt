-- ===== src/Evaluator/Tracks.antt =====
-- cmd/evaluator/main.go: the evaluator and the database over a sequence of results and ticks.
use uptime_monitor.Prelude.{
  ℕ, ℤ, eq_ℤ, eq_ℤ_iff, true, false, Bool-cases, none, some, some-injective, List, [], ◌∷◌, lookup,
  insert, int_eq, All, ◌≡◌, ◌⊎◌, refl, sym, subst, ◌∙◌, inl, inr, arith,
}
use uptime_monitor.Message.{CheckResult}
use uptime_monitor.Evaluate.{new_monitor}
use uptime_monitor.Store.{Db}
use uptime_monitor.Store.Incidents.Count.{open_for, Holds}
use uptime_monitor.Evaluator.{
  Entry, Evaluator, World, Effect, insert_check, entry_or_new, handle_entry, handle_result,
  tick_entries, tick,
}
use uptime_monitor.Evaluator.Books.{
  perform, perform_all, perform_all-append, IsOf, side-Holds, others-Holds,
}
use uptime_monitor.Evaluator.Incidents.{evaluated, evaluated-Served, handle_entry-Served}

-- The monitor of an entry has an open incident if it is confirmed down, one, and else none.
abbrev pub Tracked : Db → ℤ × Entry → Type 0
Tracked db (k, en) = (en.id ≡ k) × Holds en.id (open_for en.engine.confirmed_up) db

abbrev IsOther : ℤ → ℤ × Entry → Type 0
IsOther id (k, en) = eq_ℤ id en.id ≡ false

abbrev pub AreApart : List (ℤ × Entry) → Type 0
AreApart [] = Unit
AreApart ((k, en) ∷ rest) = All (IsOther en.id) rest × AreApart rest

-- Every entry is tracked, and no two are of one monitor.
abbrev pub Tracks : Evaluator → Db → Type 0
Tracks e db = All (Tracked db) e.monitors × AreApart e.monitors

pub All-insert :
    (P : ℤ × Entry → Type 0) (k : ℤ) (en : Entry) (ms : List (ℤ × Entry))
    → P (k, en)
    → ((j : ℤ) → eq_ℤ j k ≡ true → P (j, en))
    → All P ms
    → All P (insert k en ms)
All-insert P k en [] p q ps = (p, tt)
All-insert P k en ((j, x) ∷ ms) p q (h, ps) = elim (Bool-cases (eq_ℤ j k)) [
  | inl g ↦ rw g (q j g, ps)
  | inr g ↦ rw g (h, All-insert P k en ms p q ps)
]

neq_sym : (a b : ℤ) → eq_ℤ a b ≡ false → eq_ℤ b a ≡ false
neq_sym a b h = ground (arith, eq_ℤ_iff a b, eq_ℤ_iff b a)

other_id :
    (j k : ℤ) (x en : Entry) → x.id ≡ j → en.id ≡ k → eq_ℤ j k ≡ false → eq_ℤ x.id en.id ≡ false
other_id j k x en at same g =
    subst (λ i. eq_ℤ i en.id ≡ false) (sym at) (subst (λ i. eq_ℤ j i ≡ false) (sym same) g)

pub insert-AreApart :
    (k : ℤ) (en : Entry) (db : Db) (ms : List (ℤ × Entry))
    → en.id ≡ k
    → All (Tracked db) ms
    → AreApart ms
    → AreApart (insert k en ms)
insert-AreApart k en db [] same ts apart = (tt, tt)
insert-AreApart k en db ((j, x) ∷ ms) same ((at, h), ts) (os, apart) =
    elim (Bool-cases (eq_ℤ j k)) [
      | inl g ↦
          rw g (subst (λ i. All (IsOther i) ms) (at ∙ (eq_ℤ_iff j k).0 g ∙ sym same) os, apart)
      | inr g ↦
          let o : eq_ℤ x.id en.id ≡ false = other_id j k x en at same g in
          rw g (
            All-insert (IsOther x.id) k en ms o (λ i e. o) os,
            insert-AreApart k en db ms same ts apart,
          )
    ]

lookup-Tracked :
    (db : Db) (k : ℤ) (ms : List (ℤ × Entry)) (en : Entry)
    → lookup k ms ≡ some en
    → All (Tracked db) ms
    → (en.id ≡ k) × Holds en.id (open_for en.engine.confirmed_up) db
lookup-Tracked db k [] en found ts = absurd (ground (arith, found))
lookup-Tracked db k ((j, x) ∷ ms) en found ((at, h), ts) = elim (Bool-cases (eq_ℤ j k)) [
  | inl g ↦
      subst (λ (y : Entry). (y.id ≡ k) × Holds y.id (open_for y.engine.confirmed_up) db)
        (some-injective x en (rw g at found)) (at ∙ (eq_ℤ_iff j k).0 g, h)
  | inr g ↦ lookup-Tracked db k ms en (rw g at found) ts
]

-- A monitor that a result may name: one with an entry, or one of the database with no open incident.
abbrev pub IsKnown : Evaluator → Db → ℤ → Type 0
IsKnown e db k =
    ((en : Entry) × (lookup k e.monitors ≡ some en)) ⊎ ((lookup k e.monitors ≡ none) × Holds k 0 db)

entry_or_new-Tracked :
    (e : Evaluator) (r : CheckResult) (db : Db)
    → IsKnown e db r.monitor_id
    → All (Tracked db) e.monitors
    → Tracked db (r.monitor_id, entry_or_new e r (lookup r.monitor_id e.monitors))
unfolding entry_or_new new_monitor
entry_or_new-Tracked e r db (inl (en, found)) ts =
    rw found (lookup-Tracked db r.monitor_id e.monitors en found ts)
entry_or_new-Tracked e r db (inr (missing, h)) ts = rw missing (refl, h)

module _ (w : World) where
  -- The effects of a monitor leave the entries of others tracked.
  others-Tracked :
      (id : ℤ) (xs : List Effect) (db : Db) (ms : List (ℤ × Entry))
      → All (IsOf id) xs
      → All (IsOther id) ms
      → All (Tracked db) ms
      → All (Tracked (perform_all w.now xs db)) ms
  others-Tracked id xs db [] of os ts = tt
  others-Tracked id xs db ((k, en) ∷ ms) of (o, os) ((same, h), ts) = (
    (same, others-Holds w.now id en.id (open_for en.engine.confirmed_up) xs db o of h),
    others-Tracked id xs db ms of os ts,
  )

  insert-Tracked :
      (en : Entry) (xs : List Effect) (db : Db) (k : ℤ) (ms : List (ℤ × Entry))
      → en.id ≡ k
      → All (IsOf en.id) xs
      → Holds en.id (open_for en.engine.confirmed_up) (perform_all w.now xs db)
      → All (Tracked db) ms
      → AreApart ms
      → All (Tracked (perform_all w.now xs db)) (insert k en ms)
  insert-Tracked en xs db k [] same of new ts apart = ((same, new), tt)
  insert-Tracked en xs db k ((j, x) ∷ ms) same of new ((at, h), ts) (os, apart) =
      elim (Bool-cases (eq_ℤ j k)) [
        | inl g ↦
            let here_is : x.id ≡ en.id = at ∙ (eq_ℤ_iff j k).0 g ∙ sym same in
            rw g (
              (same ∙ sym ((eq_ℤ_iff j k).0 g), new),
              others-Tracked en.id xs db ms of (subst (λ i. All (IsOther i) ms) here_is os) ts,
            )
        | inr g ↦
            let o : eq_ℤ en.id x.id ≡ false = neq_sym x.id en.id (other_id j k x en at same g) in
            rw g (
              (at, others-Holds w.now en.id x.id (open_for x.engine.confirmed_up) xs db o of h),
              insert-Tracked en xs db k ms same of new ts apart,
            )
      ]

  others_stored :
      (r : CheckResult) (db : Db) (ms : List (ℤ × Entry))
      → All (Tracked db) ms
      → All (Tracked (perform w.now (insert_check r) db)) ms
  others_stored r db [] ts = tt
  others_stored r db ((k, en) ∷ ms) ((same, h), ts) = (
    (same, side-Holds w.now en.id (open_for en.engine.confirmed_up) (insert_check r) db tt h),
    others_stored r db ms ts,
  )

  handle_result-Tracks :
      (e : Evaluator) (r : CheckResult) (db : Db)
      → IsKnown e db r.monitor_id
      → Tracks e db
      → Tracks (handle_result w e (some r)).0 (perform_all w.now (handle_result w e (some r)).1 db)
  unfolding handle_result perform_all
  handle_result-Tracks e r db known (ts, apart) =
      let en : Entry = entry_or_new e r (lookup r.monitor_id e.monitors) in
      let (same, h) = entry_or_new-Tracked e r db known ts in
      let (kept, of, holds) = handle_entry-Served w e en r in
      let stored : Db = perform w.now (insert_check r) db in
      let stored_ts : All (Tracked stored) e.monitors = others_stored r db e.monitors ts in
      let en' : Entry = (handle_entry w e en r).0 in
      (
        insert-Tracked en' (handle_entry w e en r).1 stored r.monitor_id e.monitors (kept ∙ same)
            (subst (λ i. All (IsOf i) (handle_entry w e en r).1) (sym kept) of)
            (subst
              (λ i.
                Holds i (open_for en'.engine.confirmed_up)
                  (perform_all w.now (handle_entry w e en r).1 stored))
              (sym kept)
              (holds stored (
                side-Holds w.now en.id (open_for en.engine.confirmed_up) (insert_check r) db tt h)))
            stored_ts apart,
        insert-AreApart r.monitor_id en' db e.monitors (kept ∙ same) ts apart,
      )

  module _ (e : Evaluator) where
    -- The ticks of the rest leave a monitor that is not among them.
    tick_entries-other :
        (id : ℤ) (n : ℕ) (db : Db) (ms : List (ℤ × Entry))
        → All (IsOther id) ms
        → Holds id n db
        → Holds id n (perform_all w.now (tick_entries w e ms).1 db)
    unfolding tick_entries perform_all
    tick_entries-other id n db [] os h = h
    tick_entries-other id n db ((k, en) ∷ ms) (o, os) h =
        let (kept, of, holds) = evaluated-Served w e en en.engine refl in
        let xs : List Effect = (evaluated w e en en.engine).1 in
        subst (Holds id n) (sym (perform_all-append w.now xs (tick_entries w e ms).1 db)) (
          tick_entries-other id n (perform_all w.now xs db) ms os
            (others-Holds w.now en.id id n xs db (neq_sym id en.id o) of h))

    tick_entries-IsOther :
        (id : ℤ) (ms : List (ℤ × Entry))
        → All (IsOther id) ms
        → All (IsOther id) (tick_entries w e ms).0
    unfolding tick_entries
    tick_entries-IsOther id [] os = tt
    tick_entries-IsOther id ((k, en) ∷ ms) (o, os) = (o, tick_entries-IsOther id ms os)

    tick_entries-Tracks :
        (db : Db) (ms : List (ℤ × Entry))
        → All (Tracked db) ms
        → AreApart ms
        → All (Tracked (perform_all w.now (tick_entries w e ms).1 db)) (tick_entries w e ms).0
          × AreApart (tick_entries w e ms).0
    unfolding tick_entries perform_all
    tick_entries-Tracks db [] ts apart = (tt, tt)
    tick_entries-Tracks db ((k, en) ∷ ms) ((same, h), ts) (os, apart) =
        let (kept, of, holds) = evaluated-Served w e en en.engine refl in
        let xs : List Effect = (evaluated w e en en.engine).1 in
        let en' : Entry = (evaluated w e en en.engine).0 in
        let db' : Db = perform_all w.now xs db in
        let (ts', apart') =
          tick_entries-Tracks db' ms (others-Tracked en.id xs db ms of os ts) apart in
        subst
          (λ d.
            All (Tracked d) ((k, en') ∷ (tick_entries w e ms).0)
            × AreApart ((k, en') ∷ (tick_entries w e ms).0))
          (sym (perform_all-append w.now xs (tick_entries w e ms).1 db))
          (
            (
              (
                same,
                tick_entries-other en.id (open_for en'.engine.confirmed_up) db' ms os (holds db h),
              ),
              ts',
            ),
            (tick_entries-IsOther en.id ms os, apart'),
          )

-- What comes to the evaluator, and what it makes of the database when its calls go well.
pub data Run (e0 : Evaluator) (db0 : Db) : Evaluator → Db → Type 0 where
  started : Run e0 db0 e0 db0
  result_came :
      {e : Evaluator} {db : Db}
      → Run e0 db0 e db
      → (w : World) (r : CheckResult) → IsKnown e db r.monitor_id
      → Run e0 db0
          (handle_result w e (some r)).0
          (perform_all w.now (handle_result w e (some r)).1 db)
  ticked :
      {e : Evaluator} {db : Db}
      → Run e0 db0 e db
      → (w : World) → Run e0 db0 (tick w e).0 (perform_all w.now (tick w e).1 db)

-- Over any sequence of results and ticks, when the calls of the store go well and every result is of
-- a monitor that has an entry or that is in the database with no open incident: a monitor with an
-- entry has one open incident in the database when its engine has it confirmed down, and none when it
-- is confirmed up, if this holds at the start and no two entries are of one monitor.
pub Run-Tracks :
    (e0 : Evaluator) (db0 : Db)
    → Tracks e0 db0
    → (e : Evaluator) (db : Db) → Run e0 db0 e db
    → Tracks e db
unfolding tick
Run-Tracks e0 db0 h _ _ started = h
Run-Tracks e0 db0 h _ _ (result_came {e} {db} run w r known) =
    handle_result-Tracks w e r db known (Run-Tracks e0 db0 h e db run)
Run-Tracks e0 db0 h _ _ (ticked {e} {db} run w) =
    let (ts, apart) = Run-Tracks e0 db0 h e db run in tick_entries-Tracks w e db e.monitors ts apart
