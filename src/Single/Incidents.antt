-- ===== src/Single/Incidents.antt =====
-- cmd/monitor/main.go: the open incidents keep step with the results.
use uptime_monitor.Prelude.{
  ◌≤◌, Bool, true, false, not, List, [], ◌∷◌, ◌≡◌, refl, sym, ap, subst, ◌∙◌,
}
use uptime_monitor.Time.{Time}
use uptime_monitor.Message.{StoreMonitor}
use uptime_monitor.Check as Check
use uptime_monitor.Evaluate.{transition}
use uptime_monitor.Store.{Db, Store, calm, call}
use uptime_monitor.Store.Monitors.{find_monitor, insert_check, check_row}
use uptime_monitor.Store.Incidents.{
  any_open, is_there, has_open_incident, open_incident, resolve_incident,
}
use uptime_monitor.Store.Incidents.Count.{
  open_count, open_for, Holds, add_incident-Holds, resolve_rows-Holds, any_open-open_count,
}
use uptime_monitor.Single.{seed, act, checked, record_check, do_check, checks, run_monitor}

-- A state with no more outcomes, whose incidents are those of the last result.
InStep : StoreMonitor → Store × Bool → Type 0
InStep m (s, last_up) = (s.io ≡ []) × Holds m.id (open_for last_up) s.db

-- Whether the last check found the monitor up; before the first, the state at the start.
unfoldable pub last_of : StoreMonitor → Bool → List (Time × Check.Http) → Bool
last_of m b [] = b
last_of m b ((now, http) ∷ rest) = last_of m (Check.do_check http (checked m)).up rest

act-InStep :
    (m : StoreMonitor) (res : Check.Result) (now : Time) (db : Db) (b b' : Bool)
    → Holds m.id (open_for b) db
    → InStep m (act m res now (transition b b') (calm db), b')
unfolding act open_incident resolve_incident call transition InStep
act-InStep m res now db true true h = (refl, h)
act-InStep m res now db false false h = (refl, h)
act-InStep m res now db true false h = (refl, add_incident-Holds m.id _ now 0 db h)
act-InStep m res now db false true h = (refl, resolve_rows-Holds m.id now 1 db h)

do_check-calm :
    (m : StoreMonitor) (now : Time) (http : Check.Http) (db : Db) (b : Bool)
    → Holds m.id (open_for b) db
    → InStep m (do_check m now http (calm db, b))
unfolding do_check record_check insert_check call Holds
do_check-calm m now http db b h =
    let res : Check.Result = Check.do_check http (checked m) in
    act-InStep m res now (record db { checks = check_row m.id "local" now res ∷ db.checks }) b
      res.up h

do_check-InStep :
    (m : StoreMonitor) (now : Time) (http : Check.Http) (s : Store) (b : Bool)
    → InStep m (s, b)
    → InStep m (do_check m now http (s, b))
unfolding InStep
do_check-InStep m now http s b (calm_io, h) =
    subst (λ os. InStep m (do_check m now http (record { db = s.db; io = os }, b))) (sym calm_io)
      (do_check-calm m now http s.db b h)

checks-InStep :
    (m : StoreMonitor) (ticks : List (Time × Check.Http)) (state : Store × Bool)
    → InStep m state
    → InStep m (checks m ticks state) × ((checks m ticks state).1 ≡ last_of m state.1 ticks)
unfolding checks last_of do_check record_check
checks-InStep m [] state h = (h, refl)
checks-InStep m ((now, http) ∷ rest) state h =
    checks-InStep m rest (do_check m now http state) (do_check-InStep m now http state.0 state.1 h)

seed-InStep :
    (m : StoreMonitor) (db : Db)
    → open_count m.id db.incidents ≤ 1
    → is_there (find_monitor m.id db.monitors) ≡ true
    → InStep m (seed m (calm db))
unfolding seed has_open_incident call InStep Holds
seed-InStep m db few there = (refl, (any_open-open_count m.id db.incidents few, there))

-- When the calls of the store go well, for a monitor of the database that has at most one open
-- incident at the start: after any checks, the monitor has no open incident if the last check found
-- it up, and one if the last check did not; before the first check, as at the start.
pub run_monitor-InStep :
    (m : StoreMonitor) (ticks : List (Time × Check.Http)) (db : Db)
    → open_count m.id db.incidents ≤ 1
    → is_there (find_monitor m.id db.monitors) ≡ true
    → (open_count m.id (run_monitor m ticks (calm db)).0.db.incidents
        ≡ open_for (last_of m (not (any_open m.id db.incidents)) ticks))
      × ((run_monitor m ticks (calm db)).1 ≡ last_of m (not (any_open m.id db.incidents)) ticks)
unfolding run_monitor InStep Holds
run_monitor-InStep m ticks db few there =
    let (ok, last) = checks-InStep m ticks (seed m (calm db)) (seed-InStep m db few there) in
    let same : (seed m (calm db)).1 ≡ not (any_open m.id db.incidents) =
      unfold seed in unfold has_open_incident in unfold call in refl in
    let at = last ∙ ap (λ b. last_of m b ticks) same in (ok.1.0 ∙ ap open_for at, at)
