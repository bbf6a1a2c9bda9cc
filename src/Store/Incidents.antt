-- ===== src/Store/Incidents.antt =====
-- internal/store/store.go: the incidents.
pub mod Count
use uptime_monitor.Prelude.{
  ℕ, ◌+◌, ℤ, eq_ℤ, ltb_ℤ, Bool, true, false, not, ◌&&◌, ◌||◌, Option, none, some, List, [], ◌∷◌,
  String, take, if◌then◌else◌,
}
use uptime_monitor.Time.{Time, zero_time}
use uptime_monitor.Store.{MonitorRow, IncidentRow, Db, Store, call}
use uptime_monitor.Store.Users.{succeeded}
use uptime_monitor.Store.Monitors.{find_monitor, is_owner}

unfoldable pub is_open : ℤ → IncidentRow → Bool
is_open id i = eq_ℤ i.monitor_id id && (elim i.resolved_at [ none ↦ true | some t ↦ false ])

unfoldable pub any_open : ℤ → List IncidentRow → Bool
any_open id [] = false
any_open id (i ∷ is) = is_open id i || any_open id is

unfoldable pub has_open_incident : ℤ → Store → Store × Option Bool
unfolding any_open is_open call
has_open_incident id s = call (λ db. (db, any_open id db.incidents)) s

abbrev pub is_there : Option MonitorRow → Bool
is_there none = false
is_there (some r) = true

-- The monitor has to exist, by the foreign key.
unfoldable pub add_incident : ℤ → String → Time → Db → Db × Bool
add_incident id cause now db =
    if is_there (find_monitor id db.monitors)
    then (
      record db {
        incidents =
            record { monitor_id = id; started_at = now; resolved_at = none; cause = cause }
            ∷ db.incidents;
      },
      true,
    )
    else (db, false)

unfoldable pub open_incident : ℤ → String → Time → Store → Store × Bool
unfolding add_incident call
open_incident id cause now s = let (s', r) = call (add_incident id cause now) s in (s', succeeded r)

-- Every open incident of the monitor is resolved.
unfoldable pub resolve_rows : ℤ → Time → List IncidentRow → List IncidentRow
unfolding is_open
resolve_rows id now [] = []
resolve_rows id now (i ∷ is) =
    (if is_open id i then record i { resolved_at = some now } else i) ∷ resolve_rows id now is

-- The start of the first row that an update returns, or the zero Time.
unfoldable pub first_open : ℤ → List IncidentRow → Time
unfolding is_open
first_open id [] = zero_time
first_open id (i ∷ is) = let rest = first_open id is in if is_open id i then i.started_at else rest

abbrev time_or_zero : Option Time → Time
time_or_zero none = zero_time
time_or_zero (some t) = t

unfoldable pub resolve_incident : ℤ → Time → Store → Store × Time
unfolding resolve_rows first_open call
resolve_incident id now s =
    let (s', r) =
      call
        (λ db.
          (record db { incidents = resolve_rows id now db.incidents }, first_open id db.incidents))
        s in
    (s', time_or_zero r)
