-- ===== src/Single.antt =====
-- cmd/monitor/main.go: the monitor in one process, which checks and writes incidents itself. The
-- clients of HTTP that the checks meet, in their order, are an input here.
mod Incidents
mod Tests
use uptime_monitor.Prelude.{
  ℤ, Bool, true, false, not, Option, none, some, List, [], ◌∷◌, String, ◌<+>◌, itoa, is_blank, pos,
  to_int64, scale, if◌then◌else◌,
}
use uptime_monitor.Time.{Time}
use uptime_monitor.Message.{StoreMonitor}
use uptime_monitor.Check as Check
use uptime_monitor.Evaluate.{Event, none, down, recovered, transition}
use uptime_monitor.Store.{Store}
use uptime_monitor.Store.Monitors.{insert_check}
use uptime_monitor.Store.Incidents.{has_open_incident, open_incident, resolve_incident}

-- `statusCause`.
status_cause : ℤ → ℤ → String
status_cause got want = "unexpected status " <+> itoa got <+> " (want " <+> itoa want <+> ")"

-- The state at the start: down if an incident is open, and up also when this cannot be read.
abbrev pub seed_up : Option Bool → Bool
seed_up none = true
seed_up (some opened) = not opened

unfoldable pub seed : StoreMonitor → Store → Store × Bool
unfolding has_open_incident
seed m s = let (s', opened) = has_open_incident m.id s in (s', seed_up opened)

-- The switch of `doCheck`.
unfoldable pub act : StoreMonitor → Check.Result → Time → Event → Store → Store
unfolding status_cause open_incident resolve_incident
act m res now down s =
    let cause =
      if is_blank res.error then status_cause res.status_code m.expected_status else res.error in
    (open_incident m.id cause now s).0
act m res now recovered s = (resolve_incident m.id now s).0
act m res now Event.none s = s

-- What `runMonitor` checks: it leaves out the keyword.
unfoldable pub checked : StoreMonitor → Check.Monitor
checked m = record {
  id = m.id;
  name = m.name;
  url = m.url;
  method = m.method;
  timeout = to_int64 (scale 1000000 m.timeout_ms);
  expected_status = m.expected_status;
  expected_keyword = "";
}

-- `doCheck` behind the request, with the store and `lastUp`.
unfoldable pub record_check : StoreMonitor → Time → Check.Result → Store × Bool → Store × Bool
unfolding act insert_check
record_check m now res (s, last_up) =
    let (s', stored) = insert_check m.id "local" now res s in
    (act m res now (transition last_up res.up) s', res.up)

unfoldable pub do_check : StoreMonitor → Time → Check.Http → Store × Bool → Store × Bool
unfolding record_check checked
do_check m now http state = record_check m now (Check.do_check http (checked m)) state

-- The checks of `runMonitor`, one at the start and one at each tick.
unfoldable pub checks : StoreMonitor → List (Time × Check.Http) → Store × Bool → Store × Bool
unfolding do_check
checks m [] state = state
checks m ((now, http) ∷ rest) state = checks m rest (do_check m now http state)

-- `runMonitor`, until it is cancelled.
unfoldable pub run_monitor : StoreMonitor → List (Time × Check.Http) → Store → Store × Bool
unfolding seed checks
run_monitor m ticks s = checks m ticks (seed m s)
