-- ===== src/Evaluator/Tests.antt =====
-- cmd/evaluator/main.go: runs at concrete inputs, and the theorems at such inputs.
use uptime_monitor.Prelude.{
  ◌≤◌, ◌≡◌, refl, inl, arith, int_eq, ℤ, pos, Bool, true, false, some, List, [], ◌∷◌, All, leb,
  length, if◌then◌else◌,
}
use uptime_monitor.Message.{CheckResult}
use uptime_monitor.Alert.{Notifier}
use uptime_monitor.Evaluate.{new_monitor}
use uptime_monitor.Store.{Db, calm, call}
use uptime_monitor.Store.Monitors.{enabled_monitors, enabled_of, insert_by_id}
use uptime_monitor.Store.Incidents.{has_open_incident, any_open, is_open}
use uptime_monitor.Store.Incidents.Count.{open_count}
use uptime_monitor.Store.Tests.{site, two_sites}
use uptime_monitor.Evaluator.Books.{perform_all}
use uptime_monitor.Evaluator.Tracks.{Tracks, Run, started, result_came, ticked}
use uptime_monitor.Evaluator.Seed.{seed, seeded, start, start-Tracks}
use uptime_monitor.Evaluator.{Entry, Evaluator, World, handle_result, tick}
use uptime_monitor.Evaluator.Slow.{slow_sent, check_slow_all, slow_spell_alerts_once}
use uptime_monitor.Evaluator.Muted.{IsQuiet, Keyed, handle_result-IsQuiet}

abbrev world : World
world = record {
  now = pos 1000;
  muted = λ id. some true;
  alert_recipients = λ id. [];
  started_at = λ id. pos 0;
  days = λ d. pos 3;
  date = λ t. "2026-01-01";
}

abbrev evaluator : Evaluator
evaluator = record {
  notifiers = Notifier.webhook ∷ Notifier.email ∷ [];
  default_to = "ops";
  cert_warn_days = pos 14;
  cfg = record { freshness = pos 90; stability = pos 0 };
  monitors = [];
}

abbrev entry : Entry
entry = record {
  id = pos 1;
  name = "site";
  url = "a";
  engine = new_monitor (record { freshness = pos 90; stability = pos 0 }) true;
  last_region = "eu";
  last_ms = pos 0;
  down_cause = "";
  cert_alerted = false;
  slow_streak = 0;
  slow_alerted = false;
}

abbrev result : Bool → ℤ → CheckResult
result up ms = record {
  monitor_id = pos 1;
  name = "site";
  url = "a";
  region = "eu";
  checked_at = pos 999;
  up = up;
  status_code = pos 200;
  latency_ms = ms;
  error = "";
  cert_expiry = pos 5000;
  slow_threshold_ms = pos 100;
}

abbrev four_slow : List CheckResult
four_slow =
    result true (pos 150)
    ∷ result true (pos 200)
    ∷ result true (pos 101)
    ∷ result true (pos 500)
    ∷ []

-- A world in which no monitor is muted.
abbrev audible : World
audible = record world { muted = λ id. some false }

slow_spell_alerts_once_example :
    slow_sent (check_slow_all audible evaluator entry four_slow).1
    ≡ (if leb 3 (length four_slow) then evaluator.notifiers else [])
slow_spell_alerts_once_example =
    slow_spell_alerts_once audible evaluator entry four_slow (λ h. cc) refl refl
      (refl, (refl, (refl, (refl, tt))))

handle_result-IsQuiet_example :
    All IsQuiet (handle_result world evaluator (some (result false (pos 10)))).1
    × Keyed (handle_result world evaluator (some (result false (pos 10)))).0
handle_result-IsQuiet_example =
    handle_result-IsQuiet world evaluator (result false (pos 10)) refl tt

-- Nothing is watched yet.
tick_empty : (tick world evaluator).1 ≡ []
unfolding tick
tick_empty = refl

-- The evaluator on the tables of two monitors, of which the first has an open incident.
abbrev begun : Evaluator
begun = record evaluator {
  monitors =
      (pos 1, seeded evaluator.cfg (site (pos 1)) true)
      ∷ (pos 2, seeded evaluator.cfg (site (pos 2)) false)
      ∷ [];
}

started_from_tables : (start evaluator.cfg (calm two_sites)).1 ≡ some begun.monitors
unfolding start seed enabled_monitors enabled_of insert_by_id has_open_incident any_open is_open
    call
started_from_tables = refl

few_open : All (λ r. open_count r.monitor.id two_sites.incidents ≤ 1) two_sites.monitors
unfolding open_count is_open
few_open = (omega arith, (omega arith, tt))

-- A result of the first monitor, and a tick.
abbrev handled : Evaluator
handled = (handle_result world begun (some (result true (pos 10)))).0

abbrev handled_db : Db
handled_db =
    perform_all world.now (handle_result world begun (some (result true (pos 10)))).1 two_sites

abbrev two_steps :
    Run begun two_sites
      (tick world handled).0
      (perform_all world.now (tick world handled).1 handled_db)
two_steps =
    ticked
      (result_came started world (result true (pos 10))
        (inl (seeded evaluator.cfg (site (pos 1)) true, refl)))
      world

start-Tracks_example :
    Tracks (tick world handled).0 (perform_all world.now (tick world handled).1 handled_db)
start-Tracks_example =
    start-Tracks evaluator.cfg begun (tick world handled).0 two_sites
      (perform_all world.now (tick world handled).1 handled_db) few_open started_from_tables
      two_steps
