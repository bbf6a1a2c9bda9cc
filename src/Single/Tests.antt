-- ===== src/Single/Tests.antt =====
-- cmd/monitor/main.go: a run at a concrete input, and the theorem at such an input.
use uptime_monitor.Prelude.{ℤ, pos, not, none, List, [], ◌∷◌, ◌≡◌, refl, arith}
use uptime_monitor.Time.{Time}
use uptime_monitor.Check as Check
use uptime_monitor.Store.{calm}
use uptime_monitor.Store.Monitors.{find_monitor}
use uptime_monitor.Store.Incidents.{any_open, is_open}
use uptime_monitor.Store.Incidents.Count.{open_count, open_for}
use uptime_monitor.Store.Tests.{site, two_sites}
use uptime_monitor.Single.{run_monitor}
use uptime_monitor.Single.Incidents.{last_of, run_monitor-InStep}

-- A site that answers with a status, and one that does not.
abbrev answers : ℤ → Check.Http
answers status = record {
  request = λ method url timeout.
      Check.answered (record { status_code = status; body = ""; cert_not_after = none }) (pos 20);
  quote = λ s. s;
}

abbrev fails : Check.Http
fails = record { request = λ method url timeout. Check.failed "timeout" (pos 5000); quote = λ s. s }

abbrev ticks : List (Time × Check.Http)
ticks = (pos 1000, answers (pos 200)) ∷ (pos 2000, fails) ∷ (pos 3000, answers (pos 500)) ∷ []

few : open_count (pos 1) two_sites.incidents ≡ 1
unfolding open_count is_open
few = refl

run_monitor-InStep_example :
    (open_count (pos 1) (run_monitor (site (pos 1)) ticks (calm two_sites)).0.db.incidents
      ≡ open_for (last_of (site (pos 1)) (not (any_open (pos 1) two_sites.incidents)) ticks))
    × ((run_monitor (site (pos 1)) ticks (calm two_sites)).1
        ≡ last_of (site (pos 1)) (not (any_open (pos 1) two_sites.incidents)) ticks)
unfolding find_monitor
run_monitor-InStep_example =
    run_monitor-InStep (site (pos 1)) ticks two_sites (omega (arith, few)) refl
