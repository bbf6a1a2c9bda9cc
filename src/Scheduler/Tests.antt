-- ===== src/Scheduler/Tests.antt =====
-- cmd/scheduler/main.go: runs at concrete inputs, and the theorems at such inputs.
use uptime_monitor.Prelude.{
  ◌≡◌, ◌⊎◌, refl, ℤ, pos, true, none, some, List, [], ◌∷◌, String, All, lookup, int_eq, nat_eq,
}
use uptime_monitor.Message.{StoreMonitor}
use uptime_monitor.Scheduler.{Scheduler, sync_once, seen, job_of}
use uptime_monitor.Scheduler.Loops.{IsInStep}
use uptime_monitor.Scheduler.Rounds.{sync_once-IsInStep}
use uptime_monitor.Scheduler.Watched.{Distinct}
use uptime_monitor.Scheduler.Reconcile.{IsWatched, sync_once-IsWatched, keyword_change_unnoticed}

abbrev site : ℤ → String → StoreMonitor
site id url = record {
  id = id;
  name = "site";
  url = url;
  method = "GET";
  interval_seconds = pos 30;
  timeout_ms = pos 5000;
  expected_status = pos 200;
  enabled = true;
  notify_emails = [];
  expected_keyword = "";
  slow_threshold_ms = pos 0;
}

-- Loop 0 watches monitor 1, and loop 1 monitor 2.
abbrev watching : Scheduler
watching = record {
  running =
      (pos 1, record { loop = 0; monitor = site (pos 1) "a" })
      ∷ (pos 2, record { loop = 1; monitor = site (pos 2) "b" })
      ∷ [];
  next = 2;
  alive = (0, site (pos 1) "a") ∷ (1, site (pos 2) "b") ∷ [];
}

-- Monitor 1 has a new URL, monitor 2 is gone, and monitor 3 is new.
abbrev enabled : List StoreMonitor
enabled = site (pos 1) "c" ∷ site (pos 3) "d" ∷ []

alive_after :
    (sync_once (some enabled) watching).alive ≡ (2, site (pos 1) "c") ∷ (3, site (pos 3) "d") ∷ []
unfolding sync_once
alive_after = refl

-- An error of the database changes nothing.
alive_after_error : sync_once none watching ≡ watching
unfolding sync_once
alive_after_error = refl

job_url : (job_of (site (pos 1) "a")).url ≡ "a"
unfolding job_of
job_url = refl

enabled-Distinct : Distinct enabled
unfolding seen
enabled-Distinct = (refl, (refl, tt))

abbrev idle : Scheduler
idle = record { running = []; next = 0; alive = [] }

idle-IsInStep : IsInStep idle
idle-IsInStep = record { apart = tt; entries = λ _. tt; loops = λ _. tt }

-- The first round.
watching-IsInStep : IsInStep watching
unfolding sync_once
watching-IsInStep = sync_once-IsInStep (site (pos 1) "a" ∷ site (pos 2) "b" ∷ []) idle idle-IsInStep

sync_once-IsWatched_example :
    All (IsWatched (sync_once (some enabled) watching)) enabled
    × ((lookup 0 (sync_once (some enabled) watching).alive ≡ none)
        ⊎ (m : StoreMonitor) × (lookup 0 (sync_once (some enabled) watching).alive ≡ some m)
          × (seen m.id enabled ≡ true))
    × IsInStep (sync_once (some enabled) watching)
sync_once-IsWatched_example =
    sync_once-IsWatched enabled watching 0 enabled-Distinct watching-IsInStep

-- A round in which the keyword and the threshold of monitor 1 are new, after a new monitor 3.
abbrev edited : StoreMonitor
edited = record (site (pos 1) "a") { expected_keyword = "ok"; slow_threshold_ms = pos 9 }

edited-Distinct : Distinct (site (pos 3) "d" ∷ edited ∷ site (pos 2) "b" ∷ [])
unfolding seen
edited-Distinct = (refl, (refl, (refl, tt)))

keyword_change_unnoticed_example :
    (lookup
        (pos 1)
        (sync_once (some (site (pos 3) "d" ∷ edited ∷ site (pos 2) "b" ∷ [])) watching).running
      ≡ some (record { loop = 0; monitor = site (pos 1) "a" }))
    × (lookup 0
          (sync_once (some (site (pos 3) "d" ∷ edited ∷ site (pos 2) "b" ∷ [])) watching).alive
        ≡ some (site (pos 1) "a"))
keyword_change_unnoticed_example =
    keyword_change_unnoticed 0 (site (pos 1) "a") "ok" (pos 9) (site (pos 3) "d" ∷ [])
      (site (pos 2) "b" ∷ []) watching edited-Distinct watching-IsInStep refl
