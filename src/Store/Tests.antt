-- ===== src/Store/Tests.antt =====
-- internal/store/store.go: tables with two monitors, and a theorem on them.
use uptime_monitor.Prelude.{ℤ, pos, true, none, some, [], ◌∷◌, Option}
use uptime_monitor.Message.{StoreMonitor}
use uptime_monitor.Store.{MonitorRow, Db, answered, refused}
use uptime_monitor.Store.Monitors.{delete_monitor}
use uptime_monitor.Store.Monitors.Ownership.{Deletes, delete_monitor-Deletes}

abbrev pub site : ℤ → StoreMonitor
site id = record {
  id = id;
  name = "site";
  url = "https://example.com";
  method = "GET";
  interval_seconds = pos 30;
  timeout_ms = pos 5000;
  expected_status = pos 200;
  enabled = true;
  notify_emails = [];
  expected_keyword = "";
  slow_threshold_ms = pos 0;
}

abbrev pub row_of : ℤ → Option ℤ → MonitorRow
row_of id owner = record {
  monitor = site id;
  user_id = owner;
  cert_expiry = none;
  muted_until = none;
}

-- A monitor of user 5 with an open incident, and one of user 6.
abbrev pub two_sites : Db
two_sites = record {
  users = [];
  sessions = [];
  password_resets = [];
  monitors = row_of (pos 1) (some (pos 5)) ∷ row_of (pos 2) (some (pos 6)) ∷ [];
  incidents =
      record { monitor_id = pos 1; started_at = pos 10; resolved_at = none; cause = "timeout" }
      ∷ [];
  checks = [];
  next_user = pos 7;
  next_monitor = pos 3;
}

delete_monitor-Deletes_example :
    Deletes
      (pos 1)
      (pos 5)
      (record { db = two_sites; io = answered ∷ answered ∷ refused ∷ [] })
      (delete_monitor
        (pos 1)
        (pos 5)
        (record { db = two_sites; io = answered ∷ answered ∷ refused ∷ [] }))
delete_monitor-Deletes_example =
    delete_monitor-Deletes (pos 1) (pos 5)
      (record { db = two_sites; io = answered ∷ answered ∷ refused ∷ [] })
