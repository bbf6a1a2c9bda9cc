-- ===== src/Config/Tests.antt =====
-- internal/config/config.go: runs at a concrete input, and the theorem at such an input.
use uptime_monitor.Prelude.{◌≡◌, refl, ℤ, pos, true, none, some, [], ◌∷◌, String}
use uptime_monitor.Message.{StoreMonitor}
use uptime_monitor.Config.{MonitorConfig, to_store_monitor, store_monitors, load}

abbrev site : ℤ → String → StoreMonitor
site id url = record {
  id = id;
  name = "site";
  url = url;
  method = "GET";
  interval_seconds = pos 30;
  timeout_ms = pos 5000;
  expected_status = pos 200;
  enabled = true;
  notify_emails = [];
  expected_keyword = "";
  slow_threshold_ms = pos 0;
}

abbrev bare : MonitorConfig
bare = record {
  name = "site";
  url = "a";
  method = "";
  interval_seconds = pos 0;
  timeout_ms = pos 100;
  expected_status = pos 0;
  enabled = none;
  notify_emails = [];
  expected_keyword = "";
  slow_threshold_ms = pos 0;
}

bare_defaults : store_monitors (bare ∷ []) ≡ record (site (pos 0) "a") { timeout_ms = pos 100 } ∷ []
unfolding store_monitors to_store_monitor
bare_defaults = refl

no_monitors : load (some []) ≡ none
unfolding load
no_monitors = refl
