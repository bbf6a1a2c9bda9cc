-- ===== src/Check/Tests.antt =====
-- cmd/checker/main.go: the theorem at a concrete job.
use uptime_monitor.Prelude.{◌≡◌, ◌↔◌, pos, true, none, some}
use uptime_monitor.Message.{CheckJob, CheckResult}
use uptime_monitor.Check.{Http, answered, handle_job}
use uptime_monitor.Check.Laws.{IsUp, exchange_of, handle_job-IsUp}

abbrev http : Http
http = record {
  request = λ method url timeout.
      answered (record { status_code = pos 200; body = "all is well"; cert_not_after = none })
        (pos 12);
  quote = λ s. s;
}

abbrev job : CheckJob
job = record {
  monitor_id = pos 1;
  name = "site";
  url = "a";
  method = "";
  timeout_ms = pos 5000;
  expected_status = pos 200;
  expected_keyword = "well";
  slow_threshold_ms = pos 100;
}

handle_job-IsUp_example :
    (r : CheckResult) × (handle_job http "eu" (pos 7) (some job) ≡ some r)
    × (r.monitor_id ≡ job.monitor_id)
    × (r.name ≡ job.name)
    × (r.url ≡ job.url)
    × (r.region ≡ "eu")
    × (r.checked_at ≡ pos 7)
    × (r.slow_threshold_ms ≡ job.slow_threshold_ms)
    × ((r.up ≡ true) ↔ IsUp job (exchange_of http job))
handle_job-IsUp_example = handle_job-IsUp http "eu" (pos 7) job
