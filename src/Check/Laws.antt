-- ===== src/Check/Laws.antt =====
-- internal/check/check.go, cmd/checker/main.go: what the published result says.
use uptime_monitor.Prelude.{
  ◌≡◌, ◌↔◌, ◌⊎◌, refl, true, some, String, is_blank, int_eq, string_eq, contains, if◌then◌else◌,
  to_int64, scale, arith,
}
use uptime_monitor.Time.{Time}
use uptime_monitor.Message.{CheckJob, CheckResult}
use uptime_monitor.Check.{
  Http, Exchange, answered, malformed, failed, keyword_missing, method_of, judge, do_check,
  monitor_of, result_of, handle_job,
}

-- When a monitor counts as up: there is a response, of the expected status, and a keyword, if one is
-- asked for, is in the page.
abbrev pub IsUp : CheckJob → Exchange → Type 0
IsUp job (malformed e) = ⊥
IsUp job (failed e ms) = ⊥
IsUp job (answered resp ms) =
    (resp.status_code ≡ job.expected_status)
    × ((job.expected_keyword ≡ "") ⊎ (contains resp.body job.expected_keyword ≡ true))

judge-IsUp :
    (http : Http) (job : CheckJob) (x : Exchange)
    → ((judge http (monitor_of job) x).up ≡ true) ↔ IsUp job x
unfolding judge keyword_missing monitor_of
judge-IsUp http job (malformed e) = ground arith
judge-IsUp http job (failed e ms) = ground arith
judge-IsUp http job (answered resp ms) = ground (
  arith,
  int_eq.beq_iff resp.status_code job.expected_status,
  string_eq.beq_iff job.expected_keyword "",
)

-- The exchange that a job asks for.
abbrev pub exchange_of : Http → CheckJob → Exchange
exchange_of http job =
    http.request (if is_blank job.method then "GET" else job.method) job.url
      (to_int64 (scale 1000000 job.timeout_ms))

-- The result that a checker publishes for a job has the job's monitor, name, URL and slow threshold,
-- the checker's region and time, and is up just if there was a response of the expected status whose
-- page, if a keyword is asked for, contains it.
pub handle_job-IsUp :
    (http : Http) (region : String) (now : Time) (job : CheckJob)
    → (r : CheckResult) × (handle_job http region now (some job) ≡ some r)
      × (r.monitor_id ≡ job.monitor_id)
      × (r.name ≡ job.name)
      × (r.url ≡ job.url)
      × (r.region ≡ region)
      × (r.checked_at ≡ now)
      × (r.slow_threshold_ms ≡ job.slow_threshold_ms)
      × ((r.up ≡ true) ↔ IsUp job (exchange_of http job))
unfolding handle_job result_of do_check monitor_of method_of
handle_job-IsUp http region now job = (
  result_of region now job (do_check http (monitor_of job)),
  refl,
  refl,
  refl,
  refl,
  refl,
  refl,
  refl,
  judge-IsUp http job (exchange_of http job),
)
