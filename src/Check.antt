-- ===== src/Check.antt =====
-- internal/check/check.go and cmd/checker/main.go: one check, and the checker's handler of a job.
-- Package net/http is a parameter: what it makes of a request.
mod Laws
mod Tests
use uptime_monitor.Prelude.{
  ℤ, pos, eq_ℤ, Bool, true, false, not, ◌&&◌, Option, none, some, String, ◌<+>◌, is_blank, contains,
  if◌then◌else◌, to_int64, scale,
}
use uptime_monitor.Time.{Time, Duration, zero_time}
use uptime_monitor.Message.{CheckJob, CheckResult}

pub record Monitor : Type 0 where
  pub id : ℤ
  pub name : String
  pub url : String
  pub method : String
  pub timeout : Duration
  pub expected_status : ℤ
  pub expected_keyword : String

pub record Result : Type 0 where
  pub up : Bool
  pub status_code : ℤ
  pub latency_ms : ℤ
  pub error : String
  pub cert_expiry : Time

pub record Response : Type 0 where
  pub status_code : ℤ
  pub body : String  -- the part within `maxBodyScan`, as far as it could be read
  pub cert_not_after : Option Time

-- The ends of a request: it is malformed, it fails, or there is a response; with the milliseconds that
-- it took.
pub data Exchange : Type 0 where
  malformed : String → Exchange
  failed : String → ℤ → Exchange
  answered : Response → ℤ → Exchange

-- A client of HTTP, from the method, the URL and the timeout; and the quotation of fmt's %q.
pub record Http : Type 0 where
  pub request : String → String → Duration → Exchange
  pub quote : String → String

pub method_of : Monitor → String
method_of m = if is_blank m.method then "GET" else m.method

pub keyword_missing : Monitor → Response → Bool
keyword_missing m resp =
    eq_ℤ resp.status_code m.expected_status
    && not (is_blank m.expected_keyword)
    && not (contains resp.body m.expected_keyword)

pub expiry_of : Option Time → Time
expiry_of none = zero_time
expiry_of (some t) = t

-- `Do` from the end of the request on.
pub judge : Http → Monitor → Exchange → Result
unfolding keyword_missing expiry_of
judge http m (malformed e) = record {
  up = false;
  status_code = pos 0;
  latency_ms = pos 0;
  error = e;
  cert_expiry = zero_time;
}
judge http m (failed e ms) = record {
  up = false;
  status_code = pos 0;
  latency_ms = ms;
  error = e;
  cert_expiry = zero_time;
}
judge http m (answered resp ms) = record {
  up = eq_ℤ resp.status_code m.expected_status && not (keyword_missing m resp);
  status_code = resp.status_code;
  latency_ms = ms;
  error =
      if keyword_missing m resp
      then "keyword " <+> http.quote m.expected_keyword <+> " not found in page"
      else "";
  cert_expiry = expiry_of resp.cert_not_after;
}

pub do_check : Http → Monitor → Result
unfolding judge method_of
do_check http m = judge http m (http.request (method_of m) m.url m.timeout)

pub monitor_of : CheckJob → Monitor
monitor_of job = record {
  id = job.monitor_id;
  name = job.name;
  url = job.url;
  method = job.method;
  timeout = to_int64 (scale 1000000 job.timeout_ms);
  expected_status = job.expected_status;
  expected_keyword = job.expected_keyword;
}

pub result_of : String → Time → CheckJob → Result → CheckResult
result_of region now job res = record {
  monitor_id = job.monitor_id;
  name = job.name;
  url = job.url;
  region = region;
  checked_at = now;
  up = res.up;
  status_code = res.status_code;
  latency_ms = res.latency_ms;
  error = res.error;
  cert_expiry = res.cert_expiry;
  slow_threshold_ms = job.slow_threshold_ms;
}

-- `handleJob`, from what unmarshalling makes of the message to the result that is published.
pub handle_job : Http → String → Time → Option CheckJob → Option CheckResult
unfolding result_of do_check monitor_of
handle_job http region now none = none
handle_job http region now (some job) =
    some (result_of region now job (do_check http (monitor_of job)))
