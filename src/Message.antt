-- ===== src/Message.antt =====
-- internal/message/message.go: what the services send each other; internal/store/store.go: the record
-- of a monitor.
use uptime_monitor.Prelude.{ℤ, Bool, List, String}
use uptime_monitor.Time.{Time}

pub record CheckJob : Type 0 where
  pub monitor_id : ℤ
  pub name : String
  pub url : String
  pub method : String
  pub timeout_ms : ℤ
  pub expected_status : ℤ
  pub expected_keyword : String
  pub slow_threshold_ms : ℤ

pub record CheckResult : Type 0 where
  pub monitor_id : ℤ
  pub name : String
  pub url : String
  pub region : String
  pub checked_at : Time
  pub up : Bool
  pub status_code : ℤ
  pub latency_ms : ℤ
  pub error : String
  pub cert_expiry : Time
  pub slow_threshold_ms : ℤ

-- `store.Monitor`.
pub record StoreMonitor : Type 0 where
  pub id : ℤ
  pub name : String
  pub url : String
  pub method : String
  pub interval_seconds : ℤ
  pub timeout_ms : ℤ
  pub expected_status : ℤ
  pub enabled : Bool
  pub notify_emails : List String
  pub expected_keyword : String
  pub slow_threshold_ms : ℤ
