-- ===== src/Config.antt =====
-- internal/config/config.go: the monitors of the YAML file as records of the store. Reading and
-- parsing the file are not modelled: the parsed value is the input.
mod Tests
use uptime_monitor.Prelude.{
  ℤ, pos, eq_ℤ, eq_ℤ_iff, ◌⊎◌, ◌≡◌, ◌≢◌, refl, ap, Bool, true, false, Bool-cases, inl, inr, Option,
  none, some, List, [], map, String, is_blank, if◌then◌else◌, arith,
}
use uptime_monitor.Message.{StoreMonitor}

pub record MonitorConfig : Type 0 where
  pub name : String
  pub url : String
  pub method : String
  pub interval_seconds : ℤ
  pub timeout_ms : ℤ
  pub expected_status : ℤ
  pub enabled : Option Bool
  pub notify_emails : List String
  pub expected_keyword : String
  pub slow_threshold_ms : ℤ

or_true : Option Bool → Bool
or_true none = true
or_true (some b) = b

-- The value, or the default if it is zero.
abbrev or_default : ℤ → ℤ → ℤ
or_default v n = if eq_ℤ v (pos 0) then n else v

pub to_store_monitor : MonitorConfig → StoreMonitor
unfolding or_true
to_store_monitor m = record {
  id = pos 0;
  name = m.name;
  url = m.url;
  method = if is_blank m.method then "GET" else m.method;
  interval_seconds = or_default m.interval_seconds (pos 30);
  timeout_ms = or_default m.timeout_ms (pos 5000);
  expected_status = or_default m.expected_status (pos 200);
  enabled = or_true m.enabled;
  notify_emails = m.notify_emails;
  expected_keyword = m.expected_keyword;
  slow_threshold_ms = m.slow_threshold_ms;
}

pub store_monitors : List MonitorConfig → List StoreMonitor
unfolding to_store_monitor
store_monitors ms = map to_store_monitor ms

-- `Load`, from the result of parsing on; none is an error.
pub load : Option (List MonitorConfig) → Option (List MonitorConfig)
load none = none
load (some []) = none
load (some ms) = some ms

not_blank : (s : String) → is_blank (if is_blank s then "GET" else s) ≡ false
not_blank s = elim (Bool-cases (is_blank s)) [ inl empty ↦ rw empty refl | inr full ↦ rw full full ]

not_zero : (v n : ℤ) → n ≢ pos 0 → or_default v n ≢ pos 0
not_zero v n h = ground (arith, h, eq_ℤ_iff v (pos 0))

kept : (v n : ℤ) → (v ≡ pos 0) ⊎ (or_default v n ≡ v)
kept v n = ground (arith, eq_ℤ_iff v (pos 0))

-- A monitor of the file gets a method, an interval, a timeout and an expected status that are not
-- empty or zero, and each of the last three that the file sets is kept.
pub to_store_monitor_complete :
    (m : MonitorConfig)
    → (is_blank (to_store_monitor m).method ≡ false)
      × ((to_store_monitor m).interval_seconds ≢ pos 0)
      × ((to_store_monitor m).timeout_ms ≢ pos 0)
      × ((to_store_monitor m).expected_status ≢ pos 0)
      × ((m.interval_seconds ≡ pos 0)
          ⊎ ((to_store_monitor m).interval_seconds ≡ m.interval_seconds))
      × ((m.timeout_ms ≡ pos 0) ⊎ ((to_store_monitor m).timeout_ms ≡ m.timeout_ms))
      × ((m.expected_status ≡ pos 0) ⊎ ((to_store_monitor m).expected_status ≡ m.expected_status))
unfolding to_store_monitor
to_store_monitor_complete m = (
  not_blank m.method,
  not_zero m.interval_seconds (pos 30) (ground arith),
  not_zero m.timeout_ms (pos 5000) (ground arith),
  not_zero m.expected_status (pos 200) (ground arith),
  kept m.interval_seconds (pos 30),
  kept m.timeout_ms (pos 5000),
  kept m.expected_status (pos 200),
)
