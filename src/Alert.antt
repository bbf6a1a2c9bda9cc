-- ===== src/Alert.antt =====
-- internal/alert/alert.go: the events that the evaluator sends. Delivery is not modelled.
pub mod Text
use uptime_monitor.Prelude.{List, [], ◌∷◌, String, is_blank, if◌then◌else◌}
use uptime_monitor.Time.{Time, Duration}

pub data Kind : Type 0 where
  down recovered cert_expiring slow : Kind

pub record Event : Type 0 where
  pub monitor : String
  pub url : String
  pub kind : Kind
  pub region : String
  pub cause : String
  pub at : Time
  pub duration : Duration
  pub to : List String

unfoldable pub recipients_or : List String → String → List String
recipients_or [] fallback = if is_blank fallback then [] else fallback ∷ []
recipients_or (e ∷ es) fallback = e ∷ es

-- The implementations of the interface `Notifier`.
pub data Notifier : Type 0 where
  noop webhook email : Notifier
