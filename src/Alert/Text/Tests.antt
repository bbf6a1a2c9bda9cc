-- ===== src/Alert/Text/Tests.antt =====
-- internal/alert/alert.go: the texts of two alerts.
use uptime_monitor.Prelude.{pos, [], ◌∷◌, ◌≡◌, refl}
use uptime_monitor.Alert.{Kind, down, recovered, Event}
use uptime_monitor.Alert.Text.{Times, subject, rows}

abbrev times : Times
times = record {
  seconds = λ d. pos 5;
  minutes = λ d. pos 61;
  hours = λ d. pos 1;
  minutes_of_hour = λ d. pos 1;
  format = λ t. "Mon Jan 5";
}

abbrev outage : Kind → Event
outage kind = record {
  monitor = "site";
  url = "";
  kind = kind;
  region = "eu";
  cause = "timeout";
  at = pos 7;
  duration = pos 3660000000000;
  to = [];
}

subject-outage : subject times (outage down) ≡ "[DOWN] site - timeout"
unfolding subject
subject-outage = refl

subject_of_recovery :
    subject times (outage recovered) ≡ "[RESOLVED] site is back up after 1 hour 1 minute"
unfolding subject
subject_of_recovery = refl

rows-outage :
    rows times (outage down)
    ≡ ("Monitor", "site")
      ∷ ("Status", "DOWN")
      ∷ ("Detected", "Mon Jan 5")
      ∷ ("Reason", "timeout")
      ∷ ("Confirmed by", "multiple regions (incl. eu)")
      ∷ []
unfolding rows
rows-outage = refl
