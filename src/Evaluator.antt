-- ===== src/Evaluator.antt =====
-- cmd/evaluator/main.go: the evaluator around the engines of the monitors. Its calls of the store, of
-- the notifiers and of the metrics are effects, in their order; what the store answers and the clock
-- is the environment of a handler. Logging is left out.
mod Slow
mod Muted
pub mod Books
pub mod Incidents
pub mod Tracks
pub mod Seed
mod Tests
use uptime_monitor.Prelude.{
  ℕ, ◌+◌, ℤ, pos, eq_ℤ, ltb_ℤ, ltb, Bool, true, false, not, ◌&&◌, ◌||◌, Option, none, some, List,
  [], ◌∷◌, ◌++◌, String, ◌<+>◌, itoa, is_blank, lookup, insert, int_eq, if◌then◌else◌,
}
use uptime_monitor.Time.{Time, Duration, zero_time, sub}
use uptime_monitor.Message.{CheckResult}
use uptime_monitor.Alert.{Kind, Notifier, recipients_or}
use uptime_monitor.Alert as Alert
use uptime_monitor.Evaluate.{Config, Sample, new_monitor, observe, evaluate}
use uptime_monitor.Evaluate as Engine

pub record Entry : Type 0 where
  pub id : ℤ
  pub name : String
  pub url : String
  pub engine : Engine.Monitor
  pub last_region : String
  pub last_ms : ℤ
  pub down_cause : String
  pub cert_alerted : Bool
  pub slow_streak : ℕ
  pub slow_alerted : Bool

pub record Evaluator : Type 0 where
  pub notifiers : List Notifier
  pub default_to : String
  pub cert_warn_days : ℤ
  pub cfg : Config
  pub monitors : List (ℤ × Entry)

-- The clock, and the store's answers: none of `muted` is an error; the others are the value that is
-- returned, with an error or without. Of package time: `int(d.Hours() / 24)`, and a date's format.
pub record World : Type 0 where
  pub now : Time
  pub muted : ℤ → Option Bool
  pub alert_recipients : ℤ → List String
  pub started_at : ℤ → Time
  pub days : Duration → ℤ
  pub date : Time → String

pub data Effect : Type 0 where
  insert_check : CheckResult → Effect
  set_cert_expiry : ℤ → Time → Effect
  open_incident : ℤ → String → Effect
  resolve_incident : ℤ → Effect
  result_processed : Effect
  incident_opened : Effect
  alert_counted : Kind → Effect
  monitor_up : String → Bool → Effect
  send : Notifier → Alert.Event → Effect

cause_of : CheckResult → String
cause_of r = if is_blank r.error then "unexpected status " <+> itoa r.status_code else r.error

recipients : World → Evaluator → ℤ → List String
unfolding recipients_or
recipients w e id = recipients_or (w.alert_recipients id) e.default_to

pub send_all : List Notifier → Alert.Event → List Effect
send_all [] ev = []
send_all (n ∷ ns) ev = send n ev ∷ send_all ns ev

-- An error of the mute check does not hold an alert back.
pub notify_by : Option Bool → List Notifier → Alert.Event → List Effect
unfolding send_all
notify_by (some true) ns ev = []
notify_by (some false) ns ev = send_all ns ev
notify_by none ns ev = send_all ns ev

pub notify : World → Evaluator → ℤ → Alert.Event → List Effect
unfolding notify_by
notify w e id ev = notify_by (w.muted id) e.notifiers ev

-- `slowStreakToAlert`.
abbrev pub slow_streak_to_alert : ℕ
slow_streak_to_alert = 3

-- The alert that `checkSlow` sends.
pub slow_alert : World → Evaluator → Entry → CheckResult → List Effect
unfolding recipients
slow_alert w e en r =
    alert_counted Kind.slow
    ∷ notify w e en.id (record {
      monitor = en.name;
      url = en.url;
      kind = Kind.slow;
      region = "";
      cause =
          itoa r.latency_ms
          <+> "ms responses (over "
          <+> itoa r.slow_threshold_ms
          <+> "ms) for "
          <+> itoa (pos en.slow_streak)
          <+> " checks";
      at = w.now;
      duration = pos 0;
      to = recipients w e en.id;
    })

-- A result that ends a slow spell.
abbrev pub not_slow : CheckResult → Bool
not_slow r =
    not (ltb_ℤ (pos 0) r.slow_threshold_ms)
    || not r.up
    || not (ltb_ℤ r.slow_threshold_ms r.latency_ms)

pub check_slow : World → Evaluator → Entry → CheckResult → Entry × List Effect
unfolding slow_alert
check_slow w e en r =
    if not_slow r
    then (record en { slow_streak = 0; slow_alerted = false }, [])
    else let en' = record en { slow_streak = en.slow_streak + 1 } in
      if ltb en'.slow_streak slow_streak_to_alert || en'.slow_alerted
      then (en', [])
      else let en2 = record en' { slow_alerted = true } in (en2, slow_alert w e en2 r)

pub cert_alert : World → Evaluator → Entry → Time → ℤ → List Effect
unfolding recipients
cert_alert w e en expiry days_left =
    alert_counted Kind.cert_expiring
    ∷ notify w e en.id (record {
      monitor = en.name;
      url = en.url;
      kind = Kind.cert_expiring;
      region = "";
      cause = "expires in " <+> itoa days_left <+> " days (" <+> w.date expiry <+> ")";
      at = w.now;
      duration = pos 0;
      to = recipients w e en.id;
    })

pub check_cert : World → Evaluator → Entry → Time → Entry × List Effect
unfolding cert_alert
check_cert w e en expiry =
    let days_left = w.days (sub expiry w.now) in
    if eq_ℤ expiry zero_time
    then (en, [])
    else if not (ltb_ℤ days_left e.cert_warn_days)
    then (record en { cert_alerted = false }, set_cert_expiry en.id expiry ∷ [])
    else if en.cert_alerted
    then (en, set_cert_expiry en.id expiry ∷ [])
    else (
      record en { cert_alerted = true },
      set_cert_expiry en.id expiry ∷ cert_alert w e en expiry days_left,
    )

pub down_alert : World → Evaluator → Entry → Alert.Event
unfolding recipients
down_alert w e en = record {
  monitor = en.name;
  url = en.url;
  kind = Kind.down;
  region = en.last_region;
  cause = en.down_cause;
  at = w.now;
  duration = pos 0;
  to = recipients w e en.id;
}

pub recovered_alert : World → Evaluator → Entry → Alert.Event
unfolding recipients
recovered_alert w e en = record {
  monitor = en.name;
  url = en.url;
  kind = Kind.recovered;
  region = en.last_region;
  cause = "";
  at = w.now;
  duration =
      let started = w.started_at en.id in
      if eq_ℤ started zero_time then pos 0 else sub w.now started;
  to = recipients w e en.id;
}

-- The switch of `commit`.
pub announce : World → Evaluator → Entry → Engine.Event → List Effect
unfolding down_alert recovered_alert
announce w e en Engine.down =
    open_incident en.id en.down_cause
    ∷ incident_opened
    ∷ alert_counted Kind.down
    ∷ notify w e en.id (down_alert w e en)
announce w e en Engine.recovered =
    resolve_incident en.id
    ∷ alert_counted Kind.recovered
    ∷ notify w e en.id (recovered_alert w e en)
announce w e en Engine.none = []

pub commit : World → Evaluator → Entry → Engine.Event → List Effect
unfolding announce
commit w e en ev = announce w e en ev ++ monitor_up en.name en.engine.confirmed_up ∷ []

-- The entry of a monitor, or a new one: a monitor added after the start counts as up.
pub entry_or_new : Evaluator → CheckResult → Option Entry → Entry
entry_or_new e r (some en) = en
entry_or_new e r none = record {
  id = r.monitor_id;
  name = r.name;
  url = r.url;
  engine = new_monitor e.cfg true;
  last_region = "";
  last_ms = pos 0;
  down_cause = "";
  cert_alerted = false;
  slow_streak = 0;
  slow_alerted = false;
}

-- `handleResult` under the lock, for the entry of the monitor.
pub handle_entry : World → Evaluator → Entry → CheckResult → Entry × List Effect
handle_entry w e en r =
    let en1 = record en {
      url = r.url;
      last_region = r.region;
      last_ms = r.latency_ms;
      down_cause = if r.up then en.down_cause else cause_of r;
    } in
    let (en2, cert) = check_cert w e en1 r.cert_expiry in
    let (en3, slow) = check_slow w e en2 r in
    let (engine, ev) =
      evaluate (observe en3.engine r.region (record { up = r.up; at = r.checked_at })) w.now in
    let en4 = record en3 { engine = engine } in
    (en4, (result_processed ∷ cert) ++ (slow ++ commit w e en4 ev))

-- `handleResult`, from what unmarshalling makes of the message.
pub handle_result : World → Evaluator → Option CheckResult → Evaluator × List Effect
unfolding handle_entry entry_or_new
handle_result w e none = (e, [])
handle_result w e (some r) =
    let (en, effects) = handle_entry w e (entry_or_new e r (lookup r.monitor_id e.monitors)) r in
    (record e { monitors = insert r.monitor_id en e.monitors }, insert_check r ∷ effects)

pub tick_entries : World → Evaluator → List (ℤ × Entry) → List (ℤ × Entry) × List Effect
unfolding commit
tick_entries w e [] = ([], [])
tick_entries w e ((id, en) ∷ rest) =
    let (engine, ev) = evaluate en.engine w.now in
    let en' = record en { engine = engine } in
    let (rest', effects) = tick_entries w e rest in
    ((id, en') ∷ rest', commit w e en' ev ++ effects)

-- A tick of `tickLoop`.
pub tick : World → Evaluator → Evaluator × List Effect
unfolding tick_entries
tick w e = let (ms, effects) = tick_entries w e e.monitors in (record e { monitors = ms }, effects)
