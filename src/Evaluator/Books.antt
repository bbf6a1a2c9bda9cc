-- ===== src/Evaluator/Books.antt =====
-- cmd/evaluator/main.go: the effects of a handler on the database, when its calls go well.
use uptime_monitor.Prelude.{
  ℕ, ◌+◌, ℤ, eq_ℤ, Bool, true, false, Option, none, some, List, [], ◌∷◌, ◌++◌, All, ◌≡◌, refl, sym,
  subst, ◌∙◌, arith,
}
use uptime_monitor.Time.{Time, zero_time, sub}
use uptime_monitor.Message.{CheckResult}
use uptime_monitor.Alert.{Notifier}
use uptime_monitor.Alert as Alert
use uptime_monitor.Store.{Db}
use uptime_monitor.Store.Monitors.{set_expiry, check_row}
use uptime_monitor.Store.Incidents.{add_incident, resolve_rows}
use uptime_monitor.Store.Incidents.Count.{
  Holds, open_count-resolve_rows_other, find_monitor-set_expiry, add_incident-other,
}
use uptime_monitor.Evaluator.{
  Entry, Evaluator, World, Effect, insert_check, set_cert_expiry, open_incident, resolve_incident,
  result_processed, incident_opened, alert_counted, monitor_up, send, send_all, notify_by, notify,
  slow_alert, cert_alert, check_slow, check_cert,
}

-- The call of the store that an effect is.
unfoldable pub perform : Time → Effect → Db → Db
unfolding set_expiry add_incident resolve_rows
perform now (insert_check r) db = record db {
  checks =
      check_row r.monitor_id r.region r.checked_at (record {
        up = r.up;
        status_code = r.status_code;
        latency_ms = r.latency_ms;
        error = r.error;
        cert_expiry = zero_time;
      })
      ∷ db.checks;
}
perform now (set_cert_expiry id t) db = record db { monitors = set_expiry id t db.monitors }
perform now (open_incident id cause) db = (add_incident id cause now db).0
perform now (resolve_incident id) db = record db { incidents = resolve_rows id now db.incidents }
perform now _ db = db

unfoldable pub perform_all : Time → List Effect → Db → Db
unfolding perform
perform_all now [] db = db
perform_all now (x ∷ xs) db = perform_all now xs (perform now x db)

pub perform_all-append :
    (now : Time) (xs ys : List Effect) (db : Db)
    → perform_all now (xs ++ ys) db ≡ perform_all now ys (perform_all now xs db)
unfolding perform_all
perform_all-append now [] ys db = refl
perform_all-append now (x ∷ xs) ys db = perform_all-append now xs ys (perform now x db)

-- The effects that leave the incidents alone.
abbrev pub IsSide : Effect → Type 0
IsSide (open_incident id cause) = ⊥
IsSide (resolve_incident id) = ⊥
IsSide _ = Unit

-- The effects that may concern the incidents of one monitor only.
abbrev pub IsOf : ℤ → Effect → Type 0
IsOf id (open_incident j cause) = j ≡ id
IsOf id (resolve_incident j) = j ≡ id
IsOf id _ = Unit

pub side-Holds :
    (now : Time) (id : ℤ) (n : ℕ) (x : Effect) (db : Db)
    → IsSide x
    → Holds id n db
    → Holds id n (perform now x db)
unfolding perform Holds
side-Holds now id n (open_incident j cause) db s h = elim s [ ]
side-Holds now id n (resolve_incident j) db s h = elim s [ ]
side-Holds now id n (set_cert_expiry j t) db s (c, e) =
    (c, find_monitor-set_expiry j id t db.monitors ∙ e)
side-Holds now id n (insert_check r) db s h = h
side-Holds now id n result_processed db s h = h
side-Holds now id n incident_opened db s h = h
side-Holds now id n (alert_counted k) db s h = h
side-Holds now id n (monitor_up m u) db s h = h
side-Holds now id n (send m ev) db s h = h

pub sides-Holds :
    (now : Time) (id : ℤ) (n : ℕ) (xs : List Effect) (db : Db)
    → All IsSide xs
    → Holds id n db
    → Holds id n (perform_all now xs db)
unfolding perform_all
sides-Holds now id n [] db s h = h
sides-Holds now id n (x ∷ xs) db (s, ss) h =
    sides-Holds now id n xs (perform now x db) ss (side-Holds now id n x db s h)

other-Holds :
    (now : Time) (id j : ℤ) (n : ℕ) (x : Effect) (db : Db)
    → eq_ℤ id j ≡ false
    → IsOf id x
    → Holds j n db
    → Holds j n (perform now x db)
unfolding perform Holds
other-Holds now id j n (open_incident k cause) db d s h =
    add_incident-other k j cause now n db (subst (λ i. eq_ℤ i j ≡ false) (sym s) d) h
other-Holds now id j n (resolve_incident k) db d s (c, e) = (
  open_count-resolve_rows_other k j now db.incidents (subst (λ i. eq_ℤ i j ≡ false) (sym s) d) ∙ c,
  e,
)
other-Holds now id j n (set_cert_expiry i t) db d s h =
    side-Holds now j n (set_cert_expiry i t) db tt h
other-Holds now id j n (insert_check r) db d s h = side-Holds now j n (insert_check r) db tt h
other-Holds now id j n result_processed db d s h = h
other-Holds now id j n incident_opened db d s h = h
other-Holds now id j n (alert_counted k) db d s h = h
other-Holds now id j n (monitor_up m u) db d s h = h
other-Holds now id j n (send m ev) db d s h = h

-- The effects of one monitor leave the incidents of another.
pub others-Holds :
    (now : Time) (id j : ℤ) (n : ℕ) (xs : List Effect) (db : Db)
    → eq_ℤ id j ≡ false
    → All (IsOf id) xs
    → Holds j n db
    → Holds j n (perform_all now xs db)
unfolding perform_all
others-Holds now id j n [] db d s h = h
others-Holds now id j n (x ∷ xs) db d (s, ss) h =
    others-Holds now id j n xs (perform now x db) d ss (other-Holds now id j n x db d s h)

pub side-IsOf : (id : ℤ) (xs : List Effect) → All IsSide xs → All (IsOf id) xs
side-IsOf id [] s = tt
side-IsOf id (x ∷ xs) (s, ss) = (one x s, side-IsOf id xs ss)
  where
    one : (x : Effect) → IsSide x → IsOf id x
    one (open_incident j cause) s = elim s [ ]
    one (resolve_incident j) s = elim s [ ]
    one (set_cert_expiry j t) s = tt
    one (insert_check r) s = tt
    one result_processed s = tt
    one incident_opened s = tt
    one (alert_counted k) s = tt
    one (monitor_up m u) s = tt
    one (send m ev) s = tt

send_all-IsSide : (ns : List Notifier) (ev : Alert.Event) → All IsSide (send_all ns ev)
unfolding send_all
send_all-IsSide [] ev = tt
send_all-IsSide (n ∷ ns) ev = (tt, send_all-IsSide ns ev)

notify_by-IsSide :
    (m : Option Bool) (ns : List Notifier) (ev : Alert.Event) → All IsSide (notify_by m ns ev)
unfolding notify_by
notify_by-IsSide (some true) ns ev = tt
notify_by-IsSide (some false) ns ev = send_all-IsSide ns ev
notify_by-IsSide none ns ev = send_all-IsSide ns ev

module _ (w : World) (e : Evaluator) where
  pub notify-IsSide : (id : ℤ) (ev : Alert.Event) → All IsSide (notify w e id ev)
  unfolding notify
  notify-IsSide id ev = notify_by-IsSide (w.muted id) e.notifiers ev

  slow_alert-IsSide : (en : Entry) (r : CheckResult) → All IsSide (slow_alert w e en r)
  unfolding slow_alert
  slow_alert-IsSide en r = (tt, notify-IsSide en.id _)

  cert_alert-IsSide :
      (en : Entry) (expiry : Time) (days : ℤ) → All IsSide (cert_alert w e en expiry days)
  unfolding cert_alert
  cert_alert-IsSide en expiry days = (tt, notify-IsSide en.id _)

  -- What the two checks keep of an entry.
  abbrev Same : Entry → Entry → Type 0
  Same en en' = (en'.id ≡ en.id) × (en'.engine ≡ en.engine)

  pub check_slow-IsSide :
      (en : Entry) (r : CheckResult)
      → Same en (check_slow w e en r).0 × All IsSide (check_slow w e en r).1
  unfolding check_slow
  check_slow-IsSide en r = ground (
    arith,
    slow_alert-IsSide (record en { slow_streak = en.slow_streak + 1; slow_alerted = true }) r,
  )

  pub check_cert-IsSide :
      (en : Entry) (expiry : Time)
      → Same en (check_cert w e en expiry).0 × All IsSide (check_cert w e en expiry).1
  unfolding check_cert
  check_cert-IsSide en expiry = ground (
    arith,
    cert_alert-IsSide (record en { cert_alerted = true }) expiry (w.days (sub expiry w.now)),
  )
