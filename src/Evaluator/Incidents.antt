-- ===== src/Evaluator/Incidents.antt =====
-- cmd/evaluator/main.go: the open incidents of the database keep step with the engines.
use uptime_monitor.Prelude.{
  Bool, List, [], ◌∷◌, ◌++◌, int_eq, All, All-append, if◌then◌else◌, ◌≡◌, refl, sym, subst, ◌∙◌,
}
use uptime_monitor.Message.{CheckResult}
use uptime_monitor.Evaluate.{observe, evaluate}
use uptime_monitor.Evaluate as Engine
use uptime_monitor.Evaluate.Changes.{Follows, evaluate-Follows}
use uptime_monitor.Alert.{Kind}
use uptime_monitor.Store.{Db}
use uptime_monitor.Store.Incidents.Count.{open_for, Holds, resolve_rows-Holds, add_incident-Holds}
use uptime_monitor.Evaluator.{
  Entry, Evaluator, World, Effect, result_processed, incident_opened, alert_counted, open_incident,
  resolve_incident, monitor_up, notify, down_alert, recovered_alert, announce, cause_of, check_slow,
  check_cert, commit, handle_entry,
}
use uptime_monitor.Evaluator.Books.{
  perform, perform_all, perform_all-append, IsSide, IsOf, sides-Holds, side-IsOf, notify-IsSide,
  check_slow-IsSide, check_cert-IsSide,
}

module _ (w : World) (e : Evaluator) where
  -- The effects behind the opening of an incident.
  abbrev after_down : Entry → List Effect
  after_down en = incident_opened ∷ alert_counted Kind.down ∷ notify w e en.id (down_alert w e en)

  abbrev after_recovered : Entry → List Effect
  after_recovered en = alert_counted Kind.recovered ∷ notify w e en.id (recovered_alert w e en)

  down-IsSide : (en : Entry) → All IsSide (after_down en)
  down-IsSide en = (tt, (tt, notify-IsSide w e en.id (down_alert w e en)))

  recovered-IsSide : (en : Entry) → All IsSide (after_recovered en)
  recovered-IsSide en = (tt, notify-IsSide w e en.id (recovered_alert w e en))

  -- The open incidents before an event, and after its effects.
  announce-Holds :
      (en : Entry) (ev : Engine.Event) (b b' : Bool) (db : Db)
      → Follows b ev b'
      → Holds en.id (open_for b) db
      → Holds en.id (open_for b') (perform_all w.now (announce w e en ev) db)
  unfolding announce perform_all
  announce-Holds en Engine.none b b' db same h =
      subst (λ c. Holds en.id (open_for c) db) (sym same) h
  announce-Holds en Engine.down b b' db (before, after) h =
      let opened : Db = perform w.now (open_incident en.id en.down_cause) db in
      sides-Holds w.now en.id (open_for b') (after_down en) opened (down-IsSide en) (
        subst (λ c. Holds en.id (open_for c) opened) (sym after)
          (unfold perform in
            add_incident-Holds en.id en.down_cause w.now 0 db
              (subst (λ c. Holds en.id (open_for c) db) before h)))
  announce-Holds en Engine.recovered b b' db (before, after) h =
      let resolved : Db = perform w.now (resolve_incident en.id) db in
      sides-Holds w.now en.id (open_for b') (after_recovered en) resolved (recovered-IsSide en) (
        subst (λ c. Holds en.id (open_for c) resolved) (sym after)
          (unfold perform in resolve_rows-Holds en.id w.now (open_for b) db h))

  announce-IsOf : (en : Entry) (ev : Engine.Event) → All (IsOf en.id) (announce w e en ev)
  unfolding announce
  announce-IsOf en Engine.none = tt
  announce-IsOf en Engine.down = (refl, side-IsOf en.id (after_down en) (down-IsSide en))
  announce-IsOf en Engine.recovered =
      (refl, side-IsOf en.id (after_recovered en) (recovered-IsSide en))

  commit-Holds :
      (en : Entry) (ev : Engine.Event) (b b' : Bool) (db : Db)
      → Follows b ev b'
      → Holds en.id (open_for b) db
      → Holds en.id (open_for b') (perform_all w.now (commit w e en ev) db)
  unfolding commit
  commit-Holds en ev b b' db f h =
      subst (λ d. Holds en.id (open_for b') d)
        (sym (
          perform_all-append w.now (announce w e en ev)
            (monitor_up en.name en.engine.confirmed_up ∷ []) db))
        (sides-Holds w.now en.id (open_for b') (monitor_up en.name en.engine.confirmed_up ∷ [])
          (perform_all w.now (announce w e en ev) db) (tt, tt) (announce-Holds en ev b b' db f h))

  commit-IsOf : (en : Entry) (ev : Engine.Event) → All (IsOf en.id) (commit w e en ev)
  unfolding commit
  commit-IsOf en ev =
      All-append (IsOf en.id) (announce w e en ev) (monitor_up en.name en.engine.confirmed_up ∷ [])
        (announce-IsOf en ev) (tt, tt)

  -- An entry, its effects, and the open incidents of its monitor.
  abbrev pub Served : Entry → Entry × List Effect → Type 0
  Served en (en', xs) =
      (en'.id ≡ en.id)
      × All (IsOf en.id) xs
      × ((db : Db)
          → Holds en.id (open_for en.engine.confirmed_up) db
          → Holds en.id (open_for en'.engine.confirmed_up) (perform_all w.now xs db))

  -- The entry with an engine that is evaluated, and the commit of its event.
  abbrev pub evaluated : Entry → Engine.Monitor → Entry × List Effect
  evaluated en m =
      let en' = record en { engine = (evaluate m w.now).0 } in
      (en', commit w e en' (evaluate m w.now).1)

  pub evaluated-Served :
      (en : Entry) (m : Engine.Monitor)
      → m.confirmed_up ≡ en.engine.confirmed_up
      → Served en (evaluated en m)
  evaluated-Served en m same =
      let en' : Entry = record en { engine = (evaluate m w.now).0 } in
      let ev = (evaluate m w.now).1 in
      (
        refl,
        commit-IsOf en' ev,
        λ db h.
            commit-Holds en' ev m.confirmed_up _ db (evaluate-Follows m w.now)
              (subst (λ b. Holds en.id (open_for b) db) (sym same) h),
      )

  -- Side effects of a check in front of the rest.
  sides-Served :
      (en en' : Entry) (xs : List Effect) (y : Entry × List Effect)
      → (en'.id ≡ en.id) × (en'.engine ≡ en.engine)
      → All IsSide xs
      → Served en' y
      → Served en (y.0, xs ++ y.1)
  sides-Served en en' xs y (id_same, engine_same) sides (id_kept, of, holds) = (
    id_kept ∙ id_same,
    All-append (IsOf en.id) xs y.1 (side-IsOf en.id xs sides)
        (subst (λ i. All (IsOf i) y.1) id_same of),
    λ db h.
        subst (λ d. Holds en.id (open_for y.0.engine.confirmed_up) d)
          (sym (perform_all-append w.now xs y.1 db))
          (subst
            (λ i.
              Holds i (open_for y.0.engine.confirmed_up)
                (perform_all w.now y.1 (perform_all w.now xs db)))
            id_same
            (holds (perform_all w.now xs db) (
              sides-Holds w.now en'.id (open_for en'.engine.confirmed_up) xs db sides (
                subst (λ i. Holds i (open_for en'.engine.confirmed_up) db) (sym id_same)
                  (subst (λ (m : Engine.Monitor). Holds en.id (open_for m.confirmed_up) db)
                    (sym engine_same) h))))),
  )

  pub handle_entry-Served : (en : Entry) (r : CheckResult) → Served en (handle_entry w e en r)
  unfolding handle_entry
  handle_entry-Served en r =
      let en1 : Entry = record en {
        url = r.url;
        last_region = r.region;
        last_ms = r.latency_ms;
        down_cause = if r.up then en.down_cause else cause_of r;
      } in
      let (cert_same, cert) = check_cert-IsSide w e en1 r.cert_expiry in
      let en2 : Entry = (check_cert w e en1 r.cert_expiry).0 in
      let (slow_same, slow) = check_slow-IsSide w e en2 r in
      let en3 : Entry = (check_slow w e en2 r).0 in
      let m : Engine.Monitor =
        observe en3.engine r.region (record { up = r.up; at = r.checked_at }) in
      let last : Served en3 (evaluated en3 m) = evaluated-Served en3 m (unfold observe in refl) in
      sides-Served en en2 (result_processed ∷ (check_cert w e en1 r.cert_expiry).1)
        ((evaluated en3 m).0, (check_slow w e en2 r).1 ++ (evaluated en3 m).1) cert_same (tt, cert)
        (sides-Served en2 en3 (check_slow w e en2 r).1 (evaluated en3 m) slow_same slow last)
