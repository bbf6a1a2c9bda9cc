-- ===== src/Evaluator/Muted.antt =====
-- cmd/evaluator/main.go: a muted monitor sends no alert, whatever its result.
use uptime_monitor.Prelude.{
  ◌+◌, ◌≡◌, refl, sym, ap, ◌∙◌, ℤ, true, Option, none, some, List, [], ◌∷◌, inl, inr, All,
  All-append, lookup, insert, int_eq, eq_ℤ, eq_ℤ_iff, Bool-cases, if◌then◌else◌, arith,
}
use uptime_monitor.Time.{Time, sub}
use uptime_monitor.Message.{CheckResult}
use uptime_monitor.Alert.{Notifier}
use uptime_monitor.Alert as Alert
use uptime_monitor.Evaluate.{observe, evaluate}
use uptime_monitor.Evaluate as Engine
use uptime_monitor.Evaluator.{
  Entry, Evaluator, World, Effect, result_processed, send, notify_by, notify, slow_alert,
  cert_alert, announce, cause_of, check_slow, check_cert, commit, entry_or_new, handle_entry,
  handle_result,
}

abbrev pub IsQuiet : Effect → Type 0
IsQuiet (send n ev) = ⊥
IsQuiet _ = Unit

abbrev IsKeyed : ℤ × Entry → Type 0
IsKeyed (k, en) = en.id ≡ k

-- Every entry stands under its own id.
abbrev pub Keyed : Evaluator → Type 0
Keyed e = All IsKeyed e.monitors

module _ (w : World) (e : Evaluator) (id : ℤ) (muted : w.muted id ≡ some true) where
  notify_muted : (en : Entry) (ev : Alert.Event) → en.id ≡ id → notify w e en.id ev ≡ []
  unfolding notify notify_by
  notify_muted en ev same = ap (λ m. notify_by m e.notifiers ev) (ap w.muted same ∙ muted)

  slow_alert-IsQuiet :
      (en : Entry) (r : CheckResult) → en.id ≡ id → All IsQuiet (slow_alert w e en r)
  unfolding slow_alert
  slow_alert-IsQuiet en r same = rw (notify_muted en _ same) (tt, tt)

  cert_alert-IsQuiet :
      (en : Entry) (expiry : Time) (days : ℤ)
      → en.id ≡ id
      → All IsQuiet (cert_alert w e en expiry days)
  unfolding cert_alert
  cert_alert-IsQuiet en expiry days same = rw (notify_muted en _ same) (tt, tt)

  announce-IsQuiet :
      (en : Entry) (ev : Engine.Event) → en.id ≡ id → All IsQuiet (announce w e en ev)
  unfolding announce
  announce-IsQuiet en Engine.down same = rw (notify_muted en _ same) (tt, (tt, (tt, tt)))
  announce-IsQuiet en Engine.recovered same = rw (notify_muted en _ same) (tt, (tt, tt))
  announce-IsQuiet en Engine.none same = tt

  commit-IsQuiet : (en : Entry) (ev : Engine.Event) → en.id ≡ id → All IsQuiet (commit w e en ev)
  unfolding commit
  commit-IsQuiet en ev same = All-append IsQuiet _ _ (announce-IsQuiet en ev same) (tt, tt)

  check_slow-IsQuiet :
      (en : Entry) (r : CheckResult)
      → en.id ≡ id
      → ((check_slow w e en r).0.id ≡ id) × All IsQuiet (check_slow w e en r).1
  unfolding check_slow
  check_slow-IsQuiet en r same = ground (
    arith,
    same,
    slow_alert-IsQuiet (record en { slow_streak = en.slow_streak + 1; slow_alerted = true }) r same,
  )

  check_cert-IsQuiet :
      (en : Entry) (expiry : Time)
      → en.id ≡ id
      → ((check_cert w e en expiry).0.id ≡ id) × All IsQuiet (check_cert w e en expiry).1
  unfolding check_cert
  check_cert-IsQuiet en expiry same = ground (
    arith,
    same,
    cert_alert-IsQuiet (record en { cert_alerted = true }) expiry (w.days (sub expiry w.now)) same,
  )

  handle_entry-IsQuiet :
      (en : Entry) (r : CheckResult)
      → en.id ≡ id
      → ((handle_entry w e en r).0.id ≡ id) × All IsQuiet (handle_entry w e en r).1
  unfolding handle_entry
  handle_entry-IsQuiet en r same =
      let en1 = record en {
        url = r.url;
        last_region = r.region;
        last_ms = r.latency_ms;
        down_cause = if r.up then en.down_cause else cause_of r;
      } in
      let (same2, cert) = check_cert-IsQuiet en1 r.cert_expiry same in
      let en2 = (check_cert w e en1 r.cert_expiry).0 in
      let (same3, slow) = check_slow-IsQuiet en2 r same2 in
      let en3 = (check_slow w e en2 r).0 in
      let step =
        evaluate (observe en3.engine r.region (record { up = r.up; at = r.checked_at })) w.now in
      let head : All IsQuiet (result_processed ∷ (check_cert w e en1 r.cert_expiry).1) =
        (tt, cert) in
      (
        same3,
        All-append IsQuiet (result_processed ∷ (check_cert w e en1 r.cert_expiry).1) _ head (
            All-append IsQuiet (check_slow w e en2 r).1
              (commit w e (record en3 { engine = step.0 }) step.1) slow
              (commit-IsQuiet (record en3 { engine = step.0 }) step.1 same3)),
      )

-- The entry that a result goes to stands under the result's monitor.
entry_or_new-id :
    (e : Evaluator) (r : CheckResult) (found : Option Entry)
    → ((en : Entry) → found ≡ some en → en.id ≡ r.monitor_id)
    → (entry_or_new e r found).id ≡ r.monitor_id
unfolding entry_or_new
entry_or_new-id e r none h = refl
entry_or_new-id e r (some en) h = h en refl

some_inj : (a b : Entry) → some a ≡ some b → a ≡ b
some_inj a b h = ap (or_else a) h
  where
    or_else : Entry → Option Entry → Entry
    or_else d none = d
    or_else d (some x) = x

lookup-IsKeyed :
    (k : ℤ) (m : List (ℤ × Entry)) (en : Entry) → All IsKeyed m → lookup k m ≡ some en → en.id ≡ k
lookup-IsKeyed k [] en h found = ground (arith, found)
lookup-IsKeyed k ((j, x) ∷ m) en h found = elim (Bool-cases (eq_ℤ j k)) [
  | inl here ↦
      let it : x ≡ en =
        some_inj x en (ap (λ b. if b then some x else lookup k m) (sym here) ∙ found) in
      ap (λ y. y.id) (sym it) ∙ h.0 ∙ (eq_ℤ_iff j k).0 here
  | inr away ↦
      lookup-IsKeyed k m en h.1 (ap (λ b. if b then some x else lookup k m) (sym away) ∙ found)
]

insert-IsKeyed :
    (k : ℤ) (en : Entry) (m : List (ℤ × Entry))
    → en.id ≡ k
    → All IsKeyed m
    → All IsKeyed (insert k en m)
insert-IsKeyed k en [] same h = (same, tt)
insert-IsKeyed k en ((j, x) ∷ m) same h = elim (Bool-cases (eq_ℤ j k)) [
  | inl here ↦ rw here (same ∙ sym ((eq_ℤ_iff j k).0 here), h.1)
  | inr away ↦ rw away (h.0, insert-IsKeyed k en m same h.1)
]

-- While a monitor is muted, handling a result of it calls no notifier, whatever alerts fall due; the
-- entries stand under the ids of their monitors, before and after.
pub handle_result-IsQuiet :
    (w : World) (e : Evaluator) (r : CheckResult)
    → w.muted r.monitor_id ≡ some true
    → Keyed e
    → All IsQuiet (handle_result w e (some r)).1 × Keyed (handle_result w e (some r)).0
unfolding handle_result
handle_result-IsQuiet w e r muted keyed =
    let en = entry_or_new e r (lookup r.monitor_id e.monitors) in
    let same =
      entry_or_new-id e r (lookup r.monitor_id e.monitors)
        (λ en' found. lookup-IsKeyed r.monitor_id e.monitors en' keyed found) in
    let (same', quiet) = handle_entry-IsQuiet w e r.monitor_id muted en r same in
    ((tt, quiet), insert-IsKeyed r.monitor_id (handle_entry w e en r).0 e.monitors same' keyed)
