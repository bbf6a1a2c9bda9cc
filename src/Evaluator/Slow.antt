-- ===== src/Evaluator/Slow.antt =====
-- cmd/evaluator/main.go, `checkSlow`: one alert for a slow spell.
use uptime_monitor.Prelude.{
  ℕ, suc, ◌+◌, ◌≡◌, refl, ap, Bool, true, false, Option, none, some, List, [], ◌∷◌, ◌++◌,
  append-nil, leb, ℤ, sym, Bool-cases, inl, inr, ◌∙◌, ◌≢◌, ◌≤◌, if◌then◌else◌, length, All, arith,
}
use uptime_monitor.Message.{CheckResult}
use uptime_monitor.Alert.{Kind, Notifier}
use uptime_monitor.Alert as Alert
use uptime_monitor.Evaluator.{
  Entry, Evaluator, World, Effect, send, send_all, notify_by, notify, slow_alert, not_slow,
  check_slow,
}

abbrev pub is_slow : Kind → Bool
is_slow Kind.slow = true
is_slow _ = false

-- The notifiers over which the effects send an alert for slowness, in the order of sending.
unfoldable pub slow_sent : List Effect → List Notifier
slow_sent [] = []
slow_sent (send n ev ∷ es) = let rest = slow_sent es in if is_slow ev.kind then n ∷ rest else rest
slow_sent (_ ∷ es) = slow_sent es

abbrev pub check_slow_all : World → Evaluator → Entry → List CheckResult → Entry × List Effect
check_slow_all w e en [] = (en, [])
check_slow_all w e en (r ∷ rs) =
    let (en', effects) = check_slow w e en r in
    let (en2, rest) = check_slow_all w e en' rs in (en2, effects ++ rest)

abbrev pub IsSlow : CheckResult → Type 0
IsSlow r = not_slow r ≡ false

slow_sent-append : (xs ys : List Effect) → slow_sent (xs ++ ys) ≡ slow_sent xs ++ slow_sent ys
unfolding slow_sent
slow_sent-append [] ys = refl
slow_sent-append (send n ev ∷ xs) ys = elim (Bool-cases (is_slow ev.kind)) [
  | inl h ↦ rw h (ap (n ∷◌) (slow_sent-append xs ys))
  | inr h ↦ rw h (slow_sent-append xs ys)
]
slow_sent-append (x ∷ xs) ys = slow_sent-append xs ys

slow_sent-send_all :
    (ns : List Notifier) (ev : Alert.Event) → ev.kind ≡ Kind.slow → slow_sent (send_all ns ev) ≡ ns
unfolding slow_sent send_all
slow_sent-send_all [] ev h = refl
slow_sent-send_all (n ∷ ns) ev h =
    let slow : is_slow ev.kind ≡ true = ap is_slow h in
    rw slow (ap (n ∷◌) (slow_sent-send_all ns ev h))

slow_sent-notify_by :
    (muted : Option Bool) (ns : List Notifier) (ev : Alert.Event)
    → muted ≢ some true
    → ev.kind ≡ Kind.slow
    → slow_sent (notify_by muted ns ev) ≡ ns
unfolding notify_by
slow_sent-notify_by none ns ev u h = slow_sent-send_all ns ev h
slow_sent-notify_by (some true) ns ev u h = absurd (u refl)
slow_sent-notify_by (some false) ns ev u h = slow_sent-send_all ns ev h

slow_sent-slow_alert :
    (w : World) (e : Evaluator) (en : Entry) (r : CheckResult)
    → w.muted en.id ≢ some true
    → slow_sent (slow_alert w e en r) ≡ e.notifiers
unfolding slow_alert notify slow_sent
slow_sent-slow_alert w e en r u = slow_sent-notify_by (w.muted en.id) e.notifiers _ u refl

-- A slow spell of the monitor `id` in which the alert is out as soon as it is long enough.
abbrev InSpell : ℤ → ℕ → Entry → Type 0
InSpell id k en = (en.id ≡ id) × (en.slow_streak ≡ k) × (en.slow_alerted ≡ leb 3 k)

module _ (w : World) (e : Evaluator) (id : ℤ) (unmuted : w.muted id ≢ some true) where
  -- What is sent while the spell grows from k results to k'.
  between : ℕ → ℕ → List Notifier
  between k k' = if leb 3 k then [] else (if leb 3 k' then e.notifiers else [])

  check_slow-InSpell :
      (k : ℕ) (en : Entry) (r : CheckResult)
      → InSpell id k en
      → IsSlow r
      → InSpell id (suc k) (check_slow w e en r).0
        × (slow_sent (check_slow w e en r).1 ≡ between k (suc k))
  unfolding check_slow between slow_sent
  check_slow-InSpell k en r (same, streak, out) slow =
      let en' = record en { slow_streak = en.slow_streak + 1; slow_alerted = true } in
      ground (
        arith,
        same,
        streak,
        out,
        slow,
        slow_sent-slow_alert w e en' r (λ m. unmuted (ap w.muted (sym same) ∙ m)),
      )

  between-append : (k m n : ℕ) → k ≤ m → m ≤ n → between k m ++ between m n ≡ between k n
  unfolding between
  between-append k m n h i = ground (arith, append-nil e.notifiers)

  spell :
      (k : ℕ) (en : Entry) (rs : List CheckResult)
      → InSpell id k en
      → All IsSlow rs
      → slow_sent (check_slow_all w e en rs).1 ≡ between k (k + length rs)
  unfolding between slow_sent
  spell k en [] h slow = ground arith
  spell k en (r ∷ rs) h slow =
      let (h', sent) = check_slow-InSpell k en r h slow.0 in
      let en' = (check_slow w e en r).0 in
      let rest = spell (suc k) en' rs h' slow.1 in
      let last : suc k + length rs ≡ k + length (r ∷ rs) = omega arith in
      slow_sent-append (check_slow w e en r).1 (check_slow_all w e en' rs).1
      ∙ rw (sent, rest) (between-append k (suc k) (suc k + length rs) (omega arith) (omega arith))
      ∙ ap (between k) last

-- A spell of slow results of a monitor that is not muted, from an entry that is in none, has one
-- alert for slowness sent, over every notifier in their order, if it has three results or more, and
-- otherwise none. An error of the mute check counts as not muted.
pub slow_spell_alerts_once :
    (w : World) (e : Evaluator) (en : Entry) (rs : List CheckResult)
    → w.muted en.id ≢ some true
    → en.slow_streak ≡ 0
    → en.slow_alerted ≡ false
    → All IsSlow rs
    → slow_sent (check_slow_all w e en rs).1 ≡ (if leb 3 (length rs) then e.notifiers else [])
unfolding between
slow_spell_alerts_once w e en rs unmuted fresh quiet slow =
    let none_before : 0 + length rs ≡ length rs = omega arith in
    rw none_before at (spell w e en.id unmuted 0 en rs (refl, fresh, quiet) slow)
