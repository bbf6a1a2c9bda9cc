-- ===== src/Scheduler/Rounds.antt =====
-- cmd/scheduler/main.go, `syncOnce`: the loops stay in step with the map `running`.
use uptime_monitor.Prelude.{
  ◌≡◌, refl, ℤ, eq_ℤ_iff, false, inl, inr, Bool-cases, Option, none, some, List, [], ◌∷◌, lookup,
  delete, lookup-delete, int_eq, arith,
}
use uptime_monitor.Message.{StoreMonitor}
use uptime_monitor.Scheduler.{
  Active, changed, Scheduler, cancel, sync_monitor, sync_monitors, seen, stop_unseen, sync_once,
}
use uptime_monitor.Scheduler.Loops.{has_key, Apart, IsInStep}
use uptime_monitor.Scheduler.Moves.{start-IsInStep, none-IsVacant, cancel-IsVacant, delete-IsInStep}

sync_monitor-IsInStep :
    (m : StoreMonitor) (found : Option Active) (s : Scheduler)
    → lookup m.id s.running ≡ found
    → IsInStep s
    → IsInStep (sync_monitor m found s)
unfolding sync_monitor
sync_monitor-IsInStep m none s h k = start-IsInStep m s (none-IsVacant m.id s k h)
sync_monitor-IsInStep m (some a) s h k = elim (Bool-cases (changed a m)) [
  | inl new ↦ rw new (start-IsInStep m (cancel a s) (cancel-IsVacant m.id a s k h))
  | inr old ↦ rw old k
]

pub sync_monitors-IsInStep :
    (ms : List StoreMonitor) (s : Scheduler) → IsInStep s → IsInStep (sync_monitors ms s)
unfolding sync_monitors
sync_monitors-IsInStep [] s k = k
sync_monitors-IsInStep (m ∷ ms) s k =
    sync_monitors-IsInStep ms _ (sync_monitor-IsInStep m (lookup m.id s.running) s refl k)

-- The entries that are left to look at stand in the map, each under its own key.
StandsIn : List (ℤ × Active) → List (ℤ × Active) → Type 0
StandsIn running [] = Unit
StandsIn running ((id, a) ∷ l) =
    (has_key id l ≡ false) × (lookup id running ≡ some a) × StandsIn running l

later-StandsIn :
    (k : ℤ) (b : Active) (running l : List (ℤ × Active))
    → has_key k l ≡ false
    → StandsIn running l
    → StandsIn ((k, b) ∷ running) l
unfolding StandsIn has_key
later-StandsIn k b running [] h t = tt
later-StandsIn k b running ((id, a) ∷ l) h (apart, there, t) = (
  apart,
  ground (arith, h, there, eq_ℤ_iff k id, eq_ℤ_iff id k),
  later-StandsIn k b running l (ground (arith, h)) t,
)

self-StandsIn : (l : List (ℤ × Active)) → Apart l → StandsIn l l
unfolding StandsIn
self-StandsIn [] d = tt
self-StandsIn ((k, a) ∷ l) d =
    (d.0, ground (arith, eq_ℤ_iff k k), later-StandsIn k a l l d.0 (self-StandsIn l d.1))

delete-StandsIn :
    (k : ℤ) (running l : List (ℤ × Active))
    → has_key k l ≡ false
    → StandsIn running l
    → StandsIn (delete k running) l
unfolding StandsIn has_key
delete-StandsIn k running [] h t = tt
delete-StandsIn k running ((id, a) ∷ l) h (apart, there, t) = (
  apart,
  ground (arith, h, there, eq_ℤ_iff k id, eq_ℤ_iff id k, lookup-delete k id running),
  delete-StandsIn k running l (ground (arith, h)) t,
)

stop_unseen-IsInStep :
    (ms : List StoreMonitor) (l : List (ℤ × Active)) (s : Scheduler)
    → StandsIn s.running l
    → IsInStep s
    → IsInStep (stop_unseen ms l s)
unfolding stop_unseen StandsIn cancel
stop_unseen-IsInStep ms [] s t k = k
stop_unseen-IsInStep ms ((id, a) ∷ l) s (apart, there, t) k = elim (Bool-cases (seen id ms)) [
  | inl h ↦ rw h (stop_unseen-IsInStep ms l s t k)
  | inr h ↦ rw h (
      stop_unseen-IsInStep ms l (record (cancel a s) { running = delete id s.running })
        (delete-StandsIn id s.running l apart t)
        (delete-IsInStep id (cancel a s) (cancel-IsVacant id a s k there)))
]

pub sync_once-IsInStep :
    (ms : List StoreMonitor) (s : Scheduler) → IsInStep s → IsInStep (sync_once (some ms) s)
unfolding sync_once
sync_once-IsInStep ms s k =
    let s' = sync_monitors ms s in
    let k' = sync_monitors-IsInStep ms s k in
    stop_unseen-IsInStep ms s'.running s' (self-StandsIn s'.running k'.apart) k'
