-- ===== src/Scheduler/Watched.antt =====
-- cmd/scheduler/main.go, `syncOnce`: what a round does to the entries of `running`.
use uptime_monitor.Prelude.{
  ℕ, ◌≡◌, refl, ◌∙◌, ℤ, eq_ℤ, eq_ℤ_iff, true, false, inl, inr, Bool-cases, Option, none, some,
  Option-cases, List, [], ◌∷◌, All, lookup, delete, lookup-insert_here, lookup-insert_elsewhere,
  lookup-delete, int_eq, nat_eq, string_eq, if◌then◌else◌, arith,
}
use uptime_monitor.Message.{StoreMonitor}
use uptime_monitor.Scheduler.Loops.{has_key}
use uptime_monitor.Scheduler.{
  Active, changed, Scheduler, start, cancel, sync_monitor, sync_monitors, seen, stop_unseen,
}

-- A monitor has an entry, and nothing that `changed` looks at has changed since its loop was started.
abbrev pub HasEntry : Scheduler → StoreMonitor → Type 0
HasEntry s m = (a : Active) × (lookup m.id s.running ≡ some a) × (changed a m ≡ false)

-- The id is the primary key of the table.
abbrev pub Distinct : List StoreMonitor → Type 0
Distinct [] = Unit
Distinct (m ∷ ms) = (seen m.id ms ≡ false) × Distinct ms

pub same_int : (a : ℤ) → eq_ℤ a a ≡ true
same_int a = (eq_ℤ_iff a a).1 refl

pub changed_refl : (n : ℕ) (m : StoreMonitor) → changed (record { loop = n; monitor = m }) m ≡ false
unfolding changed
changed_refl n m =
    rw
      (
        (string_eq.beq_iff m.url m.url).1 refl,
        (string_eq.beq_iff m.method m.method).1 refl,
        (string_eq.beq_iff m.name m.name).1 refl,
        same_int m.interval_seconds,
        same_int m.timeout_ms,
        same_int m.expected_status,
      )
      refl

start-HasEntry : (m : StoreMonitor) (s : Scheduler) → HasEntry (start m s) m
unfolding start
start-HasEntry m s = (
  record { loop = s.next; monitor = m },
  lookup-insert_here m.id (record { loop = s.next; monitor = m }) s.running,
  changed_refl s.next m,
)

sync_monitor-HasEntry :
    (m : StoreMonitor) (found : Option Active) (s : Scheduler)
    → lookup m.id s.running ≡ found
    → HasEntry (sync_monitor m found s) m
unfolding sync_monitor
sync_monitor-HasEntry m none s h = start-HasEntry m s
sync_monitor-HasEntry m (some a) s h = elim (Bool-cases (changed a m)) [
  | inl new ↦ rw new (start-HasEntry m (cancel a s))
  | inr old ↦ rw old (a, h, old)
]

-- The entries of the other monitors stay.
pub sync_monitor_elsewhere :
    (m : StoreMonitor) (found : Option Active) (s : Scheduler) (id : ℤ)
    → eq_ℤ m.id id ≡ false
    → lookup id (sync_monitor m found s).running ≡ lookup id s.running
unfolding sync_monitor start cancel
sync_monitor_elsewhere m none s id h = lookup-insert_elsewhere m.id id _ s.running h
sync_monitor_elsewhere m (some a) s id h = elim (Bool-cases (changed a m)) [
  | inl new ↦ rw new (lookup-insert_elsewhere m.id id _ s.running h)
  | inr old ↦ rw old refl
]

pub sync_monitors_elsewhere :
    (ms : List StoreMonitor) (s : Scheduler) (id : ℤ)
    → seen id ms ≡ false
    → lookup id (sync_monitors ms s).running ≡ lookup id s.running
unfolding sync_monitors seen
sync_monitors_elsewhere [] s id h = refl
sync_monitors_elsewhere (m ∷ ms) s id h =
    let found = lookup m.id s.running in
    sync_monitors_elsewhere ms (sync_monitor m found s) id (ground (arith, h))
    ∙ sync_monitor_elsewhere m found s id (ground (arith, h))

pub sync_monitors-HasEntry :
    (ms : List StoreMonitor) (s : Scheduler) → Distinct ms → All (HasEntry (sync_monitors ms s)) ms
unfolding sync_monitors
sync_monitors-HasEntry [] s d = tt
sync_monitors-HasEntry (m ∷ ms) s d =
    let found = lookup m.id s.running in
    let (a, here, same) = sync_monitor-HasEntry m found s refl in
    (
      (a, sync_monitors_elsewhere ms (sync_monitor m found s) m.id d.0 ∙ here, same),
      sync_monitors-HasEntry ms (sync_monitor m found s) d.1,
    )

-- What the second loop leaves: the entry of an id that is seen.
pub stop_unseen_lem :
    (ms : List StoreMonitor) (l : List (ℤ × Active)) (s : Scheduler) (id : ℤ)
    → lookup id (stop_unseen ms l s).running ≡ (
        if seen id ms
        then lookup id s.running
        else (if has_key id l then none else lookup id s.running))
unfolding stop_unseen cancel has_key
stop_unseen_lem ms [] s id = ground arith
stop_unseen_lem ms ((k, a) ∷ l) s id = ground (
  arith,
  stop_unseen_lem ms l s id,
  stop_unseen_lem ms l (record (cancel a s) { running = delete k s.running }) id,
  lookup-delete k id s.running,
  eq_ℤ_iff k id,
)

has_key_found :
    (id : ℤ) (a : Active) (l : List (ℤ × Active)) → lookup id l ≡ some a → has_key id l ≡ true
unfolding has_key
has_key_found id a [] h = ground (arith, h)
has_key_found id a ((k, b) ∷ l) h = ground (arith, h, has_key_found id a l)

pub still-HasEntry :
    (ms ns : List StoreMonitor) (s s' : Scheduler)
    → ((id : ℤ) → seen id ms ≡ true → lookup id s'.running ≡ lookup id s.running)
    → All (λ m. seen m.id ms ≡ true) ns
    → All (HasEntry s) ns
    → All (HasEntry s') ns
still-HasEntry ms [] s s' same all watched = tt
still-HasEntry ms (n ∷ ns) s s' same all watched =
    let (a, here, kept) = watched.0 in
    ((a, same n.id all.0 ∙ here, kept), still-HasEntry ms ns s s' same all.1 watched.1)

seen_tail :
    (m : StoreMonitor) (ms ns : List StoreMonitor)
    → All (λ n. seen n.id ms ≡ true) ns
    → All (λ n. seen n.id (m ∷ ms) ≡ true) ns
unfolding seen
seen_tail m ms [] h = tt
seen_tail m ms (n ∷ ns) h = (ground (arith, h.0), seen_tail m ms ns h.1)

pub seen_self : (ms : List StoreMonitor) → All (λ m. seen m.id ms ≡ true) ms
unfolding seen
seen_self [] = tt
seen_self (m ∷ ms) = (ground (arith, same_int m.id), seen_tail m ms ms (seen_self ms))

pub unseen_gone :
    (ms : List StoreMonitor) (s : Scheduler) (id : ℤ)
    → seen id ms ≡ false
    → lookup id (stop_unseen ms s.running s).running ≡ none
unseen_gone ms s id h = elim (Option-cases (lookup id s.running)) [
  | inl none_there ↦ stop_unseen_lem ms s.running s id ∙ rw (h, none_there) (ground arith)
  | inr (a, there) ↦
      stop_unseen_lem ms s.running s id ∙ rw (h, has_key_found id a s.running there) refl
]
