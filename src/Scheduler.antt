-- ===== src/Scheduler.antt =====
-- cmd/scheduler/main.go: one publish loop for every enabled monitor, kept in step with the database.
mod Loops
mod Moves
mod Reconcile
mod Rounds
mod Watched
mod Tests
use uptime_monitor.Prelude.{
  ℕ, ◌+◌, ℤ, eq_ℤ, Bool, true, false, not, ◌||◌, Option, none, some, List, [], ◌∷◌, ◌++◌, String,
  same_text, lookup, insert, delete, nat_eq, int_eq, if◌then◌else◌,
}
use uptime_monitor.Message.{CheckJob, StoreMonitor}

-- A running loop: the context that ends it, by a number, and the monitor it was started with.
pub record Active : Type 0 where
  pub loop : ℕ
  pub monitor : StoreMonitor

pub changed : Active → StoreMonitor → Bool
changed a m =
    let o = a.monitor in
    not (same_text o.url m.url)
    || not (same_text o.method m.method)
    || not (same_text o.name m.name)
    || not (eq_ℤ o.interval_seconds m.interval_seconds)
    || not (eq_ℤ o.timeout_ms m.timeout_ms)
    || not (eq_ℤ o.expected_status m.expected_status)

-- The map `running` with the next fresh context, and the loops that are alive: those started whose
-- context is not cancelled.
pub record Scheduler : Type 0 where
  pub running : List (ℤ × Active)
  pub next : ℕ
  pub alive : List (ℕ × StoreMonitor)

pub start : StoreMonitor → Scheduler → Scheduler
start m s = record {
  running = insert m.id (record { loop = s.next; monitor = m }) s.running;
  next = s.next + 1;
  alive = insert s.next m s.alive;
}

pub cancel : Active → Scheduler → Scheduler
cancel a s = record s { alive = delete a.loop s.alive }

-- A turn of the first loop of `syncOnce`, after the lookup in `running`.
pub sync_monitor : StoreMonitor → Option Active → Scheduler → Scheduler
unfolding start cancel changed
sync_monitor m none s = start m s
sync_monitor m (some a) s = if changed a m then start m (cancel a s) else s

pub sync_monitors : List StoreMonitor → Scheduler → Scheduler
unfolding sync_monitor
sync_monitors [] s = s
sync_monitors (m ∷ ms) s = sync_monitors ms (sync_monitor m (lookup m.id s.running) s)

-- `seen[id]`.
pub seen : ℤ → List StoreMonitor → Bool
seen id [] = false
seen id (m ∷ ms) = eq_ℤ m.id id || seen id ms

-- The second loop of `syncOnce`, over the entries that `running` has when it starts.
pub stop_unseen : List StoreMonitor → List (ℤ × Active) → Scheduler → Scheduler
unfolding seen cancel
stop_unseen ms [] s = s
stop_unseen ms ((id, a) ∷ rest) s =
    stop_unseen ms rest
      (if seen id ms then s else record (cancel a s) { running = delete id s.running })

-- `syncOnce`, with the answer of the database; none is an error, which is logged.
pub sync_once : Option (List StoreMonitor) → Scheduler → Scheduler
unfolding sync_monitors stop_unseen
sync_once none s = s
sync_once (some ms) s = let s' = sync_monitors ms s in stop_unseen ms s'.running s'

-- The job that `publishLoop` makes once, when the loop starts.
pub job_of : StoreMonitor → CheckJob
job_of m = record {
  monitor_id = m.id;
  name = m.name;
  url = m.url;
  method = m.method;
  timeout_ms = m.timeout_ms;
  expected_status = m.expected_status;
  expected_keyword = m.expected_keyword;
  slow_threshold_ms = m.slow_threshold_ms;
}
