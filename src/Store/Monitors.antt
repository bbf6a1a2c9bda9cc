-- ===== src/Store/Monitors.antt =====
-- internal/store/store.go: the table of the monitors, and what hangs on it.
pub mod Ownership
use uptime_monitor.Prelude.{
  ℕ, zero, suc, ◌+◌, ℤ, pos, ◌+ℤ◌, eq_ℤ, ltb_ℤ, leb, Bool, true, false, not, ◌&&◌, ◌||◌, Option,
  none, some, List, [], ◌∷◌, ◌++◌, String, same_text, is_blank, if◌then◌else◌,
}
use uptime_monitor.Time.{Time}
use uptime_monitor.Message.{StoreMonitor}
use uptime_monitor.Check as Check
use uptime_monitor.Store.{
  MonitorRow, IncidentRow, CheckRow, Db, Store, Outcome, answered, refused, unanswered, call,
}
use uptime_monitor.Store.Users.{find_user, email_of, succeeded}

unfoldable pub find_monitor : ℤ → List MonitorRow → Option MonitorRow
find_monitor id [] = none
find_monitor id (r ∷ rs) =
    let rest = find_monitor id rs in if eq_ℤ r.monitor.id id then some r else rest

is_system : Option ℤ → Bool
is_system none = true
is_system (some id) = false

-- The monitor of the configuration with a name.
find_system : String → List MonitorRow → Option MonitorRow
unfolding is_system
find_system name [] = none
find_system name (r ∷ rs) =
    let rest = find_system name rs in
    if is_system r.user_id && same_text r.monitor.name name then some r else rest

set_monitor : ℤ → StoreMonitor → List MonitorRow → List MonitorRow
set_monitor id m [] = []
set_monitor id m (r ∷ rs) =
    (if eq_ℤ r.monitor.id id then record r { monitor = record m { id = id } } else r)
    ∷ set_monitor id m rs

unfoldable pub insert_monitor : StoreMonitor → Option ℤ → Db → Db × ℤ
insert_monitor m owner db = (
  record db {
    monitors =
        record {
          monitor = record m { id = db.next_monitor };
          user_id = owner;
          cert_expiry = none;
          muted_until = none;
        }
        ∷ db.monitors;
    next_monitor = db.next_monitor +ℤ pos 1;
  },
  db.next_monitor,
)

-- `ON CONFLICT (name) WHERE user_id IS NULL DO UPDATE`. A conflict too takes a number of the sequence.
upsert : StoreMonitor → Db → Db × ℤ
unfolding find_system set_monitor insert_monitor
upsert m db = elim (find_system m.name db.monitors) [
  | none ↦ insert_monitor m none db
  | some r ↦ (
    record db {
      monitors = set_monitor r.monitor.id m db.monitors;
      next_monitor = db.next_monitor +ℤ pos 1;
    },
    r.monitor.id,
  )
]

abbrev with_id : StoreMonitor → Option ℤ → Option StoreMonitor
with_id m none = none
with_id m (some id) = some (record m { id = id })

unfoldable pub upsert_monitor : StoreMonitor → Store → Store × Option StoreMonitor
unfolding upsert call
upsert_monitor m s = let (s', r) = call (upsert m) s in (s', with_id m r)

unfoldable pub create_monitor : StoreMonitor → ℤ → Store → Store × Option ℤ
unfolding insert_monitor call
create_monitor m owner s = call (insert_monitor m (some owner)) s

-- `ORDER BY id`.
unfoldable pub insert_by_id : StoreMonitor → List StoreMonitor → List StoreMonitor
insert_by_id m [] = m ∷ []
insert_by_id m (n ∷ ns) =
    let rest = insert_by_id m ns in if ltb_ℤ n.id m.id then n ∷ rest else m ∷ n ∷ ns

unfoldable pub enabled_of : List MonitorRow → List StoreMonitor
unfolding insert_by_id
enabled_of [] = []
enabled_of (r ∷ rs) =
    let rest = enabled_of rs in if r.monitor.enabled then insert_by_id r.monitor rest else rest

unfoldable pub enabled_monitors : Store → Store × Option (List StoreMonitor)
unfolding enabled_of call
enabled_monitors s = call (λ db. (db, enabled_of db.monitors)) s

-- `muted_until IS NOT NULL AND muted_until > now()`.
abbrev pub muted_at : Time → Option MonitorRow → Bool
muted_at now none = false
muted_at now (some r) = elim r.muted_until [ none ↦ false | some until ↦ ltb_ℤ now until ]

unfoldable pub is_muted : ℤ → Time → Store → Store × Option Bool
unfolding call
is_muted id now s = call (λ db. (db, muted_at now (find_monitor id db.monitors))) s

unfoldable pub is_owner : ℤ → Option ℤ → Bool
is_owner user none = false
is_owner user (some owner) = eq_ℤ owner user

-- The monitors after an update, and whether a row was updated.
unfoldable pub mute_rows : ℤ → ℤ → Option Time → List MonitorRow → List MonitorRow × Bool
unfolding is_owner
mute_rows id user until [] = ([], false)
mute_rows id user until (r ∷ rs) =
    let (rs', hit) = mute_rows id user until rs in
    if eq_ℤ r.monitor.id id && is_owner user r.user_id
    then (record r { muted_until = until } ∷ rs', true)
    else (r ∷ rs', hit)

-- The results of the operations that only an owner may use.
pub data Answer : Type 0 where
  done not_yours failed : Answer

abbrev pub answer_of : Option Bool → Answer
answer_of none = failed
answer_of (some true) = done
answer_of (some false) = not_yours

unfoldable pub mute : ℤ → ℤ → Option Time → Db → Db × Bool
unfolding mute_rows
mute id user until db =
    let (rows, hit) = mute_rows id user until db.monitors in (record db { monitors = rows }, hit)

unfoldable pub set_muted : ℤ → ℤ → Option Time → Store → Store × Answer
unfolding mute call
set_muted id user until s = let (s', r) = call (mute id user until) s in (s', answer_of r)

unfoldable pub drop_checks : ℤ → List CheckRow → List CheckRow
drop_checks id [] = []
drop_checks id (c ∷ cs) =
    let rest = drop_checks id cs in if eq_ℤ c.monitor_id id then rest else c ∷ rest

unfoldable pub drop_incidents : ℤ → List IncidentRow → List IncidentRow
drop_incidents id [] = []
drop_incidents id (i ∷ is) =
    let rest = drop_incidents id is in if eq_ℤ i.monitor_id id then rest else i ∷ rest

unfoldable pub drop_monitors : ℤ → List MonitorRow → List MonitorRow
drop_monitors id [] = []
drop_monitors id (m ∷ ms) =
    let rest = drop_monitors id ms in if eq_ℤ m.monitor.id id then rest else m ∷ rest

unfoldable pub deleted : ℤ → Db → Db
deleted id db = record db {
  checks = drop_checks id db.checks;
  incidents = drop_incidents id db.incidents;
  monitors = drop_monitors id db.monitors;
}

-- `Begin` and statements of a transaction: the first that ends with an error rolls it back.
unfoldable pub run_all : ℕ → List Outcome → Option (List Outcome)
run_all zero os = some os
run_all (suc n) [] = some []
run_all (suc n) (answered ∷ os) = run_all n os
run_all (suc n) (refused ∷ os) = none
run_all (suc n) (unanswered ∷ os) = none

-- The outcomes that are left behind a transaction that was rolled back.
unfoldable pub left_after : ℕ → List Outcome → List Outcome
left_after zero os = os
left_after (suc n) [] = []
left_after (suc n) (answered ∷ os) = left_after n os
left_after (suc n) (_ ∷ os) = os

-- The rest of the transaction behind its `Begin` and statements: `Commit`.
unfoldable pub commit_tx : ℤ → Store → Option (List Outcome) → Store × Answer
unfolding left_after deleted call
commit_tx id s none = (record s { io = left_after 4 s.io }, failed)
commit_tx id s (some os) =
    let (s', r) = call (λ db. (deleted id db, true)) (record s { io = os }) in (s', answer_of r)

-- The transaction of `DeleteMonitor`: `Begin`, three statements, `Commit`.
unfoldable pub delete_tx : ℤ → Store → Store × Answer
unfolding commit_tx run_all
delete_tx id s = commit_tx id s (run_all 4 s.io)

-- `DeleteMonitor` behind the ownership query.
unfoldable pub delete_with : ℤ → ℤ → Store × Option (Option MonitorRow) → Store × Answer
unfolding delete_tx is_owner
delete_with id user (s, none) = (s, failed)
delete_with id user (s, some none) = (s, done)
delete_with id user (s, some (some r)) =
    if is_owner user r.user_id then delete_tx id s else (s, not_yours)

unfoldable pub delete_monitor : ℤ → ℤ → Store → Store × Answer
unfolding delete_with call
delete_monitor id user s = delete_with id user (call (λ db. (db, find_monitor id db.monitors)) s)

owner_email : Db → MonitorRow → Option String
owner_email db r = elim r.user_id [ none ↦ none | some id ↦ email_of (find_user id db.users) ]

or_owner : List String → Option String → List String
or_owner [] none = []
or_owner [] (some email) = if is_blank email then [] else email ∷ []
or_owner (e ∷ es) owner = e ∷ es

recipients_of : Db → Option MonitorRow → Option (List String)
unfolding owner_email or_owner
recipients_of db none = none
recipients_of db (some r) = some (or_owner r.monitor.notify_emails (owner_email db r))

abbrev pub flat {ℓ} : {A : Type ℓ} → Option (Option A) → Option A
flat none = none
flat (some o) = o

-- A monitor that is gone is an error too.
unfoldable pub alert_recipients : ℤ → Store → Store × Option (List String)
unfolding recipients_of call
alert_recipients id s =
    let (s', r) = call (λ db. (db, recipients_of db (find_monitor id db.monitors))) s in
    (s', flat r)

unfoldable pub set_expiry : ℤ → Time → List MonitorRow → List MonitorRow
set_expiry id t [] = []
set_expiry id t (r ∷ rs) =
    (if eq_ℤ r.monitor.id id then record r { cert_expiry = some t } else r) ∷ set_expiry id t rs

unfoldable pub set_cert_expiry : ℤ → Time → Store → Store × Bool
unfolding set_expiry call
set_cert_expiry id t s =
    let (s', r) = call (λ db. (record db { monitors = set_expiry id t db.monitors }, true)) s in
    (s', succeeded r)

-- NULL where the status or the error carries no signal.
pub check_row : ℤ → String → Time → Check.Result → CheckRow
check_row id region at r = record {
  time = at;
  monitor_id = id;
  region = region;
  up = r.up;
  status_code = if eq_ℤ r.status_code (pos 0) then none else some r.status_code;
  latency_ms = r.latency_ms;
  error = if is_blank r.error then none else some r.error;
}

unfoldable pub insert_check : ℤ → String → Time → Check.Result → Store → Store × Bool
unfolding check_row call
insert_check id region at r s =
    let (s', ok) =
      call (λ db. (record db { checks = check_row id region at r ∷ db.checks }, true)) s in
    (s', succeeded ok)
