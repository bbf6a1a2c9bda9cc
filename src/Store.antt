-- ===== src/Store.antt =====
-- internal/store/store.go with the tables of migrations/: the database as its tables, and a call of it.
pub mod Calls
pub mod Users
pub mod Monitors
pub mod Incidents
pub mod Tests
use uptime_monitor.Prelude.{ℕ, ℤ, Bool, Option, none, some, List, [], ◌∷◌, String}
use uptime_monitor.Time.{Time}
use uptime_monitor.Message.{StoreMonitor}

pub record User : Type 0 where
  pub id : ℤ
  pub email : String
  pub password_hash : String

-- A row of `sessions` or of `password_resets`.
pub record TokenRow : Type 0 where
  pub token : String
  pub user_id : ℤ
  pub expires_at : Time

-- A row of `monitors`, with the columns that the record has not.
pub record MonitorRow : Type 0 where
  pub monitor : StoreMonitor
  pub user_id : Option ℤ
  pub cert_expiry : Option Time
  pub muted_until : Option Time

pub record IncidentRow : Type 0 where
  pub monitor_id : ℤ
  pub started_at : Time
  pub resolved_at : Option Time
  pub cause : String

pub record CheckRow : Type 0 where
  pub time : Time
  pub monitor_id : ℤ
  pub region : String
  pub up : Bool
  pub status_code : Option ℤ
  pub latency_ms : ℤ
  pub error : Option String

-- The tables, and the next values of the sequences behind the ids.
pub record Db : Type 0 where
  pub users : List User
  pub sessions : List TokenRow
  pub password_resets : List TokenRow
  pub monitors : List MonitorRow
  pub incidents : List IncidentRow
  pub checks : List CheckRow
  pub next_user : ℤ
  pub next_monitor : ℤ

-- How a statement ends for its caller: with the answer; with an error and no effect; or with an error
-- after it took effect, when the answer was lost.
pub data Outcome : Type 0 where
  answered refused unanswered : Outcome

-- The database, and how the next statements end; all go well past the end of the list.
pub record Store : Type 0 where
  pub db : Db
  pub io : List Outcome

unfoldable pub end_with {ℓ} : {A : Type ℓ} → Outcome → List Outcome → Db → Db × A → Store × Option A
end_with answered os db (db', a) = (record { db = db'; io = os }, some a)
end_with refused os db (db', a) = (record { db = db; io = os }, none)
end_with unanswered os db (db', a) = (record { db = db'; io = os }, none)

-- A call of the database; none is an error of the connection.
unfoldable pub call {ℓ} : {A : Type ℓ} → (Db → Db × A) → Store → Store × Option A
unfolding end_with
call f s = elim s.io [
  | [] ↦ end_with answered [] s.db (f s.db)
  | o ∷ os ↦ end_with o os s.db (f s.db)
]

-- A database whose next calls all go well.
abbrev pub calm : Db → Store
calm db = record { db = db; io = [] }
