-- ===== src/Store/Incidents/Count.antt =====
-- internal/store/store.go: how many incidents of a monitor are open.
use uptime_monitor.Prelude.{
  ℕ, suc, ℤ, eq_ℤ, eq_ℤ_iff, Bool, true, false, Bool-cases, not, ◌≤◌, some, List, [], ◌∷◌, String,
  if◌then◌else◌, ◌≡◌, refl, inl, inr, ap, arith,
}
use uptime_monitor.Time.{Time}
use uptime_monitor.Store.{MonitorRow, IncidentRow, Db}
use uptime_monitor.Store.Monitors.{find_monitor, set_expiry}
use uptime_monitor.Store.Incidents.{is_open, any_open, is_there, add_incident, resolve_rows}

unfoldable pub open_count : ℤ → List IncidentRow → ℕ
open_count id [] = 0
open_count id (i ∷ is) = let rest = open_count id is in if is_open id i then suc rest else rest

resolved-is_closed :
    (j : ℤ) (now : Time) (i : IncidentRow) → is_open j (record i { resolved_at = some now }) ≡ false
unfolding is_open
resolved-is_closed j now i = ground arith

open-other :
    (id j : ℤ) (i : IncidentRow) → eq_ℤ id j ≡ false → is_open id i ≡ true → is_open j i ≡ false
unfolding is_open
open-other id j i h o =
    ground (arith, eq_ℤ_iff i.monitor_id id, eq_ℤ_iff i.monitor_id j, eq_ℤ_iff id j)

pub open_count-resolve_rows :
    (id : ℤ) (now : Time) (is : List IncidentRow) → open_count id (resolve_rows id now is) ≡ 0
unfolding open_count resolve_rows
open_count-resolve_rows id now [] = refl
open_count-resolve_rows id now (i ∷ is) =
    let rest = open_count-resolve_rows id now is in
    elim (Bool-cases (is_open id i)) [
      | inl h ↦ rw h (rw (resolved-is_closed id now i) rest)
      | inr h ↦ rw h (rw h rest)
    ]

pub open_count-resolve_rows_other :
    (id j : ℤ) (now : Time) (is : List IncidentRow)
    → eq_ℤ id j ≡ false
    → open_count j (resolve_rows id now is) ≡ open_count j is
unfolding open_count resolve_rows
open_count-resolve_rows_other id j now [] h = refl
open_count-resolve_rows_other id j now (i ∷ is) h =
    let rest = open_count-resolve_rows_other id j now is h in
    elim (Bool-cases (is_open id i)) [
      | inl g ↦ rw g (rw (resolved-is_closed j now i) (rw (open-other id j i h g) rest))
      | inr g ↦ rw g (rw rest refl)
    ]

-- The number of open incidents of a monitor that is there.
unfoldable pub Holds : ℤ → ℕ → Db → Type 0
Holds id n db = (open_count id db.incidents ≡ n) × (is_there (find_monitor id db.monitors) ≡ true)

pub find_monitor-set_expiry :
    (id j : ℤ) (t : Time) (rs : List MonitorRow)
    → is_there (find_monitor j (set_expiry id t rs)) ≡ is_there (find_monitor j rs)
unfolding find_monitor set_expiry
find_monitor-set_expiry id j t [] = refl
find_monitor-set_expiry id j t (r ∷ rs) =
    let rest = find_monitor-set_expiry id j t rs in ground (arith, rest)

pub add_incident-Holds :
    (id : ℤ) (cause : String) (now : Time) (n : ℕ) (db : Db)
    → Holds id n db
    → Holds id (suc n) (add_incident id cause now db).0
unfolding Holds add_incident open_count is_open
add_incident-Holds id cause now n db (c, e) = rw e (rw ((eq_ℤ_iff id id).1 refl) (ap suc c, e))

pub add_incident-other :
    (id j : ℤ) (cause : String) (now : Time) (n : ℕ) (db : Db)
    → eq_ℤ id j ≡ false
    → Holds j n db
    → Holds j n (add_incident id cause now db).0
unfolding Holds add_incident open_count is_open
add_incident-other id j cause now n db h (c, e) =
    elim (Bool-cases (is_there (find_monitor id db.monitors))) [
      | inl g ↦ rw g (rw h (c, e))
      | inr g ↦ rw g (c, e)
    ]

pub resolve_rows-Holds :
    (id : ℤ) (now : Time) (n : ℕ) (db : Db)
    → Holds id n db
    → Holds id 0 (record db { incidents = resolve_rows id now db.incidents })
unfolding Holds
resolve_rows-Holds id now n db (c, e) = (open_count-resolve_rows id now db.incidents, e)

-- The number of open incidents of a monitor that is up or not.
abbrev pub open_for : Bool → ℕ
open_for true = 0
open_for false = 1

pub any_open-open_count :
    (id : ℤ) (is : List IncidentRow)
    → open_count id is ≤ 1
    → open_count id is ≡ open_for (not (any_open id is))
unfolding any_open open_count
any_open-open_count id [] h = refl
any_open-open_count id (i ∷ is) h = elim (Bool-cases (is_open id i)) [
  | inl g ↦ rw g (ap suc (ground (arith, rw g at h)))
  | inr g ↦ rw g (any_open-open_count id is (rw g at h))
]
