-- ===== src/Store/Monitors/Ownership.antt =====
-- internal/store/store.go: what `DeleteMonitor` and `SetMuted` do to the rows of others.
use uptime_monitor.Prelude.{
  ℤ, eq_ℤ, Bool, true, false, Bool-cases, Option, none, some, List, [], ◌∷◌, if◌then◌else◌, refl,
  ◌≡◌, ◌⊎◌, inl, inr, sym, ap, subst, ◌∙◌,
}
use uptime_monitor.Time.{Time}
use uptime_monitor.Store.{
  MonitorRow, IncidentRow, CheckRow, Db, Store, Outcome, answered, refused, unanswered, end_with,
  call,
}
use uptime_monitor.Store.Calls.{Called, with_answer, no_effect, answer_lost, call-Called}
use uptime_monitor.Store.Monitors.{
  commit_tx, find_monitor, is_owner, mute_rows, drop_checks, drop_incidents, drop_monitors, deleted,
  delete_tx, delete_with, delete_monitor, run_all, Answer, done, not_yours, failed,
}

drop_monitors-again :
    (id : ℤ) (rs : List MonitorRow) → drop_monitors id (drop_monitors id rs) ≡ drop_monitors id rs
unfolding drop_monitors
drop_monitors-again id [] = refl
drop_monitors-again id (r ∷ rs) = elim (Bool-cases (eq_ℤ r.monitor.id id)) [
  | inl h ↦ rw h (drop_monitors-again id rs)
  | inr h ↦ rw h (rw h (rw (drop_monitors-again id rs) refl))
]

find_monitor-drop_monitors :
    (id : ℤ) (rs : List MonitorRow) → find_monitor id (drop_monitors id rs) ≡ none
unfolding drop_monitors find_monitor
find_monitor-drop_monitors id [] = refl
find_monitor-drop_monitors id (r ∷ rs) = elim (Bool-cases (eq_ℤ r.monitor.id id)) [
  | inl h ↦ rw h (find_monitor-drop_monitors id rs)
  | inr h ↦ rw h (rw h (find_monitor-drop_monitors id rs))
]

-- The checks of a monitor.
unfoldable pub checks_of : ℤ → List CheckRow → List CheckRow
checks_of id [] = []
checks_of id (c ∷ cs) =
    let rest = checks_of id cs in if eq_ℤ c.monitor_id id then c ∷ rest else rest

unfoldable pub incidents_of : ℤ → List IncidentRow → List IncidentRow
incidents_of id [] = []
incidents_of id (i ∷ is) =
    let rest = incidents_of id is in if eq_ℤ i.monitor_id id then i ∷ rest else rest

checks_of-drop_checks : (id : ℤ) (rs : List CheckRow) → checks_of id (drop_checks id rs) ≡ []
unfolding drop_checks checks_of
checks_of-drop_checks id [] = refl
checks_of-drop_checks id (r ∷ rs) = elim (Bool-cases (eq_ℤ r.monitor_id id)) [
  | inl h ↦ rw h (checks_of-drop_checks id rs)
  | inr h ↦ rw h (rw h (checks_of-drop_checks id rs))
]

incidents_of-drop_incidents :
    (id : ℤ) (rs : List IncidentRow) → incidents_of id (drop_incidents id rs) ≡ []
unfolding drop_incidents incidents_of
incidents_of-drop_incidents id [] = refl
incidents_of-drop_incidents id (r ∷ rs) = elim (Bool-cases (eq_ℤ r.monitor_id id)) [
  | inl h ↦ rw h (incidents_of-drop_incidents id rs)
  | inr h ↦ rw h (rw h (incidents_of-drop_incidents id rs))
]

drop_checks-again :
    (id : ℤ) (rs : List CheckRow) → drop_checks id (drop_checks id rs) ≡ drop_checks id rs
unfolding drop_checks
drop_checks-again id [] = refl
drop_checks-again id (r ∷ rs) = elim (Bool-cases (eq_ℤ r.monitor_id id)) [
  | inl h ↦ rw h (drop_checks-again id rs)
  | inr h ↦ rw h (rw h (rw (drop_checks-again id rs) refl))
]

drop_incidents-again :
    (id : ℤ) (rs : List IncidentRow)
    → drop_incidents id (drop_incidents id rs) ≡ drop_incidents id rs
unfolding drop_incidents
drop_incidents-again id [] = refl
drop_incidents-again id (r ∷ rs) = elim (Bool-cases (eq_ℤ r.monitor_id id)) [
  | inl h ↦ rw h (drop_incidents-again id rs)
  | inr h ↦ rw h (rw h (rw (drop_incidents-again id rs) refl))
]

-- Whether a row exists and the user owns it.
unfoldable pub owns : ℤ → Option MonitorRow → Bool
unfolding is_owner
owns user none = false
owns user (some r) = is_owner user r.user_id

-- The monitor and its history are gone, and all other rows are as before.
unfoldable pub IsGone : ℤ → Db → Db → Type 0
unfolding checks_of incidents_of
IsGone id db db' =
    (find_monitor id db'.monitors ≡ none)
    × (checks_of id db'.checks ≡ [])
    × (incidents_of id db'.incidents ≡ [])
    × (drop_monitors id db'.monitors ≡ drop_monitors id db.monitors)
    × (drop_checks id db'.checks ≡ drop_checks id db.checks)
    × (drop_incidents id db'.incidents ≡ drop_incidents id db.incidents)
    × (db'.users ≡ db.users)
    × (db'.sessions ≡ db.sessions)

-- What `DeleteMonitor` may leave: nothing changed; or the owner's monitor is gone.
unfoldable pub Deletes : ℤ → ℤ → Store → Store × Answer → Type 0
unfolding IsGone owns
Deletes id user s (s', a) =
    (s'.db ≡ s.db)
      × ((a ≡ failed)
          ⊎ ((a ≡ done) × (find_monitor id s.db.monitors ≡ none))
          ⊎ ((a ≡ not_yours) × (owns user (find_monitor id s.db.monitors) ≡ false)))
    ⊎ (owns user (find_monitor id s.db.monitors) ≡ true)
      × ((a ≡ done) ⊎ (a ≡ failed))
      × IsGone id s.db s'.db

deleted-IsGone : (id : ℤ) (db : Db) → IsGone id db (deleted id db)
unfolding IsGone deleted
deleted-IsGone id db = (
  find_monitor-drop_monitors id db.monitors,
  checks_of-drop_checks id db.checks,
  incidents_of-drop_incidents id db.incidents,
  drop_monitors-again id db.monitors,
  drop_checks-again id db.checks,
  drop_incidents-again id db.incidents,
  refl,
  refl,
)

-- A transaction is rolled back, or takes effect, with its answer or without.
data Ends (id : ℤ) (s : Store) : Store × Answer → Type 0 where
  rolled_back : (s' : Store) → s'.db ≡ s.db → Ends id s (s', failed)
  committed :
      (s' : Store) (a : Answer)
      → s'.db ≡ deleted id s.db
      → (a ≡ done) ⊎ (a ≡ failed)
      → Ends id s (s', a)

commit_tx-Ends : (id : ℤ) (s : Store) (o : Option (List Outcome)) → Ends id s (commit_tx id s o)
unfolding commit_tx call end_with
commit_tx-Ends id s none = rolled_back _ refl
commit_tx-Ends id s (some []) = committed _ _ refl (inl refl)
commit_tx-Ends id s (some (answered ∷ os)) = committed _ _ refl (inl refl)
commit_tx-Ends id s (some (refused ∷ os)) = rolled_back _ refl
commit_tx-Ends id s (some (unanswered ∷ os)) = committed _ _ refl (inr refl)

owned-Deletes :
    (id user : ℤ) (s s1 : Store) (x : Store × Answer)
    → s1.db ≡ s.db
    → owns user (find_monitor id s.db.monitors) ≡ true
    → Ends id s1 x
    → Deletes id user s x
unfolding Deletes
owned-Deletes id user s s1 _ same own (rolled_back s' e) = inl (e ∙ same, inl refl)
owned-Deletes id user s s1 _ same own (committed s' a e ends) = inr (
  own,
  ends,
  subst (λ db. IsGone id s.db db) (sym (e ∙ ap (deleted id) same)) (deleted-IsGone id s.db),
)

found-Deletes :
    (id user : ℤ) (s s1 : Store) (r : MonitorRow)
    → s1.db ≡ s.db
    → find_monitor id s.db.monitors ≡ some r
    → Deletes id user s (delete_with id user (s1, some (some r)))
unfolding delete_with Deletes owns delete_tx
found-Deletes id user s s1 r same found = elim (Bool-cases (is_owner user r.user_id)) [
  | inl h ↦
      rw h (owned-Deletes id user s s1 _ same (rw found h) (commit_tx-Ends id s1 (run_all 4 s1.io)))
  | inr h ↦ rw h (inl (same, inr (inr (refl, rw found h))))
]

looked_up-Deletes :
    (id user : ℤ) (s s1 : Store) (o : Option MonitorRow)
    → s1.db ≡ s.db
    → find_monitor id s.db.monitors ≡ o
    → Deletes id user s (delete_with id user (s1, some o))
unfolding delete_with Deletes
looked_up-Deletes id user s s1 none same found = inl (same, inr (inl (refl, found)))
looked_up-Deletes id user s s1 (some r) same found = found-Deletes id user s s1 r same found

Called-Deletes :
    (id user : ℤ) (s : Store) (x : Store × Option (Option MonitorRow))
    → Called (λ db. (db, find_monitor id db.monitors)) s x
    → Deletes id user s (delete_with id user x)
unfolding delete_with Deletes
Called-Deletes id user s _ (with_answer os) = looked_up-Deletes id user s _ _ refl refl
Called-Deletes id user s _ (no_effect os) = inl (refl, inl refl)
Called-Deletes id user s _ (answer_lost os) = inl (refl, inl refl)

-- However its statements end, `DeleteMonitor` either leaves the tables as they are, and then it reports
-- an error, or a success when there is no such monitor, or that the monitor is not the user's, which
-- is so; or the user owns the monitor and it is gone with all its checks and incidents, while the
-- rows of all other monitors, the users and the sessions are as before.
pub delete_monitor-Deletes :
    (id user : ℤ) (s : Store) → Deletes id user s (delete_monitor id user s)
unfolding delete_monitor
delete_monitor-Deletes id user s = Called-Deletes id user s _ (call-Called _ s)

mute_rows-others :
    (id user : ℤ) (until : Option Time) (rs : List MonitorRow)
    → drop_monitors id (mute_rows id user until rs).0 ≡ drop_monitors id rs
unfolding drop_monitors mute_rows
mute_rows-others id user until [] = refl
mute_rows-others id user until (r ∷ rs) =
    let rest = mute_rows-others id user until rs in
    elim (Bool-cases (eq_ℤ r.monitor.id id)) [
      | inl h ↦ elim (Bool-cases (is_owner user r.user_id)) [
        | inl g ↦ rw h (rw g (rw h rest))
        | inr g ↦ rw h (rw g (rw h rest))
      ]
      | inr h ↦ rw h (rw h (rw rest refl))
    ]
