-- ===== src/Evaluator/Seed.antt =====
-- cmd/evaluator/main.go: the engines at the start, from the monitors and the incidents of the database.
use uptime_monitor.Prelude.{
  ◌≤◌, ℤ, pos, eq_ℤ, eq_ℤ_iff, ltb_ℤ, Bool, true, false, not, Bool-cases, Option, none, some,
  some-injective, List, [], ◌∷◌, insert, int_eq, All, if◌then◌else◌, ◌≡◌, refl, sym, subst, ◌∙◌,
  inl, inr,
}
use uptime_monitor.Message.{StoreMonitor}
use uptime_monitor.Evaluate.{Config, new_monitor}
use uptime_monitor.Store.{Db, Store, calm, MonitorRow, call}
use uptime_monitor.Store.Monitors.{find_monitor, enabled_monitors, enabled_of, insert_by_id}
use uptime_monitor.Store.Incidents.{any_open, has_open_incident, is_there}
use uptime_monitor.Store.Incidents.Count.{open_count, Holds, any_open-open_count}
use uptime_monitor.Evaluator.{Entry, Evaluator}
use uptime_monitor.Evaluator.Tracks.{
  Tracked, AreApart, Tracks, Run, Run-Tracks, All-insert, insert-AreApart,
}

-- An answer that is missing counts as no open incident.
abbrev or_closed : Option Bool → Bool
or_closed none = false
or_closed (some b) = b

unfoldable pub seeded : Config → StoreMonitor → Bool → Entry
seeded cfg m opened = record {
  id = m.id;
  name = m.name;
  url = m.url;
  engine = new_monitor cfg (not opened);
  last_region = "";
  last_ms = pos 0;
  down_cause = "";
  cert_alerted = false;
  slow_streak = 0;
  slow_alerted = false;
}

-- The loop over the monitors, into the map of the entries.
unfoldable pub seed :
    Config → List StoreMonitor → List (ℤ × Entry) → Store → Store × List (ℤ × Entry)
unfolding seeded has_open_incident
seed cfg [] es s = (s, es)
seed cfg (m ∷ ms) es s =
    let (s', opened) = has_open_incident m.id s in
    seed cfg ms (insert m.id (seeded cfg m (or_closed opened)) es) s'

-- The seeding behind `EnabledMonitors`, whose error ends the program.
abbrev pub seed_from :
    Config → Store × Option (List StoreMonitor) → Store × Option (List (ℤ × Entry))
unfolding seed
seed_from cfg (s, none) = (s, none)
seed_from cfg (s, some ms) = let (s', es) = seed cfg ms [] s in (s', some es)

unfoldable pub start : Config → Store → Store × Option (List (ℤ × Entry))
unfolding enabled_monitors
start cfg s = seed_from cfg (enabled_monitors s)

-- A monitor of the database that has at most one open incident.
abbrev IsReady : Db → StoreMonitor → Type 0
IsReady db m =
    (open_count m.id db.incidents ≤ 1) × (is_there (find_monitor m.id db.monitors) ≡ true)

All-if :
    (P : StoreMonitor → Type 0) (b : Bool) (xs ys : List StoreMonitor)
    → All P xs
    → All P ys
    → All P (if b then xs else ys)
All-if P true xs ys p q = p
All-if P false xs ys p q = q

module _ (cfg : Config) (db : Db) where
  AreTracked : List (ℤ × Entry) → Type 0
  AreTracked es = All (Tracked db) es × AreApart es

  seeded-Tracked :
      (m : StoreMonitor)
      → IsReady db m
      → Tracked db (m.id, seeded cfg m (any_open m.id db.incidents))
  unfolding seeded new_monitor Holds
  seeded-Tracked m (few, there) = (refl, (any_open-open_count m.id db.incidents few, there))

  seed-calm :
      (ms : List StoreMonitor) (es : List (ℤ × Entry))
      → All (IsReady db) ms
      → AreTracked es
      → ((seed cfg ms es (calm db)).0 ≡ calm db) × AreTracked (seed cfg ms es (calm db)).1
  unfolding seed has_open_incident call AreTracked
  seed-calm [] es rs (ts, apart) = (refl, (ts, apart))
  seed-calm (m ∷ ms) es (r, rs) (ts, apart) =
      let en : Entry = seeded cfg m (any_open m.id db.incidents) in
      let t = seeded-Tracked m r in
      seed-calm ms (insert m.id en es) rs (
        All-insert (Tracked db) m.id en es t (λ j same. (t.0 ∙ sym ((eq_ℤ_iff j m.id).0 same), t.1))
            ts,
        insert-AreApart m.id en db es t.0 ts apart,
      )

  insert_by_id-IsReady :
      (m : StoreMonitor) (ms : List StoreMonitor)
      → IsReady db m
      → All (IsReady db) ms
      → All (IsReady db) (insert_by_id m ms)
  unfolding insert_by_id
  insert_by_id-IsReady m [] r rs = (r, tt)
  insert_by_id-IsReady m (n ∷ ns) r (q, rs) = elim (Bool-cases (ltb_ℤ n.id m.id)) [
    | inl g ↦ rw g (q, insert_by_id-IsReady m ns r rs)
    | inr g ↦ rw g (r, (q, rs))
  ]

  enabled_of-IsReady :
      (rows : List MonitorRow)
      → All (λ r. IsReady db r.monitor) rows
      → All (IsReady db) (enabled_of rows)
  unfolding enabled_of
  enabled_of-IsReady [] rs = tt
  enabled_of-IsReady (row ∷ rows) (r, rs) =
      let rest = enabled_of-IsReady rows rs in
      All-if (IsReady db) row.monitor.enabled (insert_by_id row.monitor (enabled_of rows))
        (enabled_of rows) (insert_by_id-IsReady row.monitor (enabled_of rows) r rest) rest

  found_first :
      (row : MonitorRow) (rows : List MonitorRow)
      → is_there (find_monitor row.monitor.id (row ∷ rows)) ≡ true
  unfolding find_monitor
  found_first row rows = rw ((eq_ℤ_iff row.monitor.id row.monitor.id).1 refl) refl

  found_later :
      (row : MonitorRow) (rows : List MonitorRow) (j : ℤ)
      → is_there (find_monitor j rows) ≡ true
      → is_there (find_monitor j (row ∷ rows)) ≡ true
  unfolding find_monitor
  found_later row rows j h = elim (Bool-cases (eq_ℤ row.monitor.id j)) [
    | inl g ↦ rw g refl
    | inr g ↦ rw g h
  ]

  abbrev IsFew : MonitorRow → Type 0
  IsFew r = open_count r.monitor.id db.incidents ≤ 1

  rows-IsReady :
      (rows : List MonitorRow)
      → ((j : ℤ)
          → is_there (find_monitor j rows) ≡ true
          → is_there (find_monitor j db.monitors) ≡ true)
      → All IsFew rows
      → All (λ r. IsReady db r.monitor) rows
  rows-IsReady [] later few = tt
  rows-IsReady (row ∷ rows) later (f, few) = (
    (f, later row.monitor.id (found_first row rows)),
    rows-IsReady rows (λ j h. later j (found_later row rows j h)) few,
  )

-- When the calls of the store go well: if no monitor has more than one open incident when the
-- evaluator starts, then from the entries that it makes of the enabled monitors, and over any sequence
-- of results and ticks in which every result is of a monitor that has an entry or that is in the database with
-- no open incident, a monitor with an entry has one open incident when its engine has it confirmed
-- down, and none when it is confirmed up.
pub start-Tracks :
    (cfg : Config) (e0 e : Evaluator) (db0 db : Db)
    → All (λ r. open_count r.monitor.id db0.incidents ≤ 1) db0.monitors
    → (start cfg (calm db0)).1 ≡ some e0.monitors
    → Run e0 db0 e db
    → Tracks e db
unfolding start seed_from enabled_monitors call AreTracked
start-Tracks cfg e0 e db0 db few begun run =
    let ready =
      enabled_of-IsReady cfg db0 db0.monitors (rows-IsReady cfg db0 db0.monitors (λ j h. h) few) in
    let tracked = (seed-calm cfg db0 (enabled_of db0.monitors) [] ready (tt, tt)).1 in
    let same : some (seed cfg (enabled_of db0.monitors) [] (calm db0)).1 ≡ some e0.monitors =
      begun in
    Run-Tracks e0 db0 (subst (AreTracked cfg db0) (some-injective _ _ same) tracked) e db run
