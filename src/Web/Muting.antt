-- ===== src/Web/Muting.antt =====
-- cmd/web/main.go with internal/store/store.go: how long a mute lasts.
use uptime_monitor.Prelude.{
  ℕ, ◌*◌, ◌≤◌, ℤ, pos, ◌+ℤ◌, eq_ℤ, ltb_ℤ, true, Bool-cases, Option, some, some-injective, List, [],
  ◌∷◌, ◌≡◌, refl, inl, inr, sym, ap, subst, ◌∙◌, arith,
}
use uptime_monitor.Time.{Time}
use uptime_monitor.Store.{MonitorRow, Db, Store, calm, call}
use uptime_monitor.Store.Monitors as Monitors
use uptime_monitor.Store.Monitors.{
  find_monitor, is_owner, mute_rows, muted_at, set_muted, is_muted, done, answer_of,
}
use uptime_monitor.Auth.{World, Request, Reply, redirect, plain, value_of}
use uptime_monitor.Web.{Forms, atoi_or, of_hours, answer_reply, mute_until, mute}

-- The product of Go does not wrap around up to 2562047 hours.
of_hours-small : (n : ℕ) → n ≤ 2562047 → of_hours (pos n) ≡ pos (3600000000000 * n)
unfolding of_hours
of_hours-small n h = ground arith

-- The first row of an id is found again after an update of its owner, which counts it.
mute_rows-owner :
    (id user : ℤ) (until : Option Time) (rs : List MonitorRow) (r : MonitorRow)
    → find_monitor id rs ≡ some r
    → is_owner user r.user_id ≡ true
    → (find_monitor id (mute_rows id user until rs).0 ≡ some (record r { muted_until = until }))
      × ((mute_rows id user until rs).1 ≡ true)
unfolding find_monitor mute_rows
mute_rows-owner id user until [] r found own = absurd (ground (arith, found))
mute_rows-owner id user until (x ∷ rs) r found own = elim (Bool-cases (eq_ℤ x.monitor.id id)) [
  | inl g ↦
      let e : x ≡ r = some-injective x r (rw g at found) in
      let own' : is_owner user x.user_id ≡ true = ap (λ y. is_owner user y.user_id) e ∙ own in
      rw g (
        rw own' (rw g (ap {A = MonitorRow} (λ y. some (record y { muted_until = until })) e, refl)))
  | inr g ↦ rw g (rw g (mute_rows-owner id user until rs r (rw g at found) own))
]

mute-calm :
    (f : Forms) (user id : ℤ) (w : World) (q : Request) (db : Db) (until : Time)
    → f.atoi (value_of "id" q.form) ≡ some id
    → w.now +ℤ of_hours (atoi_or f (value_of "hours" q.form) (pos 2)) ≡ until
    → mute f (some user) w q (calm db) ≡ (
      calm (record db { monitors = (mute_rows id user (some until) db.monitors).0 }),
      answer_reply (answer_of (some (mute_rows id user (some until) db.monitors).1)),
    )
unfolding mute mute_until set_muted Monitors.mute call
mute-calm f user id w q db until parsed same =
    ap
      (λ o.
        mute_until (some user)
          (some (w.now +ℤ of_hours (atoi_or f (value_of "hours" q.form) (pos 2)))) o (calm db))
      parsed
    ∙ ap (λ t. mute_until (some user) (some t) (some id) (calm db)) same

-- When the database answers: a mute of a monitor by its owner, for a number of hours up to 2562047,
-- redirects to the page, and the monitor is then muted at just the times before that many hours from
-- the request.
pub mute-is_muted :
    (f : Forms) (user id : ℤ) (w : World) (q : Request) (db : Db) (r : MonitorRow) (n : ℕ)
    (t : Time)
    → f.atoi (value_of "id" q.form) ≡ some id
    → atoi_or f (value_of "hours" q.form) (pos 2) ≡ pos n
    → n ≤ 2562047
    → find_monitor id db.monitors ≡ some r
    → is_owner user r.user_id ≡ true
    → ((mute f (some user) w q (calm db)).1 ≡ plain (redirect "/"))
      × ((is_muted id t (mute f (some user) w q (calm db)).0).1
          ≡ some (ltb_ℤ t (w.now +ℤ pos (3600000000000 * n))))
mute-is_muted f user id w q db r n t parsed hours small found own =
    let until : Time = w.now +ℤ pos (3600000000000 * n) in
    let (row, hit) = mute_rows-owner id user (some until) db.monitors r found own in
    let same = ap (λ h. w.now +ℤ h) (ap of_hours hours ∙ of_hours-small n small) in
    subst
      (λ (x : Store × Reply).
        (x.1 ≡ plain (redirect "/")) × ((is_muted id t x.0).1 ≡ some (ltb_ℤ t until)))
      (sym (mute-calm f user id w q db until parsed same))
      (
        ap (λ b. answer_reply (answer_of (some b))) hit,
        unfold is_muted in unfold call in ap (λ o. some (muted_at t o)) row,
      )
