-- ===== src/Web/Ownership.antt =====
-- cmd/web/main.go with internal/store/store.go: the forms of a user and the monitors of the others.
use uptime_monitor.Prelude.{
  ℤ, eq_ℤ, eq_ℤ_iff, int_eq, string_eq, true, Bool-cases, Option, none, some, some-injective, List,
  [], ◌∷◌, String, same_text, is_blank, lookup, All, if◌then◌else◌, ◌≡◌, refl, inl, inr, sym, ap,
  subst, ◌∙◌, arith,
}
use uptime_monitor.Time.{Time}
use uptime_monitor.Message.{StoreMonitor}
use uptime_monitor.Store.{MonitorRow, Db, Store}
use uptime_monitor.Store.Calls.{call-keeps}
use uptime_monitor.Store.Monitors as Monitors
use uptime_monitor.Store.Monitors.{
  find_monitor, insert_monitor, is_owner, mute_rows, drop_monitors, create_monitor, set_muted,
  delete_monitor,
}
use uptime_monitor.Store.Monitors.Ownership.{owns, IsGone, Deletes, delete_monitor-Deletes}
use uptime_monitor.Auth.{World, Request, Reply, Handler, value_of}
use uptime_monitor.Web.{
  Forms, normalize_url, form_monitor, add_monitor, mute_until, mute, unmute, delete_by, delete,
  routes,
}

-- The monitors that a user does not own.
unfoldable pub others_of : ℤ → List MonitorRow → List MonitorRow
others_of user [] = []
others_of user (r ∷ rs) =
    let rest = others_of user rs in if is_owner user r.user_id then rest else r ∷ rest

-- No two monitors have the same id.
unfoldable pub AreMonitors : List MonitorRow → Type 0
AreMonitors [] = Unit
AreMonitors (r ∷ rs) = (find_monitor r.monitor.id rs ≡ none) × AreMonitors rs

mute_rows-others_of :
    (id user : ℤ) (until : Option Time) (rs : List MonitorRow)
    → others_of user (mute_rows id user until rs).0 ≡ others_of user rs
unfolding others_of mute_rows
mute_rows-others_of id user until [] = refl
mute_rows-others_of id user until (r ∷ rs) =
    let rest = mute_rows-others_of id user until rs in
    elim (Bool-cases (is_owner user r.user_id)) [
      | inl h ↦ elim (Bool-cases (eq_ℤ r.monitor.id id)) [
        | inl g ↦ rw g (rw h (rw h rest))
        | inr g ↦ rw g (rw h rest)
      ]
      | inr h ↦ elim (Bool-cases (eq_ℤ r.monitor.id id)) [
        | inl g ↦ rw g (rw h (rw h (ap (λ x. r ∷ x) rest)))
        | inr g ↦ rw g (rw h (ap (λ x. r ∷ x) rest))
      ]
    ]

drop_monitors-none :
    (id : ℤ) (rs : List MonitorRow) → find_monitor id rs ≡ none → drop_monitors id rs ≡ rs
unfolding drop_monitors find_monitor
drop_monitors-none id [] h = refl
drop_monitors-none id (r ∷ rs) h = elim (Bool-cases (eq_ℤ r.monitor.id id)) [
  | inl g ↦ absurd (ground (arith, rw g at h))
  | inr g ↦ rw g (ap (λ x. r ∷ x) (drop_monitors-none id rs (rw g at h)))
]

drop_monitors-others_of :
    (id user : ℤ) (rs : List MonitorRow)
    → AreMonitors rs
    → owns user (find_monitor id rs) ≡ true
    → others_of user (drop_monitors id rs) ≡ others_of user rs
unfolding others_of drop_monitors find_monitor AreMonitors owns
drop_monitors-others_of id user [] d own = refl
drop_monitors-others_of id user (r ∷ rs) (n, d) own = elim (Bool-cases (eq_ℤ r.monitor.id id)) [
  | inl g ↦
      let own' : is_owner user r.user_id ≡ true = rw g at own in
      let gone : find_monitor id rs ≡ none =
        subst (λ i. find_monitor i rs ≡ none) ((eq_ℤ_iff r.monitor.id id).0 g) n in
      rw g (rw own' (ap (others_of user) (drop_monitors-none id rs gone)))
  | inr g ↦
      let rest = drop_monitors-others_of id user rs d (rw g at own) in
      rw g (elim (Bool-cases (is_owner user r.user_id)) [
        | inl h ↦ rw h rest
        | inr h ↦ rw h (ap (λ x. r ∷ x) rest)
      ])
]

Deletes-others_of :
    (id user : ℤ) (s : Store) (x : Store × Monitors.Answer)
    → AreMonitors s.db.monitors
    → Deletes id user s x
    → others_of user x.0.db.monitors ≡ others_of user s.db.monitors
unfolding Deletes IsGone
Deletes-others_of id user s x d (inl (same, a)) = ap (λ db. others_of user db.monitors) same
Deletes-others_of id user s x d (inr (own, a, (gone, c, i, kept, c2, i2, u, t))) =
    ap (others_of user) (sym (drop_monitors-none id x.0.db.monitors gone) ∙ kept)
    ∙ drop_monitors-others_of id user s.db.monitors d own

module _ (user : ℤ) (s : Store) where
  abbrev Spares : Store × Reply → Type 0
  Spares x = others_of user x.0.db.monitors ≡ others_of user s.db.monitors

  abbrev Same : Db → Type 0
  Same db = others_of user db.monitors ≡ others_of user s.db.monitors

  mute_until-Spares :
      (until : Option Time) (o : Option ℤ) → Spares (mute_until (some user) until o s)
  unfolding mute_until set_muted
  mute_until-Spares until none = refl
  mute_until-Spares until (some id) =
      call-keeps Same (Monitors.mute id user until) s refl
        (unfold Monitors.mute in mute_rows-others_of id user until s.db.monitors)

  delete_by-Spares : (o : Option ℤ) → AreMonitors s.db.monitors → Spares (delete_by (some user) o s)
  unfolding delete_by
  delete_by-Spares none d = refl
  delete_by-Spares (some id) d = Deletes-others_of id user s _ d (delete_monitor-Deletes id user s)

  insert_monitor-Same : (m : StoreMonitor) → Same (insert_monitor m (some user) s.db).0
  unfolding insert_monitor others_of is_owner
  insert_monitor-Same m = rw ((eq_ℤ_iff user user).1 refl) refl

  add_monitor-Spares :
      (f : Forms) (w : World) (r : Request) → Spares (add_monitor f (some user) w r s)
  unfolding add_monitor create_monitor
  add_monitor-Spares f w r =
      let url = normalize_url (f.trim (value_of "url" r.form)) in
      let m = form_monitor f url r in
      elim (Bool-cases (is_blank url)) [
        | inl h ↦ rw h refl
        | inr h ↦
            rw h (call-keeps Same (insert_monitor m (some user)) s refl (insert_monitor-Same m))
      ]

-- A form that spares the monitors of the others.
SparesOthers : String × (Option ℤ → Handler) → Type 0
SparesOthers (k, h) =
    (user : ℤ) (w : World) (r : Request) (s : Store)
    → AreMonitors s.db.monitors
    → Spares user s (h (some user) w r s)

lookup-SparesOthers :
    (k : String) (m : List (String × (Option ℤ → Handler))) (h : Option ℤ → Handler)
    → lookup k m ≡ some h
    → All SparesOthers m
    → SparesOthers (k, h)
unfolding SparesOthers
lookup-SparesOthers k [] h found ks = absurd (ground (arith, found))
lookup-SparesOthers k ((j, g) ∷ m) h found (keep, ks) = elim (Bool-cases (same_text j k)) [
  | inl e ↦ subst (λ x. SparesOthers (k, x)) (some-injective g h (rw e at found)) keep
  | inr e ↦ lookup-SparesOthers k m h (rw e at found) ks
]

-- However the calls of the database end, a form of the page that a user sends, be it to add, mute,
-- unmute or delete a monitor, leaves all monitors of other users, and those of the configuration, as
-- they are, if no two monitors have the same id.
pub routes-Spares :
    (f : Forms) (k : String) (h : Option ℤ → Handler) (user : ℤ) (w : World) (r : Request)
    (s : Store)
    → lookup k (routes f) ≡ some h
    → AreMonitors s.db.monitors
    → others_of user (h (some user) w r s).0.db.monitors ≡ others_of user s.db.monitors
unfolding routes SparesOthers
routes-Spares f k h user w r s found d =
    lookup-SparesOthers k (routes f) h found
      (
        (λ user w r s d. add_monitor-Spares user s f w r),
        (
          (λ user w r s d. unfold mute in mute_until-Spares user s _ _),
          (
            (λ user w r s d. unfold unmute in mute_until-Spares user s _ _),
            ((λ user w r s d. unfold delete in delete_by-Spares user s _ d), tt),
          ),
        ),
      )
      user w r s d
