-- ===== src/Auth/Sessions.antt =====
-- cmd/web/auth.go: logging in, the gate and logging out.
use uptime_monitor.Prelude.{
  ℤ, ◌+ℤ◌, ltb_ℤ, Bool, true, false, Bool-cases, Option, none, some, List, ◌∷◌, String, same_text,
  same_text_iff, if◌then◌else◌, ◌≡◌, refl, inl, inr, sym, ap, subst, ◌∙◌,
}
use uptime_monitor.Time.{Time}
use uptime_monitor.Store.{User, TokenRow, Db, Store, calm, call}
use uptime_monitor.Store.Calls.{Called, with_answer, no_effect, answer_lost, call-Called}
use uptime_monitor.Store.Users.{
  find_token, find_email, has_token, insert_token, add_session, delete_token, create_session,
  user_by_email, user_by_session, delete_session,
}
use uptime_monitor.Store.Users.Tokens.{
  find_token-delete_token, find_token-delete_token_other, find_token-has_token,
}
use uptime_monitor.Auth.{
  Auth, World, Request, Reply, Handler, redirect, keep, expire, plain, session_ttl, value_of,
  is_public, user_from_request, user_of_cookie, user_of, let_in, gate, start_session,
  session_started, login_with, login, logout, end_session,
}

-- The ways through the gate in front of a handler.
pub data Gated (serve : Option ℤ → Handler) (w : World) (r : Request) (s : Store)
    : Store × Reply → Type 0 where
  open_path : is_public r.path ≡ true → Gated serve w r s (serve none w r s)
  turned_away : (s' : Store) → s'.db ≡ s.db → Gated serve w r s (s', plain (redirect "/login"))
  logged_in :
      (t : String) (id : ℤ) (s' : Store)
      → r.cookie ≡ some t
      → find_token t w.now s.db.sessions ≡ some id
      → s'.db ≡ s.db
      → Gated serve w r s (serve (some id) w r s')

session_found :
    (serve : Option ℤ → Handler) (w : World) (r : Request) (s s' : Store) (t : String)
    (o : Option ℤ)
    → s'.db ≡ s.db
    → r.cookie ≡ some t
    → find_token t w.now s.db.sessions ≡ o
    → Gated serve w r s (let_in serve w r (s', o))
session_found serve w r s s' t none same c f = turned_away s' same
session_found serve w r s s' t (some id) same c f = logged_in t id s' c f same

session_called :
    (serve : Option ℤ → Handler) (w : World) (r : Request) (s : Store) (t : String)
    (x : Store × Option (Option ℤ))
    → r.cookie ≡ some t
    → Called (λ db. (db, find_token t w.now db.sessions)) s x
    → Gated serve w r s (let_in serve w r (x.0, user_of x.1))
session_called serve w r s t _ c (with_answer os) = session_found serve w r s _ t _ refl c refl
session_called serve w r s t _ c (no_effect os) = turned_away _ refl
session_called serve w r s t _ c (answer_lost os) = turned_away _ refl

with_cookie :
    (serve : Option ℤ → Handler) (w : World) (r : Request) (s : Store) (c : Option String)
    → r.cookie ≡ c
    → Gated serve w r s (let_in serve w r (user_of_cookie c w s))
unfolding user_by_session
with_cookie serve w r s none e = turned_away s refl
with_cookie serve w r s (some t) e = (session_called serve w r s t _ e (call-Called _ s))

-- However the session lookup ends, the gate lets a request through to the handler only on a public
-- path, without a user; or with a cookie that is the token of a session of the tables that has not
-- expired, as the user of that session; otherwise it redirects to the login page. It changes no table.
pub gate-Gated :
    (serve : Option ℤ → Handler) (w : World) (r : Request) (s : Store)
    → Gated serve w r s (gate serve w r s)
unfolding gate user_from_request
gate-Gated serve w r s = elim (Bool-cases (is_public r.path)) [
  | inl h ↦ rw h (open_path h)
  | inr h ↦ rw h (with_cookie serve w r s r.cookie refl)
]

pub gate-calm :
    (serve : Option ℤ → Handler) (w : World) (r : Request) (db : Db) (t : String)
    → is_public r.path ≡ false
    → r.cookie ≡ some t
    → gate serve w r (calm db) ≡ let_in serve w r (calm db, find_token t w.now db.sessions)
unfolding gate user_from_request user_by_session call
gate-calm serve w r db t p c = rw p (ap (λ o. let_in serve w r (user_of_cookie o w (calm db))) c)

-- The row of a session that starts now.
abbrev pub session_row : World → ℤ → TokenRow
session_row w id = record { token = w.token; user_id = id; expires_at = w.now +ℤ session_ttl }

start_session-calm :
    (id : ℤ) (w : World) (db : Db)
    → has_token w.token db.sessions ≡ false
    → start_session id w (calm db)
      ≡ (calm (record db { sessions = session_row w id ∷ db.sessions }), session_started w true)
unfolding start_session create_session add_session insert_token call
start_session-calm id w db fresh = rw fresh refl

-- A token's session lasts until it expires.
find_token-new :
    (t : String) (now until : Time) (id : ℤ) (rs : List TokenRow)
    → has_token t rs ≡ false
    → find_token t now (record { token = t; user_id = id; expires_at = until } ∷ rs)
      ≡ (if ltb_ℤ now until then some id else none)
unfolding find_token
find_token-new t now until id rs fresh =
    rw ((same_text_iff t t).1 refl) (rw (find_token-has_token t now rs fresh) refl)

login-calm :
    (a : Auth) (w : World) (r : Request) (db : Db) (u : User)
    → find_email (a.lib.normal (value_of "email" r.form)) db.users ≡ some u
    → a.lib.matches u.password_hash (value_of "password" r.form) ≡ true
    → login a w r (calm db) ≡ start_session u.id w (calm db)
unfolding login login_with user_by_email call
login-calm a w r db u found good = rw found (rw good refl)

let_in-if :
    (serve : Option ℤ → Handler) (v : World) (q : Request) (s : Store) (id : ℤ) (b : Bool)
    → let_in serve v q (s, if b then some id else none)
      ≡ (if b then serve (some id) v q s else (s, plain (redirect "/login")))
let_in-if serve v q s id true = refl
let_in-if serve v q s id false = refl

logout-calm :
    (w : World) (r : Request) (db : Db) (t : String)
    → r.cookie ≡ some t
    → (logout w r (calm db)).0 ≡ calm (record db { sessions = delete_token t db.sessions })
unfolding logout delete_session call
logout-calm w r db t c = ap (λ o. end_session o (calm db)) c

-- When the database answers: after a login with the email of a user and a password that matches the
-- user's hash, with a token that no session has, the reply sets the cookie to the token; and a
-- request with that cookie to a path that is not public is served as that user until the session's
-- time of 30 days is over, and from then on is redirected to the login page.
pub login-gate :
    (a : Auth) (w : World) (r : Request) (db : Db) (u : User) (serve : Option ℤ → Handler)
    (v : World) (q : Request)
    → find_email (a.lib.normal (value_of "email" r.form)) db.users ≡ some u
    → a.lib.matches u.password_hash (value_of "password" r.form) ≡ true
    → has_token w.token db.sessions ≡ false
    → is_public q.path ≡ false
    → q.cookie ≡ some w.token
    → ((login a w r (calm db)).1.cookie ≡ some (keep w.token (w.now +ℤ session_ttl)))
      × (gate serve v q (login a w r (calm db)).0 ≡ (
          if ltb_ℤ v.now (w.now +ℤ session_ttl)
          then serve (some u.id) v q (login a w r (calm db)).0
          else ((login a w r (calm db)).0, plain (redirect "/login"))))
login-gate a w r db u serve v q found good fresh p c =
    let db' : Db = record db { sessions = session_row w u.id ∷ db.sessions } in
    let in_time : Bool = ltb_ℤ v.now (w.now +ℤ session_ttl) in
    subst
      (λ (x : Store × Reply).
        (x.1.cookie ≡ some (keep w.token (w.now +ℤ session_ttl)))
        × (gate serve v q x.0
            ≡ (if in_time then serve (some u.id) v q x.0 else (x.0, plain (redirect "/login")))))
      (sym (login-calm a w r db u found good ∙ start_session-calm u.id w db fresh))
      (
        unfold session_started in refl,
        gate-calm serve v q db' w.token p c
            ∙ ap (λ o. let_in serve v q (calm db', o))
                (find_token-new w.token v.now (w.now +ℤ session_ttl) u.id db.sessions fresh)
            ∙ let_in-if serve v q (calm db') u.id in_time,
      )

-- When the database answers: a logout removes the cookie, and redirects to the login page; a later
-- request with the cookie of the logout to a path that is not public is redirected to the login
-- page; and one with another cookie meets the gate as if there had been no logout.
pub logout-gate :
    (w : World) (r : Request) (db : Db) (t u : String) (serve : Option ℤ → Handler) (v : World)
    (q q' : Request)
    → r.cookie ≡ some t
    → is_public q.path ≡ false
    → q.cookie ≡ some t
    → is_public q'.path ≡ false
    → q'.cookie ≡ some u
    → same_text u t ≡ false
    → ((logout w r (calm db)).1
        ≡ record { cookie = some expire; body = redirect "/login"; mail = none })
      × (gate serve v q (logout w r (calm db)).0
          ≡ ((logout w r (calm db)).0, plain (redirect "/login")))
      × (gate serve v q' (logout w r (calm db)).0
          ≡ let_in serve v q' ((logout w r (calm db)).0, find_token u v.now db.sessions))
logout-gate w r db t u serve v q q' rc p c p' c' differ =
    let db' : Db = record db { sessions = delete_token t db.sessions } in
    subst
      (λ (s : Store).
        ((logout w r (calm db)).1
          ≡ record { cookie = some expire; body = redirect "/login"; mail = none })
        × (gate serve v q s ≡ (s, plain (redirect "/login")))
        × (gate serve v q' s ≡ let_in serve v q' (s, find_token u v.now db.sessions)))
      (sym (logout-calm w r db t rc))
      (
        unfold logout in refl,
        gate-calm serve v q db' t p c
            ∙ ap (λ o. let_in serve v q (calm db', o))
                (find_token-delete_token t v.now db.sessions),
        gate-calm serve v q' db' u p' c'
            ∙ ap (λ o. let_in serve v q' (calm db', o))
                (find_token-delete_token_other t u v.now db.sessions differ),
      )
