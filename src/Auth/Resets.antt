-- ===== src/Auth/Resets.antt =====
-- cmd/web/auth.go: password resets.
use uptime_monitor.Prelude.{
  ℤ, ◌+ℤ◌, ltb, Bool, true, false, Bool-cases, Option, none, some, List, String, len, if◌then◌else◌,
  ◌≡◌, ◌≢◌, refl, inl, inr, sym, ap, subst,
}
use uptime_monitor.Store.{User, TokenRow, Db, Store, calm, call}
use uptime_monitor.Store.Calls.{Called, with_answer, no_effect, answer_lost, call-Called}
use uptime_monitor.Store.Users.{
  find_token, find_email, insert_token, add_reset, with_resets, delete_token, delete_of_user,
  set_hash, user_by_email, user_by_reset_token, delete_password_reset, delete_user_sessions,
  update_password, succeeded,
}
use uptime_monitor.Store.Users.Keeps.{
  user_by_email-keeps, create_password_reset-keeps, delete_user_sessions-keeps,
  delete_password_reset-keeps,
}
use uptime_monitor.Store.Users.Tokens.{
  find_token-delete_token, find_token-delete_of_user, find_email-set_hash,
}
use uptime_monitor.Auth.{
  Auth, World, Request, Reply, redirect, plain, render, value_of, user_of, start_session,
  login_with, login, reset_ttl, hash_reset, finish_reset, reset_with, reset, send_reset, forgot,
}

-- The tables after a reset.
reset_db : String → ℤ → String → Db → Db
reset_db token id hash db = record db {
  users = set_hash id hash db.users;
  password_resets = delete_token token db.password_resets;
  sessions = delete_of_user id db.sessions;
}

reset-calm :
    (a : Auth) (w : World) (r : Request) (db : Db) (id : ℤ) (hash : String)
    → find_token (value_of "token" r.form) w.now db.password_resets ≡ some id
    → ltb (len (value_of "password" r.form)) 8 ≡ false
    → a.lib.generate w.salt (value_of "password" r.form) ≡ some hash
    → reset a w r (calm db)
      ≡ (calm (reset_db (value_of "token" r.form) id hash db), plain (redirect "/login?reset=1"))
unfolding reset reset_with hash_reset finish_reset user_by_reset_token update_password
    delete_password_reset delete_user_sessions call reset_db
reset-calm a w r db id hash live long gen = rw live (rw long (rw gen refl))

login-found :
    (a : Auth) (w : World) (r : Request) (db : Db) (u : User)
    → find_email (a.lib.normal (value_of "email" r.form)) db.users ≡ some u
    → login a w r (calm db) ≡ (
        if a.lib.matches u.password_hash (value_of "password" r.form)
        then start_session u.id w (calm db)
        else (calm db, render "login.html" "Wrong email or password."))
unfolding login login_with user_by_email call
login-found a w r db u found = rw found refl

-- When the database answers: a reset with a token that has not expired and a password of at least
-- eight bytes, for which bcrypt gives a hash, redirects to the login page, and then the token is
-- found at no time, no token is that of a session of the user, and a login with the email of the user
-- starts a session just if the password that it gives matches the new hash.
pub reset-login :
    (a : Auth) (w : World) (r : Request) (db : Db) (u : User) (hash : String) (v : World)
    (q : Request) (t : String)
    → find_token (value_of "token" r.form) w.now db.password_resets ≡ some u.id
    → ltb (len (value_of "password" r.form)) 8 ≡ false
    → a.lib.generate w.salt (value_of "password" r.form) ≡ some hash
    → find_email (a.lib.normal (value_of "email" q.form)) db.users ≡ some u
    → ((reset a w r (calm db)).1 ≡ plain (redirect "/login?reset=1"))
      × (find_token (value_of "token" r.form) v.now (reset a w r (calm db)).0.db.password_resets
          ≡ none)
      × (find_token t v.now (reset a w r (calm db)).0.db.sessions ≢ some u.id)
      × (login a v q (reset a w r (calm db)).0 ≡ (
          if a.lib.matches hash (value_of "password" q.form)
          then start_session u.id v (reset a w r (calm db)).0
          else ((reset a w r (calm db)).0, render "login.html" "Wrong email or password.")))
unfolding reset_db
reset-login a w r db u hash v q t live long gen found =
    let token = value_of "token" r.form in
    subst
      (λ (x : Store × Reply).
        (x.1 ≡ plain (redirect "/login?reset=1"))
        × (find_token token v.now x.0.db.password_resets ≡ none)
        × (find_token t v.now x.0.db.sessions ≢ some u.id)
        × (login a v q x.0 ≡ (
            if a.lib.matches hash (value_of "password" q.form)
            then start_session u.id v x.0
            else (x.0, render "login.html" "Wrong email or password."))))
      (sym (reset-calm a w r db u.id hash live long gen))
      (
        refl,
        find_token-delete_token token v.now db.password_resets,
        find_token-delete_of_user u.id t v.now db.sessions,
        login-found a v q (reset_db token u.id hash db) (record u { password_hash = hash })
            (find_email-set_hash _ u.id hash db.users u found refl),
      )

-- What a reset may leave of the users, when the password resets are those of some tables.
pub data Resets (token : String) (w : World) (db : Db) : Db → Type 0 where
  kept : (db' : Db) → db'.users ≡ db.users → Resets token w db db'
  replaced :
      (db' : Db) (id : ℤ) (hash : String)
      → find_token token w.now db.password_resets ≡ some id
      → db'.users ≡ set_hash id hash db.users
      → Resets token w db db'

deletions-users :
    (token : String) (id : ℤ) (us : List User) (s : Store)
    → s.db.users ≡ us
    → (delete_user_sessions id (delete_password_reset token s).0).0.db.users ≡ us
deletions-users token id us s e =
    let e' = delete_password_reset-keeps (λ db. db.users ≡ us) s e token e in
    delete_user_sessions-keeps (λ db. db.users ≡ us) (delete_password_reset token s).0 e' id e'

updated-Resets :
    (token : String) (w : World) (db : Db) (id : ℤ) (hash : String) (s : Store)
    (x : Store × Option Bool)
    → s.db ≡ db
    → find_token token w.now db.password_resets ≡ some id
    → Called (λ d. (record d { users = set_hash id hash d.users }, true)) s x
    → Resets token w db (finish_reset token id (x.0, succeeded x.1)).0.db
unfolding finish_reset
updated-Resets token w db id hash s _ e live (with_answer os) = replaced _ id hash live (
    deletions-users token id _
      (record { db = record s.db { users = set_hash id hash s.db.users }; io = os })
      (ap (λ d. set_hash id hash d.users) e))
updated-Resets token w db id hash s _ e live (no_effect os) = kept _ (ap (λ d. d.users) e)
updated-Resets token w db id hash s _ e live (answer_lost os) =
    replaced _ id hash live (ap (λ d. set_hash id hash d.users) e)

hashed-Resets :
    (a : Auth) (token : String) (w : World) (db : Db) (id : ℤ) (o : Option String) (s : Store)
    → s.db ≡ db
    → find_token token w.now db.password_resets ≡ some id
    → Resets token w db (hash_reset w token id s o).0.db
unfolding hash_reset update_password
hashed-Resets a token w db id none s e live = kept _ (ap (λ d. d.users) e)
hashed-Resets a token w db id (some hash) s e live =
    updated-Resets token w db id hash s _ e live (call-Called _ s)

found-Resets :
    (a : Auth) (token pass : String) (w : World) (db : Db) (o : Option ℤ) (s : Store)
    → s.db ≡ db
    → find_token token w.now db.password_resets ≡ o
    → Resets token w db (reset_with a w token pass (s, o)).0.db
unfolding reset_with
found-Resets a token pass w db none s e live = kept _ (ap (λ d. d.users) e)
found-Resets a token pass w db (some id) s e live = elim (Bool-cases (ltb (len pass) 8)) [
  | inl h ↦ rw h (kept _ (ap (λ d. d.users) e))
  | inr h ↦ rw h (hashed-Resets a token w db id (a.lib.generate w.salt pass) s e live)
]

Called-Resets :
    (a : Auth) (token pass : String) (w : World) (s : Store) (x : Store × Option (Option ℤ))
    → Called (λ db. (db, find_token token w.now db.password_resets)) s x
    → Resets token w s.db (reset_with a w token pass (x.0, user_of x.1)).0.db
unfolding reset_with
Called-Resets a token pass w s _ (with_answer os) = found-Resets a token pass w s.db _ _ refl refl
Called-Resets a token pass w s _ (no_effect os) = kept _ refl
Called-Resets a token pass w s _ (answer_lost os) = kept _ refl

-- However the calls of a reset end, it leaves the users as they are, or the token of its form is a
-- password reset that has not expired, and the hash of the user of that reset is replaced.
pub reset-Resets :
    (a : Auth) (w : World) (r : Request) (s : Store)
    → Resets (value_of "token" r.form) w s.db (reset a w r s).0.db
unfolding reset user_by_reset_token
reset-Resets a w r s = Called-Resets a _ _ w s _ (call-Called _ s)

with_resets-keeps :
    (db d : Db) (o : Option (List TokenRow))
    → (d.users ≡ db.users) × (d.sessions ≡ db.sessions)
    → ((with_resets d o).0.users ≡ db.users) × ((with_resets d o).0.sessions ≡ db.sessions)
with_resets-keeps db d none e = e
with_resets-keeps db d (some rows) e = e

send_reset-keeps :
    (a : Auth) (w : World) (r : Request) (email : String) (db : Db) (s : Store)
    (o : Option (Option User))
    → (s.db.users ≡ db.users) × (s.db.sessions ≡ db.sessions)
    → ((send_reset a w r email (s, o)).0.db.users ≡ db.users)
      × ((send_reset a w r email (s, o)).0.db.sessions ≡ db.sessions)
unfolding send_reset
send_reset-keeps a w r email db s none e = e
send_reset-keeps a w r email db s (some none) e = e
send_reset-keeps a w r email db s (some (some u)) e =
    create_password_reset-keeps (λ d. (d.users ≡ db.users) × (d.sessions ≡ db.sessions)) s e w.token
      u.id (w.now +ℤ reset_ttl)
      (unfold add_reset in with_resets-keeps db s.db (insert_token _ s.db.password_resets) e)

-- A request for a reset is answered alike whatever the tables and however its calls end, so that the reply does not tell
-- which emails have an account; and it changes neither the users nor the sessions.
forgot-uniform :
    (a : Auth) (w v : World) (r : Request) (s s' : Store)
    → ((forgot a w r s).1.body ≡ (forgot a v r s').1.body)
      × ((forgot a w r s).1.cookie ≡ (forgot a v r s').1.cookie)
      × ((forgot a w r s).0.db.users ≡ s.db.users)
      × ((forgot a w r s).0.db.sessions ≡ s.db.sessions)
unfolding forgot
forgot-uniform a w v r s s' =
    let (users, sessions) = send_reset-keeps a w r _ s.db _ _ (
      user_by_email-keeps (λ d. (d.users ≡ s.db.users) × (d.sessions ≡ s.db.sessions)) s
        (refl, refl) _) in
    (refl, refl, users, sessions)
