-- ===== src/Auth/Tests.antt =====
-- cmd/web/auth.go: runs at concrete inputs, and the theorems at such inputs.
use uptime_monitor.Prelude.{
  ℤ, pos, ◌+ℤ◌, ltb_ℤ, All, true, false, Option, none, some, [], ◌∷◌, String, ◌<+>◌, same_text,
  if◌then◌else◌, ◌≡◌, ◌≢◌, refl,
}
use uptime_monitor.Store.{User, Db, answered, unanswered, calm}
use uptime_monitor.Store.Users.{find_token, find_email, has_token}
use uptime_monitor.Auth.{
  Auth, Library, World, Request, Handler, redirect, page, keep, expire, plain, render, value_of,
  is_public, let_in, gate, session_ttl, start_session, login, logout, reset, auth_handler,
}
use uptime_monitor.Auth.Sessions.{Gated, gate-Gated, login-gate, logout-gate}
use uptime_monitor.Auth.Resets.{Resets, reset-login, reset-Resets}
use uptime_monitor.Auth.Accounts.{auth_handler-IsGranted}
use uptime_monitor.Auth.Grants.{IsGranted}

-- A hash is the password behind a letter.
abbrev lib : Library
lib = record {
  generate = λ salt p. some ("h" <+> p);
  matches = λ h p. same_text h ("h" <+> p);
  normal = λ s. s;
}

abbrev auth : Auth
auth = record { mailer = true; lib = lib }

abbrev ann : User
ann = record { id = pos 1; email = "ann@example.com"; password_hash = "hsecret-1" }

abbrev bob : User
bob = record { id = pos 2; email = "bob@example.com"; password_hash = "hsecret-2" }

abbrev tables : Db
tables = record {
  users = bob ∷ ann ∷ [];
  sessions =
      record { token = "b"; user_id = pos 2; expires_at = pos 9000 }
      ∷ record { token = "a"; user_id = pos 1; expires_at = pos 9000 }
      ∷ [];
  password_resets = record { token = "r"; user_id = pos 1; expires_at = pos 5000 } ∷ [];
  monitors = [];
  incidents = [];
  checks = [];
  next_user = pos 3;
  next_monitor = pos 1;
}

abbrev world : World
world = record { now = pos 1000; token = "t"; salt = 7 }

abbrev later : World
later = record { now = pos 2000; token = "u"; salt = 8 }

abbrev blank : Request
blank = record {
  method = "GET";
  path = "/";
  cookie = none;
  form = [];
  query = [];
  tls = true;
  forwarded_proto = "";
  host = "status.example.com";
}

abbrev with_cookie : String → Request
with_cookie t = record blank { cookie = some t }

abbrev login_form : String → Request
login_form pass = record blank {
  method = "POST";
  path = "/login";
  form = ("email", "ann@example.com") ∷ ("password", pass) ∷ [];
}

abbrev reset_form : Request
reset_form = record blank {
  method = "POST";
  path = "/reset";
  form = ("token", "r") ∷ ("password", "new-secret") ∷ [];
}

-- A handler that shows the user.
abbrev serve : Option ℤ → Handler
serve none w r s = (s, plain (page "none" []))
serve (some id) w r s = (s, plain (page "some" []))

gate-Gated_example :
    Gated serve world
      (with_cookie "a")
      (record { db = tables; io = unanswered ∷ [] })
      (gate serve world (with_cookie "a") (record { db = tables; io = unanswered ∷ [] }))
gate-Gated_example =
    gate-Gated serve world (with_cookie "a") (record { db = tables; io = unanswered ∷ [] })

ann_is_found :
    find_email (auth.lib.normal (value_of "email" (login_form "secret-1").form)) tables.users
    ≡ some ann
unfolding find_email
ann_is_found = refl

fresh : has_token world.token tables.sessions ≡ false
unfolding has_token
fresh = refl

root_is_closed : is_public "/" ≡ false
unfolding is_public
root_is_closed = refl

login-gate_example :
    ((login auth world (login_form "secret-1") (calm tables)).1.cookie
      ≡ some (keep world.token (world.now +ℤ session_ttl)))
    × (gate serve later (with_cookie "t") (login auth world (login_form "secret-1") (calm tables)).0
        ≡ (if ltb_ℤ later.now (world.now +ℤ session_ttl)
            then serve
                (some ann.id)
                later
                (with_cookie "t")
                (login auth world (login_form "secret-1") (calm tables)).0
            else (
              (login auth world (login_form "secret-1") (calm tables)).0,
              plain (redirect "/login"),
            )))
login-gate_example =
    login-gate auth world (login_form "secret-1") tables ann serve later (with_cookie "t")
      ann_is_found refl fresh root_is_closed refl

logout-gate_example :
    ((logout world (with_cookie "a") (calm tables)).1
      ≡ record { cookie = some expire; body = redirect "/login"; mail = none })
    × (gate serve later (with_cookie "a") (logout world (with_cookie "a") (calm tables)).0
        ≡ ((logout world (with_cookie "a") (calm tables)).0, plain (redirect "/login")))
    × (gate serve later (with_cookie "b") (logout world (with_cookie "a") (calm tables)).0
        ≡ let_in serve later (with_cookie "b") (
          (logout world (with_cookie "a") (calm tables)).0,
          find_token "b" later.now tables.sessions,
        ))
logout-gate_example =
    logout-gate world (with_cookie "a") tables "a" "b" serve later (with_cookie "a")
      (with_cookie "b") refl root_is_closed refl root_is_closed refl refl

token_is_live :
    find_token (value_of "token" reset_form.form) world.now tables.password_resets ≡ some ann.id
unfolding find_token
token_is_live = refl

reset-login_example :
    ((reset auth world reset_form (calm tables)).1 ≡ plain (redirect "/login?reset=1"))
    × (find_token
          (value_of "token" reset_form.form)
          later.now
          (reset auth world reset_form (calm tables)).0.db.password_resets
        ≡ none)
    × (find_token "a" later.now (reset auth world reset_form (calm tables)).0.db.sessions
        ≢ some ann.id)
    × (login auth later (login_form "secret-1") (reset auth world reset_form (calm tables)).0 ≡ (
        if auth.lib.matches "hnew-secret" (value_of "password" (login_form "secret-1").form)
        then start_session ann.id later (reset auth world reset_form (calm tables)).0
        else (
          (reset auth world reset_form (calm tables)).0,
          render "login.html" "Wrong email or password.",
        )))
reset-login_example =
    reset-login auth world reset_form tables ann "hnew-secret" later (login_form "secret-1") "a"
      token_is_live refl refl ann_is_found

reset-Resets_example :
    Resets
      (value_of "token" reset_form.form)
      world
      tables
      (reset auth world reset_form (record { db = tables; io = answered ∷ unanswered ∷ [] })).0.db
reset-Resets_example =
    reset-Resets auth world reset_form (record { db = tables; io = answered ∷ unanswered ∷ [] })

login_is_routed : auth_handler auth (login_form "secret-1") ≡ some (login auth)
unfolding auth_handler
login_is_routed = refl

auth_handler-IsGranted_example :
    All
      (IsGranted auth world (login_form "secret-1") tables)
      (login auth world
        (login_form "secret-1")
        (record { db = tables; io = answered ∷ unanswered ∷ [] })).0.db.sessions
auth_handler-IsGranted_example =
    auth_handler-IsGranted auth world (login_form "secret-1")
      (record { db = tables; io = answered ∷ unanswered ∷ [] }) (login auth) login_is_routed
