-- ===== src/Auth.antt =====
-- cmd/web/auth.go: accounts, sessions and password resets of the status page, over the store.
-- A handler takes the world and the request to the store after its calls and to the reply. Writing a
-- page does not fail, the database has the clock of the program, and logging is left out.
pub mod Sessions
pub mod Resets
pub mod Grants
pub mod Accounts
mod Tests
use uptime_monitor.Prelude.{
  ℕ, ℤ, pos, ◌+ℤ◌, ltb, Bool, true, false, not, ◌&&◌, ◌||◌, Option, none, some, List, [], ◌∷◌,
  String, ◌<+>◌, is_blank, same_text, len, lookup, string_eq, if◌then◌else◌,
}
use uptime_monitor.Time.{Time, Duration}
use uptime_monitor.Store.{User, Store}
use uptime_monitor.Store.Users.{
  Created, created, email_taken, create_user, user_by_email, create_session, user_by_session,
  delete_session, delete_user_sessions, create_password_reset, user_by_reset_token,
  delete_password_reset, update_password,
}
use uptime_monitor.Store.Users as Users

-- Of packages bcrypt and strings: `GenerateFromPassword` by the salt, none is an error;
-- `CompareHashAndPassword` without an error; `TrimSpace` of `ToLower`.
pub record Library : Type 0 where
  pub generate : ℕ → String → Option String
  pub matches : String → String → Bool
  pub normal : String → String

-- `auth`: whether a mailer is there, and the code that it calls.
pub record Auth : Type 0 where
  pub mailer : Bool
  pub lib : Library

-- The clock and the random numbers of a request.
pub record World : Type 0 where
  pub now : Time
  pub token : String
  pub salt : ℕ

-- What the handlers read of a request; the cookie is the one named `session`.
pub record Request : Type 0 where
  pub method : String
  pub path : String
  pub cookie : Option String
  pub form : List (String × String)
  pub query : List (String × String)
  pub tls : Bool
  pub forwarded_proto : String
  pub host : String

-- The session cookie of a reply: set until a time, or removed.
pub data Cookie : Type 0 where
  keep : String → Time → Cookie
  expire : Cookie

pub data Body : Type 0 where
  page : String → List (String × String) → Body
  redirect : String → Body
  server_error : Body
  bad_request : Body

-- A message to an address.
pub record Mail : Type 0 where
  pub to : String
  pub subject : String
  pub text : String

pub record Reply : Type 0 where
  pub cookie : Option Cookie
  pub body : Body
  pub mail : Option Mail

abbrev pub Handler : Type 0
Handler = World → Request → Store → Store × Reply

-- `sessionTTL` and `resetTTL`, in nanoseconds.
abbrev pub session_ttl : Duration
session_ttl = pos 2592000000000000

abbrev pub reset_ttl : Duration
reset_ttl = pos 3600000000000

abbrev text_or_blank : Option String → String
text_or_blank none = ""
text_or_blank (some s) = s

abbrev pub value_of : String → List (String × String) → String
value_of k m = text_or_blank (lookup k m)

abbrev pub plain : Body → Reply
plain b = record { cookie = none; body = b; mail = none }

abbrev pub render : String → String → Reply
render name err = plain (page name (("Error", err) ∷ []))

-- `userFromRequest`; none is no user.
abbrev pub user_of : Option (Option ℤ) → Option ℤ
user_of none = none
user_of (some u) = u

abbrev pub user_of_cookie : Option String → World → Store → Store × Option ℤ
unfolding user_by_session
user_of_cookie none w s = (s, none)
user_of_cookie (some t) w s = let (s', u) = user_by_session t w.now s in (s', user_of u)

unfoldable pub user_from_request : World → Request → Store → Store × Option ℤ
user_from_request w r s = user_of_cookie r.cookie w s

one_of : List String → String → Bool
one_of [] p = false
one_of (q ∷ qs) p = same_text q p || one_of qs p

-- The paths that need no session.
unfoldable pub is_public : String → Bool
unfolding one_of
is_public p =
    one_of ("/login" ∷ "/signup" ∷ "/logout" ∷ "/forgot" ∷ "/reset" ∷ "/healthz" ∷ "/metrics" ∷ [])
      p

-- `userID` of the context: 0 where the gate put no user on it.
abbrev pub user_id : Option ℤ → ℤ
user_id none = pos 0
user_id (some id) = id

-- The gate behind the session lookup.
abbrev pub let_in : (Option ℤ → Handler) → World → Request → Store × Option ℤ → Store × Reply
let_in serve w r (s, none) = (s, plain (redirect "/login"))
let_in serve w r (s, some id) = serve (some id) w r s

-- `gate`, in front of a handler that takes the user of the context.
unfoldable pub gate : (Option ℤ → Handler) → Handler
unfolding is_public user_from_request
gate serve w r s =
    if is_public r.path then serve none w r s else let_in serve w r (user_from_request w r s)

session_started : World → Bool → Reply
session_started w true = record {
  cookie = some (keep w.token (w.now +ℤ session_ttl));
  body = redirect "/";
  mail = none;
}
session_started w false = plain server_error

unfoldable pub start_session : ℤ → World → Store → Store × Reply
unfolding session_started create_session
start_session id w s =
    let (s', ok) = create_session w.token id (w.now +ℤ session_ttl) s in (s', session_started w ok)

-- `login` behind the lookup of the email.
unfoldable pub login_with : Auth → World → String → Store × Option (Option User) → Store × Reply
unfolding start_session
login_with a w pass (s, none) = (s, plain server_error)
login_with a w pass (s, some none) = (s, render "login.html" "Wrong email or password.")
login_with a w pass (s, some (some u)) =
    if a.lib.matches u.password_hash pass
    then start_session u.id w s
    else (s, render "login.html" "Wrong email or password.")

unfoldable pub login : Auth → Handler
unfolding login_with user_by_email
login a w r s =
    login_with a w (value_of "password" r.form)
      (user_by_email (a.lib.normal (value_of "email" r.form)) s)

abbrev pub end_session : Option String → Store → Store
unfolding delete_session
end_session none s = s
end_session (some tok) s = (delete_session tok s).0

unfoldable pub logout : Handler
logout w r s =
    (end_session r.cookie s, record { cookie = some expire; body = redirect "/login"; mail = none })

-- `signup` behind `CreateUser`.
unfoldable pub sign_up_with : World → Store × Created → Store × Reply
unfolding start_session
sign_up_with w (s, created id) = start_session id w s
sign_up_with w (s, email_taken) =
    (s, render "signup.html" "That email is already registered — try logging in.")
sign_up_with w (s, Users.failed) = (s, plain server_error)

-- `signup` behind `GenerateFromPassword`.
unfoldable pub hash_sign_up : World → String → Store → Option String → Store × Reply
unfolding sign_up_with create_user
hash_sign_up w email s none = (s, plain server_error)
hash_sign_up w email s (some hash) = sign_up_with w (create_user email hash s)

unfoldable pub signup : Auth → Handler
unfolding hash_sign_up
signup a w r s =
    let email = a.lib.normal (value_of "email" r.form) in
    let pass = value_of "password" r.form in
    if is_blank email || ltb (len pass) 8
    then (s, render "signup.html" "Enter an email and a password of at least 8 characters.")
    else hash_sign_up w email s (a.lib.generate w.salt pass)

-- `baseURL`.
unfoldable pub base_url : Request → String
base_url r =
    let scheme = if r.tls || same_text r.forwarded_proto "https" then "https" else "http" in
    scheme <+> "://" <+> r.host

reset_mail : World → Request → String → Mail
unfolding base_url
reset_mail w r email =
    let link = base_url r <+> "/reset?token=" <+> w.token in
    record {
      to = email;
      subject = "Reset your Uptime Monitor password";
      text =
          "Someone requested a password reset for your Uptime Monitor account.\n\n"
          <+> "Reset it here (link expires in 1 hour):\n" <+> link
          <+> "\n\nIf this wasn't you, ignore this email.";
    }

-- The message that goes out, when the token is stored and a mailer is there.
mail_if : Auth → World → Request → String → Bool → Option Mail
unfolding reset_mail
mail_if a w r email ok = if ok && a.mailer then some (reset_mail w r email) else none

-- `forgot` behind the lookup of the email.
unfoldable pub send_reset :
    Auth → World → Request → String → Store × Option (Option User) → Store × Option Mail
unfolding create_password_reset mail_if
send_reset a w r email (s, none) = (s, none)
send_reset a w r email (s, some none) = (s, none)
send_reset a w r email (s, some (some u)) =
    let (s', ok) = create_password_reset w.token u.id (w.now +ℤ reset_ttl) s in
    (s', mail_if a w r email ok)

unfoldable pub forgot : Auth → Handler
unfolding send_reset user_by_email
forgot a w r s =
    let email = a.lib.normal (value_of "email" r.form) in
    let (s', mail) = send_reset a w r email (user_by_email email s) in
    (s', record { cookie = none; body = page "forgot.html" (("Error", "sent") ∷ []); mail = mail })

abbrev reset_page : String → Option ℤ → Reply
reset_page token none = render "reset.html" "invalid"
reset_page token (some id) = plain (page "reset.html" (("Token", token) ∷ []))

-- `resetForm`.
unfoldable pub reset_form : Handler
unfolding user_by_reset_token
reset_form w r s =
    let token = value_of "token" r.query in
    let (s', u) = user_by_reset_token token w.now s in (s', reset_page token (user_of u))

-- `reset` behind `UpdatePassword`.
unfoldable pub finish_reset : String → ℤ → Store × Bool → Store × Reply
unfolding delete_password_reset delete_user_sessions
finish_reset token id (s, false) = (s, plain server_error)
finish_reset token id (s, true) = (
  (delete_user_sessions id (delete_password_reset token s).0).0,
  plain (redirect "/login?reset=1"),
)

-- `reset` behind `GenerateFromPassword`.
unfoldable pub hash_reset : World → String → ℤ → Store → Option String → Store × Reply
unfolding finish_reset update_password
hash_reset w token id s none = (s, plain server_error)
hash_reset w token id s (some hash) = finish_reset token id (update_password id hash s)

-- `reset` behind the lookup of the token.
unfoldable pub reset_with : Auth → World → String → String → Store × Option ℤ → Store × Reply
unfolding hash_reset
reset_with a w token pass (s, none) = (s, render "reset.html" "invalid")
reset_with a w token pass (s, some id) =
    if ltb (len pass) 8
    then (
      s,
      plain (
          page "reset.html"
            (("Token", token) ∷ ("Error", "Password must be at least 8 characters.") ∷ [])),
    )
    else hash_reset w token id s (a.lib.generate w.salt pass)

unfoldable pub reset : Auth → Handler
unfolding reset_with user_by_reset_token
reset a w r s =
    let token = value_of "token" r.form in
    let (s', u) = user_by_reset_token token w.now s in
    reset_with a w token (value_of "password" r.form) (s', user_of u)

login_page : Handler
login_page w r s = (
  s,
  plain (
      page "login.html" (
        if same_text (value_of "reset" r.query) "1"
        then ("Notice", "Password updated — please log in.") ∷ []
        else [])),
)

blank_page : String → Handler
blank_page name w r s = (s, render name "")

-- `routes`: the handler of a method and a path.
routes : Auth → List (String × Handler)
unfolding login_page blank_page signup login logout forgot reset_form reset
routes a =
    ("GET /login", login_page)
    ∷ ("GET /signup", blank_page "signup.html")
    ∷ ("POST /signup", signup a)
    ∷ ("POST /login", login a)
    ∷ ("POST /logout", logout)
    ∷ ("GET /forgot", blank_page "forgot.html")
    ∷ ("POST /forgot", forgot a)
    ∷ ("GET /reset", reset_form)
    ∷ ("POST /reset", reset a)
    ∷ []

-- The handler of a request, if it is one of these.
unfoldable pub auth_handler : Auth → Request → Option Handler
unfolding routes
auth_handler a r = lookup (r.method <+> " " <+> r.path) (routes a)
