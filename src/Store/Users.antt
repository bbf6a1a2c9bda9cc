-- ===== src/Store/Users.antt =====
-- internal/store/store.go: users, sessions and password resets. The ids of users in the two tables of
-- tokens are those of rows of `users`, of which the program deletes none.
pub mod Tokens
pub mod Keeps
pub mod Answers
use uptime_monitor.Prelude.{
  ℕ, ◌+◌, ℤ, pos, ◌+ℤ◌, eq_ℤ, ltb_ℤ, Bool, true, false, not, ◌&&◌, ◌||◌, Option, none, some, List,
  [], ◌∷◌, ◌++◌, String, same_text, if◌then◌else◌,
}
use uptime_monitor.Time.{Time}
use uptime_monitor.Store.{User, TokenRow, Db, Store, call}

unfoldable pub find_email : String → List User → Option User
find_email email [] = none
find_email email (u ∷ us) =
    let rest = find_email email us in if same_text u.email email then some u else rest

unfoldable pub find_user : ℤ → List User → Option User
find_user id [] = none
find_user id (u ∷ us) = let rest = find_user id us in if eq_ℤ u.id id then some u else rest

-- The row of a token that has not expired.
unfoldable pub find_token : String → Time → List TokenRow → Option ℤ
find_token token now [] = none
find_token token now (r ∷ rs) =
    let rest = find_token token now rs in
    if same_text r.token token && ltb_ℤ now r.expires_at then some r.user_id else rest

unfoldable pub has_token : String → List TokenRow → Bool
has_token token [] = false
has_token token (r ∷ rs) = same_text r.token token || has_token token rs

unfoldable pub delete_token : String → List TokenRow → List TokenRow
delete_token token [] = []
delete_token token (r ∷ rs) =
    let rest = delete_token token rs in if same_text r.token token then rest else r ∷ rest

unfoldable pub delete_of_user : ℤ → List TokenRow → List TokenRow
delete_of_user id [] = []
delete_of_user id (r ∷ rs) =
    let rest = delete_of_user id rs in if eq_ℤ r.user_id id then rest else r ∷ rest

-- The result of `CreateUser`.
pub data Created : Type 0 where
  created : ℤ → Created
  email_taken : Created
  failed : Created

-- A violation of the unique index on the email too takes a number of the sequence.
unfoldable pub insert_unless : String → String → Db → Option User → Db × Option ℤ
insert_unless email hash db (some u) = (record db { next_user = db.next_user +ℤ pos 1 }, none)
insert_unless email hash db none = (
  record db {
    users = record { id = db.next_user; email = email; password_hash = hash } ∷ db.users;
    next_user = db.next_user +ℤ pos 1;
  },
  some db.next_user,
)

unfoldable pub insert_user : String → String → Db → Db × Option ℤ
unfolding insert_unless
insert_user email hash db = insert_unless email hash db (find_email email db.users)

abbrev pub created_of : Option (Option ℤ) → Created
created_of (some (some id)) = created id
created_of (some none) = email_taken
created_of none = failed

-- That violation is `ErrEmailTaken`.
unfoldable pub create_user : String → String → Store → Store × Created
unfolding insert_user call
create_user email hash s = let (s', r) = call (insert_user email hash) s in (s', created_of r)

-- Outer none: an error; inner none: no such user.
unfoldable pub user_by_email : String → Store → Store × Option (Option User)
unfolding call
user_by_email email s = call (λ db. (db, find_email email db.users)) s

-- The error when the token is there already.
unfoldable pub insert_token : TokenRow → List TokenRow → Option (List TokenRow)
unfolding has_token
insert_token row rows = if has_token row.token rows then none else some (row ∷ rows)

abbrev pub with_sessions : Db → Option (List TokenRow) → Db × Bool
with_sessions db none = (db, false)
with_sessions db (some rows) = (record db { sessions = rows }, true)

abbrev pub with_resets : Db → Option (List TokenRow) → Db × Bool
with_resets db none = (db, false)
with_resets db (some rows) = (record db { password_resets = rows }, true)

unfoldable pub add_session : TokenRow → Db → Db × Bool
unfolding insert_token
add_session row db = with_sessions db (insert_token row db.sessions)

unfoldable pub add_reset : TokenRow → Db → Db × Bool
unfolding insert_token
add_reset row db = with_resets db (insert_token row db.password_resets)

-- Whether a statement without a result succeeded.
abbrev pub succeeded : Option Bool → Bool
succeeded (some b) = b
succeeded none = false

unfoldable pub create_session : String → ℤ → Time → Store → Store × Bool
unfolding add_session call
create_session token id expires s =
    let (s', r) =
      call (add_session (record { token = token; user_id = id; expires_at = expires })) s in
    (s', succeeded r)

unfoldable pub user_by_session : String → Time → Store → Store × Option (Option ℤ)
unfolding call
user_by_session token now s = call (λ db. (db, find_token token now db.sessions)) s

unfoldable pub delete_session : String → Store → Store × Bool
unfolding call
delete_session token s =
    let (s', r) = call (λ db. (record db { sessions = delete_token token db.sessions }, true)) s in
    (s', succeeded r)

unfoldable pub delete_user_sessions : ℤ → Store → Store × Bool
unfolding call
delete_user_sessions id s =
    let (s', r) = call (λ db. (record db { sessions = delete_of_user id db.sessions }, true)) s in
    (s', succeeded r)

unfoldable pub create_password_reset : String → ℤ → Time → Store → Store × Bool
unfolding add_reset call
create_password_reset token id expires s =
    let (s', r) =
      call (add_reset (record { token = token; user_id = id; expires_at = expires })) s in
    (s', succeeded r)

unfoldable pub user_by_reset_token : String → Time → Store → Store × Option (Option ℤ)
unfolding call
user_by_reset_token token now s = call (λ db. (db, find_token token now db.password_resets)) s

unfoldable pub delete_password_reset : String → Store → Store × Bool
unfolding call
delete_password_reset token s =
    let (s', r) =
      call (λ db. (record db { password_resets = delete_token token db.password_resets }, true))
        s in
    (s', succeeded r)

unfoldable pub set_hash : ℤ → String → List User → List User
set_hash id hash [] = []
set_hash id hash (u ∷ us) =
    (if eq_ℤ u.id id then record u { password_hash = hash } else u) ∷ set_hash id hash us

unfoldable pub update_password : ℤ → String → Store → Store × Bool
unfolding call
update_password id hash s =
    let (s', r) = call (λ db. (record db { users = set_hash id hash db.users }, true)) s in
    (s', succeeded r)

abbrev pub email_of : Option User → Option String
email_of none = none
email_of (some u) = some u.email

-- No such user is an error too.
unfoldable pub user_email : ℤ → Store → Store × Option (Option String)
unfolding call
user_email id s = call (λ db. (db, email_of (find_user id db.users))) s
