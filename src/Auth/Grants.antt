-- ===== src/Auth/Grants.antt =====
-- cmd/web/auth.go: which sessions the handlers of the accounts may open.
use uptime_monitor.Prelude.{
  ℤ, ◌+ℤ◌, ltb, true, false, Bool-cases, Option, none, some, List, [], ◌∷◌, String, is_blank,
  same_text, len, string_eq, eq_ℤ, All, ◌≡◌, ◌⊎◌, ◌∙◌, refl, inl, inr, subst, sym, ap,
}
use uptime_monitor.Store.{User, TokenRow, Db, Store}
use uptime_monitor.Store.Users.{
  Created, created, email_taken, find_email, create_user, user_by_email, user_by_reset_token,
  has_token, insert_token, add_session, insert_user, insert_unless, add_reset, delete_token,
  delete_of_user,
}
use uptime_monitor.Store.Users as Users
use uptime_monitor.Store.Users.Keeps as Keeps
use uptime_monitor.Store.Users.Answers.{user_by_email-answer, create_user-answer}
use uptime_monitor.Auth.Sessions.{session_row}
use uptime_monitor.Auth.{
  Auth, World, Request, value_of, session_ttl, start_session, login_with, login, end_session,
  logout, sign_up_with, hash_sign_up, signup,
}

abbrev pub IsRowOf : List TokenRow → TokenRow → Type 0
IsRowOf [] x = ⊥
IsRowOf (y ∷ rows) x = (y ≡ x) ⊎ IsRowOf rows x

-- The email of a form.
abbrev pub form_email : Auth → Request → String
form_email a r = a.lib.normal (value_of "email" r.form)

abbrev pub form_password : Request → String
form_password r = value_of "password" r.form

-- Why a session may be in the tables after a request: it was there before; the form has the email of
-- a user and a password that matches the user's hash; or the form has an email that no user had and
-- a password that is long enough, and the session is that of the new user.
pub data IsGranted (a : Auth) (w : World) (r : Request) (db : Db) : TokenRow → Type 0 where
  was_there : (row : TokenRow) → IsRowOf db.sessions row → IsGranted a w r db row
  by_password :
      (u : User)
      → find_email (form_email a r) db.users ≡ some u
      → a.lib.matches u.password_hash (form_password r) ≡ true
      → IsGranted a w r db (session_row w u.id)
  by_sign_up :
      is_blank (form_email a r) ≡ false
      → ltb (len (form_password r)) 8 ≡ false
      → find_email (form_email a r) db.users ≡ none
      → IsGranted a w r db (session_row w db.next_user)

module _ (a : Auth) (w : World) (r : Request) (db : Db) where
  unfoldable pub Grants : Db → Type 0
  Grants d = All (IsGranted a w r db) d.sessions

  add_session-Grants :
      (row : TokenRow) (d : Db) → IsGranted a w r db row → Grants d → Grants (add_session row d).0
  unfolding Grants add_session insert_token
  add_session-Grants row d g ok = elim (Bool-cases (has_token row.token d.sessions)) [
    | inl h ↦ rw h ok
    | inr h ↦ rw h (g, ok)
  ]

  start_session-Grants :
      (id : ℤ) (s : Store)
      → IsGranted a w r db (session_row w id)
      → Grants s.db
      → Grants (start_session id w s).0.db
  unfolding start_session
  start_session-Grants id s g ok =
      Keeps.create_session-keeps Grants s ok w.token id (w.now +ℤ session_ttl)
        (add_session-Grants (session_row w id) s.db g ok)

  login_with-Grants :
      (s : Store) (o : Option (Option User))
      → ((u : User) → o ≡ some (some u) → find_email (form_email a r) db.users ≡ some u)
      → Grants s.db
      → Grants (login_with a w (form_password r) (s, o)).0.db
  unfolding login_with
  login_with-Grants s none found ok = ok
  login_with-Grants s (some none) found ok = ok
  login_with-Grants s (some (some u)) found ok =
      elim (Bool-cases (a.lib.matches u.password_hash (form_password r))) [
        | inl h ↦ rw h (start_session-Grants u.id s (by_password u (found u refl) h) ok)
        | inr h ↦ rw h ok
      ]

  pub login-Grants : (s : Store) → s.db ≡ db → Grants s.db → Grants (login a w r s).0.db
  unfolding login
  login-Grants s same ok =
      login_with-Grants _ _
        (λ u h.
          subst (λ (d : Db). find_email (form_email a r) d.users ≡ some u) same
            (user_by_email-answer (form_email a r) s (some u) h))
        (Keeps.user_by_email-keeps Grants s ok _)

  delete_token-Grants :
      (t : String) (rows : List TokenRow)
      → All (IsGranted a w r db) rows
      → All (IsGranted a w r db) (delete_token t rows)
  unfolding delete_token
  delete_token-Grants t [] ok = tt
  delete_token-Grants t (row ∷ rows) ok = elim (Bool-cases (same_text row.token t)) [
    | inl h ↦ rw h (delete_token-Grants t rows ok.1)
    | inr h ↦ rw h (ok.0, delete_token-Grants t rows ok.1)
  ]

  pub delete_of_user-Grants :
      (id : ℤ) (rows : List TokenRow)
      → All (IsGranted a w r db) rows
      → All (IsGranted a w r db) (delete_of_user id rows)
  unfolding delete_of_user
  delete_of_user-Grants id [] ok = tt
  delete_of_user-Grants id (row ∷ rows) ok = elim (Bool-cases (eq_ℤ row.user_id id)) [
    | inl h ↦ rw h (delete_of_user-Grants id rows ok.1)
    | inr h ↦ rw h (ok.0, delete_of_user-Grants id rows ok.1)
  ]

  end_session-Grants : (c : Option String) (s : Store) → Grants s.db → Grants (end_session c s).db
  unfolding end_session Grants
  end_session-Grants none s ok = ok
  end_session-Grants (some t) s ok =
      Keeps.delete_session-keeps Grants s ok t (delete_token-Grants t s.db.sessions ok)

  pub logout-Grants : (s : Store) → Grants s.db → Grants (logout w r s).0.db
  unfolding logout
  logout-Grants s ok = end_session-Grants r.cookie s ok

  sign_up_with-Grants :
      (s : Store) (c : Created)
      → ((id : ℤ) → c ≡ created id → IsGranted a w r db (session_row w id))
      → Grants s.db
      → Grants (sign_up_with w (s, c)).0.db
  unfolding sign_up_with
  sign_up_with-Grants s (created id) granted ok = start_session-Grants id s (granted id refl) ok
  sign_up_with-Grants s email_taken granted ok = ok
  sign_up_with-Grants s Users.failed granted ok = ok

  insert_unless-Grants :
      (email hash : String) (d : Db) (found : Option User)
      → Grants d
      → Grants (insert_unless email hash d found).0
  unfolding insert_unless Grants
  insert_unless-Grants email hash d none ok = ok
  insert_unless-Grants email hash d (some u) ok = ok

  hash_sign_up-Grants :
      (s : Store) (o : Option String)
      → s.db ≡ db
      → is_blank (form_email a r) ≡ false
      → ltb (len (form_password r)) 8 ≡ false
      → Grants s.db
      → Grants (hash_sign_up w (form_email a r) s o).0.db
  unfolding hash_sign_up insert_user
  hash_sign_up-Grants s none same named long ok = ok
  hash_sign_up-Grants s (some hash) same named long ok =
      sign_up_with-Grants _ _ (λ id h. new_user id h)
        (Keeps.create_user-keeps Grants s ok (form_email a r) hash
          (insert_unless-Grants (form_email a r) hash s.db _ ok))
    where
      new_user :
          (id : ℤ)
          → (create_user (form_email a r) hash s).1 ≡ created id
          → IsGranted a w r db (session_row w id)
      new_user id h =
          let (free, next) = create_user-answer (form_email a r) hash s id h in
          subst (λ i. IsGranted a w r db (session_row w i))
            (sym (next ∙ ap (λ d. d.next_user) same))
            (by_sign_up named long
              (subst (λ (d : Db). find_email (form_email a r) d.users ≡ none) same free))

  pub signup-Grants : (s : Store) → s.db ≡ db → Grants s.db → Grants (signup a w r s).0.db
  unfolding signup
  signup-Grants s same ok = elim (Bool-cases (is_blank (form_email a r))) [
    | inl h ↦ rw h ok
    | inr named ↦ elim (Bool-cases (ltb (len (form_password r)) 8)) [
      | inl h ↦ rw (named, h) ok
      | inr long ↦
          rw (named, long)
            (hash_sign_up-Grants s (a.lib.generate w.salt (form_password r)) same named long ok)
    ]
  ]
