-- ===== src/Auth/Accounts.antt =====
-- cmd/web/auth.go: the sessions in the tables after any handler of the accounts.
use uptime_monitor.Prelude.{
  ℤ, ◌+ℤ◌, ltb, arith, Bool, true, false, Bool-cases, Option, none, some, some-injective, List, [],
  ◌∷◌, String, ◌<+>◌, same_text, len, lookup, string_eq, All, ◌≡◌, refl, inl, inr, subst,
}
use uptime_monitor.Store.{User, TokenRow, Db, Store}
use uptime_monitor.Store.Users.{user_by_reset_token, insert_token, add_reset, has_token}
use uptime_monitor.Store.Users.Keeps as Keeps
use uptime_monitor.Auth.Grants.{
  IsRowOf, IsGranted, was_there, Grants, login-Grants, logout-Grants, signup-Grants,
  delete_of_user-Grants,
}
use uptime_monitor.Auth.{
  Auth, World, Request, Handler, value_of, user_of, reset_ttl, send_reset, forgot, reset_form,
  finish_reset, hash_reset, reset_with, reset, login_page, blank_page, routes, auth_handler,
}

module _ (a : Auth) (w : World) (r : Request) (db : Db) where
  send_reset-Grants :
      (email : String) (s : Store) (o : Option (Option User))
      → Grants a w r db s.db
      → Grants a w r db (send_reset a w r email (s, o)).0.db
  unfolding send_reset Grants add_reset insert_token
  send_reset-Grants email s none ok = ok
  send_reset-Grants email s (some none) ok = ok
  send_reset-Grants email s (some (some u)) ok =
      Keeps.create_password_reset-keeps (Grants a w r db) s ok w.token u.id (w.now +ℤ reset_ttl)
        (elim (Bool-cases (has_token w.token s.db.password_resets)) [
          | inl h ↦ rw h ok
          | inr h ↦ rw h ok
        ])

  forgot-Grants : (s : Store) → Grants a w r db s.db → Grants a w r db (forgot a w r s).0.db
  unfolding forgot
  forgot-Grants s ok = send_reset-Grants _ _ _ (Keeps.user_by_email-keeps (Grants a w r db) s ok _)

  reset_form-Grants : (s : Store) → Grants a w r db s.db → Grants a w r db (reset_form w r s).0.db
  unfolding reset_form
  reset_form-Grants s ok = Keeps.user_by_reset_token-keeps (Grants a w r db) s ok _ _

  finish_reset-Grants :
      (t : String) (id : ℤ) (s : Store) (b : Bool)
      → Grants a w r db s.db
      → Grants a w r db (finish_reset t id (s, b)).0.db
  unfolding finish_reset Grants
  finish_reset-Grants t id s false ok = ok
  finish_reset-Grants t id s true ok =
      let ok' = Keeps.delete_password_reset-keeps (Grants a w r db) s ok t ok in
      Keeps.delete_user_sessions-keeps (Grants a w r db) _ ok' id
        (delete_of_user-Grants a w r db id _ ok')

  hash_reset-Grants :
      (t : String) (id : ℤ) (s : Store) (o : Option String)
      → Grants a w r db s.db
      → Grants a w r db (hash_reset w t id s o).0.db
  unfolding hash_reset Grants
  hash_reset-Grants t id s none ok = ok
  hash_reset-Grants t id s (some hash) ok =
      finish_reset-Grants t id _ _ (Keeps.update_password-keeps (Grants a w r db) s ok id hash ok)

  reset_with-Grants :
      (t pass : String) (s : Store) (o : Option ℤ)
      → Grants a w r db s.db
      → Grants a w r db (reset_with a w t pass (s, o)).0.db
  unfolding reset_with
  reset_with-Grants t pass s none ok = ok
  reset_with-Grants t pass s (some id) ok = elim (Bool-cases (ltb (len pass) 8)) [
    | inl h ↦ rw h ok
    | inr h ↦ rw h (hash_reset-Grants t id s (a.lib.generate w.salt pass) ok)
  ]

  reset-Grants : (s : Store) → Grants a w r db s.db → Grants a w r db (reset a w r s).0.db
  unfolding reset
  reset-Grants s ok =
      let token = value_of "token" r.form in
      reset_with-Grants token (value_of "password" r.form) (user_by_reset_token token w.now s).0
        (user_of (user_by_reset_token token w.now s).1)
        (Keeps.user_by_reset_token-keeps (Grants a w r db) s ok token w.now)

-- The sessions of the tables before the request are there.
known-IsGranted :
    (a : Auth) (w : World) (r : Request) (db : Db) (rows : List TokenRow)
    → ((row : TokenRow) → IsRowOf rows row → IsRowOf db.sessions row)
    → All (IsGranted a w r db) rows
known-IsGranted a w r db [] f = tt
known-IsGranted a w r db (row ∷ rows) f =
    (was_there row (f row (inl refl)), known-IsGranted a w r db rows (λ x i. f x (inr i)))

module _ (a : Auth) (w : World) (r : Request) (s : Store) where
  -- A handler that leaves none but granted sessions.
  MayServe : String × Handler → Type 0
  MayServe (k, h) = Grants a w r s.db s.db → Grants a w r s.db (h w r s).0.db

  lookup-MayServe :
      (k : String) (m : List (String × Handler)) (h : Handler)
      → lookup k m ≡ some h
      → All MayServe m
      → MayServe (k, h)
  unfolding MayServe
  lookup-MayServe k [] h found ks = absurd (ground (arith, found))
  lookup-MayServe k ((j, g) ∷ m) h found (keep, ks) = elim (Bool-cases (same_text j k)) [
    | inl e ↦ subst (λ x. MayServe (k, x)) (some-injective g h (rw e at found)) keep
    | inr e ↦ lookup-MayServe k m h (rw e at found) ks
  ]

-- However the calls of the database end, every session in the tables after any handler of the
-- accounts was there before the request; or it has the request's new token, ends when the session's
-- time of 30 days is over, and is that of the user whose email the form has, with a password that
-- matches the user's hash; or it is such a session of the next id of `users`, where the form's email
-- is not blank and is that of no user before, and its password has 8 bytes or more.
pub auth_handler-IsGranted :
    (a : Auth) (w : World) (r : Request) (s : Store) (h : Handler)
    → auth_handler a r ≡ some h
    → All (IsGranted a w r s.db) (h w r s).0.db.sessions
unfolding auth_handler routes MayServe Grants login_page blank_page
auth_handler-IsGranted a w r s h found =
    lookup-MayServe a w r s (r.method <+> " " <+> r.path) (routes a) h found
      (
        (λ ok. ok),
        (
          (λ ok. ok),
          (
            signup-Grants a w r s.db s refl,
            (
              login-Grants a w r s.db s refl,
              (
                logout-Grants a w r s.db s,
                (
                  (λ ok. ok),
                  (
                    forgot-Grants a w r s.db s,
                    (reset_form-Grants a w r s.db s, (reset-Grants a w r s.db s, tt)),
                  ),
                ),
              ),
            ),
          ),
        ),
      )
      (known-IsGranted a w r s.db s.db.sessions (λ x i. i))
