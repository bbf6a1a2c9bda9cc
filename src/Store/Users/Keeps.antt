-- ===== src/Store/Users/Keeps.antt =====
-- internal/store/store.go: what the operations on users and tokens keep, however their calls end.
use uptime_monitor.Prelude.{ℤ, true, String}
use uptime_monitor.Time.{Time}
use uptime_monitor.Store.{Db, Store}
use uptime_monitor.Store.Calls.{call-keeps}
use uptime_monitor.Store.Users.{
  find_token, find_email, insert_user, add_session, add_reset, delete_token, delete_of_user,
  set_hash, create_user, user_by_email, create_session, user_by_session, delete_session,
  delete_user_sessions, create_password_reset, user_by_reset_token, delete_password_reset,
  update_password,
}

module _ {ℓ} (P : Db → Type ℓ) (s : Store) (p : P s.db) where
  pub user_by_email-keeps : (email : String) → P (user_by_email email s).0.db
  unfolding user_by_email
  user_by_email-keeps email = call-keeps P (λ db. (db, find_email email db.users)) s p p

  pub user_by_session-keeps : (t : String) (now : Time) → P (user_by_session t now s).0.db
  unfolding user_by_session
  user_by_session-keeps t now = call-keeps P (λ db. (db, find_token t now db.sessions)) s p p

  pub user_by_reset_token-keeps : (t : String) (now : Time) → P (user_by_reset_token t now s).0.db
  unfolding user_by_reset_token
  user_by_reset_token-keeps t now =
      call-keeps P (λ db. (db, find_token t now db.password_resets)) s p p

  pub create_user-keeps :
      (email hash : String) → P (insert_user email hash s.db).0 → P (create_user email hash s).0.db
  unfolding create_user
  create_user-keeps email hash q = call-keeps P (insert_user email hash) s p q

  pub create_session-keeps :
      (t : String) (id : ℤ) (until : Time)
      → P (add_session (record { token = t; user_id = id; expires_at = until }) s.db).0
      → P (create_session t id until s).0.db
  unfolding create_session
  create_session-keeps t id until q =
      call-keeps P (add_session (record { token = t; user_id = id; expires_at = until })) s p q

  pub create_password_reset-keeps :
      (t : String) (id : ℤ) (until : Time)
      → P (add_reset (record { token = t; user_id = id; expires_at = until }) s.db).0
      → P (create_password_reset t id until s).0.db
  unfolding create_password_reset
  create_password_reset-keeps t id until q =
      call-keeps P (add_reset (record { token = t; user_id = id; expires_at = until })) s p q

  pub delete_session-keeps :
      (t : String)
      → P (record s.db { sessions = delete_token t s.db.sessions })
      → P (delete_session t s).0.db
  unfolding delete_session
  delete_session-keeps t q =
      call-keeps P (λ db. (record db { sessions = delete_token t db.sessions }, true)) s p q

  pub delete_user_sessions-keeps :
      (id : ℤ)
      → P (record s.db { sessions = delete_of_user id s.db.sessions })
      → P (delete_user_sessions id s).0.db
  unfolding delete_user_sessions
  delete_user_sessions-keeps id q =
      call-keeps P (λ db. (record db { sessions = delete_of_user id db.sessions }, true)) s p q

  pub delete_password_reset-keeps :
      (t : String)
      → P (record s.db { password_resets = delete_token t s.db.password_resets })
      → P (delete_password_reset t s).0.db
  unfolding delete_password_reset
  delete_password_reset-keeps t q =
      call-keeps P (λ db. (record db { password_resets = delete_token t db.password_resets }, true))
        s p q

  pub update_password-keeps :
      (id : ℤ) (hash : String)
      → P (record s.db { users = set_hash id hash s.db.users })
      → P (update_password id hash s).0.db
  unfolding update_password
  update_password-keeps id hash q =
      call-keeps P (λ db. (record db { users = set_hash id hash db.users }, true)) s p q
