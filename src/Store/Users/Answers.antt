-- ===== src/Store/Users/Answers.antt =====
-- internal/store/store.go: what an answer of `UserByEmail` and of `CreateUser` says of the tables.
use uptime_monitor.Prelude.{ℤ, Option, none, some, some-injective, String, ◌≡◌, refl, sym, arith}
use uptime_monitor.Store.{User, Db, Store}
use uptime_monitor.Store.Calls.{Called, with_answer, no_effect, answer_lost, call-Called}
use uptime_monitor.Store.Users.{
  created, find_email, insert_unless, insert_user, created_of, create_user, user_by_email,
}

-- An answer is that of the statement on the tables before it.
Called-answer {ℓ} :
    {A : Type ℓ} (f : Db → Db × A) (s : Store) (x : Store × Option A) (a : A)
    → Called f s x
    → x.1 ≡ some a
    → (f s.db).1 ≡ a
Called-answer f s _ a (with_answer os) h = some-injective (f s.db).1 a h
Called-answer f s _ a (no_effect os) h = absurd (ground (arith, h))
Called-answer f s _ a (answer_lost os) h = absurd (ground (arith, h))

pub user_by_email-answer :
    (email : String) (s : Store) (o : Option User)
    → (user_by_email email s).1 ≡ some o
    → find_email email s.db.users ≡ o
unfolding user_by_email
user_by_email-answer email s o h =
    Called-answer (λ db. (db, find_email email db.users)) s _ o (call-Called _ s) h

created_of_lem : (r : Option (Option ℤ)) (id : ℤ) → created_of r ≡ created id → r ≡ some (some id)
created_of_lem (some (some i)) id h = ground (arith, h)
created_of_lem (some none) id h = absurd (ground (arith, h))
created_of_lem none id h = absurd (ground (arith, h))

insert_unless_lem :
    (email hash : String) (db : Db) (found : Option User) (id : ℤ)
    → (insert_unless email hash db found).1 ≡ some id
    → (found ≡ none) × (id ≡ db.next_user)
unfolding insert_unless
insert_unless_lem email hash db (some u) id h = absurd (ground (arith, h))
insert_unless_lem email hash db none id h = (refl, sym (some-injective db.next_user id h))

-- The email was free, and the id is the next of the sequence.
pub create_user-answer :
    (email hash : String) (s : Store) (id : ℤ)
    → (create_user email hash s).1 ≡ created id
    → (find_email email s.db.users ≡ none) × (id ≡ s.db.next_user)
unfolding create_user insert_user
create_user-answer email hash s id h =
    insert_unless_lem email hash s.db (find_email email s.db.users) id (
      Called-answer (insert_user email hash) s _ (some id) (call-Called _ s)
        (created_of_lem _ id h))
