-- ===== src/Store/Calls.antt =====
-- internal/store/store.go: the ways a call of the database may end.
use uptime_monitor.Prelude.{Option, none, some, List, [], ◌∷◌}
use uptime_monitor.Store.{Db, Store, Outcome, answered, refused, unanswered, end_with, call}

-- The ends of a call of f on a store.
pub data Called {ℓ} {A : Type ℓ} (f : Db → Db × A) (s : Store) : Store × Option A → Type ℓ where
  with_answer :
      (os : List Outcome) → Called f s (record { db = (f s.db).0; io = os }, some (f s.db).1)
  no_effect : (os : List Outcome) → Called f s (record { db = s.db; io = os }, none)
  answer_lost : (os : List Outcome) → Called f s (record { db = (f s.db).0; io = os }, none)

pub call-Called {ℓ} : {A : Type ℓ} (f : Db → Db × A) (s : Store) → Called f s (call f s)
unfolding call end_with
call-Called f s =
    elim s.io
      as (λ io. Called f s (elim io [
        | [] ↦ end_with answered [] s.db (f s.db)
        | o ∷ os ↦ end_with o os s.db (f s.db)
      ])) [
        | [] ↦ with_answer []
        | answered ∷ os ↦ with_answer os
        | refused ∷ os ↦ no_effect os
        | unanswered ∷ os ↦ answer_lost os
      ]

Called-keeps {ℓ κ} :
    {A : Type ℓ} (P : Db → Type κ) (f : Db → Db × A) (s : Store) (x : Store × Option A)
    → P s.db
    → P (f s.db).0
    → Called f s x
    → P x.0.db
Called-keeps P f s _ p q (with_answer os) = q
Called-keeps P f s _ p q (no_effect os) = p
Called-keeps P f s _ p q (answer_lost os) = q

-- What holds before a call and after its effect holds however the call ends.
pub call-keeps {ℓ κ} :
    {A : Type ℓ} (P : Db → Type κ) (f : Db → Db × A) (s : Store)
    → P s.db
    → P (f s.db).0
    → P (call f s).0.db
call-keeps P f s p q = Called-keeps P f s _ p q (call-Called f s)
