-- ===== src/Scheduler/Loops.antt =====
-- cmd/scheduler/main.go: the map `running` and the publish loops that are alive, in step.
use uptime_monitor.Prelude.{
  ℕ, ◌<◌, ◌≡◌, refl, sym, subst, ℤ, eq_ℤ, eq_ℤ_iff, Bool, false, ◌||◌, inl, inr, Bool-cases, Option,
  none, some, Option-cases, List, [], ◌∷◌, lookup, insert, delete, int_eq, nat_eq, arith,
}
use uptime_monitor.Message.{StoreMonitor}
use uptime_monitor.Scheduler.{Active, Scheduler}

unfoldable pub has_key : ℤ → List (ℤ × Active) → Bool
has_key id [] = false
has_key id ((k, a) ∷ l) = eq_ℤ k id || has_key id l

-- A map has no key twice.
abbrev pub Apart : List (ℤ × Active) → Type 0
Apart [] = Unit
Apart ((k, a) ∷ l) = (has_key k l ≡ false) × Apart l

-- The loop of an entry is alive, with the monitor of the entry, whose id is the key.
abbrev pub Runs : Scheduler → ℤ → Option Active → Type 0
Runs s id none = Unit
Runs s id (some a) = (lookup a.loop s.alive ≡ some a.monitor) × (a.monitor.id ≡ id)

-- A loop that is alive has its entry in `running`, and the next loop has another number.
abbrev pub Listed : Scheduler → ℕ → Option StoreMonitor → Type 0
Listed s n none = Unit
Listed s n (some m) =
    (n < s.next) × (lookup m.id s.running ≡ some (record { loop = n; monitor = m }))

-- The loops that are alive are those of the entries of `running`, one for each.
pub record IsInStep (s : Scheduler) : Type 0 where
  pub apart : Apart s.running
  pub entries : (id : ℤ) → Runs s id (lookup id s.running)
  pub loops : (n : ℕ) → Listed s n (lookup n s.alive)

-- In step but for the id, which has no loop and may have an entry.
pub record IsVacant (id : ℤ) (s : Scheduler) : Type 0 where
  pub others_apart : Apart s.running
  pub other_entries :
      (j : ℤ) (a : Active) → eq_ℤ id j ≡ false → lookup j s.running ≡ some a → Runs s j (some a)
  pub other_loops :
      (n : ℕ) (m : StoreMonitor)
      → lookup n s.alive ≡ some m
      → (eq_ℤ id m.id ≡ false) × Listed s n (some m)

pub entry-IsInStep :
    (s : Scheduler) (id : ℤ) (a : Active)
    → IsInStep s
    → lookup id s.running ≡ some a
    → Runs s id (some a)
entry-IsInStep s id a k h = subst (Runs s id) h (k.entries id)

pub loop-IsInStep :
    (s : Scheduler) (n : ℕ) (m : StoreMonitor)
    → IsInStep s
    → lookup n s.alive ≡ some m
    → Listed s n (some m)
loop-IsInStep s n m k h = subst (Listed s n) h (k.loops n)

pub entries_from :
    (s : Scheduler) (id : ℤ)
    → ((a : Active) → lookup id s.running ≡ some a → Runs s id (some a))
    → Runs s id (lookup id s.running)
entries_from s id f = elim (Option-cases (lookup id s.running)) [
  | inl h ↦ subst (Runs s id) (sym h) tt
  | inr (a, h) ↦ subst (Runs s id) (sym h) (f a h)
]

pub loops_from :
    (s : Scheduler) (n : ℕ)
    → ((m : StoreMonitor) → lookup n s.alive ≡ some m → Listed s n (some m))
    → Listed s n (lookup n s.alive)
loops_from s n f = elim (Option-cases (lookup n s.alive)) [
  | inl h ↦ subst (Listed s n) (sym h) tt
  | inr (m, h) ↦ subst (Listed s n) (sym h) (f m h)
]

has_key-insert :
    (id k : ℤ) (a : Active) (l : List (ℤ × Active))
    → has_key id (insert k a l) ≡ eq_ℤ k id || has_key id l
unfolding has_key
has_key-insert id k a [] = refl
has_key-insert id k a ((j, b) ∷ l) =
    ground (arith, eq_ℤ_iff j k, eq_ℤ_iff j id, eq_ℤ_iff k id, has_key-insert id k a l)

pub insert-Apart : (k : ℤ) (a : Active) (l : List (ℤ × Active)) → Apart l → Apart (insert k a l)
unfolding has_key
insert-Apart k a [] d = (refl, tt)
insert-Apart k a ((j, b) ∷ l) d = elim (Bool-cases (eq_ℤ j k)) [
  | inl h ↦ rw h d
  | inr h ↦ rw h (
    ground (arith, h, d.0, has_key-insert j k a l, eq_ℤ_iff j k, eq_ℤ_iff k j),
    insert-Apart k a l d.1,
  )
]

has_key-delete :
    (id k : ℤ) (l : List (ℤ × Active)) → has_key id l ≡ false → has_key id (delete k l) ≡ false
unfolding has_key
has_key-delete id k [] h = refl
has_key-delete id k ((j, b) ∷ l) h = ground (arith, h, has_key-delete id k l)

pub delete-Apart : (k : ℤ) (l : List (ℤ × Active)) → Apart l → Apart (delete k l)
delete-Apart k [] d = tt
delete-Apart k ((j, b) ∷ l) d = elim (Bool-cases (eq_ℤ j k)) [
  | inl h ↦ rw h (delete-Apart k l d.1)
  | inr h ↦ rw h (has_key-delete j k l d.0, delete-Apart k l d.1)
]
