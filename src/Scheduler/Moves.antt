-- ===== src/Scheduler/Moves.antt =====
-- cmd/scheduler/main.go: starting and cancelling a loop, with its entry in `running`.
use uptime_monitor.Prelude.{
  ℕ, ◌==◌, ◌≡◌, sym, ap, subst, ◌∙◌, ℤ, eq_ℤ, eq_ℤ_iff, false, inl, inr, Bool-cases, none, some,
  some-injective, lookup, delete, lookup-insert, lookup-delete, lookup-insert_here, int_eq, nat_eq,
  arith,
}
use uptime_monitor.Message.{StoreMonitor}
use uptime_monitor.Scheduler.{Active, Scheduler, start, cancel}
use uptime_monitor.Scheduler.Loops.{
  Runs, Listed, IsInStep, IsVacant, entry-IsInStep, loop-IsInStep, entries_from, loops_from,
  insert-Apart, delete-Apart,
}

module _ (m : StoreMonitor) (s : Scheduler) (v : IsVacant m.id s) where
  start_entry :
      (id : ℤ) (b : Active) → lookup id (start m s).running ≡ some b → Runs (start m s) id (some b)
  unfolding start
  start_entry id b h =
      let a : Active = record { loop = s.next; monitor = m } in
      let found = sym (lookup-insert m.id id a s.running) ∙ h in
      elim (Bool-cases (eq_ℤ m.id id)) [
        | inl e ↦
            subst (λ x. Runs (start m s) id (some x)) (some-injective a b (rw e at found))
              (lookup-insert_here s.next m s.alive, (eq_ℤ_iff m.id id).0 e)
        | inr e ↦
            let (there, own) = v.other_entries id b e (rw e at found) in
            let (new, (below, listed)) = v.other_loops b.loop b.monitor there in
            let old : (s.next == b.loop) ≡ false = ground (arith, below) in
            (lookup-insert s.next b.loop m s.alive ∙ rw old there, own)
      ]

  start_loop :
      (n : ℕ) (x : StoreMonitor)
      → lookup n (start m s).alive ≡ some x
      → Listed (start m s) n (some x)
  unfolding start
  start_loop n x h =
      let found = sym (lookup-insert s.next n m s.alive) ∙ h in
      elim (Bool-cases (s.next == n)) [
        | inl e ↦
            subst (λ y. Listed (start m s) n (some y)) (some-injective m x (rw e at found))
              (
                ground (arith, e),
                lookup-insert_here m.id _ s.running
                    ∙ ap {A = ℕ} (λ k. some (record { loop = k; monitor = m })) (ground (arith, e)),
              )
        | inr e ↦
            let (other, (below, listed)) = v.other_loops n x (rw e at found) in
            (ground (arith, below), lookup-insert m.id x.id _ s.running ∙ rw other listed)
      ]

  -- A loop is started for an id that has none.
  pub start-IsInStep : IsInStep (start m s)
  unfolding start
  start-IsInStep = record {
    apart = insert-Apart m.id _ s.running v.others_apart;
    entries = λ id. entries_from (start m s) id (start_entry id);
    loops = λ n. loops_from (start m s) n (start_loop n);
  }

pub none-IsVacant :
    (id : ℤ) (s : Scheduler) → IsInStep s → lookup id s.running ≡ none → IsVacant id s
none-IsVacant id s k free = record {
  others_apart = k.apart;
  other_entries = λ j a _ h. entry-IsInStep s j a k h;
  other_loops = λ n m h.
      let (below, listed) = loop-IsInStep s n m k h in
      (ground (arith, free, listed, eq_ℤ_iff id m.id), (below, listed));
}

module _ (id : ℤ) (a : Active) (s : Scheduler) (k : IsInStep s)
    (own : lookup id s.running ≡ some a) where
  cancel_entry :
      (j : ℤ) (b : Active)
      → eq_ℤ id j ≡ false
      → lookup j s.running ≡ some b
      → Runs (cancel a s) j (some b)
  unfolding cancel
  cancel_entry j b other h =
      let (mine, mine_id) = entry-IsInStep s id a k own in
      let (theirs, theirs_id) = entry-IsInStep s j b k h in
      elim (Bool-cases (a.loop == b.loop)) [
        | inl e ↦
            let one : some a.monitor ≡ some b.monitor =
              sym mine ∙ ap (λ n. lookup n s.alive) (ground (arith, e)) ∙ theirs in
            let ids : id ≡ j =
              sym mine_id ∙ ap (λ x. x.id) (some-injective a.monitor b.monitor one) ∙ theirs_id in
            absurd (ground (arith, ids, other, eq_ℤ_iff id j))
        | inr e ↦ (lookup-delete a.loop b.loop s.alive ∙ rw e theirs, theirs_id)
      ]

  cancelled_is_own :
      (n : ℕ) (m : StoreMonitor)
      → (a.loop == n) ≡ false
      → lookup m.id s.running ≡ some (record { loop = n; monitor = m })
      → eq_ℤ id m.id ≡ false
  cancelled_is_own n m differs listed = elim (Bool-cases (eq_ℤ id m.id)) [
    | inl e ↦
        let b : Active = record { loop = n; monitor = m } in
        let both : some a ≡ some b =
          sym own ∙ ap (λ j. lookup j s.running) ((eq_ℤ_iff id m.id).0 e) ∙ listed in
        absurd (ground (arith, differs, ap (λ x. x.loop) (some-injective a b both)))
    | inr e ↦ e
  ]

  cancel_loop :
      (n : ℕ) (m : StoreMonitor)
      → lookup n (cancel a s).alive ≡ some m
      → (eq_ℤ id m.id ≡ false) × Listed (cancel a s) n (some m)
  unfolding cancel
  cancel_loop n m h =
      let found = sym (lookup-delete a.loop n s.alive) ∙ h in
      elim (Bool-cases (a.loop == n)) [
        | inl e ↦ absurd (ground (arith, rw e at found))
        | inr e ↦
            let (below, listed) = loop-IsInStep s n m k (rw e at found) in
            (cancelled_is_own n m e listed, (below, listed))
      ]

  -- The loop of an entry is cancelled.
  pub cancel-IsVacant : IsVacant id (cancel a s)
  unfolding cancel
  cancel-IsVacant = record {
    others_apart = k.apart;
    other_entries = cancel_entry;
    other_loops = cancel_loop;
  }

-- The entry of an id whose loop is cancelled is deleted.
pub delete-IsInStep :
    (id : ℤ) (s : Scheduler) → IsVacant id s → IsInStep (record s { running = delete id s.running })
delete-IsInStep id s v =
    let s' = record s { running = delete id s.running } in
    record {
      apart = delete-Apart id s.running v.others_apart;
      entries = λ j. entries_from s' j (λ a h.
          let found = sym (lookup-delete id j s.running) ∙ h in
          elim (Bool-cases (eq_ℤ id j)) [
            | inl e ↦ absurd (ground (arith, rw e at found))
            | inr e ↦ v.other_entries j a e (rw e at found)
          ]);
      loops = λ n. loops_from s' n (λ m h.
          let (other, (below, listed)) = v.other_loops n m h in
          (below, lookup-delete id m.id s.running ∙ rw other listed));
    }
