-- ===== src/Scheduler/Reconcile.antt =====
-- cmd/scheduler/main.go, `reconcile`: after a round the running loops are those of the enabled monitors.
use uptime_monitor.Prelude.{
  ℕ, ◌≡◌, refl, ap, ◌∙◌, ℤ, eq_ℤ, eq_ℤ_iff, true, false, ◌⊎◌, inl, inr, Bool-cases, none, some,
  Option-cases, String, List, [], ◌∷◌, ◌++◌, All, lookup, int_eq, nat_eq, string_eq, arith,
}
use uptime_monitor.Message.{StoreMonitor}
use uptime_monitor.Scheduler.Loops.{IsInStep, entry-IsInStep, loop-IsInStep}
use uptime_monitor.Scheduler.Rounds.{sync_once-IsInStep}
use uptime_monitor.Scheduler.{
  Active, changed, Scheduler, sync_monitor, sync_monitors, seen, stop_unseen, sync_once,
}
use uptime_monitor.Scheduler.Watched.{
  HasEntry, Distinct, same_int, changed_refl, sync_monitor_elsewhere, sync_monitors_elsewhere,
  sync_monitors-HasEntry, stop_unseen_lem, still-HasEntry, seen_self, unseen_gone,
}

-- The loops that are alive after a round are those of monitors that it has seen.
loop-IsSeen :
    (ms : List StoreMonitor) (s : Scheduler) (n : ℕ)
    → IsInStep s
    → (lookup n (sync_once (some ms) s).alive ≡ none)
      ⊎ (m : StoreMonitor) × (lookup n (sync_once (some ms) s).alive ≡ some m)
        × (seen m.id ms ≡ true)
unfolding sync_once
loop-IsSeen ms s n k =
    let after = sync_once (some ms) s in
    elim (Option-cases (lookup n after.alive)) [
      | inl dead ↦ inl dead
      | inr (m, lives) ↦
          let (below, listed) = loop-IsInStep after n m (sync_once-IsInStep ms s k) lives in
          inr (m, lives, ground (arith, listed, unseen_gone_at m))
    ]
  where
    unseen_gone_at :
        (m : StoreMonitor)
        → (seen m.id ms ≡ true) ⊎ (lookup m.id (sync_once (some ms) s).running ≡ none)
    unseen_gone_at m =
        unfold sync_once in
        elim (Bool-cases (seen m.id ms)) [
          | inl is ↦ inl is
          | inr not_there ↦ inr (unseen_gone ms (sync_monitors ms s) m.id not_there)
        ]

-- The entry's loop is alive, with the monitor that it was started with.
abbrev pub IsWatched : Scheduler → StoreMonitor → Type 0
IsWatched s m =
    (a : Active) × (lookup m.id s.running ≡ some a)
    × (lookup a.loop s.alive ≡ some a.monitor)
    × (changed a m ≡ false)

HasEntry-IsWatched :
    (s : Scheduler) (ms : List StoreMonitor)
    → IsInStep s
    → All (HasEntry s) ms
    → All (IsWatched s) ms
HasEntry-IsWatched s [] k ws = tt
HasEntry-IsWatched s (m ∷ ms) k ws =
    let (a, here, same) = ws.0 in
    ((a, here, (entry-IsInStep s m.id a k here).0, same), HasEntry-IsWatched s ms k ws.1)

-- After `syncOnce` with the enabled monitors, whose ids differ, from loops in step with `running`:
-- every one of the monitors has an entry whose loop is alive, started with a monitor that `changed`
-- does not tell from it; a loop that is alive is that of an id among them; and the loops are in step
-- with `running` again, so that every entry has its loop, no two loops are of one id, and no loop is
-- alive without its entry.
pub sync_once-IsWatched :
    (ms : List StoreMonitor) (s : Scheduler) (n : ℕ)
    → Distinct ms
    → IsInStep s
    → All (IsWatched (sync_once (some ms) s)) ms
      × ((lookup n (sync_once (some ms) s).alive ≡ none)
          ⊎ (m : StoreMonitor) × (lookup n (sync_once (some ms) s).alive ≡ some m)
            × (seen m.id ms ≡ true))
      × IsInStep (sync_once (some ms) s)
unfolding sync_once
sync_once-IsWatched ms s n d k =
    let s' = sync_monitors ms s in
    let after = stop_unseen ms s'.running s' in
    let k' = sync_once-IsInStep ms s k in
    let watched =
      still-HasEntry ms ms s' after (λ i h. stop_unseen_lem ms s'.running s' i ∙ rw h refl)
        (seen_self ms) (sync_monitors-HasEntry ms s d) in
    (HasEntry-IsWatched after ms k' watched, loop-IsSeen ms s n k, k')

seen_in :
    (id : ℤ) (before : List StoreMonitor) (m : StoreMonitor) (rest : List StoreMonitor)
    → eq_ℤ m.id id ≡ true
    → seen id (before ++ m ∷ rest) ≡ true
unfolding seen
seen_in id [] m rest h = ground (arith, h)
seen_in id (b ∷ bs) m rest h = ground (arith, seen_in id bs m rest h)

-- The turns of the other monitors leave an entry alone, and so does that of a monitor in which
-- `changed` finds no change.
unchanged_stays :
    (before : List StoreMonitor) (m : StoreMonitor) (rest : List StoreMonitor) (a : Active)
    (s : Scheduler)
    → Distinct (before ++ m ∷ rest)
    → changed a m ≡ false
    → lookup m.id s.running ≡ some a
    → lookup m.id (sync_monitors (before ++ m ∷ rest) s).running ≡ some a
unfolding sync_monitors sync_monitor seen
unchanged_stays [] m rest a s d same h =
    let kept : sync_monitor m (lookup m.id s.running) s ≡ s =
      ap (λ f. sync_monitor m f s) h ∙ rw same refl in
    sync_monitors_elsewhere rest _ m.id d.0 ∙ ap (λ x. lookup m.id x.running) kept ∙ h
unchanged_stays (b ∷ bs) m rest a s d same h =
    let other : eq_ℤ b.id m.id ≡ false =
      ground (arith, d.0, seen_in b.id bs m rest, eq_ℤ_iff b.id m.id, eq_ℤ_iff m.id b.id) in
    let found = lookup b.id s.running in
    unchanged_stays bs m rest a (sync_monitor b found s) d.1 same
      (sync_monitor_elsewhere b found s m.id other ∙ h)

-- In a round whose monitors have different ids, from loops in step with `running`, the loop of a
-- monitor of which only the keyword or the slow threshold has changed goes on as it was started: the
-- entry stays, and the same loop is alive, with the old keyword and threshold.
pub keyword_change_unnoticed :
    (n : ℕ) (m : StoreMonitor) (keyword : String) (threshold : ℤ) (before rest : List StoreMonitor)
    (s : Scheduler)
    → Distinct
        (before ++ record m { expected_keyword = keyword; slow_threshold_ms = threshold } ∷ rest)
    → IsInStep s
    → lookup m.id s.running ≡ some (record { loop = n; monitor = m })
    → (lookup m.id
          (sync_once
            (some (
              before
              ++ record m { expected_keyword = keyword; slow_threshold_ms = threshold } ∷ rest))
            s).running
        ≡ some (record { loop = n; monitor = m }))
      × (lookup n
            (sync_once
              (some (
                before
                ++ record m { expected_keyword = keyword; slow_threshold_ms = threshold } ∷ rest))
              s).alive
          ≡ some m)
unfolding sync_once changed
keyword_change_unnoticed n m keyword threshold before rest s d k h =
    let m' : StoreMonitor = record m {
      expected_keyword = keyword;
      slow_threshold_ms = threshold;
    } in
    let a : Active = record { loop = n; monitor = m } in
    let ms = before ++ m' ∷ rest in
    let s' = sync_monitors ms s in
    let entry =
      stop_unseen_lem ms s'.running s' m.id
      ∙ rw (seen_in m.id before m' rest (same_int m.id))
          (unchanged_stays before m' rest a s d (changed_refl n m) h) in
    (entry, (entry-IsInStep (sync_once (some ms) s) m.id a (sync_once-IsInStep ms s k) entry).0)
