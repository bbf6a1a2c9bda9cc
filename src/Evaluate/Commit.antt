-- ===== src/Evaluate/Commit.antt =====
-- internal/evaluate/evaluate.go, `Evaluate`: a consensus that holds for the window is committed.
use uptime_monitor.Prelude.{
  ◌≡◌, ◌⊎◌, refl, Bool, true, false, List, [], ◌∷◌, String, ◌≤ℤ◌, ◌∙◌, arith,
}
use uptime_monitor.Time.{Time, sub}
use uptime_monitor.Evaluate.{Monitor, Sample, observe, consensus, evaluate_with, evaluate}
use uptime_monitor.Evaluate.Debounce.{Call, observed, evaluated, run}

evaluate-cfg : (m : Monitor) (now : Time) → (evaluate m now).0.cfg ≡ m.cfg
unfolding evaluate evaluate_with
evaluate-cfg m now = ground arith

module _ (up : Bool) (start : Time) where
  -- The change is committed, or a candidate since `start`.
  abbrev IsWaiting : Monitor → Type 0
  IsWaiting m =
      (m.confirmed_up ≡ up) ⊎ (m.pending ≡ true) × (m.pending_up ≡ up) × (m.pending_since ≡ start)

  abbrev pub Finds : Monitor → Time → Type 0
  Finds m t = consensus m t ≡ (up, true)

  start-IsWaiting :
      (m : Monitor) → m.pending ≡ false → Finds m start → IsWaiting (evaluate m start).0
  unfolding evaluate evaluate_with
  start-IsWaiting m p f = rw f (ground arith)

  evaluate-IsWaiting :
      (m : Monitor) (now : Time) → IsWaiting m → Finds m now → IsWaiting (evaluate m now).0
  unfolding evaluate evaluate_with
  evaluate-IsWaiting m now w f = rw f (ground arith)

  IsWaiting-commits :
      (m : Monitor) (now : Time)
      → IsWaiting m
      → Finds m now
      → m.cfg.stability ≤ℤ sub now start
      → (evaluate m now).0.confirmed_up ≡ up
  unfolding evaluate evaluate_with
  IsWaiting-commits m now w f h = rw f (ground arith)

  observe-IsWaiting :
      (m : Monitor) (region : String) (x : Sample)
      → IsWaiting m
      → IsWaiting (observe m region x) × ((observe m region x).cfg ≡ m.cfg)
  unfolding observe
  observe-IsWaiting m region x w = (w, refl)

  -- Every evaluation among the calls finds the consensus `up`, on the samples that it meets.
  abbrev pub FindsAll : Monitor → List Call → Type 0
  FindsAll m [] = Unit
  FindsAll m (observed region x ∷ cs) = FindsAll (observe m region x) cs
  FindsAll m (evaluated now ∷ cs) = Finds m now × FindsAll (evaluate m now).0 cs

  run-IsWaiting :
      (m : Monitor) (cs : List Call)
      → IsWaiting m
      → FindsAll m cs
      → IsWaiting (run m cs).0 × ((run m cs).0.cfg ≡ m.cfg)
  unfolding run
  run-IsWaiting m [] w fs = (w, refl)
  run-IsWaiting m (observed region x ∷ cs) w fs =
      let (kept, same) = observe-IsWaiting m region x w in
      let (after, as_before) = run-IsWaiting (observe m region x) cs kept fs in
      (after, as_before ∙ same)
  run-IsWaiting m (evaluated now ∷ cs) w fs =
      let (after, as_before) =
        run-IsWaiting (evaluate m now).0 cs (evaluate-IsWaiting m now w fs.0) fs.1 in
      (after, as_before ∙ evaluate-cfg m now)

  -- A change of consensus that lasts is committed: if there is no candidate in flight at `start`, and
  -- the evaluation at `start`, every evaluation among any calls after it, `Observe` as well as
  -- `Evaluate`, and the one at `now` find the consensus `up`, and the window has passed from `start`
  -- to `now`, then `up` is the committed state after the evaluation at `now`.
  pub lasting_change_commits :
      (m : Monitor) (cs : List Call) (now : Time)
      → m.pending ≡ false
      → FindsAll m (evaluated start ∷ cs)
      → Finds (run m (evaluated start ∷ cs)).0 now
      → m.cfg.stability ≤ℤ sub now start
      → (evaluate (run m (evaluated start ∷ cs)).0 now).0.confirmed_up ≡ up
  unfolding run
  lasting_change_commits m cs now p fs f h =
      let (waits, same) = run-IsWaiting (evaluate m start).0 cs (start-IsWaiting m p fs.0) fs.1 in
      IsWaiting-commits (run (evaluate m start).0 cs).0 now waits f
        (rw (same ∙ evaluate-cfg m start) h)
