-- ===== src/Evaluate/Debounce.antt =====
-- internal/evaluate/evaluate.go, `Evaluate`: what is committed over any sequence of calls, and when.
use Prim.Native.String.{String}
use uptime_monitor.Prelude.{
  ◌≡◌, ◌≢◌, ◌⊎◌, refl, Bool, true, false, not, List, [], ◌∷◌, ◌≤ℤ◌, ◌∙◌, ◌||◌, if◌then◌else◌,
  bool_eq, arith,
}
use uptime_monitor.Time.{Time, sub}
use uptime_monitor.Evaluate.{
  Event, down, recovered, Config, Sample, Monitor, new_monitor, observe, consensus, evaluate_with,
  evaluate, transition,
}

-- The calls that the evaluator makes of an engine.
pub data Call : Type 0 where
  observed : String → Sample → Call
  evaluated : Time → Call

abbrev pub call : Monitor → Call → Monitor × Event
call m (observed region s) = (observe m region s, Event.none)
call m (evaluated now) = evaluate m now

-- The engine after the calls, and the committed transitions, oldest first.
abbrev pub emit : Event → List Event → List Event
emit Event.none rest = rest
emit down rest = down ∷ rest
emit recovered rest = recovered ∷ rest

unfoldable pub run : Monitor → List Call → Monitor × List Event
run m [] = (m, [])
run m (c ∷ cs) = let (m', ev) = call m c in let (last, evs) = run m' cs in (last, emit ev evs)

-- From a committed state, `Down` comes first if it is up and `Recovered` if it is down, and they
-- take turns; the second state is the one after them.
abbrev pub Alternates : Bool → List Event → Bool → Type 0
Alternates up [] last = up ≡ last
Alternates up (Event.none ∷ evs) last = ⊥
Alternates up (down ∷ evs) last = (up ≡ true) × Alternates false evs last
Alternates up (recovered ∷ evs) last = (up ≡ false) × Alternates true evs last

-- The committed state moves exactly as v1's `Transition` says, and no other way.
evaluate-transition :
    (m : Monitor) (now : Time)
    → (evaluate m now).1 ≡ transition m.confirmed_up (evaluate m now).0.confirmed_up
unfolding evaluate transition
evaluate-transition m now = ground arith

Alternates-emit :
    (up next last : Bool) (ev : Event) (evs : List Event)
    → ev ≡ transition up next
    → Alternates next evs last
    → Alternates up (emit ev evs) last
unfolding transition
Alternates-emit true true last ev evs e h = rw e h
Alternates-emit true false last ev evs e h = rw e (refl, h)
Alternates-emit false true last ev evs e h = rw e (refl, h)
Alternates-emit false false last ev evs e h = rw e h

-- Over any calls, committed transitions alternate, starting from the committed state: the engine
-- never opens a second incident before the first is resolved.
pub run-Alternates :
    (m : Monitor) (cs : List Call)
    → Alternates m.confirmed_up (run m cs).1 (run m cs).0.confirmed_up
unfolding run observe
run-Alternates m [] = refl
run-Alternates m (observed region s ∷ cs) = run-Alternates (observe m region s) cs
run-Alternates m (evaluated now ∷ cs) =
    Alternates-emit m.confirmed_up (evaluate m now).0.confirmed_up _ (evaluate m now).1 _
      (evaluate-transition m now) (run-Alternates (evaluate m now).0 cs)

-- One evaluation as history records it: when it was, and the consensus that it found.
pub record Vote : Type 0 where
  pub now : Time
  pub found : Bool × Bool

abbrev pub vote : Monitor → Time → Vote
vote m now = record { now = now; found = consensus m now }

abbrev pub history : Monitor → List Vote → List Call → List Vote
history m h [] = h
history m h (observed region s ∷ cs) = history (observe m region s) h cs
history m h (evaluated now ∷ cs) = history (evaluate m now).0 (vote m now ∷ h) cs

-- An evaluation that does not speak against `up`: it agrees, or no sample was fresh.
abbrev pub NotAgainst : Bool → Vote → Type 0
NotAgainst up v = (v.found.1 ≡ false) ⊎ (v.found ≡ (up, true))

-- The consensus was `up` at the evaluation at `since`, and none after it spoke against it. The
-- newest evaluation is the first of the list.
abbrev pub HeldSince : Time → Bool → List Vote → Type 0
HeldSince since up [] = ⊥
HeldSince since up (v ∷ h) =
    (v.now ≡ since) × (v.found ≡ (up, true)) ⊎ NotAgainst up v × HeldSince since up h

-- A candidate is the opposite of the committed state, and has held since it was written down.
abbrev IsCandidate : Monitor → List Vote → Type 0
IsCandidate m h =
    m.pending ≡ true
    → (m.pending_up ≡ not m.confirmed_up) × HeldSince m.pending_since (not m.confirmed_up) h

evaluate_with-IsCandidate :
    (m : Monitor) (h : List Vote) (now : Time) (found : Bool × Bool)
    → IsCandidate m h
    → IsCandidate (evaluate_with m now found).0 (record { now = now; found = found } ∷ h)
unfolding evaluate_with
evaluate_with-IsCandidate m h now (up, false) c = ground (arith, c)
evaluate_with-IsCandidate m h now (up, true) c = ground (arith, c)

-- A commit names the moment since which its state has held, the stability window ago at least.
evaluate_with_commits :
    (m : Monitor) (h : List Vote) (now : Time) (found : Bool × Bool)
    → IsCandidate m h
    → (evaluate_with m now found).1 ≢ Event.none
    → (since : Time) × HeldSince since
        (evaluate_with m now found).0.confirmed_up
        (record { now = now; found = found } ∷ h)
      × (m.cfg.stability ≤ℤ sub now since)
unfolding evaluate_with
evaluate_with_commits m h now (up, false) c e = absurd (e refl)
evaluate_with_commits m h now (up, true) c e = (
  if not m.pending || not (bool_eq m.pending_up up) then now else m.pending_since,
  ground (arith, c),
  ground (arith, c),
)

history-IsCandidate :
    (m : Monitor) (h : List Vote) (cs : List Call)
    → IsCandidate m h
    → IsCandidate (run m cs).0 (history m h cs)
unfolding run observe evaluate
history-IsCandidate m h [] c = c
history-IsCandidate m h (observed region s ∷ cs) c = history-IsCandidate (observe m region s) h cs c
history-IsCandidate m h (evaluated now ∷ cs) c =
    history-IsCandidate (evaluate m now).0 (vote m now ∷ h) cs
      (evaluate_with-IsCandidate m h now (consensus m now) c)

cfg-run : (m : Monitor) (cs : List Call) → (run m cs).0.cfg ≡ m.cfg
unfolding run observe
cfg-run m [] = refl
cfg-run m (observed region s ∷ cs) = cfg-run (observe m region s) cs
cfg-run m (evaluated now ∷ cs) = cfg-run (evaluate m now).0 cs ∙ cfg-evaluate m now
  where
    cfg-evaluate : (m : Monitor) (now : Time) → (evaluate m now).0.cfg ≡ m.cfg
    cfg-evaluate m now = unfold evaluate evaluate_with in ground arith

-- Flap suppression. Whatever calls a new engine has seen, an evaluation commits a transition only
-- if the new state has been the consensus since an evaluation that lies the stability window back:
-- it was the consensus at that evaluation, and no later one with a fresh sample found the opposite.
pub commit-HeldSince :
    (cfg : Config) (initial_up : Bool) (cs : List Call) (now : Time)
    → (evaluate (run (new_monitor cfg initial_up) cs).0 now).1 ≢ Event.none
    → (since : Time) × HeldSince since
        (evaluate (run (new_monitor cfg initial_up) cs).0 now).0.confirmed_up
        (vote (run (new_monitor cfg initial_up) cs).0 now
          ∷ history (new_monitor cfg initial_up) [] cs)
      × (cfg.stability ≤ℤ sub now since)
unfolding evaluate
commit-HeldSince cfg initial_up cs now e =
    let m = (run (new_monitor cfg initial_up) cs).0 in
    let (since, held, window) =
      evaluate_with_commits m (history (new_monitor cfg initial_up) [] cs) now (consensus m now)
        (history-IsCandidate (new_monitor cfg initial_up) [] cs (new-IsCandidate cfg initial_up))
        e in
    (since, held, rw (← cfg-run_new cfg initial_up cs) window)
  where
    new-IsCandidate : (cfg : Config) (up : Bool) → IsCandidate (new_monitor cfg up) []
    new-IsCandidate cfg up p = unfold new_monitor in cc

    cfg-run_new :
        (cfg : Config) (up : Bool) (cs : List Call) → (run (new_monitor cfg up) cs).0.cfg ≡ cfg
    cfg-run_new cfg up cs = unfold new_monitor in cfg-run (new_monitor cfg up) cs
