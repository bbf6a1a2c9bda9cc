-- ===== src/Evaluate/Tests.antt =====
-- Runs of internal/evaluate/evaluate.go at concrete inputs, and its theorems at such inputs.
use mathlib.Core.List.Perm
use uptime_monitor.Prelude.{
  ◌≡◌, ◌≢◌, ◌↔◌, ◌<◌, ◌*◌, refl, Bool, true, false, List, [], ◌∷◌, pos, ◌≤ℤ◌, arith,
}
use uptime_monitor.Time.{Time, sub}
use uptime_monitor.Evaluate.{
  Event, down, recovered, Config, Sample, Monitor, new_monitor, observe, consensus, evaluate,
  transition,
}
use uptime_monitor.Evaluate.Consensus.{fresh_count, down_count, consensus_majority, consensus-perm}
use uptime_monitor.Evaluate.Debounce.{
  Call, observed, evaluated, run, history, vote, HeldSince, Alternates, run-Alternates,
  commit-HeldSince,
}
use uptime_monitor.Evaluate.Commit.{lasting_change_commits}

abbrev cfg : Config
cfg = record { freshness = pos 30; stability = pos 5 }

abbrev at : Bool → Time → Sample
at up t = record { up = up; at = t }

abbrev outage : List Call
outage =
    observed "eu" (at false (pos 10))
    ∷ evaluated (pos 10)
    ∷ observed "us" (at true (pos 11))
    ∷ evaluated (pos 11)
    ∷ observed "us" (at false (pos 12))
    ∷ evaluated (pos 12)
    ∷ evaluated (pos 16)
    ∷ evaluated (pos 17)
    ∷ observed "eu" (at true (pos 18))
    ∷ evaluated (pos 18)
    ∷ evaluated (pos 23)
    ∷ []

-- One region down against one up is a tie, so the window starts anew when the second goes down.
outage_events : (run (new_monitor cfg true) outage).1 ≡ down ∷ recovered ∷ []
unfolding run new_monitor observe evaluate consensus sub
outage_events = refl

-- v1 against the same observations: every change is an event.
transition_down : transition true false ≡ down
unfolding transition
transition_down = refl

abbrev both_down : Monitor
both_down = record {
  cfg = cfg;
  samples = ("eu", at false (pos 12)) ∷ ("us", at false (pos 12)) ∷ [];
  confirmed_up = true;
  pending = false;
  pending_up = false;
  pending_since = pos 0;
}

-- Both samples are older than the freshness bound: there is no consensus.
all_stale : consensus both_down (pos 43) ≡ (false, false)
unfolding consensus sub
all_stale = refl

-- Both regions go on reporting the outage in the window, one of them late.
abbrev in_window : List Call
in_window =
    evaluated (pos 13)
    ∷ observed "eu" (at false (pos 14))
    ∷ evaluated (pos 14)
    ∷ observed "us" (at false (pos 16))
    ∷ []

lasting_change_commits_example :
    (evaluate (run both_down (evaluated (pos 12) ∷ in_window)).0 (pos 17)).0.confirmed_up ≡ false
unfolding run observe evaluate consensus sub
lasting_change_commits_example =
    lasting_change_commits false (pos 12) both_down in_window (pos 17) refl
      (refl, (refl, (refl, tt))) refl (omega arith)

consensus_majority_example :
    ((consensus both_down (pos 13)).1 ≡ true ↔ (0 < fresh_count cfg (pos 13) both_down.samples))
    × ((consensus both_down (pos 13) ≡ (false, true)) ↔ (
        fresh_count cfg (pos 13) both_down.samples < 2 * down_count cfg (pos 13) both_down.samples))
consensus_majority_example = consensus_majority both_down (pos 13)

consensus-perm_example :
    consensus both_down (pos 13)
    ≡ consensus
        (record both_down { samples = ("us", at false (pos 12)) ∷ ("eu", at false (pos 12)) ∷ [] })
        (pos 13)
consensus-perm_example = consensus-perm both_down _ (pos 13) (Perm.swap _ _ _)

run-Alternates_example :
    Alternates true
      (run (new_monitor cfg true) outage).1
      (run (new_monitor cfg true) outage).0.confirmed_up
unfolding new_monitor
run-Alternates_example = run-Alternates (new_monitor cfg true) outage

abbrev first_calls : List Call
first_calls = observed "eu" (at false (pos 10)) ∷ evaluated (pos 10) ∷ []

commits : (evaluate (run (new_monitor cfg true) first_calls).0 (pos 15)).1 ≢ Event.none
unfolding run new_monitor observe evaluate consensus sub
commits e = cc

commit-HeldSince_example :
    (since : Time) × HeldSince since
      (evaluate (run (new_monitor cfg true) first_calls).0 (pos 15)).0.confirmed_up
      (vote (run (new_monitor cfg true) first_calls).0 (pos 15)
        ∷ history (new_monitor cfg true) [] first_calls)
    × (pos 5 ≤ℤ sub (pos 15) since)
commit-HeldSince_example = commit-HeldSince cfg true first_calls (pos 15) commits
