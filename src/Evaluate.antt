-- ===== src/Evaluate.antt =====
-- internal/evaluate/evaluate.go: the up/down decision of one monitor. `Monitor` is the consensus
-- and debounce engine; its methods return the new engine. The proofs are in the modules below.
mod Consensus
mod Debounce
mod Commit
pub mod Changes
mod Tests
use Prim.Native.String.{String}
use uptime_monitor.Prelude.{
  ℕ, ◌+◌, ◌*◌, Bool, true, false, not, ◌&&◌, ◌||◌, List, [], ◌∷◌, ltb_ℤ, leb, ◌==◌, bool_eq,
  if◌then◌else◌, insert, string_eq,
}
use uptime_monitor.Time.{Time, Duration, zero_time, sub, geb}

pub data Event : Type 0 where
  none down recovered : Event

-- The v1 state machine: `prevUp` and `nowUp`.
unfoldable pub transition : Bool → Bool → Event
transition true false = down
transition false true = recovered
transition true true = Event.none
transition false false = Event.none

pub record Sample : Type 0 where
  pub up : Bool
  pub at : Time

pub record Config : Type 0 where
  pub freshness : Duration
  pub stability : Duration

pub record Monitor : Type 0 where
  pub cfg : Config
  pub samples : List (String × Sample)
  pub confirmed_up : Bool
  pub pending : Bool
  pub pending_up : Bool
  pub pending_since : Time

unfoldable pub new_monitor : Config → Bool → Monitor
new_monitor cfg initial_up = record {
  cfg = cfg;
  samples = [];
  confirmed_up = initial_up;
  pending = false;
  pending_up = false;
  pending_since = zero_time;
}

unfoldable pub observe : Monitor → String → Sample → Monitor
observe m region s = record m { samples = insert region s m.samples }

pub is_stale : Config → Time → Sample → Bool
is_stale cfg now s = ltb_ℤ cfg.freshness (sub now s.at)

-- The loop of `consensus` over the samples, with its counters `total` and `down`.
tally : Config → Time → List (String × Sample) → ℕ → ℕ → ℕ × ℕ
tally cfg now [] total downs = (total, downs)
tally cfg now ((region, s) ∷ rest) total downs =
    tally cfg now rest (if is_stale cfg now s then total else total + 1)
      (if is_stale cfg now s then downs else if s.up then downs else downs + 1)

-- The results `up` and `ok`.
pub consensus : Monitor → Time → Bool × Bool
unfolding tally is_stale
consensus m now =
    let (total, downs) = tally m.cfg now m.samples 0 0 in
    if total == 0 then (false, false) else (leb (2 * downs) total, true)

-- `Evaluate` behind the computed consensus.
evaluate_with : Monitor → Time → Bool × Bool → Monitor × Event
evaluate_with m now (cons_up, false) = (m, Event.none)
evaluate_with m now (cons_up, true) =
    if bool_eq cons_up m.confirmed_up
    then (record m { pending = false }, Event.none)
    else let c =
        if not m.pending || not (bool_eq m.pending_up cons_up)
        then record m { pending = true; pending_up = cons_up; pending_since = now }
        else m in
      if geb (sub now c.pending_since) c.cfg.stability
      then (
        record c { confirmed_up = cons_up; pending = false },
        if cons_up then recovered else down,
      )
      else (c, Event.none)

unfoldable pub evaluate : Monitor → Time → Monitor × Event
unfolding evaluate_with
evaluate m now = evaluate_with m now (consensus m now)
