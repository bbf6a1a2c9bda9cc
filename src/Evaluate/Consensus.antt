-- ===== src/Evaluate/Consensus.antt =====
-- internal/evaluate/evaluate.go, `consensus`: the vote of the regions that have a fresh sample.
use Prim.Native.String.{String}
use mathlib.Core.List.{Perm, Permᴰ}
use mathlib.Core.Logic.{∥∥₁_elim}
use native.Mathlib.Nat.{ℕ_set}
use uptime_monitor.Prelude.{
  ℕ, ◌+◌, ◌*◌, ◌<◌, ◌≤◌, ◌≡◌, ◌↔◌, refl, ◌∙◌, ap, true, false, List, [], ◌∷◌, if◌then◌else◌, arith,
}
use uptime_monitor.Time.{Time}
use uptime_monitor.Evaluate.{Config, Sample, Monitor, is_stale, tally, consensus}

-- The vote, counted independently of the loop: the fresh samples, and those of them that say down.
abbrev pub fresh_count : Config → Time → List (String × Sample) → ℕ
fresh_count cfg now [] = 0
fresh_count cfg now ((r, s) ∷ rest) =
    (if is_stale cfg now s then 0 else 1) + fresh_count cfg now rest

abbrev pub down_count : Config → Time → List (String × Sample) → ℕ
down_count cfg now [] = 0
down_count cfg now ((r, s) ∷ rest) =
    (if is_stale cfg now s then 0 else if s.up then 0 else 1) + down_count cfg now rest

tally-counts :
    (cfg : Config) (now : Time) (l : List (String × Sample)) (t d : ℕ)
    → tally cfg now l t d ≡ (t + fresh_count cfg now l, d + down_count cfg now l)
unfolding tally
tally-counts cfg now [] t d = ground arith
tally-counts cfg now ((r, s) ∷ rest) t d = ground (
  arith,
  tally-counts cfg now rest (if is_stale cfg now s then t else t + 1)
      (if is_stale cfg now s then d else if s.up then d else d + 1),
)

-- The consensus exists exactly when some sample is fresh, and it is "down" exactly when, moreover, a
-- strict majority of the fresh samples says down: stale samples have no say, and a tie is "up".
pub consensus_majority :
    (m : Monitor) (now : Time)
    → (((consensus m now).1 ≡ true) ↔ (0 < fresh_count m.cfg now m.samples))
      × ((consensus m now ≡ (false, true))
          ↔ (fresh_count m.cfg now m.samples < 2 * down_count m.cfg now m.samples))
unfolding consensus
consensus_majority m now =
    ground (arith, tally-counts m.cfg now m.samples 0 0, down-le-fresh m.cfg now m.samples)
  where
    down-le-fresh :
        (cfg : Config) (now : Time) (l : List (String × Sample))
        → down_count cfg now l ≤ fresh_count cfg now l
    down-le-fresh cfg now [] = omega arith
    down-le-fresh cfg now ((r, s) ∷ rest) = ground (arith, down-le-fresh cfg now rest)

-- One summand of each count, so that a swap is a law of sums.
abbrev weight : Config → Time → String × Sample → ℕ
weight cfg now (r, s) = if is_stale cfg now s then 0 else 1

abbrev weight_down : Config → Time → String × Sample → ℕ
weight_down cfg now (r, s) = if is_stale cfg now s then 0 else if s.up then 0 else 1

abbrev total_weight : (String × Sample → ℕ) → List (String × Sample) → ℕ
total_weight f [] = 0
total_weight f (x ∷ xs) = f x + total_weight f xs

total_weight-permᴰ :
    (f : String × Sample → ℕ) {k l : List (String × Sample)}
    → Permᴰ k l
    → total_weight f k ≡ total_weight f l
total_weight-permᴰ f Permᴰ.nil = refl
total_weight-permᴰ f (Permᴰ.cons e p) = omega (arith, ap f e, total_weight-permᴰ f p)
total_weight-permᴰ f (Permᴰ.swap e e') = omega (arith, ap f e, ap f e')
total_weight-permᴰ f (Permᴰ.trans p q) = total_weight-permᴰ f p ∙ total_weight-permᴰ f q

fresh_count-weight :
    (cfg : Config) (now : Time) (l : List (String × Sample))
    → (fresh_count cfg now l ≡ total_weight (weight cfg now) l)
      × (down_count cfg now l ≡ total_weight (weight_down cfg now) l)
fresh_count-weight cfg now [] = (refl, refl)
fresh_count-weight cfg now ((r, s) ∷ rest) = ground (arith, fresh_count-weight cfg now rest)

counts-perm :
    (f : String × Sample → ℕ) {k l : List (String × Sample)}
    → Perm k l
    → total_weight f k ≡ total_weight f l
counts-perm f p = ∥∥₁_elim p (ℕ_set _ _) (total_weight-permᴰ f)

-- Go visits a map in no fixed order: engines whose samples are the same up to their order reach the
-- same consensus.
pub consensus-perm :
    (m : Monitor) (l : List (String × Sample)) (now : Time)
    → Perm m.samples l
    → consensus m now ≡ consensus (record m { samples = l }) now
unfolding consensus
consensus-perm m l now p = rw (
  tally-counts m.cfg now m.samples 0 0,
  tally-counts m.cfg now l 0 0,
  (fresh_count-weight m.cfg now m.samples).0,
  (fresh_count-weight m.cfg now m.samples).1,
  (fresh_count-weight m.cfg now l).0,
  (fresh_count-weight m.cfg now l).1,
  counts-perm (weight m.cfg now) p,
  counts-perm (weight_down m.cfg now) p,
)
