-- ===== src/Evaluate/Changes.antt =====
-- internal/evaluate/evaluate.go, `Evaluate`: an event is a change of the confirmed state.
use uptime_monitor.Prelude.{Bool, true, false, ◌≡◌, ◌⊎◌, inl, inr, arith}
use uptime_monitor.Time.{Time}
use uptime_monitor.Evaluate.{Event, down, recovered, Monitor, evaluate_with, evaluate}

-- The confirmed state before an event and behind it.
abbrev pub Follows : Bool → Event → Bool → Type 0
Follows b Event.none b' = b' ≡ b
Follows b down b' = (b ≡ true) × (b' ≡ false)
Follows b recovered b' = (b ≡ false) × (b' ≡ true)

-- The three ways, as equations.
abbrev pub Changed : Bool → Event → Bool → Type 0
Changed b ev b' =
    ((ev ≡ Event.none) × (b' ≡ b))
    ⊎ (((ev ≡ down) × (b ≡ true) × (b' ≡ false)) ⊎ ((ev ≡ recovered) × (b ≡ false) × (b' ≡ true)))

evaluate-Changed :
    (m : Monitor) (now : Time)
    → Changed m.confirmed_up (evaluate m now).1 (evaluate m now).0.confirmed_up
unfolding evaluate evaluate_with
evaluate-Changed m now = ground arith

of_Changed : (b b' : Bool) (ev : Event) → Changed b ev b' → Follows b ev b'
of_Changed b b' ev (inl (e, h)) = rw e h
of_Changed b b' ev (inr (inl (e, h, h'))) = rw e (h, h')
of_Changed b b' ev (inr (inr (e, h, h'))) = rw e (h, h')

pub evaluate-Follows :
    (m : Monitor) (now : Time)
    → Follows m.confirmed_up (evaluate m now).1 (evaluate m now).0.confirmed_up
evaluate-Follows m now = of_Changed _ _ _ (evaluate-Changed m now)
