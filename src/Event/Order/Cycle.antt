-- ===== src/Event/Order/Cycle.antt =====
-- `__lt__` is not transitive.
use industrial_ams.Base.{◌≡◌, true, none, some, arith}
use industrial_ams.Base.Int.{ℤ, ◌<ℤ◌}
use industrial_ams.Py.{ok, number, less, less_opt}
use industrial_ams.Etx.Methods.{less_etx, equal_etx}
use industrial_ams.Event.{Event, is_eta_state}
use industrial_ams.Event.Order.{less_event}

-- Three events that wait or have arrived stand in a circle of the order, if the ETA of the first two has
-- no time, that of the third has a time between the lower constraint of the second and that of the
-- first, and the first is shorter than the second: two events with no time compare by duration, and an
-- event with no time compares by its constraint with one that has a time.
pub less_event_cycle :
    (a b c : Event) (low_a low_b t : ℤ)
    → is_eta_state a.state ≡ true
    → is_eta_state b.state ≡ true
    → is_eta_state c.state ≡ true
    → a.eta.time ≡ none
    → a.eta.constraint_low ≡ some (number low_a)
    → b.eta.time ≡ none
    → b.eta.constraint_low ≡ some (number low_b)
    → c.eta.time ≡ some (number t)
    → low_b <ℤ t
    → t <ℤ low_a
    → a.duration <ℤ b.duration
    → (less_event a b ≡ ok true) × (less_event b c ≡ ok true) × (less_event c a ≡ ok true)
unfolding less_event less_etx equal_etx less_opt less
less_event_cycle a b c low_a low_b t sa sb sc ta la tb lb tc p q d =
    (ground arith, ground arith, ground arith)
