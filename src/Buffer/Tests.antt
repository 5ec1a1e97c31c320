-- ===== src/Buffer/Tests.antt =====
-- The theorems about the buffer scheduler at concrete times and at a sample schedule.
use industrial_ams.Base.{All, ◌≡◌, refl, none, some, [], ◌∷◌, arith}
use industrial_ams.Base.Int.{◌-ℤ◌, ℤ, pos, negsuc, ◌≤ℤ◌}
use industrial_ams.Py.{Result, ok, err, number}
use industrial_ams.Etx
use industrial_ams.Etx.{with_kind, Etx}
use industrial_ams.Event.{Event, arrived}
use industrial_ams.Event.Methods.{start_slot, set_time, get_time}
use industrial_ams.Scheduler.Samples.{waiting, running}
use industrial_ams.Buffer.{round_half_even, round_div, BufferScheduler, to_steps, units}
use industrial_ams.Buffer.Rounding.{get_time-set_time}
use industrial_ams.Buffer.Horizon
use industrial_ams.Buffer.Horizon.Window.{Within, get_event_variables-Within}
use industrial_ams.Buffer.Horizon.{Collected, EventData, get_event_variables}

rounded : to_steps 4 (negsuc 9) ≡ ok (negsuc 1)
unfolding to_steps round_div round_half_even ◌-ℤ◌
rounded = refl

get_time-set_time_example :
    let (r, e) = set_time (units 5) start_slot (number (pos 7)) none (running 3) in
    (r ≡ ok tt) × (get_time (units 5) start_slot none e ≡ ok (some (number (pos 7))))
get_time-set_time_example = get_time-set_time 5 (omega arith) start_slot (pos 7) (running 3) (pos 0)

abbrev between : Etx
between = record Etx.empty {
  constraint_low = some (number (pos 20));
  constraint_high = some (number (pos 100));
}

step_20 : to_steps 5 (pos 20) ≡ ok (pos 4)
unfolding to_steps round_div round_half_even
step_20 = refl

step_4 : to_steps 5 (pos 4) ≡ ok (pos 1)
unfolding to_steps round_div round_half_even
step_4 = refl

-- Estimated to arrive at 40, and arrived
abbrev here : Event
here = record (waiting 2) {
  state = arrived;
  eta = record Etx.empty { time = some (number (pos 40)) };
}

abbrev before : BufferScheduler
before = record {
  scheduler = record { events = running 1 ∷ here ∷ []; counter = 3 };
  resolution = 5;
  horizon = pos 100;
  max_horizon = pos 100;
  buffer_input = pos 1 ∷ [];
  buffer_output = pos 1 ∷ [];
}

abbrev after : BufferScheduler
after = record before { max_horizon = pos 108 }

abbrev data_of : Result (EventData × (ℤ × ℤ)) → EventData
data_of (ok (m, w)) = m
data_of (err x) = []

abbrev collected : EventData
collected = data_of (get_event_variables (waiting 7 ∷ []) (some (number (pos 42))) before).0

run :
    get_event_variables (waiting 7 ∷ []) (some (number (pos 42))) before
    ≡ (ok (collected, (pos 1, pos 108)), after)
unfolding Horizon.program
run = refl

get_event_variables-Within_example :
    All (λ p. Within (pos 1, pos 108) p.1.makespan) collected
    × (◌≡◌ {A = ℤ} (pos 108) (pos 108))
    × (pos 100 ≤ℤ pos 108)
get_event_variables-Within_example =
    get_event_variables-Within (waiting 7 ∷ []) (some (number (pos 42))) before after collected
      (pos 1, pos 108) run
