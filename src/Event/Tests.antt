-- ===== src/Event/Tests.antt =====
-- Events, and the theorems about them at these events.
use industrial_ams.Base.{◌≡◌, refl, true, false, none, some, List, [], ◌∷◌}
use industrial_ams.Base.Int.{ℤ, pos}
use industrial_ams.Py.{ok, number, datetime}
use industrial_ams.Etx
use industrial_ams.Etx.{Etx, is_set}
use industrial_ams.Etx.Methods.{get_constraints}
use industrial_ams.Event.{
  Event, EventArgs, single, missing, Payload, new, scheduled, started, init, to_etx,
}
use industrial_ams.Event.Methods.{plain, schedule_etd}
use industrial_ams.Event.Order.{less_event}
use industrial_ams.Event.Order.StrictOrder.{IsTimed, less_event_trans}
use industrial_ams.Event.Transitions.{
  Call, apply, run, IsRecorded, Keeps, apply-Keeps, run-IsRecorded,
}

abbrev payload : Payload
payload = record {
  callback = "done";
  args = [];
  kwargs = [];
  setup = pos 0;
  setup_condition = none;
}

-- Event(eta=4, duration=10, callback="done")
abbrev given : EventArgs
given = record {
  duration = pos 10;
  payload = payload;
  state = new;
  eta = single (number (pos 4));
  etd = missing;
}

abbrev at_four : Etx
at_four = record Etx.empty {
  time = some (number (pos 4));
  constraint_high = some (number (pos 4));
  constraint_low = some (number (pos 4));
  time_high = some (number (pos 4));
  time_low = some (number (pos 4));
}

abbrev made : Event
made = record {
  duration = pos 10;
  payload = payload;
  uid = 0;
  state = new;
  eta = at_four;
  etd = Etx.empty;
  schedule_start = none;
  schedule_finish = none;
  activity_start = none;
  activity_finish = none;
  eta_lane = none;
  etd_lane = none;
  use_datetime = false;
  canceled = false;
}

init-given : init given ≡ ok made
unfolding init to_etx Etx.program
init-given = refl

mixed_args : EventArgs
mixed_args = record given { eta = single (datetime (pos 100)); etd = single (number (pos 5)) }

apply-Keeps_example : Keeps made (apply plain (Call.start_at (number (pos 6))) made)
apply-Keeps_example = apply-Keeps plain (Call.start_at (number (pos 6))) made

abbrev calls : List Call
calls =
    Call.arrive_at (number (pos 5))
    ∷ Call.start_at (number (pos 6))
    ∷ Call.depart_at (number (pos 20))
    ∷ []

made-IsRecorded : IsRecorded made
made-IsRecorded = record { arrival = λ s. cc; departure = λ s. cc }

run-IsRecorded_example : IsRecorded (run plain calls made)
run-IsRecorded_example = run-IsRecorded plain calls made made-IsRecorded

-- A started event that is given an interval for its departure
abbrev running : Event
running = record made { state = started }

abbrev fallen : Event
fallen = record made {
  state = scheduled;
  etd = record Etx.empty {
    constraint_low = some (number (pos 30));
    constraint_high = some (number (pos 40));
  };
}

schedule_etd-running :
    schedule_etd (number (pos 30)) (some (number (pos 40))) none running ≡ (ok tt, fallen)
unfolding schedule_etd Etx.program
schedule_etd-running = refl

abbrev timed : ℤ → Event
timed t = record made { eta = record at_four { time = some (number t) }; uid = 1 }

abbrev open_from : ℤ → ℤ → Event
open_from low d = record made {
  duration = d;
  eta = record at_four { time = none; constraint_low = some (number low) };
}

program : Unit {0}
unfolding less_event Etx.Methods.less_etx Etx.Methods.equal_etx
program = tt

timed_before : less_event (timed (pos 1)) (timed (pos 2)) ≡ ok true
unfolding program
timed_before = refl

timed_later : less_event (timed (pos 2)) (timed (pos 3)) ≡ ok true
unfolding program
timed_later = refl

timed-IsTimed : (t : ℤ) → IsTimed (timed t) t
timed-IsTimed t = record { state = refl; time = refl }

less_event_trans_example : less_event (timed (pos 1)) (timed (pos 3)) ≡ ok true
less_event_trans_example =
    less_event_trans (timed (pos 1)) (timed (pos 2)) (timed (pos 3)) (pos 1) (pos 2) (pos 3)
      (timed-IsTimed (pos 1)) (timed-IsTimed (pos 2)) (timed-IsTimed (pos 3)) timed_before
      timed_later
