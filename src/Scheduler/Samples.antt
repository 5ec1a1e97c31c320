-- ===== src/Scheduler/Samples.antt =====
-- Events and a schedule for the tests of the scheduler and of its subclass.
use industrial_ams.Base.{ℕ, false, none, some, List, [], ◌∷◌}
use industrial_ams.Base.Int.{ℤ, pos}
use industrial_ams.Py.{number}
use industrial_ams.Etx
use industrial_ams.Event.{Event, Payload, new, departed, started}

abbrev payload : Payload
payload = record {
  callback = "done";
  args = [];
  kwargs = [];
  setup = pos 0;
  setup_condition = none;
}

abbrev pub waiting : ℕ → Event
waiting uid = record {
  duration = pos 10;
  payload = payload;
  uid = uid;
  state = new;
  eta = record Etx.empty {
    time = some (number (pos 4));
    constraint_high = some (number (pos 4));
    constraint_low = some (number (pos 4));
  };
  etd = Etx.empty;
  schedule_start = none;
  schedule_finish = none;
  activity_start = none;
  activity_finish = none;
  eta_lane = none;
  etd_lane = none;
  use_datetime = false;
  canceled = false;
}

-- Started at 5, to finish at 15
abbrev pub running : ℕ → Event
running uid = record (waiting uid) {
  state = started;
  schedule_start = some (number (pos 5));
  schedule_finish = some (number (pos 15));
}

-- Arrived at 1 and departed at the given time
abbrev pub left_at : ℤ → ℕ → Event
left_at t uid = record (waiting uid) {
  state = departed;
  activity_start = some (number (pos 1));
  activity_finish = some (number t);
}

-- The second event left before the third started, the first did not.
abbrev pub registered : List Event
registered = left_at (pos 7) 1 ∷ left_at (pos 3) 2 ∷ running 3 ∷ []
