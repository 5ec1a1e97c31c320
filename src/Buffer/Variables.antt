-- ===== src/Buffer/Variables.antt =====
-- `Interval` and `Event.get_variables` of iams/utils/scheduler.py: the ranges and intervals that an
-- event brings to the solver's model. A name stands in `data["ranges"]` exactly if its range is there.
pub mod Standard
use industrial_ams.Base.{ℕ, Bool, true, false, Option, none, some}
use industrial_ams.Base.Int.{ℤ, ◌+ℤ◌, ◌-ℤ◌}
use industrial_ams.Py.{not_implemented, Result, ok, err, ◌>>=◌, Value}
use industrial_ams.Etx.Methods.{get, get_constraints}
use industrial_ams.Event.{
  Event, State, new, scheduled, arrived, started, finished, departed, canceled,
}
use industrial_ams.Event.Methods.{get_time, start_slot, finish_slot}
use industrial_ams.Buffer.{
  get_constraints, round_half_even, round_div, convert_seconds, convert_resolution, to_steps,
  in_steps, constraints, units, convert_resolution, convert_seconds, round_div, round_half_even,
}

pub data Name : Type 0 where
  eta start finish etd iqt duration oqt : Name

pub record Interval : Type 0 where
  pub start_name : Name
  pub end_name : Name
  pub duration_name : Name
  pub length : Option ℤ
  pub optional : Bool

-- The three intervals of an event: waiting for the start, the processing, waiting for the departure
abbrev pub input_interval : Option ℤ → Bool → Interval
input_interval d optional = record {
  start_name = eta;
  end_name = start;
  duration_name = iqt;
  length = d;
  optional = optional;
}

abbrev pub processing_interval : Option ℤ → Bool → Interval
processing_interval d optional = record {
  start_name = start;
  end_name = finish;
  duration_name = duration;
  length = d;
  optional = optional;
}

abbrev pub output_interval : Option ℤ → Bool → Interval
output_interval d optional = record {
  start_name = finish;
  end_name = etd;
  duration_name = oqt;
  length = d;
  optional = optional;
}

abbrev pub Range : Type 0
Range = Option ℤ × Option ℤ

abbrev fixed : ℤ → Range
fixed t = (some t, some t)

-- A lower bound that is not there is replaced.
abbrev with_lower : ℤ → Range → Range
with_lower d (none, high) = (some d, high)
with_lower d (some low, high) = (some low, high)

pub record Variables : Type 0 where
  pub number : ℕ
  pub makespan : Range
  pub eta_range : Option Range
  pub start_range : Range
  pub finish_range : Range
  pub etd_range : Range
  pub interval_i : Option Interval
  pub interval_p : Interval
  pub interval_o : Interval
  pub il : Option ℕ
  pub ol : Option ℕ

-- `self._scheduler.convert_resolution(self.get_start(now))`, where `get_start` has converted already
start_steps : ℕ → Event → Option Value → Result ℤ
start_steps k e now = do t ← get_time (units k) start_slot now e; in_steps k t

finish_steps : ℕ → Event → Option Value → Result ℤ
finish_steps k e now = do t ← get_time (units k) finish_slot now e; in_steps k t

eta_steps : ℕ → Event → Option Value → Result ℤ
eta_steps k e now = do t ← get e.eta now; in_steps k t

etd_steps : ℕ → Event → Option Value → Result ℤ
etd_steps k e now = do t ← get e.etd now; in_steps k t

module _ (k : ℕ) (now : Option Value) (e : Event) (d : ℤ) where
  waiting_variables : Result Variables
  waiting_variables = do
    a ← constraints k e.eta now
    b ← constraints k e.etd now
    ok (record {
      number = e.uid;
      makespan = (a.0, b.1);
      eta_range = some a;
      start_range = (a.1, b.0);
      finish_range = (a.1, b.0);
      etd_range = b;
      interval_i = some (input_interval none true);
      interval_p = processing_interval (some d) false;
      interval_o = output_interval none true;
      il = none;
      ol = none;
    })

  -- `interval_o` is built with no duration here, which is the default of the class, zero.
  arrived_variables : Result Variables
  arrived_variables = do
    a ← eta_steps k e now
    b ← constraints k e.etd now
    let out = with_lower a b
    ok (record {
      number = e.uid;
      makespan = (some a, out.1);
      eta_range = some (fixed a);
      start_range = (some a, out.1);
      finish_range = (some a, out.1);
      etd_range = out;
      interval_i = some (input_interval none true);
      interval_p = processing_interval (some d) e.canceled;
      interval_o = output_interval (some (ℤ.pos 0)) true;
      il = e.eta_lane;
      ol = none;
    })

  started_variables : Result Variables
  started_variables = do
    a ← eta_steps k e now
    s ← start_steps k e now
    b ← constraints k e.etd now
    let out = with_lower s b
    ok (record {
      number = e.uid;
      makespan = (some a, out.1);
      eta_range = some (fixed a);
      start_range = fixed s;
      finish_range = fixed (s +ℤ d);
      etd_range = out;
      interval_i = some (input_interval (some (s -ℤ a)) false);
      interval_p = processing_interval (some d) e.canceled;
      interval_o = output_interval none true;
      il = none;
      ol = none;
    })

  finished_variables : Result Variables
  finished_variables = do
    s ← start_steps k e now
    f ← finish_steps k e now
    b ← constraints k e.etd now
    let out = with_lower f b
    ok (record {
      number = e.uid;
      makespan = (some s, out.1);
      eta_range = none;
      start_range = fixed s;
      finish_range = fixed f;
      etd_range = out;
      interval_i = none;
      interval_p = processing_interval (some (f -ℤ s)) false;
      interval_o = output_interval none true;
      il = none;
      ol = e.etd_lane;
    })

  departed_variables : Result Variables
  departed_variables = do
    s ← start_steps k e now
    f ← finish_steps k e now
    x ← etd_steps k e now
    ok (record {
      number = e.uid;
      makespan = (some s, some x);
      eta_range = none;
      start_range = fixed s;
      finish_range = fixed f;
      etd_range = fixed x;
      interval_i = none;
      interval_p = processing_interval (some (f -ℤ s)) false;
      interval_o = output_interval (some (x -ℤ f)) false;
      il = none;
      ol = e.etd_lane;
    })

  state_variables : State → Result Variables
  state_variables new = waiting_variables
  state_variables scheduled = waiting_variables
  state_variables arrived = arrived_variables
  state_variables started = started_variables
  state_variables finished = finished_variables
  state_variables departed = departed_variables
  state_variables canceled = err not_implemented

-- `Event.get_variables`
pub get_variables : ℕ → Option Value → Event → Result Variables
get_variables k now e = do d ← to_steps k e.duration; state_variables k now e d e.state

-- What a run of `get_variables` computes with
unfoldable pub program : Unit {0}
unfolding get_variables state_variables waiting_variables arrived_variables started_variables
    finished_variables departed_variables eta_steps etd_steps start_steps finish_steps constraints
    convert_resolution convert_seconds to_steps round_div round_half_even ◌-ℤ◌ ◌+ℤ◌ get
    get_constraints get_time
program = tt
