-- ===== src/Buffer/Solve/Tests.antt =====
-- The theorems about solving at a schedule of two events that arrive at 4.
use industrial_ams.Base.{◌≡◌, refl, none, some, List, [], ◌∷◌, All, ◌==◌, if◌then◌else◌, arith}
use industrial_ams.Base.Int.{ℤ, pos, ◌+ℤ◌}
use industrial_ams.Py.{Result, ok, err, number}
use industrial_ams.Etx.Methods.{set}
use industrial_ams.Event.{Event}
use industrial_ams.Event.Methods.{set_time, start_slot, finish_slot, get_time}
use industrial_ams.Scheduler.Samples.{waiting}
use industrial_ams.Buffer.{BufferScheduler, units}
use industrial_ams.Buffer.Variables.{eta, start, finish, etd, iqt, duration, oqt}
use industrial_ams.Buffer.Horizon
use industrial_ams.Buffer.Horizon.{EventData, get_event_variables}
use industrial_ams.Buffer.Model.{build_ranges, Model, build_model, processing_spans, order_two}
use industrial_ams.Buffer.Model.Meaning.{Assignment}
use industrial_ams.Buffer.Model.Timing.{IsPlanned}
use industrial_ams.Buffer.Model.Overlap.{Disjoint}
use industrial_ams.Buffer.Model.Schedule.{solution-IsPlanned}
use industrial_ams.Buffer.Solve.{
  optimal, answered, Answer, failed, write_event, write_all, solve_model,
}
use industrial_ams.Buffer.Solve.Writes.{write_event-reads}
use industrial_ams.Buffer.Solve.Checked.{checked, checked-IsSound}

abbrev before : BufferScheduler
before = record {
  scheduler = record { events = waiting 1 ∷ []; counter = 3 };
  resolution = 1;
  horizon = pos 100;
  max_horizon = pos 100;
  buffer_input = pos 1 ∷ [];
  buffer_output = pos 1 ∷ [];
}

abbrev after : BufferScheduler
after = record before { max_horizon = pos 104 }

-- The order of the two events is the order in which they are listed.
abbrev in_order : List Event → Result (List Event)
in_order es = ok es

-- The first event from 0 to 10, the second from 10 to 20
abbrev times : Assignment
times n eta = pos 0
times n start = if n == 1 then pos 0 else pos 10
times n finish = if n == 1 then pos 10 else pos 20
times n etd = if n == 1 then pos 10 else pos 20
times n iqt = if n == 1 then pos 0 else pos 10
times n duration = pos 10
times n oqt = pos 0

abbrev data_of : Result (EventData × (ℤ × ℤ)) → EventData
data_of (ok (m, w)) = m
data_of (err x) = []

abbrev listed : EventData
listed = data_of (get_event_variables (waiting 2 ∷ []) none before).0

listing : get_event_variables (waiting 2 ∷ []) none before ≡ (ok (listed, (pos 4, pos 104)), after)
unfolding Horizon.program
listing = refl

abbrev empty_model : Model
empty_model = record { constraints = []; objective = [] }

abbrev model_of : Result Model → Model
model_of (ok model) = model
model_of (err x) = empty_model

abbrev model : Model
model = model_of (build_model in_order listed (pos 4, pos 104) after)

program : Unit {0}
unfolding Horizon.program solve_model build_model build_ranges order_two write_event write_all set
    set_time checked
program = tt

built : build_model in_order listed (pos 4, pos 104) after ≡ ok model
unfolding program
built = refl

accepted : checked times model ≡ answered optimal times
unfolding program
accepted = refl

solution-IsPlanned_example :
    All (λ p. IsPlanned (pos 4) times p.1) listed × Disjoint times (processing_spans listed)
solution-IsPlanned_example =
    solution-IsPlanned in_order (waiting 2 ∷ []) none before after listed (pos 4, pos 104) model
      times listing built (checked-IsSound times model times accepted)

abbrev plan : Result (List Event) × BufferScheduler
plan = solve_model in_order (checked times) none (waiting 2 ∷ []) before

abbrev events_of : Result (List Event) → List Event
events_of (ok es) = es
events_of (err x) = []

abbrev give_up : Model → Answer
give_up m = failed

write_event-reads_example :
    let (r, e) = write_event 5 (pos 4) none times (waiting 2) in
    (r ≡ ok tt)
    × (get_time (units 5) start_slot none e ≡ ok (some (number (pos 10 +ℤ pos 4))))
    × (get_time (units 5) finish_slot none e ≡ ok (some (number (pos 20 +ℤ pos 4))))
    × (e.state ≡ (waiting 2).state)
    × (e.uid ≡ 2)
write_event-reads_example = write_event-reads 5 (pos 4) (pos 0) times (waiting 2) (omega arith) refl
