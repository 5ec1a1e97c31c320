-- ===== src/Buffer/Solve.antt =====
-- `optimize_model`, `solve_model`, `add`, `can_schedule` and `validate` of `class BufferScheduler` in
-- iams/utils/scheduler.py. The solver of ortools is a parameter, and so is Python's `sorted`. An event
-- that the solver's answer is written to stands in the scheduler by its uid.
pub mod Writes
pub mod Written
pub mod Outcomes
pub mod Checked
mod Tests
use industrial_ams.Base.{
  ℕ, Bool, true, false, Option, none, some, List, [], ◌∷◌, ◌==◌, if◌then◌else◌,
}
use industrial_ams.Base.Int.{ℤ, ◌+ℤ◌}
use industrial_ams.Py.{can_not_schedule, Result, ok, err, ◌>>◌, Method, in_turn, Value, number}
use industrial_ams.Etx.Methods.{set}
use industrial_ams.Event.{Event, State, new, scheduled, arrived, started}
use industrial_ams.Event.Methods.{start_slot, finish_slot, set_time, Slot}
use industrial_ams.Scheduler.{Scheduler, answer}
use industrial_ams.Buffer.{BufferScheduler, to_seconds, units}
use industrial_ams.Buffer.Variables.{Name, eta, start, finish, etd}
use industrial_ams.Buffer.Horizon.{EventData, get_event_variables}
use industrial_ams.Buffer.Model.{Model, build_model, keys}
use industrial_ams.Buffer.Model.Meaning.{Assignment}

pub data Status : Type 0 where
  optimal feasible infeasible unknown invalid : Status

-- The solver raises, or answers with a status and values.
pub data Answer : Type 0 where
  failed : Answer
  answered : Status → Assignment → Answer

abbrev pub is_optimal : Status → Bool
is_optimal optimal = true
is_optimal _ = false

module _ (k : ℕ) (offset : ℤ) (now : Option Value) (a : Assignment) where
  -- `solver.Value(data[name]) + offset`
  abbrev pub solved : Event → Name → ℤ
  solved e name = a e.uid name +ℤ offset

  set_eta : Method Event (Unit {0})
  set_eta e =
      let (r, x) = set (number (to_seconds k (solved e eta))) now e.eta in (r, record e { eta = x })

  set_etd : Method Event (Unit {0})
  set_etd e =
      let (r, x) = set (number (to_seconds k (solved e etd))) now e.etd in (r, record e { etd = x })

  set_solved : Slot → Name → Method Event (Unit {0})
  set_solved slot name e = set_time (units k) slot (number (solved e name)) now e

  both_times : Method Event (Unit {0})
  unfolding set_solved
  both_times = in_turn (set_solved start_slot start) (set_solved finish_slot finish)

  write_in : State → Method Event (Unit {0})
  unfolding set_eta set_etd both_times
  write_in new = in_turn set_eta (in_turn both_times set_etd)
  write_in scheduled = both_times
  write_in arrived = both_times
  write_in started = set_solved finish_slot finish
  write_in _ = λ e. (ok tt, e)

  -- One round of the loop of `optimize_model`
  unfoldable pub write_event : Method Event (Unit {0})
  unfolding write_in
  write_event e = write_in e.state e

  -- The loop over the events
  unfoldable pub write_all : Method (List Event) (Unit {0})
  write_all [] = (ok tt, [])
  write_all (e ∷ es) =
      let (r, e') = write_event e in
      elim r [ ok u ↦ (let (q, rest) = write_all es in (q, e' ∷ rest)) | err x ↦ (err x, e' ∷ es) ]

-- The written event in place of the one with its uid
abbrev pub latest : List Event → Event → Event
latest [] e = e
latest (x ∷ xs) e = if x.uid == e.uid then x else latest xs e

abbrev pub refresh : List Event → List Event → List Event
refresh written [] = []
refresh written (e ∷ es) = latest written e ∷ refresh written es

module _ (sorted : List Event → Result (List Event)) (solve : Model → Answer)
    (now : Option Value) where
  -- What follows the model: the solver's answer is written to the events if it is optimal.
  unfoldable pub optimize_model :
      Answer → EventData → ℤ → List Event → Method BufferScheduler (List Event)
  optimize_model failed m offset given s = (err can_not_schedule, s)
  optimize_model (answered status a) m offset given s =
      if is_optimal status
      then (let (r, written) = write_all s.resolution offset now a (keys m) in
          let events = refresh written s.scheduler.events in
          (
            (r >> ok (refresh written given)),
            record s { scheduler = record s.scheduler { events = events } },
          ))
      else (err can_not_schedule, s)

  unfoldable pub solve_for :
      List Event
      → Result (EventData × (ℤ × ℤ)) × BufferScheduler
      → Result (List Event) × BufferScheduler
  unfolding optimize_model
  solve_for given (err x, s) = (err x, s)
  solve_for given (ok (m, w), s) = elim (build_model sorted m w s) [
    | err x ↦ (err x, s)
    | ok model ↦ optimize_model (solve model) m w.0 given s
  ]

  -- `BufferScheduler.solve_model`
  unfoldable pub solve_model : List Event → Method BufferScheduler (List Event)
  unfolding solve_for
  solve_model given s = solve_for given (get_event_variables given now s)

  abbrev only : Event → Result (List Event) × BufferScheduler → Result Event × BufferScheduler
  only e (ok es, s) = (ok (latest es e), s)
  only e (err x, s) = (err x, s)

  -- `BufferScheduler.add`; `can_schedule` is the same call, with `save=False`, which is not read.
  unfoldable pub add : Event → Method BufferScheduler Event
  unfolding solve_model
  add e s = only e (solve_model (e ∷ []) s)

  abbrev is_possible : Result (List Event) × BufferScheduler → Result Bool × BufferScheduler
  is_possible (ok es, s) = (ok true, s)
  is_possible (err can_not_schedule, s) = (ok false, s)
  is_possible (err x, s) = (err x, s)

  -- `BufferScheduler.validate`
  unfoldable pub validate : Method BufferScheduler Bool
  unfolding solve_model
  validate s = is_possible (solve_model [] s)

  abbrev registered : Result Event × BufferScheduler → Result Bool × BufferScheduler
  registered (r, s) =
      let (b, scheduler) = answer (r, s.scheduler) in (b, record s { scheduler = scheduler })

  -- `SchedulerInterface.save` on this class
  unfoldable pub save_event : Event → Method BufferScheduler Bool
  unfolding add
  save_event e s = registered (add e s)
