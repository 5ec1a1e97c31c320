-- ===== src/Buffer/Solve/Outcomes.antt =====
-- How solving ends: with a schedule, or with a refusal that changes no event.
use industrial_ams.Base.{◌≡◌, false, Option, List, All}
use industrial_ams.Base.Int.{ℤ}
use industrial_ams.Py.{Result, ok, Value}
use industrial_ams.Event.{Event}
use industrial_ams.Buffer.{BufferScheduler}
use industrial_ams.Buffer.Horizon.{EventData, get_event_variables}
use industrial_ams.Buffer.Model.{Model, keys, processing_spans}
use industrial_ams.Buffer.Model.Meaning.{Assignment, Solves}
use industrial_ams.Buffer.Model.Timing.{IsPlanned}
use industrial_ams.Buffer.Model.Overlap.{Disjoint}
use industrial_ams.Buffer.Solve.Written.{AllUpdated}
use industrial_ams.Buffer.Solve.{Answer, failed, answered, optimal, is_optimal}

-- An answer with which nothing can be scheduled
abbrev pub IsRefusal : Answer → Type 0
IsRefusal failed = Unit
IsRefusal (answered status a) = is_optimal status ≡ false

-- What the solver of ortools promises: the values of an optimal answer meet the constraints.
abbrev pub IsSound : (Model → Answer) → Type 0
IsSound solve = (model : Model) (a : Assignment) → solve model ≡ answered optimal a → Solves a model

module _ (sorted : List Event → Result (List Event)) (solve : Model → Answer)
    (now : Option Value) where
  -- A solved model: the events and their window, the model's solution as a schedule, and the events, each
  -- in its place and those that were listed with the solution in them
  pub record IsSolved (given es : List Event) (s s' : BufferScheduler) : Type 0 where
    pub events_data : EventData
    pub makespan : ℤ × ℤ
    pub listed_state : BufferScheduler
    pub solution : Assignment
    pub listed : get_event_variables given now s ≡ (ok (events_data, makespan), listed_state)
    pub planned : All (λ p. IsPlanned makespan.0 solution p.1) events_data
    pub disjoint : Disjoint solution (processing_spans events_data)
    pub returned :
        AllUpdated listed_state.resolution makespan.0 now solution (keys events_data) given es
    pub stored :
        AllUpdated listed_state.resolution makespan.0 now solution
          (keys events_data)
          listed_state.scheduler.events
          s'.scheduler.events
