-- ===== src/Buffer/Model/Schedule.antt =====
-- A solution of the model is a schedule.
use industrial_ams.Base.{◌≡◌, sym, subst, Option, List, All, append-All, arith}
use industrial_ams.Base.Int.{ℤ, ◌-ℤ◌}
use industrial_ams.Py.{Result, ok, err, >>=-eq-ok}
use industrial_ams.Py.{Value}
use industrial_ams.Event.{Event}
use industrial_ams.Buffer.{BufferScheduler}
use industrial_ams.Buffer.Horizon.{EventData, get_event_variables}
use industrial_ams.Buffer.Model.{
  Model, build_events, build_model, order_constraints, keys, first_lane, processing_spans,
}
use industrial_ams.Buffer.Model.Meaning.{Assignment, Satisfies, Solves}
use industrial_ams.Buffer.Variables.Standard.{IsStandard}
use industrial_ams.Buffer.Horizon.Standard.{get_event_variables-IsStandard}
use industrial_ams.Buffer.Model.Timing.{IsPlanned, events-IsPlanned}
use industrial_ams.Buffer.Model.Overlap.{Disjoint, cumulative-Disjoint}

-- A solution of the model that is built for events with standard variables is a schedule.
build_model-IsPlanned :
    (sorted : List Event → Result (List Event)) (m : EventData) (low high : ℤ) (s : BufferScheduler)
    (model : Model) (a : Assignment)
    → All (λ p. IsStandard p.1) m
    → build_model sorted m (low, high) s ≡ ok model
    → Solves a model
    → All (λ p. IsPlanned low a p.1) m × Disjoint a (processing_spans m)
unfolding build_model
build_model-IsPlanned sorted m low high s model a standard h solves =
    let (each, built, h) = >>=-eq-ok (build_events low (high -ℤ low) m) _ h in
    let (order, sorting, h) = >>=-eq-ok (sorted (keys m)) _ h in
    let (chain, chained, h) = >>=-eq-ok (order_constraints m order) _ h in
    let (lane, found, h) = >>=-eq-ok (first_lane s.buffer_input) _ h in
    let all =
      subst (λ r. elim r as (λ r. Type 0) [ ok model ↦ Solves a model | err x ↦ Unit ]) (sym h)
        solves in
    let (here, there) = append-All (Satisfies a) each _ all in
    let (left, resources) = append-All (Satisfies a) chain _ there in
    (
      events-IsPlanned low (high -ℤ low) a m each standard built here,
      cumulative-Disjoint a (processing_spans m) (λ t. omega (arith, resources.1.0 t)),
    )

-- Any solution of the model that is built for the listed events and their window is a schedule. In it
-- each event arrives before it starts (where its ETA is still modelled), starts before it finishes and
-- finishes before it departs (where its departure is still open), lasts exactly its given time where
-- its processing is not optional, and keeps within the ranges of its times; and no two events with
-- processing times that are not empty are processed at once.
pub solution-IsPlanned :
    (sorted : List Event → Result (List Event)) (new : List Event) (now : Option Value)
    (s s' : BufferScheduler) (m : EventData) (w : ℤ × ℤ) (model : Model) (a : Assignment)
    → get_event_variables new now s ≡ (ok (m, w), s')
    → build_model sorted m w s' ≡ ok model
    → Solves a model
    → All (λ p. IsPlanned w.0 a p.1) m × Disjoint a (processing_spans m)
solution-IsPlanned sorted new now s s' m w model a h =
    build_model-IsPlanned sorted m w.0 w.1 s' model a
      (get_event_variables-IsStandard new now s s' m w h)
