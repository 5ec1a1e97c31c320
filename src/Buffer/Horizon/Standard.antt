-- ===== src/Buffer/Horizon/Standard.antt =====
-- The variables of all listed events are those that the model is built for.
use industrial_ams.Base.{ℕ, ◌≡◌, ◌∙◌, sym, ap, inl, inr, subst, Option, List, All, arith}
use industrial_ams.Base.Int.{ℤ}
use industrial_ams.Py.{ok, >>=-eq-ok, Result-cases, Value}
use industrial_ams.Event.{Event}
use industrial_ams.Scheduler.{get_events}
use industrial_ams.Scheduler.Visits.{get_events-keeps}
use industrial_ams.Buffer.{BufferScheduler}
use industrial_ams.Buffer.Variables.{get_variables}
use industrial_ams.Buffer.Variables.Standard.{IsStandard, get_variables-IsStandard}
use industrial_ams.Buffer.Horizon.{
  EventData, Collected, nothing, visit, add_variables, close_window, get_event_variables,
}
use industrial_ams.Buffer.Horizon.Window.{insert-All}

abbrev AllStandard : Collected → Type 0
AllStandard c = All (λ p. IsStandard p.1) c.events_data

visit-AllStandard :
    (k : ℕ) (now : Option Value) (e : Event) (c c' : Collected)
    → visit k now e c ≡ ok c'
    → AllStandard c
    → AllStandard c'
unfolding visit
visit-AllStandard k now e c c' h all =
    let (v, got, rest) = >>=-eq-ok (get_variables k now e) _ h in
    subst AllStandard {x = add_variables e v c} {y = c'} (ground arith) (
      insert-All (λ p. IsStandard p.1) e v c.events_data
        (λ x. get_variables-IsStandard k now e v got) all)

pub get_event_variables-IsStandard :
    (new : List Event) (now : Option Value) (s s' : BufferScheduler) (m : EventData) (w : ℤ × ℤ)
    → get_event_variables new now s ≡ (ok (m, w), s')
    → All (λ p. IsStandard p.1) m
unfolding get_event_variables
get_event_variables-IsStandard new now s s' m w h =
    let loop = get_events (visit s.resolution now) new nothing s.scheduler.events in
    let left = record s { scheduler = record s.scheduler { events = loop.1 } } in
    elim (Result-cases loop.0) [
      | inl (c, collected) ↦
          let standard =
            get_events-keeps AllStandard (visit s.resolution now)
              (visit-AllStandard s.resolution now) new s.scheduler.events nothing c collected tt in
          let m_eq : c.events_data ≡ m =
            ground (arith, ap (λ q. close_window q left) (sym collected) ∙ h) in
          subst (All (λ p. IsStandard p.1)) m_eq standard
      | inr (x, raised) ↦ absurd (cc (ap (λ q. close_window q left) raised))
    ]
