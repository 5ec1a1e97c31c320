-- ===== src/Event/Outcomes.antt =====
-- How `start` and `finish` end, and what the constructor of an event accepts.
use industrial_ams.Etx.Relative.{init-point}
use industrial_ams.Base.{◌≡◌, ◌⊎◌, refl, Bool, true, false, none, some, arith, if◌then◌else◌}
use industrial_ams.Base.Int.{ℤ, ◌+ℤ◌}
use industrial_ams.Py.{
  ok, err, >>=-eq-ok, assertion_error, type_error, Value, number, datetime, is_datetime,
}
use industrial_ams.Etx
use industrial_ams.Etx.{Etx, is_set}
use industrial_ams.Etx.Methods.{get_constraints}
use industrial_ams.Event.{
  assemble, Event, EventArgs, single, scheduled, started, finished, to_etx, init,
}
use industrial_ams.Event.Methods.{plain, start, finish}

-- `start` ends in one of two ways. It records the given time as the start; or, in a dated event and
-- for a time that is no datetime, it raises after the state has become STARTED, with no start.
pub start_outcomes :
    (t : Value) (e : Event)
    → (start plain t e ≡ (ok tt, record e { state = started; schedule_start = some t }))
      ⊎ ((e.use_datetime ≡ true)
          × (is_datetime t ≡ false)
          × (start plain t e ≡ (err assertion_error, record e { state = started })))
unfolding start ◌+ℤ◌
start_outcomes t e = ground arith

-- `finish` ends in one of two ways. It records the given time as the finish; or, in a dated event and
-- for a time that is no datetime, it raises after the state has become FINISHED, with no finish.
pub finish_outcomes :
    (t : Value) (e : Event)
    → (finish plain t e ≡ (ok tt, record e { state = finished; schedule_finish = some t }))
      ⊎ ((e.use_datetime ≡ true)
          × (is_datetime t ≡ false)
          × (finish plain t e ≡ (err assertion_error, record e { state = finished })))
unfolding finish ◌+ℤ◌
finish_outcomes t e = ground arith

-- What holds of an event that has just been constructed
pub record IsFresh (a : EventArgs) (e : Event) : Type 0 where
  pub eta_set : is_set e.eta ≡ true
  pub state : e.state ≡ (if is_set e.etd then scheduled else a.state)
  pub eta_mode : e.eta.use_datetime ≡ e.use_datetime
  pub etd_mode : e.etd.use_datetime ≡ e.use_datetime
  pub schedule_start : e.schedule_start ≡ none
  pub schedule_finish : e.schedule_finish ≡ none
  pub activity_start : e.activity_start ≡ none
  pub activity_finish : e.activity_finish ≡ none
  pub canceled : e.canceled ≡ false

-- An event that the constructor accepts is fresh: its ETA has both constraints, both ETX objects have
-- its kind of times, it is SCHEDULED if its ETD has both constraints too and is else in the given
-- state, it has no recorded time, and it is not canceled.
pub init-IsFresh : (a : EventArgs) (e : Event) → init a ≡ ok e → IsFresh a e
unfolding init
init-IsFresh a e h =
    let (eta, made_eta, rest) = >>=-eq-ok (to_etx a.eta) _ h in
    let (etd, made_etd, rest) = >>=-eq-ok (to_etx a.etd) _ rest in ground arith

-- The ETX that a single value makes
abbrev point : Value → Bool → Etx
point v dated = record Etx.empty {
  constraint_low = some v;
  time = some v;
  constraint_high = some v;
  time_high = some v;
  time_low = some v;
  use_datetime = dated;
}

abbrev mixed : EventArgs → ℤ → ℤ → Event
mixed a t n =
    assemble (record a { state = scheduled }) (point (datetime t) true) (point (number n) true)

-- The constructor accepts a single datetime as ETA with a single number as ETD: the event is SCHEDULED,
-- and reading the constraints of its ETD relative to a datetime raises.
pub init_mixed :
    (a : EventArgs) (t n now : ℤ)
    → a.eta ≡ single (datetime t)
    → a.etd ≡ single (number n)
    → (e : Event) × (init a ≡ ok e)
      × (e.state ≡ scheduled)
      × (get_constraints e.etd (some (datetime now)) ≡ err type_error)
unfolding init to_etx get_constraints
init_mixed a t n now eta etd =
    (mixed a t n, ground (arith, init-point (datetime t), init-point (number n)), refl, refl)
