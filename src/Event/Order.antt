-- ===== src/Event/Order.antt =====
-- `Event.__lt__`, which orders the events for the solver's model.
pub mod StrictOrder
pub mod Cycle
use industrial_ams.Base.{ℕ, Bool, true, false, ◌&&◌, Option, if◌then◌else◌, ltb, ◌==◌}
use industrial_ams.Base.Int.{ℤ, ltb_ℤ, eqb_ℤ}
use industrial_ams.Py.{Result, ok, err, Value, less_opt, equal_opt}
use industrial_ams.Etx.Methods.{less_etx, equal_etx}
use industrial_ams.Event.{
  Event, State, new, scheduled, arrived, started, finished, departed, canceled, state_value,
  is_eta_state,
}

-- `(…, self.duration, self.uid) < (…, other.duration, other.uid)`, where the first items decide if
-- they are not equal: a tuple compares at the first place where the two differ.
tuple_less : Bool → Result Bool → Event → Event → Result Bool
tuple_less same first a b =
    if same
    then (if eqb_ℤ a.duration b.duration
        then ok (ltb a.uid b.uid)
        else ok (ltb_ℤ a.duration b.duration))
    else first

abbrev by_eta : Event → Event → Result Bool
by_eta a b = tuple_less (equal_etx a.eta b.eta) (less_etx a.eta b.eta) a b

abbrev by_time : Option Value → Option Value → Event → Event → Result Bool
by_time s t a b = tuple_less (equal_opt s t) (less_opt s t) a b

-- Two events of one state that is no ETA state
same_state_less : State → Event → Event → Result Bool
same_state_less started a b = by_time a.schedule_start b.schedule_start a b
same_state_less finished a b = by_time a.schedule_finish b.schedule_finish a b
same_state_less _ a b = less_etx a.eta b.eta

-- The comparison of events in the given states
less_in : State → State → Event → Event → Result Bool
less_in s t a b =
    if is_eta_state s && is_eta_state t
    then by_eta a b
    else if state_value s == state_value t
    then same_state_less s a b
    else ok (ltb (state_value t) (state_value s))

-- `Event.__lt__`
unfoldable pub less_event : Event → Event → Result Bool
unfolding less_in tuple_less same_state_less
less_event a b = less_in a.state b.state a b
