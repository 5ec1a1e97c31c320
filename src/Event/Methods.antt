-- ===== src/Event/Methods.antt =====
-- The methods of `class Event`: state changes, getters and setters. `Units` holds what a subclass
-- does to the stored times: `to_store` in `_set_time`, `from_store` in `_get_time`.
use industrial_ams.Base.{Bool, true, false, Option, none, some, List, [], ◌∷◌, ◌++◌, if◌then◌else◌}
use industrial_ams.Base.Int.{pos, eqb_ℤ}
use industrial_ams.Py.{
  assertion_error, Result, ok, err, ◌>>=◌, Method, Value, number, datetime, seconds_between, shift,
  shift_by, add_number,
}
use industrial_ams.Etx.{Etx, margins}
use industrial_ams.Etx.Methods.{set_constraints, set}
use industrial_ams.Event.{
  Event, State, new, scheduled, arrived, started, finished, departed, canceled, promote,
}

pub record Units : Type 0 where
  pub to_store : Value → Result Value
  pub from_store : Value → Result Value

-- The base class stores and reads times as they are.
abbrev pub plain : Units
plain = record { to_store = λ v. ok v; from_store = λ v. ok v }

-- The events that a method may write a time of: `name` of `_get_time` and `_set_time`
pub data Slot : Type 0 where
  start_slot finish_slot : Slot

abbrev pub read_slot : Slot → Event → Option Value
read_slot start_slot e = e.schedule_start
read_slot finish_slot e = e.schedule_finish

abbrev pub write_slot : Slot → Value → Event → Event
write_slot start_slot v e = record e { schedule_start = some v }
write_slot finish_slot v e = record e { schedule_finish = some v }

-- `Event._get_seconds`
unfoldable pub get_seconds : Bool → Value → Option Value → Result Value
get_seconds true seconds (some (datetime n)) = shift_by (datetime n) seconds
get_seconds true seconds _ = err assertion_error
get_seconds false seconds now = ok seconds

-- `Event._get_time` of the base class
unfoldable pub base_get_time : Bool → Option Value → Option Value → Result (Option Value)
base_get_time dated (some (datetime t)) (some (datetime n)) =
    if dated
    then (do s ← seconds_between (datetime t) (datetime n); ok (some (number s)))
    else err assertion_error
base_get_time dated (some (datetime t)) _ = err assertion_error
base_get_time dated v now = ok v

-- An attribute assignment whose right side may raise
abbrev pub store : Result Value → (Value → Event → Event) → Method Event (Unit {0})
store (ok v) write e = (ok tt, write v e)
store (err x) write e = (err x, e)

abbrev converted : Units → Option Value → Result (Option Value)
converted u none = ok none
converted u (some v) = do w ← u.from_store v; ok (some w)

module _ (u : Units) where
  -- `_get_time` and `_set_time` as a subclass overrides them
  unfoldable pub get_time : Slot → Option Value → Event → Result (Option Value)
  unfolding base_get_time
  get_time slot now e = do v ← base_get_time e.use_datetime (read_slot slot e) now; converted u v

  unfoldable pub set_time : Slot → Value → Option Value → Method Event (Unit {0})
  unfolding get_seconds
  set_time slot seconds now e =
      store (do v ← u.to_store seconds; get_seconds e.use_datetime v now) (write_slot slot) e

  -- `Event.start`: the new state is there before the time is stored.
  unfoldable pub start : Value → Method Event (Unit {0})
  unfolding set_time
  start time e =
      let e' = record e { state = started } in
      if e.use_datetime
      then set_time start_slot (number (pos 0)) (some time) e'
      else set_time start_slot time none e'

  -- `Event.finish`
  unfoldable pub finish : Value → Method Event (Unit {0})
  unfolding set_time
  finish time e =
      let e' = record e { state = finished } in
      if e.use_datetime
      then set_time finish_slot (number (pos 0)) (some time) e'
      else set_time finish_slot time none e'

-- `Event.arrive`, which sets the time of the ETA as it is given
unfoldable pub arrive : Value → Event → Event
unfolding set
arrive time e = record e {
  state = arrived;
  eta = (set time none e.eta).1;
  activity_start = some time;
}

-- `Event.depart`
unfoldable pub depart : Value → Event → Event
unfolding set
depart time e = record e {
  state = departed;
  etd = (set time none e.etd).1;
  activity_finish = some time;
}

abbrev pub can_cancel : State → Bool
can_cancel new = true
can_cancel scheduled = true
can_cancel departed = true
can_cancel _ = false

-- `Event.cancel`
unfoldable pub cancel : Event → Event
cancel e =
    if can_cancel e.state
    then record e { state = canceled; canceled = true }
    else record e { canceled = true }

-- The upper bound that `schedule_eta` and `schedule_etd` use where none is given
abbrev default_upper : Etx → Value → Result Value
default_upper x lower =
    if x.use_datetime
    then shift lower (margins x)
    else (do v ← add_number lower x.margin_high; add_number v x.margin_low)

abbrev upper_or_default : Etx → Value → Option Value → Result Value
upper_or_default x lower none = default_upper x lower
upper_or_default x lower (some upper) = ok upper

-- The bounds written to an ETX
abbrev with_bounds : Value → Option Value → Option Value → Method Etx (Unit {0})
with_bounds lower upper now x = elim (upper_or_default x lower upper) [
  | ok high ↦ set_constraints (some lower) (some high) now x
  | err y ↦ (err y, x)
]

abbrev schedule_with :
    (Event → Etx)
    → (Etx → Event → Event)
    → Value
    → Option Value
    → Option Value
    → Method Event (Unit {0})
schedule_with read write lower upper now e =
    let (r, x) = with_bounds lower upper now (read e) in
    elim r [ ok _ ↦ (ok tt, promote (write x e)) | err y ↦ (err y, write x e) ]

-- `Event.schedule_eta`
unfoldable pub schedule_eta : Value → Option Value → Option Value → Method Event (Unit {0})
unfolding set_constraints
schedule_eta = schedule_with (λ e. e.eta) (λ x e. record e { eta = x })

-- `Event.schedule_etd`
unfoldable pub schedule_etd : Value → Option Value → Option Value → Method Event (Unit {0})
unfolding set_constraints
schedule_etd = schedule_with (λ e. e.etd) (λ x e. record e { etd = x })

-- `if value: yield value`: a number of zero counts as no time.
abbrev when_true : Option Value → List Value
when_true none = []
when_true (some (number n)) = if eqb_ℤ n (pos 0) then [] else number n ∷ []
when_true (some v) = v ∷ []

-- `Event.__iter__`
unfoldable pub times : Event → List Value
times e =
    when_true e.activity_start
    ++ (when_true e.schedule_start ++ (when_true e.schedule_finish ++ when_true e.activity_finish))
