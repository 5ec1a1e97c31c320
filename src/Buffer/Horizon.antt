-- ===== src/Buffer/Horizon.antt =====
-- `BufferScheduler.get_event_variables`: the variables of all events, and the window of time that the
-- solver's model spans. The dictionary of events is a list of pairs in the order of insertion.
pub mod Window
pub mod Standard
use industrial_ams.Base.{
  ℕ, Bool, true, false, ◌&&◌, ◌||◌, Option, none, some, List, [], ◌∷◌, ◌==◌, if◌then◌else◌,
}
use industrial_ams.Base.Int.{ℤ, pos, ◌+ℤ◌, ◌-ℤ◌, ltb_ℤ, min_ℤ, max_ℤ}
use industrial_ams.Py.{Result, ok, err, ◌>>=◌, Method, Value}
use industrial_ams.Event.{Event}
use industrial_ams.Scheduler
use industrial_ams.Scheduler.{get_events}
use industrial_ams.Buffer.{BufferScheduler, round_div}
use industrial_ams.Buffer.Variables
use industrial_ams.Buffer.Variables.{Variables, get_variables}

abbrev pub EventData : Type 0
EventData = List (Event × Variables)

-- `events_data[event] = data`: an equal key, which is an event with the uid, stays as it is.
abbrev pub insert : Event → Variables → EventData → EventData
insert e v [] = (e, v) ∷ []
insert e v ((x, w) ∷ m) = if x.uid == e.uid then (x, v) ∷ m else (x, w) ∷ insert e v m

-- The local variables of the loop
pub record Collected : Type 0 where
  pub events_data : EventData
  pub events_max : List ℤ
  pub events_min : List ℤ
  pub none_max : Bool
  pub none_min : Bool

abbrev pub nothing : Collected
nothing = record {
  events_data = [];
  events_max = [];
  events_min = [];
  none_max = false;
  none_min = false;
}

abbrev add_min : Option ℤ → Collected → Collected
add_min none c = record c { none_min = true }
add_min (some t) c = record c { events_min = t ∷ c.events_min }

abbrev add_max : Option ℤ → Collected → Collected
add_max none c = record c { none_max = true }
add_max (some t) c = record c { events_max = t ∷ c.events_max }

abbrev pub add_variables : Event → Variables → Collected → Collected
add_variables e v c =
    let c' = add_max v.makespan.1 (add_min v.makespan.0 c) in
    record c' { events_data = insert e v c.events_data }

-- The body of the loop
pub visit : ℕ → Option Value → Event → Collected → Result Collected
visit k now e c = do v ← get_variables k now e; ok (add_variables e v c)

-- Python's `min` and `max` of a list that is not empty
abbrev pub minimum : ℤ → List ℤ → ℤ
minimum t [] = t
minimum t (u ∷ us) = minimum (min_ℤ t u) us

abbrev pub maximum : ℤ → List ℤ → ℤ
maximum t [] = t
maximum t (u ∷ us) = maximum (max_ℤ t u) us

-- A window that is shorter than the horizon grows where events are open.
pub widen : ℤ → Bool → Bool → ℤ → ℤ → ℤ × ℤ
widen horizon none_min none_max low high =
    let diff = high -ℤ low in
    if ltb_ℤ diff horizon
    then (if none_min && none_max
        then (let d = round_div (horizon -ℤ diff) 2 in (low -ℤ d, high +ℤ d))
        else if none_min
        then (high -ℤ horizon, high)
        else if none_max
        then (low, low +ℤ horizon)
        else (low, high))
    else (low, high)

-- `sim_min` and `sim_max`
pub window_of : ℤ → List ℤ → List ℤ → Bool → Bool → ℤ × ℤ
window_of horizon [] [] none_min none_max = (pos 0, horizon)
window_of horizon (m ∷ mins) [] none_min none_max = (minimum m mins, maximum m mins +ℤ horizon)
window_of horizon [] (x ∷ maxs) none_min none_max = (minimum x maxs -ℤ horizon, maximum x maxs)
window_of horizon (m ∷ mins) (x ∷ maxs) none_min none_max =
    widen horizon none_min none_max (minimum m mins) (maximum x maxs)

abbrev pub window : ℤ → Collected → ℤ × ℤ
window horizon c = window_of horizon c.events_min c.events_max c.none_min c.none_max

-- What follows the loop: the end of the window never moves back.
abbrev close_window :
    Result Collected → BufferScheduler → Result (EventData × (ℤ × ℤ)) × BufferScheduler
close_window (err x) s = (err x, s)
close_window (ok c) s =
    let w = window s.horizon c in
    let end = max_ℤ s.max_horizon w.1 in
    (ok (c.events_data, (w.0, end)), record s { max_horizon = end })

-- `BufferScheduler.get_event_variables`
pub get_event_variables : List Event → Option Value → Method BufferScheduler (EventData × (ℤ × ℤ))
get_event_variables new now s =
    let (r, events) = get_events (visit s.resolution now) new nothing s.scheduler.events in
    close_window r (record s { scheduler = record s.scheduler { events = events } })

-- What a run of `get_event_variables` computes with
unfoldable pub program : Unit {0}
unfolding get_event_variables visit window_of widen Variables.program Scheduler.program
program = tt
